-- ===== src/Signals/Object/Delivery.antt =====
-- What becomes of a signal that NQObject.h emits.
use socks.Base.{
  ℕ, ◌==◌, List, [], ◌∷◌, map, Bool, true, false, Option, none, some, if◌then◌else◌, ◌≡◌, refl, ap,
  ==_refl,
}
use socks.Maps.{find}
use socks.Signals.{Hashing, make_hash, SignalMap, SignalPipe, has_connection, get_connection}
use socks.Signals.Meaning.{pipes_of}
use socks.Signals.Object.{
  NqObject, Signal, contains, insert, remove, emit_all, on_signal_emitted, call,
}

remove_absent : (n : ℕ) (ms : List ℕ) → contains n ms ≡ false → remove n ms ≡ ms
unfolding contains remove
remove_absent n [] e = refl
remove_absent n (m ∷ ms) e = go (m == n) refl e (remove_absent n ms)
  where
    go :
        (b : Bool)
        → (m == n) ≡ b
        → (if b then true else contains n ms) ≡ false
        → (contains n ms ≡ false → remove n ms ≡ ms)
        → remove n (m ∷ ms) ≡ m ∷ ms
    go true f e same = absurd (cc (e))
    go false f e same = rw (f, remove) (ap (◌∷◌ m) (same e))

calls_of :
    (a : ℕ) (signal : ℕ) (m : SignalMap)
    → (if has_connection signal m
        then (elim (get_connection signal m) [ none ↦ [] | some conn ↦ map (call a) conn ])
        else [])
      ≡ map (call a) (pipes_of (find signal m))
unfolding has_connection get_connection
calls_of a signal m = go (find signal m) refl
  where
    go :
        (o : Option (List SignalPipe))
        → find signal m ≡ o
        → (if has_connection signal m
            then (elim (get_connection signal m) [ none ↦ [] | some conn ↦ map (call a) conn ])
            else [])
          ≡ map (call a) (pipes_of (find signal m))
    go none e = rw (e, has_connection, get_connection) refl
    go (some conn) e = rw (e, has_connection, get_connection) refl

has_connection_found :
    (signal : ℕ) (conn : List SignalPipe) (m : SignalMap)
    → find signal m ≡ some conn
    → has_connection signal m ≡ true
unfolding has_connection
has_connection_found signal conn m e = rw (e, has_connection) refl

inserted :
    (cb : ℕ) (waiting : List ℕ)
    → contains cb waiting ≡ false
    → (contains cb (insert cb waiting) ≡ true) × (remove cb (insert cb waiting) ≡ waiting)
unfolding contains insert remove
inserted cb waiting fresh =
    let e : (cb == cb) ≡ true = ==_refl cb in rw (fresh, e) (refl, remove_absent cb waiting fresh)

-- A signal that is connected when it is emitted, under a callback that is not waiting yet, is pushed.
-- Delivered once, it calls the slots that are connected to it by then, in the order in which they
-- were connected, with its argument, and the object is as it was before the emission; delivered
-- again, or to an object that dropped its callback, it calls nothing.
pub emit_all-on_signal_emitted :
    (h : Hashing) (cb t f a : ℕ) (conn : List SignalPipe) (m m' : SignalMap) (object : NqObject)
    → contains cb object.waiting_signals ≡ false
    → find (make_hash h t f) m ≡ some conn
    → let (object', pushed) = emit_all h cb t f a m object in
      let sig : Signal = record { callback = cb; hash = make_hash h t f; argument = a } in
      (pushed ≡ some sig)
      × (on_signal_emitted m' sig object'
          ≡ (object, map (call a) (pipes_of (find (make_hash h t f) m'))))
      × (on_signal_emitted m' sig object ≡ (object, []))
unfolding emit_all on_signal_emitted
emit_all-on_signal_emitted h cb t f a conn m m' object fresh there =
    let signal = make_hash h t f in
    let found : has_connection signal m ≡ true = has_connection_found signal conn m there in
    let (waits, left) = inserted cb object.waiting_signals fresh in
    (
      rw found refl,
      rw (found, waits, left) (ap (λ calls. (object, calls)) (calls_of a signal m')),
      rw fresh refl,
    )
