-- ===== src/Signals/Object/Gone.antt =====
-- What the destructor of NQObject.h leaves in the storage.
use socks.Base.{
  ℕ, ◌==◌, List, [], ◌∷◌, map, true, false, Option, none, some, if◌then◌else◌, ◌≡◌, ◌≢◌, refl, ◌∙◌,
  ap, Bool-cases, if_cases, Option-cases, ==_refl, arith, inl, inr,
}
use socks.Maps.{find}
use socks.Signals.{
  Callback, SignalPipe, Hashing, make_hash, new_callback, reconnect, erase_pipe, SignalMap, connect,
  disconnect, disconnect_by_hash,
}
use socks.Signals.Pipes.{receiver_of, Erased, erase_pipe-Erased, unless}
use socks.Signals.Meaning.{
  Operation, connected, disconnected, object_gone, step, run, linked, pipes_of, meant,
}
use socks.Signals.Links.{linked-run, run_meant, run-AllDistinct, empty-AllDistinct}
use socks.Signals.Object.{
  NqObject, contains, unsubscribe, unsubscribe_from_all, connect_slot, disconnect_slot, insert,
  remove,
}

goings : ℕ → List ℕ → List Operation
goings this hashes = map (λ hash. object_gone hash this) hashes

unsubscribe_run :
    (this : ℕ) (hashes : List ℕ) (sig_map : SignalMap)
    → unsubscribe hashes this sig_map ≡ run (goings this hashes) sig_map
unfolding goings unsubscribe run step
unsubscribe_run this [] sig_map = refl
unsubscribe_run this (hash ∷ hashes) sig_map =
    unsubscribe_run this hashes (disconnect_by_hash hash this sig_map).0

unless_twice : (ptr : ℕ) (o : Option ℕ) → unless ptr (unless ptr o) ≡ unless ptr o
unless_twice ptr none = refl
unless_twice ptr (some o) = elim (Bool-cases (o == ptr)) [
  | inl e ↦ rw e refl
  | inr e ↦ rw (e, e) refl
]

-- What is left of the link of one slot of a signal.
abbrev left : ℕ → List ℕ → ℕ → Option ℕ → Option ℕ
left this hashes signal o = if contains signal hashes then unless this o else o

left-unless :
    (this : ℕ) (hashes : List ℕ) (signal : ℕ) (o : Option ℕ)
    → left this hashes signal (unless this o) ≡ unless this o
left-unless this hashes signal o =
    if_cases (λ t. t ≡ unless this o) (contains signal hashes) (unless this (unless this o))
      (unless this o) (λ e. unless_twice this o) (λ e. refl)

meant-goings :
    (this : ℕ) (hashes : List ℕ) (signal h : ℕ) (o : Option ℕ)
    → meant (goings this hashes) signal h o ≡ left this hashes signal o
unfolding goings meant contains
meant-goings this [] signal h o = refl
meant-goings this (hash ∷ hashes) signal h o = elim (Bool-cases (hash == signal)) [
  | inl e ↦
      rw (e, meant)
        (meant-goings this hashes signal h (unless this o) ∙ left-unless this hashes signal o)
  | inr e ↦ rw (e, meant) (meant-goings this hashes signal h o)
]

-- Whatever was connected and disconnected before, the destructor of an object takes exactly this out
-- of the storage: the links to the object, of the signals whose hashes it holds. Every other link,
-- also one to the object that is of another signal, stays as it was.
pub unsubscribe_from_all-linked :
    (ops : List Operation) (object : NqObject) (signal h : ℕ)
    → linked signal h (unsubscribe_from_all object (run ops [])) ≡ (
        if contains signal object.hashes
        then unless object.this (linked signal h (run ops []))
        else linked signal h (run ops []))
unfolding unsubscribe_from_all
unsubscribe_from_all-linked ops object signal h =
    let m = run ops [] in
    ap (linked signal h) (unsubscribe_run object.this object.hashes m)
    ∙ run_meant (goings object.this object.hashes) m (run-AllDistinct ops [] empty-AllDistinct)
        signal h
    ∙ meant-goings object.this object.hashes signal h (linked signal h m)

connect-true :
    (signal receiver : ℕ) (cb : Callback) (m : SignalMap) → (connect signal receiver cb m).1 ≡ true
unfolding connect
connect-true signal receiver cb m = elim (Option-cases (find signal m)) [
  | inl e ↦ rw (e, connect) refl
  | inr (conn, e) ↦ (elim (Option-cases (reconnect cb conn)) [
    | inl f ↦ rw (e, f, connect) refl
    | inr (c, f) ↦ rw (e, f, connect) refl
  ])
]

-- A slot that is connected is found.
disconnect-true :
    (signal h o : ℕ) (m : SignalMap) → linked signal h m ≡ some o → (disconnect signal h m).1 ≡ true
unfolding disconnect linked receiver_of
disconnect-true signal h o m there = elim (Option-cases (find signal m)) [
  | inl e ↦ absurd (cc (there, e))
  | inr (conn, e) ↦ go conn e (erase_pipe h conn) refl (erase_pipe-Erased h conn)
]
  where
    go :
        (conn : List SignalPipe)
        → find signal m ≡ some conn
        → (r : Option (List SignalPipe)) → erase_pipe h conn ≡ r
        → Erased h conn r
        → (disconnect signal h m).1 ≡ true
    go conn e none f absent = absurd (cc (there, absent, ap (λ c. receiver_of h (pipes_of c)) e))
    go conn e (some []) f t = rw (e, f, disconnect) refl
    go conn e (some (pipe ∷ conn')) f t = rw (e, f, disconnect) refl

connect_slot_lem :
    (h : Hashing) (t1 f1 t2 f2 : ℕ) (object : NqObject) (m : SignalMap)
    → let signal = make_hash h t1 f1 in
      connect_slot h t1 f1 t2 f2 object m ≡ (
        (
          record object { hashes = insert signal object.hashes },
          (connect signal t2 (new_callback h t2 f2) m).0,
        ),
        true,
      )
unfolding connect_slot
connect_slot_lem h t1 f1 t2 f2 object m =
    rw (connect-true (make_hash h t1 f1) t2 (new_callback h t2 f2) m) refl

disconnect_slot_lem :
    (h : Hashing) (t1 f1 t2 f2 o : ℕ) (object : NqObject) (m : SignalMap)
    → let signal = make_hash h t1 f1 in
      linked signal (make_hash h t2 f2) m ≡ some o
      → disconnect_slot h t1 f1 t2 f2 object m ≡ (
        (
          record object { hashes = remove signal object.hashes },
          (disconnect signal (make_hash h t2 f2) m).0,
        ),
        true,
      )
unfolding disconnect_slot
disconnect_slot_lem h t1 f1 t2 f2 o object m there =
    rw (disconnect-true (make_hash h t1 f1) (make_hash h t2 f2) o m there) refl

remove-insert : (n : ℕ) → remove n (insert n (insert n [])) ≡ []
unfolding remove insert contains
remove-insert n = let e : (n == n) ≡ true = ==_refl n in rw (e, e) refl

module _ (signal this : ℕ) (cb2 cb3 : Callback) where
  abbrev both : SignalMap
  both = (connect signal this cb3 (connect signal this cb2 []).0).0

  both-linked : linked signal cb2.hash both ≡ some this
  unfolding run step meant
  both-linked =
      let e : (signal == signal) ≡ true = ==_refl signal in
      let f : (cb2.hash == cb2.hash) ≡ true = ==_refl cb2.hash in
      linked-run (connected signal this cb2 ∷ connected signal this cb3 ∷ []) signal cb2.hash
      ∙ rw (e, f) refl

  one-linked :
      cb2.hash ≢ cb3.hash → linked signal cb3.hash (disconnect signal cb2.hash both).0 ≡ some this
  unfolding run step meant
  one-linked ne =
      let e : (signal == signal) ≡ true = ==_refl signal in
      let f : (cb2.hash == cb3.hash) ≡ false = ground (arith, ne) in
      let g : (cb3.hash == cb3.hash) ≡ true = ==_refl cb3.hash in
      linked-run
        (connected signal this cb2 ∷ connected signal this cb3 ∷ disconnected signal cb2.hash ∷ [])
        signal cb3.hash
      ∙ rw (e, f, g) refl

-- An object connects two of its slots, with different hashes, to one signal, and disconnects the
-- first again. Its destructor then leaves its second slot connected.
pub left_connected :
    (h : Hashing) (t1 f1 this f2 f3 : ℕ)
    → make_hash h this f2 ≢ make_hash h this f3
    → let object : NqObject = record { this = this; hashes = []; waiting_signals = [] } in
      let ((object1, m1), _) = connect_slot h t1 f1 this f2 object [] in
      let ((object2, m2), _) = connect_slot h t1 f1 this f3 object1 m1 in
      let ((object3, m3), done) = disconnect_slot h t1 f1 this f2 object2 m2 in
      linked (make_hash h t1 f1) (make_hash h this f3) (unsubscribe_from_all object3 m3) ≡ some this
unfolding unsubscribe_from_all new_callback
left_connected h t1 f1 this f2 f3 ne =
    let signal = make_hash h t1 f1 in
    let cb2 = new_callback h this f2 in
    let cb3 = new_callback h this f3 in
    let object : NqObject = record { this = this; hashes = []; waiting_signals = [] } in
    let object1 : NqObject = record object { hashes = insert signal object.hashes } in
    let object2 : NqObject = record object { hashes = insert signal object1.hashes } in
    rw
      (
        connect_slot_lem h t1 f1 this f2 object [],
        connect_slot_lem h t1 f1 this f3 object1 (connect signal this cb2 []).0,
        disconnect_slot_lem h t1 f1 this f2 this object2 (both signal this cb2 cb3)
            (both-linked signal this cb2 cb3),
        remove-insert signal,
      )
      (one-linked signal this cb2 cb3 ne)
