-- ===== src/Signals/Object.antt =====
-- libratel/NQSignals/NQObject.h: an object that connects signals to slots, and emits them through the
-- queue of the handler.
pub mod Gone
pub mod Delivery
use socks.Base.{ℕ, ◌==◌, List, [], ◌∷◌, map, Bool, true, false, Option, none, some, if◌then◌else◌}
use socks.Signals.{
  Hashing, make_hash, new_callback, SignalPipe, SignalMap, connect, disconnect, disconnect_by_hash,
  has_connection, get_connection,
}

-- std::unordered_set and std::set of numbers, as lists.
unfoldable pub contains : ℕ → List ℕ → Bool
contains n [] = false
contains n (m ∷ ms) = let rest = contains n ms in if m == n then true else rest

unfoldable pub insert : ℕ → List ℕ → List ℕ
unfolding contains
insert n ms = if contains n ms then ms else n ∷ ms

unfoldable pub remove : ℕ → List ℕ → List ℕ
remove n [] = []
remove n (m ∷ ms) = let rest = remove n ms in if m == n then rest else m ∷ rest

-- `_waitingSignals` owns the callbacks that it holds, named by numbers.
pub record NqObject : Type 0 where
  pub this : ℕ
  pub hashes : List ℕ
  pub waiting_signals : List ℕ

-- What is pushed to the handler: a callback that the object may by then have dropped, with the
-- arguments that it will be called with.
pub record Signal : Type 0 where
  pub callback : ℕ
  pub hash : ℕ
  pub argument : ℕ

unfoldable pub connect_slot :
    Hashing → ℕ → ℕ → ℕ → ℕ → NqObject → SignalMap → (NqObject × SignalMap) × Bool
unfolding make_hash new_callback connect insert
connect_slot h t1 f1 t2 f2 object sig_map =
    let signal = make_hash h t1 f1 in
    let (sig_map', done) = connect signal t2 (new_callback h t2 f2) sig_map in
    if done
    then ((record object { hashes = insert signal object.hashes }, sig_map'), true)
    else ((object, sig_map'), false)

unfoldable pub disconnect_slot :
    Hashing → ℕ → ℕ → ℕ → ℕ → NqObject → SignalMap → (NqObject × SignalMap) × Bool
unfolding make_hash disconnect remove
disconnect_slot h t1 f1 t2 f2 object sig_map =
    let signal = make_hash h t1 f1 in
    let (sig_map', done) = disconnect signal (make_hash h t2 f2) sig_map in
    if done
    then ((record object { hashes = remove signal object.hashes }, sig_map'), true)
    else ((object, sig_map'), false)

-- `cb` is the new callback.
unfoldable pub emit_all : Hashing → ℕ → ℕ → ℕ → ℕ → SignalMap → NqObject → NqObject × Option Signal
unfolding make_hash has_connection insert
emit_all h cb t f argument sig_map object =
    let signal = make_hash h t f in
    if has_connection signal sig_map
    then (
      record object { waiting_signals = insert cb object.waiting_signals },
      some (record { callback = cb; hash = signal; argument = argument }),
    )
    else (object, none)

-- A call of a slot with its argument.
pub record Called : Type 0 where
  pub target : ℕ
  pub function : ℕ
  pub argument : ℕ

abbrev pub call : ℕ → SignalPipe → Called
call argument pipe = record {
  target = pipe.callback.target;
  function = pipe.callback.function;
  argument = argument;
}

unfoldable pub on_signal_emitted : SignalMap → Signal → NqObject → NqObject × List Called
unfolding contains remove has_connection get_connection
on_signal_emitted sig_map sig object =
    if contains sig.callback object.waiting_signals
    then (
      record object { waiting_signals = remove sig.callback object.waiting_signals },
      (if has_connection sig.hash sig_map
          then (elim (get_connection sig.hash sig_map) [
            | none ↦ []
            | some conn ↦ map (call sig.argument) conn
          ])
          else []),
    )
    else (object, [])

unfoldable pub unsubscribe : List ℕ → ℕ → SignalMap → SignalMap
unfolding disconnect_by_hash
unsubscribe [] this sig_map = sig_map
unsubscribe (hash ∷ hashes) this sig_map =
    unsubscribe hashes this (disconnect_by_hash hash this sig_map).0

-- It is what the destructor does.
unfoldable pub unsubscribe_from_all : NqObject → SignalMap → SignalMap
unfolding unsubscribe
unsubscribe_from_all object sig_map = unsubscribe object.hashes object.this sig_map
