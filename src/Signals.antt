-- ===== src/Signals.antt =====
-- libratel/NQSignals/Private/SignalConnectionStorage.h and .cpp, SignalCallback.h and SignalHash.h:
-- the slots that are connected to each signal. Objects and their member functions are numbers.
pub mod Pipes
pub mod Meaning
pub mod Steps
pub mod Links
pub mod Object
pub mod Handler
use socks.Base.{
  ℕ, ◌+◌, ◌%◌, ◌^◌, ◌==◌, List, [], ◌∷◌, Bool, true, false, Option, none, some, if◌then◌else◌,
}
use socks.Maps.{put, erase, find}
use socks.Queue.{push_back}

-- std::hash, of the bytes of a member function's pointer and of an object's pointer.
pub record Hashing : Type 0 where
  pub hash_bytes : ℕ → ℕ
  pub hash_pointer : ℕ → ℕ

-- The sum is cut to the 32 bits of the result.
unfoldable pub make_hash : Hashing → ℕ → ℕ → ℕ
make_hash h ptr func = (h.hash_bytes func % 2 ^ 32 + h.hash_pointer ptr) % 2 ^ 32

-- What is called, and its hash.
pub record Callback : Type 0 where
  pub target : ℕ
  pub function : ℕ
  pub hash : ℕ

unfoldable pub new_callback : Hashing → ℕ → ℕ → Callback
unfolding make_hash
new_callback h ptr func = record { target = ptr; function = func; hash = make_hash h ptr func }

pub record SignalPipe : Type 0 where
  pub object : ℕ
  pub callback : Callback

-- `_sigMap`: by the hash of a signal, the pipes that are connected to it, oldest first.
abbrev pub SignalMap : Type 0
SignalMap = List (ℕ × List SignalPipe)

-- The new callback in the first pipe whose callback has the hash; the pipe keeps its object.
unfoldable pub reconnect : Callback → List SignalPipe → Option (List SignalPipe)
reconnect cb [] = none
reconnect cb (pipe ∷ conn) =
    let rest = reconnect cb conn in
    if pipe.callback.hash == cb.hash
    then some (record pipe { callback = cb } ∷ conn)
    else (elim rest [ none ↦ none | some conn ↦ some (pipe ∷ conn) ])

-- The first pipe whose callback has the hash is taken out.
unfoldable pub erase_pipe : ℕ → List SignalPipe → Option (List SignalPipe)
erase_pipe h [] = none
erase_pipe h (pipe ∷ conn) =
    let rest = erase_pipe h conn in
    if pipe.callback.hash == h
    then some conn
    else (elim rest [ none ↦ none | some conn ↦ some (pipe ∷ conn) ])

-- `remove_if` of the pipes to an object.
unfoldable pub remove_object : ℕ → List SignalPipe → List SignalPipe
remove_object ptr [] = []
remove_object ptr (pipe ∷ conn) =
    let rest = remove_object ptr conn in if pipe.object == ptr then rest else pipe ∷ rest

-- `signal` is the hash of the signal; the slot is `cb`, of the object `receiver`.
unfoldable pub connect : ℕ → ℕ → Callback → SignalMap → SignalMap × Bool
unfolding put find reconnect push_back
connect signal receiver cb sig_map =
    let pipe : SignalPipe = record { object = receiver; callback = cb } in
    elim (find signal sig_map) [
      | none ↦ (put signal (pipe ∷ []) sig_map, true)
      | some conn ↦ (elim (reconnect cb conn) [
        | some conn' ↦ (put signal conn' sig_map, true)
        | none ↦ (put signal (push_back pipe conn) sig_map, true)
      ])
    ]

unfoldable pub disconnect : ℕ → ℕ → SignalMap → SignalMap × Bool
unfolding put erase find erase_pipe
disconnect signal h sig_map = elim (find signal sig_map) [
  | none ↦ (sig_map, false)
  | some conn ↦ (elim (erase_pipe h conn) [
    | none ↦ (sig_map, false)
    | some [] ↦ (erase signal sig_map, true)
    | some (pipe ∷ conn') ↦ (put signal (pipe ∷ conn') sig_map, true)
  ])
]

-- The pipes that are left stay in the map, also when there are none.
unfoldable pub disconnect_by_hash : ℕ → ℕ → SignalMap → SignalMap × Bool
unfolding put find remove_object
disconnect_by_hash signal ptr sig_map = elim (find signal sig_map) [
  | none ↦ (sig_map, false)
  | some conn ↦ (put signal (remove_object ptr conn) sig_map, true)
]

unfoldable pub has_connection : ℕ → SignalMap → Bool
unfolding find
has_connection signal sig_map = elim (find signal sig_map) [ none ↦ false | some conn ↦ true ]

-- It throws when there is no connection.
unfoldable pub get_connection : ℕ → SignalMap → Option (List SignalPipe)
unfolding find
get_connection signal sig_map = find signal sig_map
