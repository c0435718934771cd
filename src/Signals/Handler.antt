-- ===== src/Signals/Handler.antt =====
-- libratel/NQSignals/Private/SignalHandler.h and .cpp: the loop that takes signals from the queue and
-- calls them. `call` of a signal is a parameter, since it runs what the slots do.
pub mod Loop
pub mod Threads
use socks.Base.{
  ℕ, zero, suc, List, [], ◌∷◌, ◌++◌, Bool, true, false, Option, none, some, if◌then◌else◌,
}
use socks.Queue.{push_back, pop_front}

pub data Error : Type 0 where
  no_error : Error
  empty_signal : Error

unfoldable pub error_code : Error → ℕ
error_code no_error = 0
error_code empty_signal = 1

-- A pointer in the queue may be null (`none`). `called` are the signals called so far, oldest first;
-- `world` is what they act on.
pub record Handler {ℓ κ} (S : Type ℓ) (W : Type κ) : Type (ℓ ⊔ κ) where
  pub run_flag : Bool
  pub error : Error
  pub queue : List (Option S)
  pub called : List S
  pub world : W

-- What a call does: the signals that it pushes, and whether it stops the handler.
pub record Outcome {ℓ κ} (S : Type ℓ) (W : Type κ) : Type (ℓ ⊔ κ) where
  pub world : W
  pub pushed : List S
  pub stops : Bool

-- How a loop ends: with a result, asleep on an empty queue, or not yet.
pub data Ending {ℓ κ} (S : Type ℓ) (W : Type κ) : Type (ℓ ⊔ κ) where
  returned : ℕ → Handler S W → Ending S W
  asleep : Handler S W → Ending S W
  unfinished : Handler S W → Ending S W

module _ {ℓ κ} {S : Type ℓ} {W : Type κ} where
  unfoldable pub new_handler : W → Handler S W
  new_handler world = record {
    run_flag = false;
    error = no_error;
    queue = [];
    called = [];
    world = world;
  }

  unfoldable pub push_signal : S → Handler S W → Handler S W
  unfolding push_back
  push_signal sig handler = record handler { queue = push_back (some sig) handler.queue }

  unfoldable pub push_signals : List S → Handler S W → Handler S W
  unfolding push_signal
  push_signals [] handler = handler
  push_signals (sig ∷ sigs) handler = push_signals sigs (push_signal sig handler)

  unfoldable pub stop : Handler S W → Handler S W
  stop handler = record handler { run_flag = false }

  unfoldable pub get_error : Handler S W → Error
  get_error handler = handler.error

  unfoldable pub set_error : Error → Handler S W → Handler S W
  set_error err handler = record handler { error = err }

module _ {ℓ κ} {S : Type ℓ} {W : Type κ} (call : S → W → Outcome S W) where
  unfoldable pub execute_signal : Option S → Handler S W → Handler S W
  unfolding push_signals stop
  execute_signal none handler = handler
  execute_signal (some sig) handler =
      let outcome = call sig handler.world in
      let handler' =
        push_signals outcome.pushed
          (record handler { called = handler.called ++ sig ∷ []; world = outcome.world }) in
      if outcome.stops then stop handler' else handler'

  -- The loop of `runOnce`. Its one thread finds a value when it pops.
  unfoldable pub run_once : ℕ → Handler S W → Ending S W
  unfolding pop_front execute_signal get_error error_code
  run_once zero handler = unfinished handler
  run_once (suc fuel) handler = elim (pop_front handler.queue) [
    | none ↦ returned (error_code (get_error handler)) handler
    | some (sig, queue) ↦ run_once fuel (execute_signal sig (record handler { queue = queue }))
  ]

  -- Nothing, where it sleeps.
  unfoldable pub check_queue : Handler S W → Option (Handler S W × Bool)
  unfolding pop_front execute_signal set_error
  check_queue handler = elim (pop_front handler.queue) [
    | none ↦ none
    | some (none, queue) ↦ some (set_error empty_signal (record handler { queue = queue }), false)
    | some (some sig, queue) ↦
        some (execute_signal (some sig) (record handler { queue = queue }), true)
  ]

  unfoldable pub loop : ℕ → Handler S W → Ending S W
  unfolding check_queue get_error error_code
  loop zero handler = unfinished handler
  loop (suc fuel) handler = elim handler.run_flag [
    | false ↦ returned (error_code (get_error handler)) handler
    | true ↦ (elim (check_queue handler) [
      | none ↦ asleep handler
      | some (handler', true) ↦ loop fuel handler'
      | some (handler', false) ↦ returned (error_code (get_error handler')) handler'
    ])
  ]

  unfoldable pub run_impl : Bool → ℕ → Handler S W → Ending S W
  unfolding run_once loop
  run_impl true fuel handler = run_once fuel handler
  run_impl false fuel handler = loop fuel handler

  -- In the calling thread.
  unfoldable pub run : ℕ → Handler S W → Ending S W
  unfolding run_impl
  run fuel handler =
      if handler.run_flag
      then returned 1 handler
      else run_impl false fuel (record handler { run_flag = true })

-- NQCoreApplication passes on to the one handler.
module _ {ℓ κ} {S : Type ℓ} {W : Type κ} where
  unfoldable pub application_run_once : (S → W → Outcome S W) → ℕ → Handler S W → Ending S W
  unfolding run_impl
  application_run_once call fuel handler = run_impl call true fuel handler

  unfoldable pub application_run : (S → W → Outcome S W) → ℕ → Handler S W → Ending S W
  unfolding run
  application_run call fuel handler = run call fuel handler

  unfoldable pub application_stop : Handler S W → Handler S W
  unfolding stop
  application_stop handler = stop handler
