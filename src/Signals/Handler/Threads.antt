-- ===== src/Signals/Handler/Threads.antt =====
-- `run`, `stop` and the destructor of libratel/NQSignals/Private/SignalHandler.cpp with the loop in a
-- thread of its own. A round of the loop is one action; what ends the process, as `std::terminate`
-- does, is `none`.
use socks.Base.{
  ℕ, ◌∙◌, if_cases, arith, ◌≡◌, refl, List, [], ◌∷◌, Bool, true, false, Option, none, some,
  if◌then◌else◌,
}
use socks.Signals.Handler.{Handler, Outcome, new_handler, push_signal, stop, check_queue}

-- The handler; whether `_thread` is joinable; whether a thread is in the loop.
pub record Threaded {ℓ κ} (S : Type ℓ) (W : Type κ) : Type (ℓ ⊔ κ) where
  pub handler : Handler S W
  pub joinable : Bool
  pub looping : Bool

pub data Operation {ℓ} (S : Type ℓ) : Type ℓ where
  run_called stop_called round_done : Operation S
  pushed : S → Operation S

module _ {ℓ κ} {S : Type ℓ} {W : Type κ} where
  abbrev pub start : W → Threaded S W
  start world = record { handler = new_handler world; joinable = false; looping = false }

  -- `run(true)` with its result. The assignment to a joinable thread ends the process.
  unfoldable pub run_in_thread : Threaded S W → Option (ℕ × Threaded S W)
  run_in_thread t =
      if t.handler.run_flag
      then some (1, t)
      else if t.joinable
      then none
      else some (
        0,
        record { handler = record t.handler { run_flag = true }; joinable = true; looping = true },
      )

  abbrev left : Option (ℕ × Threaded S W) → Option (Threaded S W)
  left none = none
  left (some (result, t)) = some t

  -- So does the destructor of a joinable thread.
  unfoldable pub destroy_handler : Option (Threaded S W) → Option (Threaded S W)
  destroy_handler none = none
  destroy_handler (some t) = if t.joinable then none else some t

module _ {ℓ κ} {S : Type ℓ} {W : Type κ} (call : S → W → Outcome S W) where
  -- A thread asleep on the empty queue stays there.
  unfoldable pub loop_round : Threaded S W → Threaded S W
  unfolding check_queue
  loop_round t =
      if t.looping
      then if t.handler.run_flag
        then elim (check_queue call t.handler) [
          | none ↦ t
          | some (handler, goes_on) ↦ record {
            handler = handler;
            joinable = t.joinable;
            looping = goes_on;
          }
        ]
        else record t { looping = false }
      else t

  unfoldable pub step : Operation S → Threaded S W → Option (Threaded S W)
  unfolding run_in_thread stop push_signal loop_round
  step run_called t = left (run_in_thread t)
  step stop_called t = some (record t { handler = stop t.handler })
  step round_done t = some (loop_round t)
  step (pushed sig) t = some (record t { handler = push_signal sig t.handler })

  unfoldable pub run : List (Operation S) → Option (Threaded S W) → Option (Threaded S W)
  unfolding step
  run os none = none
  run [] (some t) = some t
  run (o ∷ os) (some t) = run os (step o t)

  abbrev pub Runs : List (Operation S) → Type 0
  Runs [] = ⊥
  Runs (run_called ∷ os) = Unit
  Runs (o ∷ os) = Runs os

  -- Ended, or with a thread that nothing joins.
  abbrev Caught : Option (Threaded S W) → Type 0
  Caught none = Unit
  Caught (some t) = t.joinable ≡ true

  -- Before the first thread: no flag, and no loop.
  record Quiet (t : Threaded S W) : Type 0 where
    flag : t.handler.run_flag ≡ false
    looping : t.looping ≡ false

  round-joinable : (t : Threaded S W) → (loop_round t).joinable ≡ t.joinable
  unfolding loop_round
  round-joinable t = go (check_queue call t.handler) refl
    where
      go :
          (o : Option (Handler S W × Bool))
          → check_queue call t.handler ≡ o
          → (loop_round t).joinable ≡ t.joinable
      go none e = rw (e, loop_round) (ground arith)
      go (some (handler, goes_on)) e = rw (e, loop_round) (ground arith)

  step-Caught : (o : Operation S) (t : Threaded S W) → t.joinable ≡ true → Caught (step o t)
  unfolding step
  step-Caught run_called t h =
      if_cases (λ o. Caught (left o)) t.handler.run_flag (some (1, t)) _ (λ e. h)
        (λ e. if_cases (λ o. Caught (left o)) t.joinable none _ (λ f. tt) (λ f. refl))
  step-Caught stop_called t h = h
  step-Caught round_done t h = round-joinable t ∙ h
  step-Caught (pushed sig) t h = h

  run-Caught : (os : List (Operation S)) (o : Option (Threaded S W)) → Caught o → Caught (run os o)
  unfolding run
  run-Caught [] none h = tt
  run-Caught (o ∷ os) none h = tt
  run-Caught [] (some t) h = h
  run-Caught (o ∷ os) (some t) h = run-Caught os (step o t) (step-Caught o t h)

  Quiet-run :
      (os : List (Operation S)) (t : Threaded S W) → Quiet t → Runs os → Caught (run os (some t))
  unfolding run step run_in_thread stop push_signal loop_round
  Quiet-run [] t q r = absurd r
  Quiet-run (run_called ∷ os) t q r = run-Caught os (step run_called t) (
      if_cases (λ o. Caught (left o)) t.handler.run_flag (some (1, t)) _ (λ e. cc (e, q.flag))
        (λ e. if_cases (λ o. Caught (left o)) t.joinable none _ (λ f. tt) (λ f. refl)))
  Quiet-run (stop_called ∷ os) t q r =
      Quiet-run os (record t { handler = stop t.handler })
        (record { flag = refl; looping = q.looping }) r
  Quiet-run (round_done ∷ os) t q r =
      Quiet-run os (loop_round t) (if_cases Quiet t.looping _ t (λ e. cc (e, q.looping)) (λ e. q)) r
  Quiet-run (pushed sig ∷ os) t q r =
      Quiet-run os (record t { handler = push_signal sig t.handler })
        (record { flag = q.flag; looping = q.looping }) r

  destroyed : (o : Option (Threaded S W)) → Caught o → destroy_handler o ≡ none
  unfolding destroy_handler
  destroyed none h = refl
  destroyed (some t) h = rw h refl

  -- Once the loop has been started in a thread of its own, the process cannot end in good order:
  -- whatever is pushed, stopped, started again and done by the loop before and after that, the process
  -- has ended by `std::terminate` when the handler is destroyed, at the latest.
  pub started_terminates :
      (os : List (Operation S)) (world : W)
      → Runs os
      → destroy_handler (run os (some (start world))) ≡ none
  started_terminates os world r =
      destroyed (run os (some (start world))) (
        Quiet-run os (start world) (unfold new_handler in record { flag = refl; looping = refl }) r)
