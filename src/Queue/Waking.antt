-- ===== src/Queue/Waking.antt =====
-- The threads that wait in `pop` of ConcurrentQueue.h.
use socks.Base.{◌+◌, ◌≤◌, ◌≡◌, ◌⊎◌, inl, inr, ap, List, [], ◌∷◌, ◌++◌, length, length-append, arith}
use socks.Queue.{
  Shared, Action, push, notify_one, try_pop, pop, woken, spurious, step, run, wait_or_pop, wake_one,
}
use socks.Queue.Cases.{wait_or_pop_cases, wake_one_cases, try_pop_cases, notify_cases, woken_cases}

module _ {ℓ} {A : Type ℓ} where
  -- While a thread sleeps, every value in the queue has a thread on its way: one that is awake or one
  -- that a notification still to come will wake.
  abbrev pub Served : Shared A → Type 0
  Served s = (s.asleep ≡ 0) ⊎ (length s.queue ≤ s.awake + s.to_notify)

  wake_one-Served :
      (s : Shared A)
      → (s.asleep ≡ 0) ⊎ (length s.queue ≤ s.awake + (s.to_notify + 1))
      → Served (wake_one s)
  wake_one-Served s h = wake_one_cases Served s (λ e. inl e) (λ n e. ground (arith, h, e))

  popped-Served :
      (s : Shared A) (val : A) (queue : List A)
      → s.queue ≡ val ∷ queue
      → (s.asleep ≡ 0) ⊎ (length s.queue ≤ s.awake + s.to_notify + 1)
      → Served (record s { queue = queue; popped = s.popped ++ val ∷ [] })
  popped-Served s val queue e h = ground (arith, h, ap length e)

  wait_or_pop-Served :
      (s : Shared A)
      → (s.asleep ≡ 0) ⊎ (length s.queue ≤ s.awake + s.to_notify + 1)
      → Served (wait_or_pop s)
  wait_or_pop-Served s h =
      wait_or_pop_cases Served s (λ e. inr (ground (arith, ap length e)))
        (λ v q e. popped-Served s v q e h)

  weaken : (s : Shared A) → Served s → (s.asleep ≡ 0) ⊎ (length s.queue ≤ s.awake + s.to_notify + 1)
  weaken s h = ground (arith, h)

  step-Served : (a : Action A) (s : Shared A) → Served s → Served (step a s)
  unfolding step
  step-Served (push val) s h = ground (arith, h, length-append s.queue (val ∷ []))
  step-Served notify_one s h =
      notify_cases Served s (λ _. h)
        (λ n e. wake_one-Served (record s { to_notify = n }) (ground (arith, h, e)))
  step-Served try_pop s h = try_pop_cases Served s h (λ v q e. popped-Served s v q e (weaken s h))
  step-Served pop s h = wait_or_pop-Served s (weaken s h)
  step-Served woken s h =
      woken_cases Served s (λ _. h)
        (λ n e. wait_or_pop-Served (record s { awake = n }) (ground (arith, h, e)))
  step-Served spurious s h = wake_one-Served s (ground (arith, h))

  pub run-Served : (actions : List (Action A)) (s : Shared A) → Served s → Served (run actions s)
  unfolding run
  run-Served [] s h = h
  run-Served (a ∷ actions) s h = run-Served actions (step a s) (step-Served a s h)
