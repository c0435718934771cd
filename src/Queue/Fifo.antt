-- ===== src/Queue/Fifo.antt =====
-- The values of ConcurrentQueue.h, through any interleaving.
use socks.Base.{◌≡◌, refl, sym, ap, ◌∙◌, List, [], ◌∷◌, ◌++◌, append_assoc}
use socks.Queue.{
  Shared, start, Action, push, notify_one, try_pop, pop, woken, spurious, step, run, wait_or_pop,
  wake_one,
}
use socks.Queue.Cases.{wait_or_pop_cases, wake_one_cases, try_pop_cases, notify_cases, woken_cases}

module _ {ℓ} {A : Type ℓ} where
  abbrev Kept : Shared A → Type ℓ
  Kept s = s.popped ++ s.queue ≡ s.pushed

  popped-Kept :
      (s : Shared A) (val : A) (queue : List A)
      → Kept s
      → s.queue ≡ val ∷ queue
      → Kept (record s { queue = queue; popped = s.popped ++ val ∷ [] })
  popped-Kept s val queue h e =
      append_assoc s.popped (val ∷ []) queue ∙ ap (λ q. s.popped ++ q) (sym e) ∙ h

  wait_or_pop-Kept : (s : Shared A) → Kept s → Kept (wait_or_pop s)
  wait_or_pop-Kept s h = wait_or_pop_cases Kept s (λ _. h) (λ v q e. popped-Kept s v q h e)

  wake_one-Kept : (s : Shared A) → Kept s → Kept (wake_one s)
  wake_one-Kept s h = wake_one_cases Kept s (λ _. h) (λ n e. h)

  step-Kept : (a : Action A) (s : Shared A) → Kept s → Kept (step a s)
  unfolding step
  step-Kept (push val) s h =
      sym (append_assoc s.popped s.queue (val ∷ [])) ∙ ap (λ q. q ++ val ∷ []) h
  step-Kept notify_one s h =
      notify_cases Kept s (λ _. h) (λ n e. wake_one-Kept (record s { to_notify = n }) h)
  step-Kept try_pop s h = try_pop_cases Kept s h (λ v q e. popped-Kept s v q h e)
  step-Kept pop s h = wait_or_pop-Kept s h
  step-Kept woken s h =
      woken_cases Kept s (λ _. h) (λ n e. wait_or_pop-Kept (record s { awake = n }) h)
  step-Kept spurious s h = wake_one-Kept s h

  run-Kept : (actions : List (Action A)) (s : Shared A) → Kept s → Kept (run actions s)
  unfolding run
  run-Kept [] s h = h
  run-Kept (a ∷ actions) s h = run-Kept actions (step a s) (step-Kept a s h)

  -- Whatever threads push and pop, in whatever order their actions come: what was popped, in order,
  -- and then what the queue holds are together what was pushed, in order. Nothing is lost, made up,
  -- popped twice or overtaken.
  pub popped-append-queue :
      (actions : List (Action A)) → let s = run actions start in s.popped ++ s.queue ≡ s.pushed
  popped-append-queue actions = run-Kept actions start refl
