-- ===== src/Queue/Draining.antt =====
-- The threads on their way in `push` and `pop` of ConcurrentQueue.h, let run to where they stop.
use socks.Base.{
  ℕ, zero, suc, ◌+◌, ◌≤◌, ◌<◌, ◌≡◌, ◌⊎◌, inl, inr, refl, List, [], ◌∷◌, ◌++◌, nil_of_length,
  replicate, arith,
}
use socks.Queue.{Shared, start, Action, notify_one, woken, step, run, wait_or_pop, wake_one}
use socks.Queue.Cases.{wait_or_pop_cases, wake_one_cases, notify_cases, woken_cases}
use socks.Queue.Waking.{Served, run-Served}

module _ {ℓ} {A : Type ℓ} where
  run-append :
      (first last : List (Action A)) (s : Shared A) → run (first ++ last) s ≡ run last (run first s)
  unfolding run
  run-append [] last s = refl
  run-append (a ∷ first) last s = run-append first last (step a s)

  -- At most `n` are still to notify, and at most `m` to notify or awake.
  abbrev Pending : ℕ → ℕ → Shared A → Type 0
  Pending n m s = (s.to_notify ≤ n) × (s.awake + s.to_notify ≤ m)

  wake_one-Pending :
      (n m : ℕ) (s : Shared A)
      → s.to_notify ≤ n
      → s.awake + s.to_notify < m
      → Pending n m (wake_one s)
  wake_one-Pending n m s low few =
      wake_one_cases (Pending n m) s (λ e. (low, omega arith)) (λ k e. (low, omega arith))

  notify-Pending : (n m : ℕ) (s : Shared A) → Pending (suc n) m s → Pending n m (step notify_one s)
  notify-Pending n m s h =
      notify_cases (Pending n m) s (λ e. ground (arith, h, e))
        (λ k e.
          wake_one-Pending n m (record s { to_notify = k }) (ground (arith, h, e))
            (ground (arith, h, e)))

  wait_or_pop-Pending : (n m : ℕ) (s : Shared A) → Pending n m s → Pending n m (wait_or_pop s)
  wait_or_pop-Pending n m s h = wait_or_pop_cases (Pending n m) s (λ e. h) (λ v q e. h)

  woken-Pending : (m : ℕ) (s : Shared A) → Pending 0 (suc m) s → Pending 0 m (step woken s)
  woken-Pending m s h =
      woken_cases (Pending 0 m) s (λ e. ground (arith, h, e))
        (λ k e. wait_or_pop-Pending 0 m (record s { awake = k }) (ground (arith, h, e)))

  notifies-Pending :
      (n m : ℕ) (s : Shared A) → Pending n m s → Pending 0 m (run (replicate n notify_one) s)
  unfolding run
  notifies-Pending zero m s h = h
  notifies-Pending (suc n) m s h = notifies-Pending n m (step notify_one s) (notify-Pending n m s h)

  wakes-Pending : (m : ℕ) (s : Shared A) → Pending 0 m s → Pending 0 0 (run (replicate m woken) s)
  unfolding run
  wakes-Pending zero s h = h
  wakes-Pending (suc m) s h = wakes-Pending m (step woken s) (woken-Pending m s h)

  -- The notifications that are due, and then the turn of every thread that is awake.
  abbrev pub all_turns : Shared A → List (Action A)
  all_turns s = replicate s.to_notify notify_one ++ replicate (s.awake + s.to_notify) woken

  settled : (s : Shared A) → Served s → Pending 0 0 s → (s.asleep ≡ 0) ⊎ (s.queue ≡ [])
  settled s h p = elim h [
    | inl e ↦ inl e
    | inr le ↦ inr (nil_of_length s.queue (ground (arith, le, p)))
  ]

  -- No wakeup is lost: whatever threads have done, in whatever order, once the notifications that are
  -- due are given and every thread that is awake has had its turn, no thread sleeps in `pop` while a
  -- value is in the queue.
  pub drained :
      (actions : List (Action A))
      → let s = run actions start in let t = run (all_turns s) s in (t.asleep ≡ 0) ⊎ (t.queue ≡ [])
  drained actions =
      let s = run actions start in
      settled (run (all_turns s) s)
        (run-Served (all_turns s) s (run-Served actions start (inl refl)))
        (rw
          (run-append (replicate s.to_notify notify_one) (replicate (s.awake + s.to_notify) woken)
            s)
          (wakes-Pending (s.awake + s.to_notify) (run (replicate s.to_notify notify_one) s)
            (notifies-Pending s.to_notify (s.awake + s.to_notify) s (omega arith, omega arith))))
