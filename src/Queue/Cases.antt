-- ===== src/Queue/Cases.antt =====
-- The ways through an action of ConcurrentQueue.h, for a property of the state that it leaves.
use socks.Base.{ℕ, zero, suc, ◌+◌, ◌≡◌, refl, List, [], ◌∷◌, ◌++◌}
use socks.Queue.{Shared, notify_one, try_pop, woken, step, taken, wait_or_pop, wake_one}

module _ {ℓ κ} {A : Type ℓ} (P : Shared A → Type κ) where
  taken_cases :
      (otherwise s : Shared A)
      → (s.queue ≡ [] → P otherwise)
      → ((val : A) (queue : List A)
          → s.queue ≡ val ∷ queue
          → P (record s { queue = queue; popped = s.popped ++ val ∷ [] }))
      → P (taken otherwise s)
  unfolding taken
  taken_cases otherwise s none some = go s.queue refl
    where
      go : (q : List A) → s.queue ≡ q → P (taken otherwise s)
      go [] e = rw (e, taken) (none e)
      go (val ∷ queue) e = rw (e, taken) (some val queue e)

  pub wait_or_pop_cases :
      (s : Shared A)
      → (s.queue ≡ [] → P (record s { asleep = s.asleep + 1 }))
      → ((val : A) (queue : List A)
          → s.queue ≡ val ∷ queue
          → P (record s { queue = queue; popped = s.popped ++ val ∷ [] }))
      → P (wait_or_pop s)
  unfolding wait_or_pop
  wait_or_pop_cases s = taken_cases (record s { asleep = s.asleep + 1 }) s

  pub wake_one_cases :
      (s : Shared A)
      → (s.asleep ≡ 0 → P s)
      → ((n : ℕ) → s.asleep ≡ suc n → P (record s { asleep = n; awake = s.awake + 1 }))
      → P (wake_one s)
  unfolding wake_one
  wake_one_cases s none some = go s.asleep refl
    where
      go : (n : ℕ) → s.asleep ≡ n → P (wake_one s)
      go zero e = rw (e, wake_one) (none e)
      go (suc n) e = rw (e, wake_one) (some n e)

  pub try_pop_cases :
      (s : Shared A)
      → P s
      → ((val : A) (queue : List A)
          → s.queue ≡ val ∷ queue
          → P (record s { queue = queue; popped = s.popped ++ val ∷ [] }))
      → P (step try_pop s)
  unfolding step
  try_pop_cases s none some = taken_cases s s (λ _. none) some

  pub notify_cases :
      (s : Shared A)
      → (s.to_notify ≡ 0 → P s)
      → ((n : ℕ) → s.to_notify ≡ suc n → P (wake_one (record s { to_notify = n })))
      → P (step notify_one s)
  unfolding step
  notify_cases s none some = go s.to_notify refl
    where
      go : (n : ℕ) → s.to_notify ≡ n → P (step notify_one s)
      go zero e = rw (e, step) (none e)
      go (suc n) e = rw (e, step) (some n e)

  pub woken_cases :
      (s : Shared A)
      → (s.awake ≡ 0 → P s)
      → ((n : ℕ) → s.awake ≡ suc n → P (wait_or_pop (record s { awake = n })))
      → P (step woken s)
  unfolding step
  woken_cases s none some = go s.awake refl
    where
      go : (n : ℕ) → s.awake ≡ n → P (step woken s)
      go zero e = rw (e, step) (none e)
      go (suc n) e = rw (e, step) (some n e)
