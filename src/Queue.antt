-- ===== src/Queue.antt =====
-- libratel/ConcurrentQueue.h. The mutex makes each stretch of code between two of its operations one
-- action of the thread that has it; `push` gives the mutex back before it notifies, and `pop` while
-- it sleeps. Threads are told apart only by where they stand.
pub mod Cases
pub mod Fifo
pub mod Waking
pub mod Draining
use socks.Base.{
  ℕ, zero, suc, ◌+◌, List, [], ◌∷◌, ◌++◌, Bool, true, false, Option, none, some, length,
}

module _ {ℓ} {A : Type ℓ} where
  unfoldable pub push_back : A → List A → List A
  push_back val queue = queue ++ val ∷ []

  -- `front` and `pop_front`, unless the queue is empty: `tryPop` with its `false`.
  unfoldable pub pop_front : List A → Option (A × List A)
  pop_front [] = none
  pop_front (val ∷ queue) = some (val, queue)

  unfoldable pub is_empty : List A → Bool
  is_empty [] = true
  is_empty (val ∷ queue) = false

  unfoldable pub size : List A → ℕ
  size queue = length queue

-- The queue; the threads asleep in `_cv.wait`, those awake again that wait for the mutex there, and
-- those that have pushed and not yet notified; and what was pushed and what was popped so far, oldest
-- first.
pub record Shared {ℓ} (A : Type ℓ) : Type ℓ where
  pub queue : List A
  pub asleep : ℕ
  pub awake : ℕ
  pub to_notify : ℕ
  pub pushed : List A
  pub popped : List A

abbrev pub start {ℓ} : {A : Type ℓ} → Shared A
start = record { queue = []; asleep = 0; awake = 0; to_notify = 0; pushed = []; popped = [] }

-- The actions of threads. A wait may end with no notification.
pub data Action {ℓ} (A : Type ℓ) : Type ℓ where
  push : A → Action A
  notify_one : Action A
  try_pop : Action A
  pop : Action A
  woken : Action A
  spurious : Action A

module _ {ℓ} {A : Type ℓ} where
  -- The first value goes to the thread, or else the thread does `otherwise`.
  taken : Shared A → Shared A → Shared A
  unfolding pop_front
  taken otherwise s = elim (pop_front s.queue) [
    | none ↦ otherwise
    | some (val, queue) ↦ record s { queue = queue; popped = s.popped ++ val ∷ [] }
  ]

  -- The test of the loop of `pop` and what follows it.
  unfoldable pub wait_or_pop : Shared A → Shared A
  unfolding taken
  wait_or_pop s = taken (record s { asleep = s.asleep + 1 }) s

  unfoldable pub wake_one : Shared A → Shared A
  wake_one s = elim s.asleep [ zero ↦ s | suc n ↦ record s { asleep = n; awake = s.awake + 1 } ]

  unfoldable pub step : Action A → Shared A → Shared A
  unfolding push_back taken wait_or_pop wake_one
  step (push val) s = record s {
    queue = push_back val s.queue;
    pushed = s.pushed ++ val ∷ [];
    to_notify = s.to_notify + 1;
  }
  step notify_one s = elim s.to_notify [ zero ↦ s | suc n ↦ wake_one (record s { to_notify = n }) ]
  step try_pop s = taken s s
  step pop s = wait_or_pop s
  step woken s = elim s.awake [ zero ↦ s | suc n ↦ wait_or_pop (record s { awake = n }) ]
  step spurious s = wake_one s

  unfoldable pub run : List (Action A) → Shared A → Shared A
  unfolding step
  run [] s = s
  run (a ∷ actions) s = run actions (step a s)
