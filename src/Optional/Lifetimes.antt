-- ===== src/Optional/Lifetimes.antt =====
-- Two objects of Optional.h and what is done with them.
use socks.Base.{◌≡◌, refl, List, [], ◌∷◌, Option, none, some}
use socks.Base.Buffer.{Outcome, ok, bad_variant, ◌>>=◌}
use socks.Optional.{
  copy_construct, move_construct, converted, value, value_or, Optional, absent, present,
  copy_assign, clear, assign_converted, destroy, assign_value, emplace, move_assign, swap,
}

-- What is done with the first, by itself or with the second, or the other way round.
pub data Operation {ℓ} (A : Type ℓ) : Type ℓ where
  copied moved_in cleared swapped : Operation A
  given emplaced : A → Operation A
  other_way : Operation A → Operation A

module _ {ℓ} {A : Type ℓ} where
  -- The optional that means an Option.
  abbrev pub represent : Option A → Optional A
  represent none = absent
  represent (some a) = present a

  abbrev pub map_option {κ} : {B : Type κ} → (B → A) → Option B → Option A
  map_option f none = none
  map_option f (some a) = some (f a)

module _ {ℓ} {A : Type ℓ} (moved : A → A) where
  unfoldable pub step : Operation A → Optional A × Optional A → Outcome (Optional A × Optional A)
  unfolding copy_assign move_assign clear assign_value emplace swap
  step copied (x, y) = do x ← copy_assign x y; ok (x, y)
  step moved_in (x, y) = move_assign moved x y
  step cleared (x, y) = do x ← clear x; ok (x, y)
  step swapped (x, y) = swap moved x y
  step (given a) (x, y) = ok (assign_value a x, y)
  step (emplaced a) (x, y) = do x ← emplace a x; ok (x, y)
  step (other_way o) (x, y) = do p ← step o (y, x); ok (p.1, p.0)

  unfoldable pub run :
      List (Operation A) → Optional A × Optional A → Outcome (Optional A × Optional A)
  unfolding step
  run [] p = ok p
  run (o ∷ os) p = do p ← step o p; run os p

  -- The same with options: an assigned value is not taken.
  abbrev pub meant : Operation A → Option A × Option A → Option A × Option A
  meant copied (x, y) = (y, y)
  meant moved_in (x, y) = (y, map_option moved y)
  meant cleared (x, y) = (none, y)
  meant swapped (x, y) = (y, x)
  meant (given a) (x, y) = (x, y)
  meant (emplaced a) (x, y) = (some a, y)
  meant (other_way o) (x, y) = let p = meant o (y, x) in (p.1, p.0)

  abbrev pub run_meant : List (Operation A) → Option A × Option A → Option A × Option A
  run_meant [] p = p
  run_meant (o ∷ os) p = run_meant os (meant o p)

  abbrev pub both : Option A × Option A → Optional A × Optional A
  both (x, y) = (represent x, represent y)

  step-both : (o : Operation A) (x y : Option A) → step o (both (x, y)) ≡ ok (both (meant o (x, y)))
  unfolding step
  step-both copied none none = refl
  step-both copied none (some b) = refl
  step-both copied (some a) none = refl
  step-both copied (some a) (some b) = refl
  step-both moved_in none none = refl
  step-both moved_in none (some b) = refl
  step-both moved_in (some a) none = refl
  step-both moved_in (some a) (some b) = refl
  step-both cleared none y = refl
  step-both cleared (some a) y = refl
  step-both swapped none none = refl
  step-both swapped none (some b) = refl
  step-both swapped (some a) none = refl
  step-both swapped (some a) (some b) = refl
  step-both (given a) x y = refl
  step-both (emplaced a) none y = refl
  step-both (emplaced a) (some b) y = refl
  step-both (other_way o) x y = rw (step-both o y x) refl

  -- The destructor leaves no object alive, and none was written over.
  abbrev pub Ends : Optional A → Type ℓ
  Ends o = (o' : Optional A) × ((destroy o ≡ ok o') × (o'.stored ≡ none) × (o'.leaked ≡ 0))

  Ends-represent : (x : Option A) → Ends (represent x)
  unfolding destroy
  Ends-represent none = (absent, (refl, refl, refl))
  Ends-represent (some a) = (record (present a) { stored = none }, (refl, refl, refl))

  run-both :
      (os : List (Operation A)) (x y : Option A)
      → run os (both (x, y)) ≡ ok (both (run_meant os (x, y)))
  unfolding run
  run-both [] x y = refl
  run-both (o ∷ os) x y = rw (step-both o x y) (run-both os (meant o (x, y)).0 (meant o (x, y)).1)

  -- However two optionals are copied, moved, cleared, filled and exchanged, they always hold what two
  -- options hold after the same steps, except that the assignment of a value stores nothing. No step
  -- reads, writes or destroys an object that is not there, and when the destructors have run, every
  -- object that was made has been destroyed.
  pub optionals_used :
      (os : List (Operation A)) (x y : Option A)
      → (run os (both (x, y)) ≡ ok (both (run_meant os (x, y))))
        × Ends (represent (run_meant os (x, y)).0)
        × Ends (represent (run_meant os (x, y)).1)
  optionals_used os x y = (run-both os x y, Ends-represent _, Ends-represent _)

  -- A copy of an optional holds what that one holds; a move too, and leaves what a move leaves of a
  -- value; a conversion, and an assignment from another type, hold the converted value. A held value
  -- is read back as it is; where there is none, `value` throws and `value_or` gives the other value.
  pub made_lem {κ} :
      {B : Type κ} (convert : B → A) (moved' : B → B) (x : Option A) (t : Option B) (other : A)
      → (copy_construct (represent x) ≡ ok (represent x))
        × (move_construct moved (represent x) ≡ ok (represent x, represent (map_option moved x)))
        × (converted moved convert (represent t) ≡ ok (represent (map_option convert t)))
        × (assign_converted convert moved' (represent x) (represent t)
            ≡ ok (represent (map_option convert t), represent (map_option moved' t)))
        × (value (represent x) ≡ (elim x [ none ↦ bad_variant | some a ↦ ok a ]))
        × (value_or other (represent x) ≡ ok (elim x [ none ↦ other | some a ↦ a ]))
  unfolding copy_construct move_construct converted assign_converted value value_or
  made_lem convert moved' none none other = (refl, refl, refl, refl, refl, refl)
  made_lem convert moved' none (some b) other = (refl, refl, refl, refl, refl, refl)
  made_lem convert moved' (some a) none other = (refl, refl, refl, refl, refl, refl)
  made_lem convert moved' (some a) (some b) other = (refl, refl, refl, refl, refl, refl)
