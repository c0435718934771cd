-- ===== src/Optional/Ordering.antt =====
-- What the comparisons of Optional.h answer.
use socks.Base.{◌≡◌, refl, Bool, false, not, Option, none, some}
use socks.Base.Buffer.{ok}
use socks.Optional.Lifetimes.{represent}
use socks.Optional.Comparing.{
  same_option, first_less, equals, not_equals, less, greater, at_most, at_least, equals_value,
  value_equals, not_equals_value, value_not_equals, less_value, value_less, greater_value,
  value_greater, at_most_value, value_at_most, at_least_value, value_at_least, equals_null,
  not_equals_null, less_null, null_less, greater_null, null_greater, at_most_null, null_at_most,
  at_least_null, null_at_least,
}

module _ {ℓ} {A : Type ℓ} (eq lt : A → A → Bool) where
  -- Two optionals compare as options do, in the order in which an absent one comes first.
  optionals_compared :
      (x y : Option A)
      → (equals eq lt (represent x) (represent y) ≡ ok (same_option eq lt x y))
        × (not_equals eq lt (represent x) (represent y) ≡ ok (not (same_option eq lt x y)))
        × (less eq lt (represent x) (represent y) ≡ ok (first_less eq lt x y))
        × (greater eq lt (represent x) (represent y) ≡ ok (first_less eq lt y x))
        × (at_most eq lt (represent x) (represent y) ≡ ok (not (first_less eq lt y x)))
        × (at_least eq lt (represent x) (represent y) ≡ ok (not (first_less eq lt x y)))
  unfolding equals not_equals less greater at_most at_least
  optionals_compared none none = (refl, refl, refl, refl, refl, refl)
  optionals_compared none (some b) = (refl, refl, refl, refl, refl, refl)
  optionals_compared (some a) none = (refl, refl, refl, refl, refl, refl)
  optionals_compared (some a) (some b) = (refl, refl, refl, refl, refl, refl)

  -- A value on the left compares as an optional that holds it.
  values_on_the_left :
      (x : Option A) (v : A)
      → (value_equals eq lt v (represent x) ≡ ok (same_option eq lt (some v) x))
        × (value_not_equals eq lt v (represent x) ≡ ok (not (same_option eq lt (some v) x)))
        × (value_less eq lt v (represent x) ≡ ok (first_less eq lt (some v) x))
        × (value_greater eq lt v (represent x) ≡ ok (first_less eq lt x (some v)))
        × (value_at_most eq lt v (represent x) ≡ ok (not (first_less eq lt x (some v))))
        × (value_at_least eq lt v (represent x) ≡ ok (not (first_less eq lt (some v) x)))
  unfolding value_equals value_not_equals value_less value_greater value_at_most value_at_least
  values_on_the_left none v = (refl, refl, refl, refl, refl, refl)
  values_on_the_left (some a) v = (refl, refl, refl, refl, refl, refl)

  -- Beside a value on the right, an optional compares by `==`, `!=`, `>` and `>=` as with an optional
  -- that holds the value. But an absent one is not `<` a value, though it is `<` every optional that
  -- holds one; and `<=` answers what `>=` answers.
  pub values_on_the_right :
      (x : Option A) (v : A)
      → (equals_value eq lt (represent x) v ≡ equals eq lt (represent x) (represent (some v)))
        × (not_equals_value eq lt (represent x) v
            ≡ not_equals eq lt (represent (some v)) (represent x))
        × (greater_value eq lt (represent x) v ≡ greater eq lt (represent x) (represent (some v)))
        × (at_least_value eq lt (represent x) v ≡ at_least eq lt (represent x) (represent (some v)))
        × (less_value eq lt (represent x) v ≡ ok (elim x [ none ↦ false | some a ↦ lt a v ]))
        × (at_most_value eq lt (represent x) v ≡ at_least eq lt (represent x) (represent (some v)))
  unfolding equals_value not_equals_value greater_value at_least_value less_value at_most_value
      equals not_equals greater at_least
  values_on_the_right none v = (refl, refl, refl, refl, refl, refl)
  values_on_the_right (some a) v = (refl, refl, refl, refl, refl, refl)

  -- `nullOpt` compares as an absent optional.
  nulls_compared :
      (x : Option A)
      → (equals_null (represent x) ≡ same_option eq lt x none)
        × (not_equals_null (represent x) ≡ not (same_option eq lt x none))
        × (less_null (represent x) ≡ first_less eq lt x none)
        × (null_less (represent x) ≡ first_less eq lt none x)
        × (greater_null (represent x) ≡ first_less eq lt none x)
        × (null_greater (represent x) ≡ first_less eq lt x none)
        × (at_most_null (represent x) ≡ not (first_less eq lt none x))
        × (null_at_most (represent x) ≡ not (first_less eq lt x none))
        × (at_least_null (represent x) ≡ not (first_less eq lt x none))
        × (null_at_least (represent x) ≡ not (first_less eq lt none x))
  unfolding equals_null not_equals_null less_null null_less greater_null null_greater at_most_null
      null_at_most at_least_null null_at_least
  nulls_compared none = (refl, refl, refl, refl, refl, refl, refl, refl, refl, refl)
  nulls_compared (some a) = (refl, refl, refl, refl, refl, refl, refl, refl, refl, refl)
