-- ===== src/Optional/Comparing.antt =====
-- The comparisons of Optional.h, of two optionals, of one with a value, and with `nullOpt`.
use socks.Base.{Bool, true, false, not, Option, none, some, if◌then◌else◌}
use socks.Base.Buffer.{Outcome, ok, ◌>>=◌}
use socks.Optional.{Optional, get}

negate : Outcome Bool → Outcome Bool
negate o = do b ← o; ok (not b)

same : Bool → Bool → Bool
same true b = b
same false b = not b

module _ {ℓ} {A : Type ℓ} where
  -- With `nullOpt`; `==` and `!=` are the same on either side of it.
  unfoldable pub equals_null : Optional A → Bool
  equals_null l = not l.engaged

  unfoldable pub not_equals_null : Optional A → Bool
  not_equals_null l = l.engaged

  unfoldable pub less_null : Optional A → Bool
  less_null l = false

  unfoldable pub null_less : Optional A → Bool
  null_less r = r.engaged

  unfoldable pub greater_null : Optional A → Bool
  greater_null l = l.engaged

  unfoldable pub null_greater : Optional A → Bool
  null_greater r = false

  unfoldable pub at_most_null : Optional A → Bool
  at_most_null l = not l.engaged

  unfoldable pub null_at_most : Optional A → Bool
  null_at_most r = true

  unfoldable pub at_least_null : Optional A → Bool
  at_least_null l = true

  unfoldable pub null_at_least : Optional A → Bool
  null_at_least r = not r.engaged

-- `==` and `<` of the values.
module _ {ℓ} {A : Type ℓ} (eq lt : A → A → Bool) where
  unfoldable pub equals : Optional A → Optional A → Outcome Bool
  unfolding get same
  equals l r =
      if same l.engaged r.engaged
      then if l.engaged then (do a ← get l; b ← get r; ok (eq a b)) else ok true
      else ok false

  unfoldable pub not_equals : Optional A → Optional A → Outcome Bool
  unfolding equals negate
  not_equals l r = negate (equals l r)

  unfoldable pub less : Optional A → Optional A → Outcome Bool
  unfolding get
  less l r =
      if r.engaged
      then if l.engaged then (do a ← get l; b ← get r; ok (lt a b)) else ok true
      else ok false

  unfoldable pub greater : Optional A → Optional A → Outcome Bool
  unfolding less
  greater l r = less r l

  unfoldable pub at_most : Optional A → Optional A → Outcome Bool
  unfolding less negate
  at_most l r = negate (less r l)

  unfoldable pub at_least : Optional A → Optional A → Outcome Bool
  unfolding less negate
  at_least l r = negate (less l r)

  unfoldable pub equals_value : Optional A → A → Outcome Bool
  unfolding get
  equals_value l r = if l.engaged then (do a ← get l; ok (eq a r)) else ok false

  unfoldable pub value_equals : A → Optional A → Outcome Bool
  unfolding get
  value_equals l r = if r.engaged then (do b ← get r; ok (eq l b)) else ok false

  unfoldable pub not_equals_value : Optional A → A → Outcome Bool
  unfolding value_equals negate
  not_equals_value l r = negate (value_equals r l)

  unfoldable pub value_not_equals : A → Optional A → Outcome Bool
  unfolding get
  value_not_equals l r = if not r.engaged then ok true else (do b ← get r; ok (not (eq l b)))

  unfoldable pub less_value : Optional A → A → Outcome Bool
  unfolding get
  less_value l r = if l.engaged then (do a ← get l; ok (lt a r)) else ok false

  unfoldable pub value_less : A → Optional A → Outcome Bool
  unfolding get
  value_less l r = if r.engaged then (do b ← get r; ok (lt l b)) else ok false

  unfoldable pub greater_value : Optional A → A → Outcome Bool
  unfolding get
  greater_value l r = if l.engaged then (do a ← get l; ok (lt r a)) else ok false

  unfoldable pub value_greater : A → Optional A → Outcome Bool
  unfolding get
  value_greater l r = if not r.engaged then ok true else (do b ← get r; ok (lt b l))

  -- `l_ < r_` here is `less_value`.
  unfoldable pub at_most_value : Optional A → A → Outcome Bool
  unfolding less_value negate
  at_most_value l r = if l.engaged then negate (less_value l r) else ok false

  unfoldable pub value_at_most : A → Optional A → Outcome Bool
  unfolding get
  value_at_most l r = if r.engaged then (do b ← get r; ok (not (lt b l))) else ok false

  unfoldable pub at_least_value : Optional A → A → Outcome Bool
  unfolding get
  at_least_value l r = if l.engaged then (do a ← get l; ok (not (lt a r))) else ok false

  unfoldable pub value_at_least : A → Optional A → Outcome Bool
  unfolding get
  value_at_least l r = if not r.engaged then ok true else (do b ← get r; ok (not (lt l b)))

  -- The order of options in which an absent one comes first.
  abbrev pub first_less : Option A → Option A → Bool
  first_less x none = false
  first_less none (some b) = true
  first_less (some a) (some b) = lt a b

  abbrev pub same_option : Option A → Option A → Bool
  same_option none none = true
  same_option none (some b) = false
  same_option (some a) none = false
  same_option (some a) (some b) = eq a b
