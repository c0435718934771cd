-- ===== src/Optional.antt =====
-- libratel/Optional.h: a value that may be absent, in a union whose object is made and destroyed by
-- hand. What C++ leaves undefined is the outcome `out_of_bounds`, and `optional_exception` is
-- `bad_variant`. Constructors of the value do not throw.
pub mod Comparing
pub mod Lifetimes
pub mod Ordering
use socks.Base.{ℕ, ◌+◌, Bool, true, false, not, Option, none, some, if◌then◌else◌}
use socks.Base.Buffer.{Outcome, ok, bad_variant, out_of_bounds, ◌>>=◌}

-- The object that lives in the union, the flag, and how many objects were written over alive.
pub record Optional {ℓ} (A : Type ℓ) : Type ℓ where
  pub stored : Option A
  pub engaged : Bool
  pub leaked : ℕ

module _ {ℓ} {A : Type ℓ} where
  -- The constructors from nothing and from `nullOpt`, and those from a value, which is also what
  -- `make_optional` does.
  abbrev pub absent : Optional A
  absent = record { stored = none; engaged = false; leaked = 0 }

  abbrev pub present : A → Optional A
  present a = record { stored = some a; engaged = true; leaked = 0 }

  -- `get__` and `operator *`, read and written.
  unfoldable pub get : Optional A → Outcome A
  get o = elim o.stored [ none ↦ out_of_bounds | some a ↦ ok a ]

  unfoldable pub set : A → Optional A → Outcome (Optional A)
  set a o = elim o.stored [ none ↦ out_of_bounds | some old ↦ ok (record o { stored = some a }) ]

  unfoldable pub construct : A → Optional A → Optional A
  construct a o = elim o.stored [
    | none ↦ record { stored = some a; engaged = true; leaked = o.leaked }
    | some old ↦ record { stored = some a; engaged = true; leaked = o.leaked + 1 }
  ]

  unfoldable pub destruct : Optional A → Outcome (Optional A)
  destruct o = elim o.stored [
    | none ↦ out_of_bounds
    | some old ↦ ok (record { stored = none; engaged = false; leaked = o.leaked })
  ]

  unfoldable pub reset : Optional A → Outcome (Optional A)
  unfolding destruct
  reset o = if o.engaged then destruct o else ok o

  -- `operator =` of `nullOpt`.
  unfoldable pub clear : Optional A → Outcome (Optional A)
  unfolding reset
  clear this = reset this

  -- The destructor leaves the flag.
  unfoldable pub destroy : Optional A → Outcome (Optional A)
  destroy o =
      if o.engaged
      then elim o.stored [ none ↦ out_of_bounds | some old ↦ ok (record o { stored = none }) ]
      else ok o

  unfoldable pub copy_construct : Optional A → Outcome (Optional A)
  unfolding get construct
  copy_construct other =
      if other.engaged then (do a ← get other; ok (construct a absent)) else ok absent

  unfoldable pub copy_assign : Optional A → Optional A → Outcome (Optional A)
  unfolding get set construct reset
  copy_assign this other =
      if this.engaged
      then if other.engaged then (do a ← get other; set a this) else reset this
      else if other.engaged
      then (do a ← get other; ok (construct a this))
      else reset this

  -- `operator =` of a value.
  unfoldable pub assign_value : A → Optional A → Optional A
  assign_value a this = this

  unfoldable pub emplace : A → Optional A → Outcome (Optional A)
  unfolding reset construct
  emplace a this = do this ← reset this; ok (construct a this)

  unfoldable pub value : Optional A → Outcome A
  unfolding get
  value this = if not this.engaged then bad_variant else get this

  unfoldable pub value_or : A → Optional A → Outcome A
  unfolding get
  value_or other this = if this.engaged then get this else ok other

-- `moved` is what a value leaves behind when it is moved.
module _ {ℓ} {A : Type ℓ} (moved : A → A) where
  -- The value of `std::move(other.get__())`, and what is then in `other`.
  unfoldable pub take_out : Optional A → Outcome (A × Optional A)
  unfolding get set
  take_out other = do a ← get other; other ← set (moved a) other; ok (a, other)

  unfoldable pub move_construct : Optional A → Outcome (Optional A × Optional A)
  unfolding take_out construct
  move_construct other =
      if other.engaged
      then (do p ← take_out other; ok (construct p.0 absent, p.1))
      else ok (absent, other)

  unfoldable pub move_assign : Optional A → Optional A → Outcome (Optional A × Optional A)
  unfolding take_out set construct reset
  move_assign this other =
      if other.engaged
      then (do
        p ← take_out other
        this ← (if this.engaged then set p.0 this else ok (construct p.0 this))
        ok (this, p.1))
      else (do this ← reset this; ok (this, other))

  unfoldable pub swap : Optional A → Optional A → Outcome (Optional A × Optional A)
  unfolding get set take_out construct destruct
  swap this other =
      if this.engaged
      then if other.engaged
        then (do
          a ← get this
          b ← get other
          this ← set b this
          other ← set a other
          ok (this, other))
        else (do p ← take_out this; this ← destruct p.1; ok (this, construct p.0 other))
      else if other.engaged
      then (do p ← take_out other; other ← destruct p.1; ok (construct p.0 this, other))
      else ok (this, other)

  -- From an optional of another type, by way of one of this type, which is destroyed after it.
  unfoldable pub converted {κ} : {B : Type κ} → (B → A) → Optional B → Outcome (Optional A)
  unfolding get move_construct destroy
  converted convert t = do
    temporary ← (if t.engaged then (do b ← get t; ok (present (convert b))) else ok absent)
    p ← move_construct temporary
    temporary ← destroy p.1
    ok p.0

-- `operator =` of an optional of another type that is given up, with what it leaves.
module _ {ℓ κ} {A : Type ℓ} {B : Type κ} (convert : B → A) (moved : B → B) where
  unfoldable pub assign_converted : Optional A → Optional B → Outcome (Optional A × Optional B)
  unfolding take_out set construct reset
  assign_converted this t =
      if t.engaged
      then (do
        p ← take_out moved t
        this ← (if this.engaged then set (convert p.0) this else ok (construct (convert p.0) this))
        ok (this, p.1))
      else (do this ← reset this; ok (this, t))
