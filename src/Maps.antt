-- ===== src/Maps.antt =====
-- std::unordered_map, as an association list: `map[key] = value`, `erase` and `find`.
use socks.Base.{
  ℕ, ◌==◌, List, [], ◌∷◌, true, false, Option, none, some, if◌then◌else◌, ◌≡◌, ◌≢◌, refl, sym, ◌∙◌,
  ap, Bool-cases, ==_iff, ==_refl, arith, inl, inr,
}

unfoldable pub put {ℓ} : {A : Type ℓ} → ℕ → A → List (ℕ × A) → List (ℕ × A)
put key value [] = (key, value) ∷ []
put key value (entry ∷ entries) =
    let rest = put key value entries in
    if entry.0 == key then (key, value) ∷ entries else entry ∷ rest

unfoldable pub erase {ℓ} : {A : Type ℓ} → ℕ → List (ℕ × A) → List (ℕ × A)
erase key [] = []
erase key (entry ∷ entries) =
    let rest = erase key entries in if entry.0 == key then rest else entry ∷ rest

unfoldable pub find {ℓ} : {A : Type ℓ} → ℕ → List (ℕ × A) → Option A
find key [] = none
find key (entry ∷ entries) =
    let rest = find key entries in if entry.0 == key then some entry.1 else rest

pub apart : (key other : ℕ) → key ≢ other → (key == other) ≡ false
apart key other ne = ground (arith, ne)

pub find-put_other {ℓ} :
    {A : Type ℓ} (key other : ℕ) (value : A) (entries : List (ℕ × A))
    → key ≢ other
    → find other (put key value entries) ≡ find other entries
unfolding find put
find-put_other key other value [] ne =
    let f : (key == other) ≡ false = apart key other ne in rw f refl
find-put_other key other value (entry ∷ entries) ne = elim (Bool-cases (entry.0 == key)) [
  | inl e ↦
      (let f : (key == other) ≡ false = apart key other ne in
        let g : (entry.0 == other) ≡ false = ground (arith, f) in rw (e, f, g) refl)
  | inr e ↦ rw e (
      ap (λ t. if entry.0 == other then some entry.1 else t)
        (find-put_other key other value entries ne))
]

pub find-erase_other {ℓ} :
    {A : Type ℓ} (key other : ℕ) (entries : List (ℕ × A))
    → key ≢ other
    → find other (erase key entries) ≡ find other entries
unfolding find erase
find-erase_other key other [] ne = refl
find-erase_other key other (entry ∷ entries) ne = elim (Bool-cases (entry.0 == key)) [
  | inl e ↦
      (let f : (key == other) ≡ false = apart key other ne in
        let g : (entry.0 == other) ≡ false = ground (arith, f) in
        rw (e, g) (find-erase_other key other entries ne))
  | inr e ↦ rw e (
      ap (λ t. if entry.0 == other then some entry.1 else t)
        (find-erase_other key other entries ne))
]

pub find-put {ℓ} :
    {A : Type ℓ} (key : ℕ) (value : A) (entries : List (ℕ × A))
    → find key (put key value entries) ≡ some value
unfolding find put
find-put key value [] = let f : (key == key) ≡ true = ==_refl key in rw f refl
find-put key value (entry ∷ entries) = elim (Bool-cases (entry.0 == key)) [
  | inl e ↦ (let f : (key == key) ≡ true = ==_refl key in rw (e, f) refl)
  | inr e ↦ rw (e, e) (find-put key value entries)
]

pub find-erase {ℓ} :
    {A : Type ℓ} (key : ℕ) (entries : List (ℕ × A)) → find key (erase key entries) ≡ none
unfolding find erase
find-erase key [] = refl
find-erase key (entry ∷ entries) = elim (Bool-cases (entry.0 == key)) [
  | inl e ↦ rw e (find-erase key entries)
  | inr e ↦ rw (e, e) (find-erase key entries)
]

pub put-keeps {ℓ} :
    {A : Type ℓ} (key user : ℕ) (value : A) (entries : List (ℕ × A))
    → find user entries ≢ none
    → find user (put key value entries) ≢ none
put-keeps key user value entries h = elim (Bool-cases (key == user)) [
  | inl e ↦ rw ((==_iff key user).0 e) (λ n. cc (find-put user value entries))
  | inr e ↦
      (let ne : key ≢ user = ground (arith, e) in
        λ n. h (sym (find-put_other key user value entries ne) ∙ n))
]
