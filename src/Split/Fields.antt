-- ===== src/Split/Fields.antt =====
-- stringSplit with a delimiter of one byte, against the fields of a string read from its front.
use socks.Base.{
  ℕ, zero, suc, ◌+◌, ◌-◌, ◌<◌, ◌≤◌, ◌≡◌, refl, ap, ◌∙◌, sym, List, [], ◌∷◌, ◌++◌, ◌==◌,
  if◌then◌else◌, none, some, length, take, drop-append, take-append, length-append, append_assoc,
  arith, ◌⊎◌, inl, inr, le→leb, Bool-cases,
}
use socks.Split.{substr, find, find_first, split_rest, string_split}

-- The byte `x` put in front of the first field.
abbrev pub before_first : ℕ → List (List ℕ) → List (List ℕ)
before_first x [] = (x ∷ []) ∷ []
before_first x (f ∷ fs) = (x ∷ f) ∷ fs

abbrev pub fields : ℕ → List ℕ → List (List ℕ)
fields d [] = [] ∷ []
fields d (x ∷ s) = if d == x then [] ∷ fields d s else before_first x (fields d s)

module _ (d : ℕ) where
  -- A string has no delimiter, or a first field with a delimiter behind it.
  abbrev Whole : List ℕ → Type 0
  Whole s = (find_first (d ∷ []) s ≡ none) × (fields d s ≡ s ∷ [])

  abbrev Parted : List ℕ → List ℕ → List ℕ → Type 0
  Parted s u v =
      (s ≡ u ++ d ∷ v) × (find_first (d ∷ []) s ≡ some (length u)) × (fields d s ≡ u ∷ fields d v)

  first_field : (s : List ℕ) → Whole s ⊎ ((u : List ℕ) × (v : List ℕ) × Parted s u v)
  unfolding find_first
  first_field [] = inl (refl, refl)
  first_field (x ∷ s) = elim (Bool-cases (d == x)) [
    | inl e ↦ inr ([], s, (ground arith, rw e refl, rw e refl))
    | inr e ↦ elim (first_field s) [
      | inl (f, g) ↦ inl (rw (e, f) refl, rw (e, g) refl)
      | inr (u, v, (w, f, g)) ↦ inr (x ∷ u, v, (ap (◌∷◌ x) w, rw (e, f) refl, rw (e, g) refl))
    ]
  ]

  find-append :
      (p s : List ℕ)
      → find (p ++ s) (d ∷ []) (length p)
        ≡ elim (find_first (d ∷ []) s) [ none ↦ none | some it ↦ some (length p + it) ]
  unfolding find
  find-append p s =
      rw (le→leb (length p) (length (p ++ s)) (omega (arith, length-append p s)), drop-append p s)

  substr-append : (p u w : List ℕ) → substr (p ++ (u ++ w)) (length p) (length u) ≡ u
  unfolding substr
  substr-append p u w = rw (drop-append p (u ++ w)) (take-append u w)

  take_past : (n : ℕ) (s : List ℕ) → length s ≤ n → take n s ≡ s
  take_past zero [] h = refl
  take_past zero (x ∷ s) h = absurd (omega arith)
  take_past (suc n) [] h = refl
  take_past (suc n) (x ∷ s) h = ap (◌∷◌ x) (take_past n s (omega arith))

  -- The loop at the end of `p`, before `s`.
  split_rest_last :
      (k : ℕ) (p s : List ℕ)
      → find_first (d ∷ []) s ≡ none
      → split_rest (suc k) (p ++ s) (d ∷ []) (length p) ≡ s ∷ []
  unfolding split_rest substr
  split_rest_last k p s f =
      let e : find (p ++ s) (d ∷ []) (length p) ≡ none = find-append p s ∙ rw f refl in
      rw (e, split_rest)
        (rw (drop-append p s)
          (ap (λ t. t ∷ []) (take_past (length (p ++ s)) s (omega (arith, length-append p s)))))

  split_rest_next :
      (k : ℕ) (p u v : List ℕ)
      → find_first (d ∷ []) (u ++ d ∷ v) ≡ some (length u)
      → split_rest (suc k) (p ++ (u ++ d ∷ v)) (d ∷ []) (length p)
        ≡ u ∷ split_rest k ((p ++ (u ++ d ∷ [])) ++ v) (d ∷ []) (length (p ++ (u ++ d ∷ [])))
  unfolding split_rest
  split_rest_next k p u v f =
      let e : find (p ++ (u ++ d ∷ v)) (d ∷ []) (length p) ≡ some (length p + length u) =
        find-append p (u ++ d ∷ v) ∙ rw f (ap some (omega arith)) in
      let piece : substr (p ++ (u ++ d ∷ v)) (length p) (length p + length u - length p) ≡ u =
        ap (substr (p ++ (u ++ d ∷ v)) (length p)) {y = length u} (omega arith)
        ∙ substr-append p u (d ∷ v) in
      let place : length p + (1 + length u) ≡ length (p ++ (u ++ d ∷ [])) =
        omega (arith, length-append p (u ++ d ∷ []), length-append u (d ∷ [])) in
      let whole : p ++ (u ++ d ∷ v) ≡ (p ++ (u ++ d ∷ [])) ++ v =
        ap (λ t. p ++ t) (sym (append_assoc u (d ∷ []) v)) ∙ sym (append_assoc p (u ++ d ∷ []) v) in
      rw (e, split_rest)
        (rw (piece, place)
          (ap (λ t. u ∷ split_rest k t (d ∷ []) (length (p ++ (u ++ d ∷ [])))) whole))

  -- From a place in the string the loop finds the fields of what follows.
  split_rest_lem :
      (k : ℕ) (p s : List ℕ) → length s < k → split_rest k (p ++ s) (d ∷ []) (length p) ≡ fields d s
  split_rest_lem zero p s h = absurd (omega arith)
  split_rest_lem (suc k) p s h = elim (first_field s) [
    | inl (f, g) ↦ split_rest_last k p s f ∙ sym g
    | inr (u, v, (w, f, g)) ↦
        ap (λ t. split_rest (suc k) (p ++ t) (d ∷ []) (length p)) w
        ∙ split_rest_next k p u v (rw w at f)
        ∙ ap (◌∷◌ u) (
            split_rest_lem k (p ++ (u ++ d ∷ [])) v
              (omega (arith, ap length w, length-append u (d ∷ v))))
        ∙ sym g
  ]

  first_round :
      (u v : List ℕ)
      → find_first (d ∷ []) (u ++ d ∷ v) ≡ some (length u)
      → string_split (u ++ d ∷ v) (d ∷ []) ≡ u ∷ fields d v
  unfolding string_split
  first_round u v f =
      let e : find (u ++ d ∷ v) (d ∷ []) 0 ≡ some (length u) =
        find-append [] (u ++ d ∷ v) ∙ rw f (ap some (omega arith)) in
      let place : length u + 1 ≡ length (u ++ d ∷ []) = sym (length-append u (d ∷ [])) in
      rw (e, string_split)
        (rw (substr-append [] u (d ∷ v), place, sym (append_assoc u (d ∷ []) v))
          (ap (◌∷◌ u) (
            split_rest_lem (length ((u ++ d ∷ []) ++ v) + 1) (u ++ d ∷ []) v
              (omega (arith, length-append (u ++ d ∷ []) v)))))

  -- With a delimiter of one byte, stringSplit gives the fields of the string, the empty ones too.
  pub string_split-fields : (s : List ℕ) → string_split s (d ∷ []) ≡ fields d s
  unfolding string_split
  string_split-fields s = elim (first_field s) [
    | inl (f, g) ↦
        (let e : find s (d ∷ []) 0 ≡ none = find-append [] s ∙ rw f refl in
          rw (e, string_split, substr)
            (ap (λ t. t ∷ []) (take_past (length s) s (omega arith)) ∙ sym g))
    | inr (u, v, (w, f, g)) ↦
        ap (λ t. string_split t (d ∷ [])) w ∙ first_round u v (rw w at f) ∙ sym g
  ]
