-- ===== src/Accounts/Logins/Table.antt =====
-- The map of SocksLoginPassAuthorizer.cpp as what can be looked up in it: a hash map has no order,
-- and the association list of Accounts stands for it up to that.
use mathlib.Core.Quot
use mathlib.Core.Quot.{Quot, Quot-set}
use mathlib.Core.Logic.{∥∥₁_elim}
use mathlib.Core.HLevel.{¬_prop}
use mathlib.Core.List.Permᴰ
use mathlib.Core.Bool.{Bool-set}
use mathlib.Core.List.{Pairwise, Perm, Permᴰ, mem-cons_self}
use socks.Base.{
  ℕ, ◌≡◌, ◌≢◌, ◌⊎◌, inl, inr, refl, ap, sym, ◌∙◌, List, [], ◌∷◌, Bool, false, Option, none, some,
  Bool-cases,
}
use socks.Split.{string_split}
use socks.Split.Fields.{fields, string_split-fields}
use socks.Accounts.{Logins, equals, lookup, assign_strings, read_lines, auth_user_password}
use socks.Accounts.Logins.{given, or_else, lookup-assign_strings, equals_sound}

-- Nothing is stored differently.
abbrev SameLogins : Logins → Logins → Type 0
SameLogins l l' = (name : List ℕ) → lookup name l ≡ lookup name l'

abbrev Table : Type 0
Table = Quot SameLogins

auth-SameLogins :
    (user password : List ℕ) (l l' : Logins)
    → SameLogins l l'
    → auth_user_password l user password ≡ auth_user_password l' user password
unfolding auth_user_password
auth-SameLogins user password l l' h =
    ap (λ o. elim o as (λ x. Bool) [ none ↦ false | some stored ↦ equals stored password ]) (h user)

authorizes : Table → List ℕ → List ℕ → Bool
authorizes t user password =
    Quot.lift Bool-set (λ l. auth_user_password l user password) (auth-SameLogins user password) t

enter-SameLogins :
    (strings : List (List ℕ)) (l l' : Logins)
    → SameLogins l l'
    → SameLogins (assign_strings strings l) (assign_strings strings l')
enter-SameLogins strings l l' h name =
    lookup-assign_strings name strings l
    ∙ ap (or_else (given name strings)) (h name)
    ∙ sym (lookup-assign_strings name strings l')

-- A line read into the table.
enter : List ℕ → Table → Table
enter line =
    Quot.lift Quot-set (λ l. Quot.mk (assign_strings (string_split line (44 ∷ [])) l))
      (λ l l' h. Quot.sound (enter-SameLogins (string_split line (44 ∷ [])) l l' h))

abbrev pub head_field : List (List ℕ) → List ℕ
head_field [] = []
head_field (user ∷ strings) = user

abbrev pub first_field : List ℕ → List ℕ
first_field line = head_field (fields 44 line)

given_apart :
    (name a b : List ℕ)
    → first_field a ≢ first_field b
    → (given name (fields 44 a) ≡ none) ⊎ (given name (fields 44 b) ≡ none)
given_apart name a b ne = go (fields 44 a) refl (fields 44 b) refl
  where
    go :
        (as_fields : List (List ℕ))
        → fields 44 a ≡ as_fields
        → (bs : List (List ℕ)) → fields 44 b ≡ bs
        → (given name as_fields ≡ none) ⊎ (given name bs ≡ none)
    go [] e bs f = inl refl
    go (u ∷ []) e bs f = inl refl
    go (u ∷ p ∷ s) e [] f = inr refl
    go (u ∷ p ∷ s) e (v ∷ []) f = inr refl
    go (u ∷ p ∷ s) e (v ∷ q ∷ t) f = elim (Bool-cases (equals u name)) [
      | inl x ↦ elim (Bool-cases (equals v name)) [
        | inl y ↦ absurd (
            ne (
              (ap head_field e ∙ equals_sound u name x)
              ∙ sym (ap head_field f ∙ equals_sound v name y)))
        | inr y ↦ inr (rw y refl)
      ]
      | inr x ↦ inl (rw x refl)
    ]

or_else_swap :
    (p q r : Option (List ℕ))
    → (p ≡ none) ⊎ (q ≡ none)
    → or_else p (or_else q r) ≡ or_else q (or_else p r)
or_else_swap p q r (inl e) = rw e refl
or_else_swap p q r (inr e) = rw e refl

lookup-line :
    (name line : List ℕ) (l : Logins)
    → lookup name (assign_strings (string_split line (44 ∷ [])) l)
      ≡ or_else (given name (fields 44 line)) (lookup name l)
lookup-line name line l =
    lookup-assign_strings name (string_split line (44 ∷ [])) l
    ∙ ap (λ f. or_else (given name f) (lookup name l)) (string_split-fields 44 line)

-- Two lines for different names can be read in either order.
enter_comm :
    (a b : List ℕ) (t : Table)
    → first_field a ≢ first_field b
    → enter a (enter b t) ≡ enter b (enter a t)
unfolding enter
enter_comm a b t ne =
    Quot.ind {β = λ q. enter a (enter b q) ≡ enter b (enter a q)} (λ q. Quot-set _ _)
      (λ l. Quot.sound (λ name.
        lookup-line name a _
        ∙ ap (or_else (given name (fields 44 a))) (lookup-line name b l)
        ∙ or_else_swap _ _ (lookup name l) (given_apart name a b ne)
        ∙ sym (
            lookup-line name b _ ∙ ap (or_else (given name (fields 44 b))) (lookup-line name a l))))
      t

enter_all : List (List ℕ) → Table → Table
enter_all [] t = t
enter_all (line ∷ lines) t = enter_all lines (enter line t)

mk-read_lines :
    (lines : List (List ℕ)) (l : Logins)
    → enter_all lines (Quot.mk l) ≡ Quot.mk (read_lines lines l)
unfolding enter_all enter read_lines
mk-read_lines [] l = refl
mk-read_lines (line ∷ lines) l =
    mk-read_lines lines (assign_strings (string_split line (44 ∷ [])) l)

-- No two lines have the same first field.
abbrev pub OneEach : List (List ℕ) → Type 0
OneEach = Pairwise (λ a b. first_field a ≢ first_field b)

OneEach-Permᴰ : {lines lines' : List (List ℕ)} → Permᴰ lines lines' → OneEach lines → OneEach lines'
OneEach-Permᴰ d h = Permᴰ.pairwise (λ a b. ¬_prop) (λ a b ne e. ne (sym e)) d h

enter_all-Permᴰ :
    {lines lines' : List (List ℕ)}
    → Permᴰ lines lines'
    → OneEach lines
    → (t : Table) → enter_all lines t ≡ enter_all lines' t
unfolding enter_all
enter_all-Permᴰ Permᴰ.nil h t = refl
enter_all-Permᴰ (Permᴰ.cons {a = a} {b = b} {l₁ = l₁} {l₂ = l₂} e d) (Pairwise.cons n h) t =
    enter_all-Permᴰ d h (enter a t) ∙ ap (λ x. enter_all l₂ (enter x t)) e
enter_all-Permᴰ (Permᴰ.swap {a = a} {b = b} {a' = a'} {b' = b'} {l = l} e f) (Pairwise.cons n h) t =
    ap (enter_all l) (enter_comm b a t (λ x. n b mem-cons_self (sym x)))
    ∙ ap (λ x. enter_all l (enter x (enter b t))) e
    ∙ ap (λ x. enter_all l (enter b' (enter x t))) f
enter_all-Permᴰ (Permᴰ.trans d d') h t =
    enter_all-Permᴰ d h t ∙ enter_all-Permᴰ d' (OneEach-Permᴰ d h) t

tables_agree :
    (lines lines' : List (List ℕ))
    → Perm lines lines'
    → OneEach lines
    → enter_all lines (Quot.mk []) ≡ enter_all lines' (Quot.mk [])
tables_agree lines lines' p h = ∥∥₁_elim p (Quot-set _ _) (λ d. enter_all-Permᴰ d h (Quot.mk []))

-- When no two lines of the file have the same first field, their order does not matter: the
-- authorizer that has read them in another order accepts the same names and passwords.
pub auth_user_password-perm :
    (lines lines' : List (List ℕ)) (user password : List ℕ)
    → Perm lines lines'
    → OneEach lines
    → auth_user_password (read_lines lines []) user password
      ≡ auth_user_password (read_lines lines' []) user password
unfolding authorizes
auth_user_password-perm lines lines' user password p h =
    ap (λ t. authorizes t user password)
      (sym (mk-read_lines lines []) ∙ tables_agree lines lines' p h ∙ mk-read_lines lines' [])
