-- ===== src/Accounts/Logins.antt =====
-- Which logins SocksLoginPassAuthorizer.cpp accepts, by the lines of its file.
pub mod Table
use socks.Base.{
  ℕ, ◌≡◌, ◌↔◌, inl, inr, refl, ap, sym, ◌∙◌, List, [], ◌∷◌, ◌++◌, true, false, ◌==◌, if◌then◌else◌,
  Option, none, some, All, Bool-cases, Option-cases, some-injective, ==_iff, ==_refl,
}
use socks.Split.{string_split}
use socks.Split.Fields.{fields, before_first, string_split-fields}
use socks.Accounts.{Logins, equals, lookup, assign, assign_strings, read_lines, auth_user_password}

equals_refl : (x : List ℕ) → equals x x ≡ true
unfolding equals
equals_refl [] = refl
equals_refl (x ∷ xs) = rw (==_refl x) (equals_refl xs)

equals_sound : (x y : List ℕ) → equals x y ≡ true → x ≡ y
unfolding equals
equals_sound [] [] h = refl
equals_sound [] (y ∷ ys) h = cc
equals_sound (x ∷ xs) [] h = cc
equals_sound (x ∷ xs) (y ∷ ys) h = elim (Bool-cases (x == y)) [
  | inl e ↦
      (let r : equals xs ys ≡ true = rw e at h in rw (equals_sound xs ys r, (==_iff x y).0 e) refl)
  | inr e ↦ cc (rw e at h)
]

lookup-assign :
    (user password name : List ℕ) (logins : Logins)
    → lookup name (assign user password logins)
      ≡ (if equals user name then some password else lookup name logins)
unfolding lookup assign
lookup-assign user password name [] = refl
lookup-assign user password name (entry ∷ logins) = elim (Bool-cases (equals entry.0 user)) [
  | inl e ↦ rw e (
      rw (equals_sound entry.0 user e)
        (elim (Bool-cases (equals user name)) [ inl n ↦ rw n refl | inr n ↦ rw n refl ]))
  | inr e ↦ rw e (elim (Bool-cases (equals entry.0 name)) [
    | inl n ↦
        (let apart : equals user name ≡ false = elim (Bool-cases (equals user name)) [
          | inl u ↦ cc (rw (equals_sound user name u) at e)
          | inr u ↦ u
        ] in
          rw (n, apart) refl)
    | inr n ↦ rw n (lookup-assign user password name logins)
  ])
]

-- The password that the fields of a line give to a name.
abbrev pub given : List ℕ → List (List ℕ) → Option (List ℕ)
given name [] = none
given name (user ∷ []) = none
given name (user ∷ password ∷ strings) = if equals user name then some password else none

abbrev or_else : Option (List ℕ) → Option (List ℕ) → Option (List ℕ)
or_else none q = q
or_else (some p) q = some p

abbrev latest : List ℕ → List (List ℕ) → Option (List ℕ)
latest name [] = none
latest name (line ∷ lines) = or_else (latest name lines) (given name (fields 44 line))

or_else_assoc : (p q r : Option (List ℕ)) → or_else p (or_else q r) ≡ or_else (or_else p q) r
or_else_assoc none q r = refl
or_else_assoc (some p) q r = refl

lookup-assign_strings :
    (name : List ℕ) (strings : List (List ℕ)) (logins : Logins)
    → lookup name (assign_strings strings logins)
      ≡ or_else (given name strings) (lookup name logins)
unfolding assign_strings
lookup-assign_strings name [] logins = refl
lookup-assign_strings name (user ∷ []) logins = refl
lookup-assign_strings name (user ∷ password ∷ strings) logins =
    lookup-assign user password name logins
    ∙ (elim (Bool-cases (equals user name)) [ inl e ↦ rw e refl | inr e ↦ rw e refl ])

lookup-read_lines :
    (name : List ℕ) (lines : List (List ℕ)) (logins : Logins)
    → lookup name (read_lines lines logins) ≡ or_else (latest name lines) (lookup name logins)
unfolding read_lines
lookup-read_lines name [] logins = refl
lookup-read_lines name (line ∷ lines) logins =
    lookup-read_lines name lines (assign_strings (string_split line (44 ∷ [])) logins)
    ∙ ap (or_else (latest name lines)) (
        lookup-assign_strings name (string_split line (44 ∷ [])) logins
        ∙ ap (λ f. or_else (given name f) (lookup name logins)) (string_split-fields 44 line))
    ∙ or_else_assoc (latest name lines) (given name (fields 44 line)) (lookup name logins)

-- The last line of the file that names the user, by its first field, gives the password as its
-- second.
abbrev pub LastGiven : List ℕ → List ℕ → List (List ℕ) → Type 0
LastGiven name password lines =
    (before : List (List ℕ)) × (line : List ℕ) × (after : List (List ℕ)) × ((lines
        ≡ before ++ line ∷ after)
      × (given name (fields 44 line) ≡ some password)
      × All (λ l. given name (fields 44 l) ≡ none) after)

latest-none :
    (name : List ℕ) (lines : List (List ℕ))
    → (latest name lines ≡ none) ↔ All (λ l. given name (fields 44 l) ≡ none) lines
latest-none name [] = (λ h. tt, λ h. refl)
latest-none name (line ∷ lines) = (
  λ h. elim (Option-cases (latest name lines)) [
    | inl e ↦ (rw e at h, (latest-none name lines).0 e)
    | inr (p, e) ↦ cc (rw e at h)
  ],
  λ h. rw ((latest-none name lines).1 h.1, h.0) refl,
)

latest-some :
    (name password : List ℕ) (lines : List (List ℕ))
    → latest name lines ≡ some password
    → LastGiven name password lines
latest-some name password [] h = cc
latest-some name password (line ∷ lines) h = elim (Option-cases (latest name lines)) [
  | inl e ↦ ([], line, lines, (refl, rw e at h, (latest-none name lines).0 e))
  | inr (p, e) ↦
      (let (before, l, after, (w, g, n)) = latest-some name password lines (e ∙ (rw e at h)) in
        (line ∷ before, l, after, (ap (◌∷◌ line) w, g, n)))
]

latest-given :
    (name password : List ℕ) (before : List (List ℕ)) (line : List ℕ) (after : List (List ℕ))
    → given name (fields 44 line) ≡ some password
    → All (λ l. given name (fields 44 l) ≡ none) after
    → latest name (before ++ line ∷ after) ≡ some password
latest-given name password [] line after g n = rw ((latest-none name after).1 n, g) refl
latest-given name password (b ∷ before) line after g n =
    rw (latest-given name password before line after g n) refl

accepts :
    (logins : Logins) (user stored password : List ℕ)
    → lookup user logins ≡ some stored
    → auth_user_password logins user password ≡ equals stored password
unfolding auth_user_password
accepts logins user stored password e = rw (e, auth_user_password) refl

rejects :
    (logins : Logins) (user password : List ℕ)
    → lookup user logins ≡ none
    → auth_user_password logins user password ≡ false
unfolding auth_user_password
rejects logins user password e = rw (e, auth_user_password) refl

-- With the file's lines read, the authorizer accepts a name and a password exactly when the last
-- line whose first field is the name has the password as its second field.
pub auth_user_password_lem :
    (lines : List (List ℕ)) (user password : List ℕ)
    → (auth_user_password (read_lines lines []) user password ≡ true)
      ↔ LastGiven user password lines
unfolding lookup
auth_user_password_lem lines user password = (
  λ h. elim (Option-cases (latest user lines)) [
    | inl e ↦
        (let r : auth_user_password (read_lines lines []) user password ≡ false =
            rejects (read_lines lines []) user password
              (lookup-read_lines user lines [] ∙ rw e refl) in
          cc)
    | inr (p, e) ↦
        (let r : auth_user_password (read_lines lines []) user password ≡ equals p password =
            accepts (read_lines lines []) user p password
              (lookup-read_lines user lines [] ∙ rw e refl) in
          latest-some user password lines (e ∙ ap some (equals_sound p password (sym r ∙ h))))
  ],
  λ (before, line, after, (w, g, n)).
      accepts (read_lines lines []) user password password (
        lookup-read_lines user lines []
        ∙ rw (w, latest-given user password before line after g n) refl)
      ∙ equals_refl password,
)

abbrev pub NoComma : List ℕ → Type 0
NoComma = All (λ x. (44 == x) ≡ false)

NoComma-before_first :
    (x : ℕ) (fs : List (List ℕ))
    → (44 == x) ≡ false
    → All NoComma fs
    → All NoComma (before_first x fs)
NoComma-before_first x [] e h = ((e, tt), tt)
NoComma-before_first x (f ∷ fs) e h = ((e, h.0), h.1)

NoComma-fields : (s : List ℕ) → All NoComma (fields 44 s)
NoComma-fields [] = (tt, tt)
NoComma-fields (x ∷ s) = elim (Bool-cases (44 == x)) [
  | inl e ↦ rw e (tt, NoComma-fields s)
  | inr e ↦ rw e (NoComma-before_first x (fields 44 s) e (NoComma-fields s))
]

NoComma-given :
    (name password : List ℕ) (fs : List (List ℕ))
    → All NoComma fs
    → given name fs ≡ some password
    → NoComma name × NoComma password
NoComma-given name password [] h g = cc
NoComma-given name password (user ∷ []) h g = cc
NoComma-given name password (user ∷ p ∷ fs) h g = elim (Bool-cases (equals user name)) [
  | inl e ↦ (
    rw (sym (equals_sound user name e)) h.0,
    rw (sym (some-injective p password (rw e at g))) h.1.0,
  )
  | inr e ↦ cc (rw e at g)
]

-- Whatever the file holds, no name and no password with a comma in it is accepted.
pub accepted_NoComma :
    (lines : List (List ℕ)) (user password : List ℕ)
    → auth_user_password (read_lines lines []) user password ≡ true
    → NoComma user × NoComma password
accepted_NoComma lines user password h =
    let (before, line, after, (w, g, n)) = (auth_user_password_lem lines user password).0 h in
    NoComma-given user password (fields 44 line) (NoComma-fields line) g
