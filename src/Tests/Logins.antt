-- ===== src/Tests/Logins.antt =====
-- Two orders of the same file of logins, for SocksLoginPassAuthorizer.cpp.
use mathlib.Core.HLevel.{¬_prop}
use mathlib.Core.Logic.Or
use mathlib.Core.List.{Pairwise, Mem, eq-or-mem_of_mem-cons, not-mem-nil}
use mathlib.Core.List.Perm
use socks.Base.{ℕ, ◌≡◌, ◌≢◌, ◌∙◌, ap, List, [], ◌∷◌}
use socks.Accounts.{read_lines, auth_user_password}
use socks.Accounts.Logins.Table.{first_field, OneEach, auth_user_password-perm}

-- The name 1 with the password 7, the name 2 with the password 8.
abbrev first_line : List ℕ
first_line = 1 ∷ 44 ∷ 7 ∷ []

abbrev second_line : List ℕ
second_line = 2 ∷ 44 ∷ 8 ∷ []

first_apart :
    (line : List ℕ) → Mem line (second_line ∷ []) → first_field first_line ≢ first_field line
first_apart line m =
    Or.elim ¬_prop (eq-or-mem_of_mem-cons m)
      (λ e h.
        let f : first_field first_line ≡ first_field second_line = h ∙ ap first_field e in cc (f))
      (λ n. absurd (not-mem-nil n))

both_lines : OneEach (first_line ∷ second_line ∷ [])
both_lines =
    Pairwise.cons first_apart (Pairwise.cons (λ line m. absurd (not-mem-nil m)) Pairwise.nil)

auth_user_password-perm_example :
    auth_user_password (read_lines (first_line ∷ second_line ∷ []) []) (2 ∷ []) (8 ∷ [])
    ≡ auth_user_password (read_lines (second_line ∷ first_line ∷ []) []) (2 ∷ []) (8 ∷ [])
auth_user_password-perm_example =
    auth_user_password-perm (first_line ∷ second_line ∷ []) (second_line ∷ first_line ∷ []) (2 ∷ [])
      (8 ∷ []) (Perm.swap second_line first_line []) both_lines
