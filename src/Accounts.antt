-- ===== src/Accounts.antt =====
-- SocksLoginPassAuthorizer.cpp: the file of logins, read line by line into a map, and the check of a
-- name and a password. The file's lines, as `std::getline` gives them, are the input.
pub mod Logins
use socks.Base.{ℕ, List, [], ◌∷◌, Bool, true, false, ◌&&◌, ◌==◌, if◌then◌else◌, Option, none, some}
use socks.Split.{string_split}
use socks.Types.{auth_login_pass}

-- `==` of two strings.
unfoldable pub equals : List ℕ → List ℕ → Bool
equals [] [] = true
equals [] (y ∷ ys) = false
equals (x ∷ xs) [] = false
equals (x ∷ xs) (y ∷ ys) = x == y && equals xs ys

-- MapLoginPassword, as an association list.
abbrev pub Logins : Type 0
Logins = List (List ℕ × List ℕ)

-- `_userLoginPass.find(user)`
unfoldable pub lookup : List ℕ → Logins → Option (List ℕ)
unfolding equals
lookup user [] = none
lookup user (entry ∷ logins) =
    let later = lookup user logins in if equals entry.0 user then some entry.1 else later

-- `_userLoginPass[user] = password`
unfoldable pub assign : List ℕ → List ℕ → Logins → Logins
unfolding equals
assign user password [] = (user, password) ∷ []
assign user password (entry ∷ logins) =
    let later = assign user password logins in
    if equals entry.0 user then (entry.0, password) ∷ logins else entry ∷ later

unfoldable pub assign_strings : List (List ℕ) → Logins → Logins
unfolding assign
assign_strings [] logins = logins
assign_strings (user ∷ []) logins = logins
assign_strings (user ∷ password ∷ strings) logins = assign user password logins

-- The delimiter is a comma.
unfoldable pub read_lines : List (List ℕ) → Logins → Logins
unfolding string_split assign_strings
read_lines [] logins = logins
read_lines (line ∷ lines) logins =
    read_lines lines (assign_strings (string_split line (44 ∷ [])) logins)

-- `readFile` and the constructor, which throws (`none`) when the file cannot be opened.
unfoldable pub new_authorizer : Option (List (List ℕ)) → Option Logins
unfolding read_lines
new_authorizer none = none
new_authorizer (some lines) = some (read_lines lines [])

unfoldable pub is_method_supported : ℕ → Bool
is_method_supported method = method == auth_login_pass

unfoldable pub auth_user_password : Logins → List ℕ → List ℕ → Bool
unfolding lookup equals
auth_user_password logins user password = elim (lookup user logins) [
  | none ↦ false
  | some stored ↦ equals stored password
]
