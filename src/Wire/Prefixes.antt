-- ===== src/Wire/Prefixes.antt =====
-- Where a message of Wire ends is told by its own bytes.
use socks.Base.{
  sym, ◌∙◌, ◌+◌, append_assoc, ℕ, ◌≡◌, List, [], ◌∷◌, ◌++◌, arith, length, length-append,
  nil_of_length,
}
use socks.Base.Buffer.{bytes_of_u16}
use socks.Types.{VariantAddress, ipv4, domain, ipv6, GreetingMsg, UserPassAuthMsg, CommandMsg}
use socks.Wire.{
  kind, address_bytes, IsAddress, greeting_wire, user_pass_wire, IsCommand, command_wire,
}

nothing_left : (xs ys more : List ℕ) → ys ++ more ≡ xs → length xs ≡ length ys → more ≡ []
nothing_left xs ys more h e =
    let sum : length xs ≡ length ys + length more = rw h at (length-append ys more) in
    nil_of_length more (omega (arith, sum, e))

pub greeting_ends :
    (m m' : GreetingMsg) (more : List ℕ) → greeting_wire m ++ more ≡ greeting_wire m' → more ≡ []
greeting_ends m m' more h = nothing_left m'.auth_methods m.auth_methods more (cc (h)) (cc (h))

-- The same field, then the same rest.
field_ends : (u u' r r' : List ℕ) → length u ≡ length u' → u ++ r ≡ u' ++ r' → r ≡ r'
field_ends [] [] r r' e h = h
field_ends [] (x ∷ u') r r' e h = absurd (omega (arith, e))
field_ends (x ∷ u) [] r r' e h = absurd (omega (arith, e))
field_ends (x ∷ u) (y ∷ u') r r' e h = field_ends u u' r r' (omega (arith, e)) (cc (h))

pub user_pass_ends :
    (m m' : UserPassAuthMsg) (more : List ℕ)
    → user_pass_wire m ++ more ≡ user_pass_wire m'
    → more ≡ []
user_pass_ends m m' more h =
    let after : length m.password ∷ (m.password ++ more) ≡ length m'.password ∷ m'.password =
      field_ends m.user m'.user _ _ (cc (h))
        (sym (append_assoc m.user (length m.password ∷ m.password) more) ∙ cc (h)) in
    nothing_left m'.password m.password more (cc (after)) (cc (after))

address_ends :
    (a a' : VariantAddress) (r r' : List ℕ)
    → IsAddress a
    → IsAddress a'
    → kind a ≡ kind a'
    → address_bytes a ++ r ≡ address_bytes a' ++ r'
    → r ≡ r'
address_ends (ipv4 a) (ipv4 a') r r' s s' k h = field_ends a a' r r' (s ∙ sym s') h
address_ends (domain a) (domain a') r r' s s' k h = field_ends a a' r r' (cc (h)) (cc (h))
address_ends (ipv6 a) (ipv6 a') r r' s s' k h = field_ends a a' r r' (s ∙ sym s') h
address_ends (ipv4 a) (domain a') r r' s s' k h = absurd (omega (arith, k))
address_ends (ipv4 a) (ipv6 a') r r' s s' k h = absurd (omega (arith, k))
address_ends (domain a) (ipv4 a') r r' s s' k h = absurd (omega (arith, k))
address_ends (domain a) (ipv6 a') r r' s s' k h = absurd (omega (arith, k))
address_ends (ipv6 a) (ipv4 a') r r' s s' k h = absurd (omega (arith, k))
address_ends (ipv6 a) (domain a') r r' s s' k h = absurd (omega (arith, k))

pub command_ends :
    (m m' : CommandMsg) (more : List ℕ)
    → IsCommand m
    → IsCommand m'
    → command_wire m ++ more ≡ command_wire m'
    → more ≡ []
command_ends m m' more g g' h =
    let port : bytes_of_u16 m.port ++ more ≡ bytes_of_u16 m'.port =
      address_ends m.addr m'.addr _ _ g.addr g'.addr (cc (h))
        (sym (append_assoc (address_bytes m.addr) (bytes_of_u16 m.port) more) ∙ cc (h)) in
    cc (port)
