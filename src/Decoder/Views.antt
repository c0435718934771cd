-- ===== src/Decoder/Views.antt =====
-- What a buffer looks like to the decoders of SocksDecoder.cpp: malformed, or framed in pieces.
use socks.Base.{
  length-append, ℕ, ◌+◌, ◌<◌, ◌≡◌, ap, sym, ◌∙◌, inl, inr, List, [], ◌∷◌, ◌++◌, ◌&&◌, arith, leb,
  ◌==◌, if◌then◌else◌, length, Bool-cases, uncons, nil_of_length, ==_iff,
}
use socks.Base.Buffer.{ok, refused, u16_of_bytes}
use socks.Base.BufferLaws.{split_at}
use socks.Types.{
  VariantAddress, ipv4, domain, ipv6, UserPassAuthMsg, is_version_support, is_command_exist,
  is_address_type_exist,
}
use socks.Wire.{kind, address_bytes}
use socks.Decoder.{decode_user_pass, decode_command}
use socks.Decoder.UserPass.{decode_user_pass_short}
use socks.Decoder.Command.{
  decode_command_ipv4_size, decode_command_short, decode_command_other, decode_command_ipv4,
  decode_command_ipv6_size, decode_command_ipv6, decode_command_domain_size, decode_command_domain,
}

-- A buffer with a name and a password, as far as the decoder follows it.
pub data UserPassView (buf : List ℕ) : Type 0 where
  malformed : ((m : UserPassAuthMsg) → decode_user_pass buf m ≡ refused) → UserPassView buf
  framed :
      (f : ℕ) (u : List ℕ) (x : ℕ) (r : List ℕ)
      → buf ≡ f ∷ length u ∷ (u ++ x ∷ r)
      → UserPassView buf

too_short : (buf : List ℕ) (m : UserPassAuthMsg) → length buf < 3 → decode_user_pass buf m ≡ refused
unfolding decode_user_pass
too_short buf m h = ground arith

pub user_pass_view : (buf : List ℕ) → UserPassView buf
user_pass_view [] = UserPassView.malformed (λ m. too_short _ m (omega arith))
user_pass_view (f ∷ []) = UserPassView.malformed (λ m. too_short _ m (omega arith))
user_pass_view (f ∷ n ∷ t) = elim (Bool-cases (leb (length t) n)) [
  | inl short ↦ UserPassView.malformed (λ m. decode_user_pass_short f n t m (ground arith))
  | inr long ↦
      let (u, x, r, e, l) = split_at n t (ground arith) in
      UserPassView.framed f u x r
        (ap (◌∷◌ f) (ap (λ (k : ℕ). k ∷ t) (sym l) ∙ ap (◌∷◌ (length u)) e))
]

-- What is left of a list of known length behind its last two elements.
split_tail :
    (k : ℕ) (t : List ℕ)
    → length t ≡ k + 2
    → (a : List ℕ) × (p : ℕ) × (q : ℕ) × (t ≡ a ++ p ∷ q ∷ []) × (length a ≡ k)
split_tail k t h =
    let (a, p, r, e, l) = split_at k t (omega arith) in
    let (q, s, e', l') = uncons 0 r (omega (arith, ap length e, length-append a (p ∷ r))) in
    (a, p, q, e ∙ ap (λ r. a ++ p ∷ r) (e' ∙ ap (◌∷◌ q) (nil_of_length s l')), l)

-- The addresses that a command holds, whatever the length of a domain.
abbrev pub HasSize : VariantAddress → Type 0
HasSize (ipv4 a) = length a ≡ 4
HasSize (domain d) = Unit
HasSize (ipv6 a) = length a ≡ 16

abbrev pub command_frame : ℕ → ℕ → ℕ → VariantAddress → ℕ → ℕ → List ℕ
command_frame v c z addr p q = v ∷ c ∷ z ∷ kind addr ∷ (address_bytes addr ++ p ∷ q ∷ [])

pub data CommandView (buf : List ℕ) : Type 0 where
  malformed : decode_command buf ≡ refused → CommandView buf
  framed :
      (v c z : ℕ) (addr : VariantAddress) (p q : ℕ)
      → HasSize addr
      → buf ≡ command_frame v c z addr p q
      → CommandView buf

pub decode_command_frame :
    (v c z : ℕ) (addr : VariantAddress) (p q : ℕ)
    → HasSize addr
    → decode_command (command_frame v c z addr p q) ≡ (
        if is_version_support v && ((z == 0) && is_command_exist c)
        then ok (record {
          version = v;
          command = c;
          addr_type = kind addr;
          addr = addr;
          port = u16_of_bytes p q;
        })
        else refused)
decode_command_frame v c z (ipv4 a) p q h = decode_command_ipv4 v c z a p q h
decode_command_frame v c z (domain d) p q h = decode_command_domain v c z d p q
decode_command_frame v c z (ipv6 a) p q h = decode_command_ipv6 v c z a p q h

view_ipv4 : (v c z : ℕ) (t : List ℕ) → CommandView (v ∷ c ∷ z ∷ 1 ∷ t)
view_ipv4 v c z t = elim (Bool-cases (length t == 6)) [
  | inl fits ↦
      let (a, p, q, e, l) = split_tail 4 t (ground arith) in
      CommandView.framed v c z (ipv4 a) p q l (ap (λ s. v ∷ c ∷ z ∷ 1 ∷ s) e)
  | inr off ↦ CommandView.malformed (decode_command_ipv4_size v c z t (ground arith))
]

view_ipv6 : (v c z : ℕ) (t : List ℕ) → CommandView (v ∷ c ∷ z ∷ 4 ∷ t)
view_ipv6 v c z t = elim (Bool-cases (length t == 18)) [
  | inl fits ↦
      let (a, p, q, e, l) = split_tail 16 t (ground arith) in
      CommandView.framed v c z (ipv6 a) p q l (ap (λ s. v ∷ c ∷ z ∷ 4 ∷ s) e)
  | inr off ↦ CommandView.malformed (decode_command_ipv6_size v c z t (ground arith))
]

view_domain : (v c z : ℕ) (t : List ℕ) → CommandView (v ∷ c ∷ z ∷ 3 ∷ t)
view_domain v c z [] = CommandView.malformed (decode_command_short _ (omega arith))
view_domain v c z (n ∷ t) = elim (Bool-cases (length t == n + 2)) [
  | inl fits ↦
      let (d, p, q, e, l) = split_tail n t (ground arith) in
      CommandView.framed v c z (domain d) p q tt
        (ap (λ s. v ∷ c ∷ z ∷ 3 ∷ s) (ap (λ (k : ℕ). k ∷ t) (sym l) ∙ ap (◌∷◌ (length d)) e))
  | inr off ↦ CommandView.malformed (decode_command_domain_size v c z n t (ground arith))
]

pub command_view : (buf : List ℕ) → CommandView buf
command_view [] = CommandView.malformed (decode_command_short _ (omega arith))
command_view (v ∷ []) = CommandView.malformed (decode_command_short _ (omega arith))
command_view (v ∷ c ∷ []) = CommandView.malformed (decode_command_short _ (omega arith))
command_view (v ∷ c ∷ z ∷ []) = CommandView.malformed (decode_command_short _ (omega arith))
command_view (v ∷ c ∷ z ∷ k ∷ t) = elim (Bool-cases (k == 1)) [
  | inl e ↦ rw ((==_iff k 1).0 e) (view_ipv4 v c z t)
  | inr no_v4 ↦ elim (Bool-cases (k == 3)) [
    | inl e ↦ rw ((==_iff k 3).0 e) (view_domain v c z t)
    | inr no_domain ↦ elim (Bool-cases (k == 4)) [
      | inl e ↦ rw ((==_iff k 4).0 e) (view_ipv6 v c z t)
      | inr no_v6 ↦
          CommandView.malformed
            (decode_command_other v c z k t (unfold is_address_type_exist in ground arith))
    ]
  ]
]
