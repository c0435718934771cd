-- ===== src/Decoder/UserPass.antt =====
-- `decode` of a name and a password (SocksDecoder.cpp), for every buffer.
use socks.Base.{
  ℕ, ◌+◌, ◌≤◌, ◌≡◌, refl, List, [], ◌∷◌, ◌++◌, ◌&&◌, arith, ◌==◌, if◌then◌else◌, length, get_elem?,
  get_elem?-append, length-append, some, append-nil, append_assoc, Bool-cases, ==_iff, inl, inr, ap,
}
use socks.Base.Buffer.{ok, refused, load_range}
use socks.Base.BufferLaws.{load_range-append}
use socks.Types.{UserPassAuthMsg}
use socks.Decoder.{decode_user_pass}

-- A buffer that ends before the length of the password.
pub decode_user_pass_short :
    (f n : ℕ) (t : List ℕ) (m : UserPassAuthMsg)
    → length t ≤ n
    → decode_user_pass (f ∷ n ∷ t) m ≡ refused
unfolding decode_user_pass
decode_user_pass_short f n [] m h = ground arith
decode_user_pass_short f n (x ∷ t) m h = ground arith

shape :
    (f : ℕ) (u : List ℕ) (n : ℕ) (p : List ℕ)
    → f ∷ length u ∷ (u ++ n ∷ p) ≡ (f ∷ length u ∷ (u ++ n ∷ [])) ++ (p ++ [])
shape f u n p = simp (append_assoc, append-nil)

module _ (f : ℕ) (u : List ℕ) (n : ℕ) (p : List ℕ) where
  name_read : load_range (f ∷ length u ∷ (u ++ n ∷ p)) 2 (length u) ≡ ok u
  name_read = load_range-append (f ∷ length u ∷ []) u (n ∷ p) 2 (length u) refl refl

  count_read : get_elem? (f ∷ length u ∷ (u ++ n ∷ p)) (2 + length u) ≡ some n
  count_read = get_elem?-append (f ∷ length u ∷ u) (n ∷ p) 0 (2 + length u) (omega arith)

  password_read : load_range (f ∷ length u ∷ (u ++ n ∷ p)) (3 + length u) (length p) ≡ ok p
  password_read = rw (shape f u n p) (
      load_range-append (f ∷ length u ∷ (u ++ n ∷ [])) p [] (3 + length u) (length p)
        (omega (arith, length-append u (n ∷ []))) refl)

  -- Any other buffer: a byte, a name behind its length, a length, and what follows.
  pub decode_user_pass_lem :
      (m : UserPassAuthMsg)
      → decode_user_pass (f ∷ length u ∷ (u ++ n ∷ p)) m ≡ (
          if (f == 0x01) && (length p == n)
          then ok (record { user = m.user ++ u; password = m.password ++ p })
          else refused)
  unfolding decode_user_pass
  decode_user_pass_lem m =
      rw (name_read, count_read, length-append u (n ∷ p))
        (elim (Bool-cases (length p == n)) [
          | inl fits ↦
              rw (fits, ← (==_iff (length p) n).0 fits)
                (ground (
                  arith,
                  ap (λ (k : ℕ). load_range (f ∷ length u ∷ (u ++ n ∷ p)) (3 + length u) k)
                      ((==_iff (length p) n).0 fits),
                  password_read,
                ))
          | inr off ↦ ground (arith, off)
        ])
