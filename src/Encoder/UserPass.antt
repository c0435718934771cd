-- ===== src/Encoder/UserPass.antt =====
-- `encode` of a name and a password (SocksEncoder.cpp), whatever the buffer held.
use socks.Base.{
  ℕ, ◌+◌, ◌%◌, ◌≡◌, refl, List, [], ◌∷◌, ◌++◌, not, ◌||◌, arith, if◌then◌else◌, length, drop,
  append_assoc, length-append, length-drop,
}
use socks.Base.Buffer.{ok, refused, resize, store, store_range, ◌>>=◌}
use socks.Base.BufferLaws.{length-resize, store_range-append, store_range_last}
use socks.Types.{UserPassAuthMsg}
use socks.Encoder.{wrong_string, encode_user_pass}

-- The last two writes, behind a front `f` that ends with the name.
tail_writes :
    (f p q : List ℕ) (i j n : ℕ)
    → i ≡ length f
    → j ≡ length f + 1
    → length q ≡ length p + 1
    → (do buf ← store i n (f ++ q); store_range j p buf) ≡ ok (f ++ n ∷ p)
tail_writes f p q i j n hi hj h = rw (
  store_range-append f (n ∷ []) q i hi (omega arith),
  store_range_last (f ++ n ∷ []) p (drop 1 q) j (omega (arith, length-append f (n ∷ [])))
      (omega (arith, length-drop 1 q)),
  append_assoc f (n ∷ []) p,
)

module _ (u p : List ℕ) (q : List ℕ) (size : length q ≡ length u + length p + 3) where
  -- The five writes, behind `q` what is left of the buffer after the first two.
  writes :
      (do
        buf ← store 0 0x01 q
        buf ← store 1 (length u % 256) buf
        buf ← store_range 2 u buf
        buf ← store (length u + 2) (length p % 256) buf
        store_range (length u + 3) p buf)
      ≡ ok (0x01 ∷ length u % 256 ∷ (u ++ length p % 256 ∷ p))
  writes =
      rw
        (
          store_range-append [] (1 ∷ []) q 0 refl (omega arith),
          store_range-append (1 ∷ []) (length u % 256 ∷ []) (drop 1 q) 1 refl
              (omega (arith, length-drop 1 q)),
          store_range-append (1 ∷ length u % 256 ∷ []) u (drop 1 (drop 1 q)) 2 refl
              (omega (arith, length-drop 1 q, length-drop 1 (drop 1 q))),
        )
        (tail_writes (1 ∷ length u % 256 ∷ u) p (drop (length u) (drop 1 (drop 1 q))) (length u + 2)
          (length u + 3) (length p % 256) (omega arith) (omega arith)
          (omega (
            arith,
            length-drop 1 q,
            length-drop 1 (drop 1 q),
            length-drop (length u) (drop 1 (drop 1 q)),
          )))

-- A name or a password that is empty or longer than 255 is refused; else each stands behind its length.
pub encode_user_pass_lem :
    (m : UserPassAuthMsg) (buf : List ℕ)
    → encode_user_pass m buf ≡ (
        if not (wrong_string m.user || wrong_string m.password)
        then ok (0x01 ∷ length m.user % 256 ∷ (m.user ++ length m.password % 256 ∷ m.password))
        else refused)
unfolding encode_user_pass
encode_user_pass_lem m buf =
    rw
      (writes m.user m.password (resize (length m.user + length m.password + 3) buf)
        (length-resize (length m.user + length m.password + 3) buf))
      (ground arith)
