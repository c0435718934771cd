-- ===== src/Memory/Strings.antt =====
-- The strings of Serialization.cpp.
use socks.Base.{
  ℕ, ◌+◌, ◌^◌, ◌<◌, ◌≡◌, refl, ap, ◌∙◌, List, ◌++◌, true, leb, length, length-append, take, drop,
  drop-append, take-append, append_assoc, arith,
}
use socks.Base.Buffer.{ok}
use socks.Base.BufferLaws.{bind-ok}
use socks.Memory.{Cursor, read_data, read_number, read_string, bytes_of, number_of}
use socks.Memory.Bytes.{number_of-bytes_of}
use socks.Memory.Laws.{room_lem}

abbrev cursor : List ℕ → ℕ → Cursor
cursor memory pos = record { memory = memory; pos = pos }

read_data-append :
    (p a q : List ℕ) (n pos : ℕ)
    → n ≡ length a
    → pos ≡ length p
    → length (p ++ (a ++ q)) < 2 ^ 64
    → read_data n (cursor (p ++ (a ++ q)) pos) ≡ ok (a, cursor (p ++ (a ++ q)) (pos + n))
unfolding read_data
read_data-append p a q n pos hn hp h =
    let total : length (p ++ (a ++ q)) ≡ length p + (length a + length q) =
      omega (arith, length-append p (a ++ q), length-append a q) in
    let below : pos + n < 2 ^ 64 = omega (arith, hn, hp, h, total) in
    let fits : leb (pos + n) (length (p ++ (a ++ q))) ≡ true = ground (arith, total, hn, hp) in
    let back : take n (drop pos (p ++ (a ++ q))) ≡ a =
      ap (λ k. take n (drop k (p ++ (a ++ q)))) hp
      ∙ ap (take n) (drop-append p (a ++ q))
      ∙ ap (λ k. take k (a ++ q)) hn
      ∙ take-append a q in
    rw (room_lem n (cursor (p ++ (a ++ q)) pos) below, fits, back) refl

-- A string of fewer than 65536 bytes, stored anywhere in a block as its size in two bytes and its
-- bytes, is read as itself, and the cursor ends behind it.
pub read_string_lem :
    (p s q : List ℕ)
    → length s < 65536
    → length (p ++ (bytes_of 2 (length s) ++ (s ++ q))) < 2 ^ 64
    → read_string (record { memory = p ++ (bytes_of 2 (length s) ++ (s ++ q)); pos = length p })
      ≡ ok (
        s,
        record { memory = p ++ (bytes_of 2 (length s) ++ (s ++ q)); pos = length p + 2 + length s },
      )
unfolding read_string read_number
read_string_lem p s q small h =
    let size : List ℕ = bytes_of 2 (length s) in
    let count : read_number 2 (cursor (p ++ (size ++ (s ++ q))) (length p))
        ≡ ok (length s, cursor (p ++ (size ++ (s ++ q))) (length p + 2)) =
      bind-ok (λ r. ok (number_of r.0, r.1))
        (read_data-append p size (s ++ q) 2 (length p) refl refl h)
      ∙ ap (λ n. ok (n, cursor (p ++ (size ++ (s ++ q))) (length p + 2)))
          (number_of-bytes_of 2 (length s) (omega (arith, small))) in
    let same : (p ++ size) ++ (s ++ q) ≡ p ++ (size ++ (s ++ q)) = append_assoc p size (s ++ q) in
    bind-ok (λ r. read_data r.0 r.1) count
    ∙ rw⁻¹ same (
        read_data-append (p ++ size) s q (length s) (length p + 2) refl
          (omega (arith, length-append p size)) (rw same h))
