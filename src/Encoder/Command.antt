-- ===== src/Encoder/Command.antt =====
-- `encode` of a command (SocksEncoder.cpp), whatever the buffer held.
pub mod Resp
use socks.Base.{
  ℕ, ◌+◌, ◌-◌, ◌%◌, ◌≡◌, refl, ◌∙◌, List, [], ◌∷◌, ◌++◌, true, ◌&&◌, arith, ◌==◌, if◌then◌else◌,
  length, drop, append_assoc, length-append, length-drop,
}
use socks.Base.Buffer.{Outcome, ok, refused, resize, store, store_range, ◌>>=◌, bytes_of_u16}
use socks.Base.BufferLaws.{
  bind-ok, length-resize, store_range-append, store_range_last, resize-append,
}
use socks.Types.{
  VariantAddress, ipv4, domain, ipv6, is_address_type_exist, is_command_exist, version5,
}
use socks.Wire.{kind}
use socks.Encoder.{write_header, write_command_addr, encode_command}

-- The first four bytes, and two more that the buffer had.
write_header_lem :
    (v c k : ℕ) (buf : List ℕ)
    → (q : List ℕ) × (write_header v c k buf ≡ ok (v ∷ c ∷ 0 ∷ k ∷ q)) × (length q ≡ 2)
unfolding write_header
write_header_lem v c k buf =
    let q0 : List ℕ = resize 6 buf in
    let size : length q0 ≡ 6 = length-resize 6 buf in
    let q1 : List ℕ = drop 1 q0 in
    let q2 : List ℕ = drop 1 q1 in
    let q3 : List ℕ = drop 1 q2 in
    let q4 : List ℕ = drop 1 q3 in
    let s1 : length q1 ≡ 5 = omega (arith, length-drop 1 q0) in
    let s2 : length q2 ≡ 4 = omega (arith, length-drop 1 q1) in
    let s3 : length q3 ≡ 3 = omega (arith, length-drop 1 q2) in
    (
      q4,
      rw (
        store_range-append [] (v ∷ []) q0 0 refl (omega arith),
        store_range-append (v ∷ []) (c ∷ []) q1 1 refl (omega arith),
        store_range-append (v ∷ c ∷ []) (0 ∷ []) q2 2 refl (omega arith),
        store_range-append (v ∷ c ∷ 0 ∷ []) (k ∷ []) q3 3 refl (omega arith),
      ),
      omega (arith, length-drop 1 q3),
    )

-- What both kinds of command write for an address: the length of a domain is cut to a byte.
abbrev pub written : VariantAddress → List ℕ
written (ipv4 a) = a
written (domain d) = length d % 256 ∷ d
written (ipv6 a) = a

abbrev pub HasSize : VariantAddress → Type 0
HasSize (ipv4 a) = length a ≡ 4
HasSize (domain d) = Unit
HasSize (ipv6 a) = length a ≡ 16

-- An address of `n` bytes behind the header, in a buffer made long enough for it and a port.
write_array :
    (h a q : List ℕ) (n m : ℕ)
    → length h ≡ 4
    → length a ≡ n
    → m ≡ n + 6
    → (r : List ℕ) × (store_range 4 a (resize m (h ++ q)) ≡ ok ((h ++ a) ++ r)) × (length r ≡ 2)
write_array h a q n m hh ha hm =
    let r : List ℕ = resize (n + 2) q in
    let size : length r ≡ n + 2 = length-resize (n + 2) q in
    (
      drop (length a) r,
      rw (
        resize-append h q m (n + 2) (omega arith),
        store_range-append h a r 4 (omega arith) (omega arith),
      ),
      omega (arith, length-drop (length a) r),
    )

write_domain :
    (h d q : List ℕ) (m : ℕ)
    → length h ≡ 4
    → m ≡ 7 + length d
    → (r : List ℕ) × ((do buf ← store 4 (length d % 256) (resize m (h ++ q)); store_range 5 d buf)
        ≡ ok ((h ++ length d % 256 ∷ d) ++ r))
      × (length r ≡ 2)
write_domain h d q m hh hm =
    let r : List ℕ = resize (3 + length d) q in
    let size : length r ≡ 3 + length d = length-resize (3 + length d) q in
    (
      drop (length d) (drop 1 r),
      rw (
        resize-append h q m (3 + length d) (omega arith),
        store_range-append h (length d % 256 ∷ []) r 4 (omega arith) (omega arith),
        store_range-append (h ++ length d % 256 ∷ []) d (drop 1 r) 5
            (omega (arith, length-append h (length d % 256 ∷ []))) (omega (arith, length-drop 1 r)),
        append_assoc h (length d % 256 ∷ []) d,
      ),
      omega (arith, length-drop 1 r, length-drop (length d) (drop 1 r)),
    )

write_command_addr_lem :
    (h q : List ℕ) (addr : VariantAddress)
    → length h ≡ 4
    → HasSize addr
    → (r : List ℕ) × (write_command_addr (kind addr) addr (h ++ q) ≡ ok ((h ++ written addr) ++ r))
      × (length r ≡ 2)
unfolding write_command_addr
write_command_addr_lem h q (ipv4 a) hh s = write_array h a q 4 10 hh s refl
write_command_addr_lem h q (domain d) hh s = write_domain h d q (7 + length d) hh refl
write_command_addr_lem h q (ipv6 a) hh s = write_array h a q 16 22 hh s refl

write_port :
    (f r : List ℕ) (i port : ℕ)
    → i ≡ length f
    → length r ≡ 2
    → store_range i (bytes_of_u16 port) (f ++ r) ≡ ok (f ++ bytes_of_u16 port)
write_port f r i port hi hr = store_range_last f (bytes_of_u16 port) r i hi (omega arith)

abbrev port_step : ℕ → List ℕ → Outcome (List ℕ)
port_step port buf = store_range (length buf - 2) (bytes_of_u16 port) buf

command_body :
    (h q : List ℕ) (addr : VariantAddress) (port : ℕ)
    → length h ≡ 4
    → HasSize addr
    → (do buf ← write_command_addr (kind addr) addr (h ++ q); port_step port buf)
      ≡ ok ((h ++ written addr) ++ bytes_of_u16 port)
command_body h q addr port hh s =
    let (r, e, l) = write_command_addr_lem h q addr hh s in
    bind-ok (port_step port) e
    ∙ write_port (h ++ written addr) r (length ((h ++ written addr) ++ r) - 2) port
        (omega (arith, length-append (h ++ written addr) r)) l

abbrev header : ℕ → ℕ → ℕ → List ℕ
header v c k = v ∷ c ∷ 0 ∷ k ∷ []

command_writes :
    (v c : ℕ) (addr : VariantAddress) (port : ℕ) (buf : List ℕ)
    → HasSize addr
    → (do
      buf ← write_header v c (kind addr) buf
      buf ← write_command_addr (kind addr) addr buf
      port_step port buf)
      ≡ ok (v ∷ c ∷ 0 ∷ kind addr ∷ (written addr ++ bytes_of_u16 port))
command_writes v c addr port buf s =
    let (q, e, l) = write_header_lem v c (kind addr) buf in
    bind-ok (λ b. do b ← write_command_addr (kind addr) addr b; port_step port b) e
    ∙ command_body (header v c (kind addr)) q addr port refl s

kind_exists : (addr : VariantAddress) → is_address_type_exist (kind addr) ≡ true
unfolding is_address_type_exist
kind_exists (ipv4 a) = refl
kind_exists (domain d) = refl
kind_exists (ipv6 a) = refl

-- A command that names the type of its address is refused for its version or its code, or written.
pub encode_command_lem :
    (v c : ℕ) (addr : VariantAddress) (port : ℕ) (buf : List ℕ)
    → HasSize addr
    → encode_command
        (record { version = v; command = c; addr_type = kind addr; addr = addr; port = port })
        buf
      ≡ (if (v == version5) && is_command_exist c
          then ok (v ∷ c ∷ 0 ∷ kind addr ∷ (written addr ++ bytes_of_u16 port))
          else refused)
unfolding encode_command
encode_command_lem v c addr port buf s =
    rw (kind_exists addr, command_writes v c addr port buf s) (ground arith)
