-- ===== src/Base/Buffer.antt =====
-- Byte buffers (`VecByte`, a `std::vector<Byte>`) with the reads and writes that the sources make.
-- A read or write past the end, which C++ leaves undefined, is the outcome `out_of_bounds`.
use socks.Base.{
  ℕ, zero, suc, ◌+◌, ◌*◌, ◌/◌, ◌%◌, ◌<◌, List, [], ◌∷◌, ◌++◌, Option, none, some, leb, length,
  get_elem?, take, drop, if◌then◌else◌, Bool, true, false,
}

-- How a call of the codec ends: with a value (`return true`), with `return false`, with the
-- exception of a `std::get` on another alternative, or with an access out of range.
pub data Outcome {ℓ} (A : Type ℓ) : Type ℓ where
  ok : A → Outcome A
  refused : Outcome A
  bad_variant : Outcome A
  out_of_bounds : Outcome A

infixl 5 ◌>>=◌ ◌>>◌
abbrev pub ◌>>=◌ {ℓ κ} : {A : Type ℓ} {B : Type κ} → Outcome A → (A → Outcome B) → Outcome B
ok a >>= f = f a
refused >>= f = refused
bad_variant >>= f = bad_variant
out_of_bounds >>= f = out_of_bounds

abbrev pub ◌>>◌ {ℓ} : {B : Type ℓ} → Outcome (Unit {0}) → Outcome B → Outcome B
m >> k = m >>= λ _. k

-- `if (!b) return false;`
abbrev pub require : Bool → Outcome (Unit {0})
require true = ok tt
require false = refused

abbrev pub IsByte : ℕ → Type 0
IsByte b = b < 256

abbrev or_out {ℓ} : {A : Type ℓ} → Option A → Outcome A
or_out none = out_of_bounds
or_out (some a) = ok a

-- `buf[i]` as a value
abbrev pub load : List ℕ → ℕ → Outcome ℕ
load buf i = or_out (get_elem? buf i)

-- the bytes `[buf.data() + i, buf.data() + i + n)`
unfoldable pub load_range : List ℕ → ℕ → ℕ → Outcome (List ℕ)
load_range buf i n = if leb (i + n) (length buf) then ok (take n (drop i buf)) else out_of_bounds

-- `memcpy(buf.data() + i, src, n)` and, for one byte, `buf[i] = b`
unfoldable pub store_range : ℕ → List ℕ → List ℕ → Outcome (List ℕ)
store_range i src buf =
    if leb (i + length src) (length buf)
    then ok (take i buf ++ (src ++ drop (i + length src) buf))
    else out_of_bounds

abbrev pub store : ℕ → ℕ → List ℕ → Outcome (List ℕ)
store i b = store_range i (b ∷ [])

-- `buf.resize(n)`: cut off, or filled up with zeros
unfoldable pub resize : ℕ → List ℕ → List ℕ
resize zero buf = []
resize (suc n) [] = 0 ∷ resize n []
resize (suc n) (b ∷ buf) = b ∷ resize n buf

-- `memcpy` between two bytes and a `uint16_t` of a little-endian host
abbrev pub u16_of_bytes : ℕ → ℕ → ℕ
u16_of_bytes a b = a + 256 * b

abbrev pub bytes_of_u16 : ℕ → List ℕ
bytes_of_u16 n = n % 256 ∷ n / 256 % 256 ∷ []

abbrev pub load_u16 : List ℕ → ℕ → Outcome ℕ
load_u16 buf i = do a ← load buf i; b ← load buf (i + 1); ok (u16_of_bytes a b)
