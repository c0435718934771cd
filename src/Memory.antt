-- ===== src/Memory.antt =====
-- libratel/MemReader.cpp, libratel/MemWriter.cpp and libratel/Serialization.cpp: cursors over a
-- block of memory. The block is its bytes and a pointer into it its offset. A method that returns
-- false is `refused`: it leaves the cursor as it was, but for the reads of several pieces.
pub mod Bytes
pub mod Laws
pub mod Strings
use socks.Base.{
  ℕ, zero, suc, ◌+◌, ◌-◌, ◌*◌, ◌/◌, ◌%◌, ◌^◌, List, [], ◌∷◌, Bool, ltb, leb, ◌==◌, not, length,
  Option, some,
}
use socks.Base.Buffer.{Outcome, ok, ◌>>=◌, ◌>>◌, require, load_range, store_range}

-- A number as bytes, the lowest first, and back: what `memcpy` to and from a variable does.
abbrev pub bytes_of : ℕ → ℕ → List ℕ
bytes_of zero n = []
bytes_of (suc k) n = n % 256 ∷ bytes_of k (n / 256)

abbrev pub number_of : List ℕ → ℕ
number_of [] = 0
number_of (b ∷ bs) = b + 256 * number_of bs

pub record Cursor : Type 0 where
  pub memory : List ℕ
  pub pos : ℕ

-- The constructors of both classes.
abbrev pub new_cursor : List ℕ → Cursor
new_cursor memory = record { memory = memory; pos = 0 }

-- `(_pos - _data) + size > _size`, a sum of 64 bits.
unfoldable pub room : ℕ → Cursor → Bool
room size c = not (ltb (length c.memory) ((c.pos + size) % 2 ^ 64))

unfoldable pub read_data : ℕ → Cursor → Outcome (List ℕ × Cursor)
unfolding room load_range
read_data size c = do
  require (room size c)
  bytes ← load_range c.memory c.pos size
  ok (bytes, record c { pos = c.pos + size })

-- readUint8, readUint16, readUint32 and readUint64, by the number of bytes.
unfoldable pub read_number : ℕ → Cursor → Outcome (ℕ × Cursor)
unfolding read_data
read_number size c = do r ← read_data size c; ok (number_of r.0, r.1)

unfoldable pub set_pos : ℕ → Cursor → Outcome Cursor
set_pos pos c = do require (leb pos (length c.memory)); ok (record c { pos = pos })

unfoldable pub shift_from_start : ℕ → Cursor → Outcome Cursor
shift_from_start val c = do require (ltb val (length c.memory)); ok (record c { pos = val })

-- An `int64_t`.
pub data Distance : Type 0 where
  forward back : ℕ → Distance

-- A sum below zero is compared as a `size_t`, so as a number above every size.
unfoldable pub shift : Distance → Cursor → Outcome Cursor
shift (forward n) c = do
  require (ltb (c.pos + n) (length c.memory))
  ok (record c { pos = c.pos + n })
shift (back n) c = do
  require (leb n c.pos)
  require (ltb (c.pos - n) (length c.memory))
  ok (record c { pos = c.pos - n })

unfoldable pub get_remaining_size : Cursor → ℕ
get_remaining_size c = (length c.memory - c.pos) % 2 ^ 32

unfoldable pub get_offset : Cursor → ℕ
get_offset c = c.pos % 2 ^ 32

unfoldable pub write_data : List ℕ → Cursor → Outcome Cursor
unfolding room store_range
write_data bytes c = do
  require (room (length bytes) c)
  memory ← store_range c.pos bytes c.memory
  ok (record { memory = memory; pos = c.pos + length bytes })

-- writeUint8, writeUint16, writeUint32 and writeUint64, by the number of bytes.
unfoldable pub write_number : ℕ → ℕ → Cursor → Outcome Cursor
unfolding write_data
write_number size val c = write_data (bytes_of size val) c

-- The `read` overloads of Serialization.cpp for bool and std::string. (When the bytes of a string
-- are not there, the cursor of the source stays behind the count.)
unfoldable pub read_bool : Cursor → Outcome (Bool × Cursor)
unfolding read_number
read_bool c = do r ← read_number 1 c; ok (not (r.0 == 0), r.1)

unfoldable pub read_string : Cursor → Outcome (List ℕ × Cursor)
unfolding read_number read_data
read_string c = do r ← read_number 2 c; read_data r.0 r.1

-- The templates of Serialization.h, for any `read` of an element. An absent Optional is reported by
-- `false`, as is one that cannot be read.
unfoldable pub read_optional {ℓ} :
    {A : Type ℓ} → (Cursor → Outcome (A × Cursor)) → Cursor → Outcome (Option A × Cursor)
unfolding read_bool
read_optional read c = do r ← read_bool c; require r.0; t ← read r.1; ok (some t.0, t.1)

-- The rounds left of the loop over the elements.
read_elements {ℓ} :
    {A : Type ℓ} → (Cursor → Outcome (A × Cursor)) → ℕ → Cursor → Outcome (List A × Cursor)
read_elements read zero c = ok ([], c)
read_elements read (suc k) c = do
  r ← read c
  rest ← read_elements read k r.1
  ok (r.0 ∷ rest.0, rest.1)

unfoldable pub read_vector {ℓ} :
    {A : Type ℓ} → (Cursor → Outcome (A × Cursor)) → Cursor → Outcome (List A × Cursor)
unfolding read_number read_elements
read_vector read c = do r ← read_number 2 c; read_elements read r.0 r.1
