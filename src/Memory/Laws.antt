-- ===== src/Memory/Laws.antt =====
-- The cursors of MemReader.cpp and MemWriter.cpp: bounds, and reading after writing.
use socks.Base.{
  ◌%◌, ◌⊎◌, false, ℕ, ◌+◌, ◌-◌, ◌^◌, ◌<◌, ◌≤◌, ◌≡◌, refl, ap, sym, ◌∙◌, List, ◌++◌, true, ltb, leb,
  if◌then◌else◌, length, take, drop, drop-append, take-append, length-append, length-take,
  length-drop, Bool-cases, inl, inr, arith,
}
use socks.Base.Buffer.{
  Outcome, ok, refused, bad_variant, out_of_bounds, ◌>>=◌, load_range, store_range,
}
use socks.Base.BufferLaws.{bind-ok}
use socks.Memory.{
  Cursor, room, read_data, read_number, set_pos, shift_from_start, Distance, forward, back, shift,
  write_data, write_number, bytes_of, number_of,
}
use socks.Memory.Bytes.{length-bytes_of, number_of-bytes_of}

-- The position is in the block or at its end.
abbrev pub InBlock : Cursor → Type 0
InBlock c = c.pos ≤ length c.memory

-- The operation returns false, or true with the cursor in its block.
abbrev pub StaysIn : Outcome Cursor → Type 0
StaysIn (ok c) = InBlock c
StaysIn refused = Unit
StaysIn bad_variant = ⊥
StaysIn out_of_bounds = ⊥

abbrev cursor_after : Outcome (List ℕ × Cursor) → Outcome Cursor
cursor_after o = do r ← o; ok r.1

set_pos-StaysIn : (pos : ℕ) (c : Cursor) → StaysIn (set_pos pos c)
unfolding set_pos
set_pos-StaysIn pos c = elim (Bool-cases (leb pos (length c.memory))) [
  | inl e ↦ rw e (ground (arith, e))
  | inr e ↦ rw e tt
]

shift_from_start-StaysIn : (val : ℕ) (c : Cursor) → StaysIn (shift_from_start val c)
unfolding shift_from_start
shift_from_start-StaysIn val c = elim (Bool-cases (ltb val (length c.memory))) [
  | inl e ↦ rw e (ground (arith, e))
  | inr e ↦ rw e tt
]

shift-StaysIn : (d : Distance) (c : Cursor) → StaysIn (shift d c)
unfolding shift
shift-StaysIn (forward n) c = elim (Bool-cases (ltb (c.pos + n) (length c.memory))) [
  | inl e ↦ rw e (ground (arith, e))
  | inr e ↦ rw e tt
]
shift-StaysIn (back n) c = elim (Bool-cases (leb n c.pos)) [
  | inl le ↦ (elim (Bool-cases (ltb (c.pos - n) (length c.memory))) [
    | inl e ↦ rw (le, e) (ground (arith, e))
    | inr e ↦ rw (le, e) tt
  ])
  | inr e ↦ rw e tt
]

-- Whether there is room, when no sum passes 64 bits.
pub room_lem :
    (size : ℕ) (c : Cursor)
    → c.pos + size < 2 ^ 64
    → room size c ≡ leb (c.pos + size) (length c.memory)
unfolding room
room_lem size c h = ground (arith, h)

read-StaysIn :
    (size : ℕ) (c : Cursor) → c.pos + size < 2 ^ 64 → StaysIn (cursor_after (read_data size c))
unfolding read_data load_range
read-StaysIn size c h = elim (Bool-cases (leb (c.pos + size) (length c.memory))) [
  | inl e ↦ rw (room_lem size c h, e) (ground (arith, e))
  | inr e ↦ rw (room_lem size c h, e) tt
]

-- The cursor after a write that has room.
abbrev after_write : List ℕ → Cursor → Cursor
after_write bytes c = record {
  memory = take c.pos c.memory ++ (bytes ++ drop (c.pos + length bytes) c.memory);
  pos = c.pos + length bytes;
}

write_data_lem :
    (bytes : List ℕ) (c : Cursor)
    → c.pos + length bytes < 2 ^ 64
    → write_data bytes c
      ≡ (if leb (c.pos + length bytes) (length c.memory) then ok (after_write bytes c) else refused)
unfolding write_data store_range
write_data_lem bytes c h = elim (Bool-cases (leb (c.pos + length bytes) (length c.memory))) [
  | inl e ↦ rw (room_lem (length bytes) c h, e) refl
  | inr e ↦ rw (room_lem (length bytes) c h, e) refl
]

length-after_write :
    (bytes : List ℕ) (c : Cursor)
    → c.pos + length bytes ≤ length c.memory
    → length (after_write bytes c).memory ≡ length c.memory
length-after_write bytes c h = omega (
  arith,
  length-append (take c.pos c.memory) (bytes ++ drop (c.pos + length bytes) c.memory),
  length-append bytes (drop (c.pos + length bytes) c.memory),
  length-take c.pos c.memory,
  length-drop (c.pos + length bytes) c.memory,
)

write-StaysIn :
    (bytes : List ℕ) (c : Cursor) → c.pos + length bytes < 2 ^ 64 → StaysIn (write_data bytes c)
write-StaysIn bytes c h = elim (Bool-cases (leb (c.pos + length bytes) (length c.memory))) [
  | inl e ↦
      (let le : c.pos + length bytes ≤ length c.memory = ground (arith, e) in
        rw (write_data_lem bytes c h, e) (omega (arith, length-after_write bytes c le, le)))
  | inr e ↦ rw (write_data_lem bytes c h, e) tt
]

-- The sum of the position and a size passes 2 ^ 64, and what is left of it is in the block.
abbrev pub Wraps : ℕ → Cursor → Type 0
Wraps size c = (2 ^ 64 ≤ c.pos + size) × ((c.pos + size) % 2 ^ 64 ≤ length c.memory)

-- Memory outside the block is touched exactly then.
abbrev pub LeavesOnly : Type 0 → Outcome Cursor → Type 0
LeavesOnly P o = (StaysIn o × ¬ P) ⊎ ((o ≡ out_of_bounds) × P)

-- Whether there is room, and whether there would be without the wrap: the three ways.
room_cases :
    (size : ℕ) (c : Cursor)
    → length c.memory < 2 ^ 64
    → (c.pos + size ≤ length c.memory)
      ⊎ (((room size c ≡ false) × ¬ Wraps size c)
          ⊎ ((room size c ≡ true) × (leb (c.pos + size) (length c.memory) ≡ false) × Wraps size c))
unfolding room
room_cases size c small = elim (Bool-cases (ltb (length c.memory) ((c.pos + size) % 2 ^ 64))) [
  | inl e ↦
      (let over : length c.memory < (c.pos + size) % 2 ^ 64 = ground (arith, e) in
        inr (inl (rw e refl, λ w. omega (arith, w.1, over))))
  | inr e ↦
      (let within : (c.pos + size) % 2 ^ 64 ≤ length c.memory = ground (arith, e) in
        elim (Bool-cases (leb (c.pos + size) (length c.memory))) [
          | inl f ↦ inl (ground (arith, f))
          | inr f ↦
              (let past : length c.memory < c.pos + size = ground (arith, f) in
                inr (inr (rw e refl, f, (omega (arith, past, within, small), within))))
        ])
]

not_wrapped :
    (size : ℕ) (c : Cursor)
    → length c.memory < 2 ^ 64
    → c.pos + size ≤ length c.memory
    → ¬ Wraps size c
not_wrapped size c small le w = omega (arith, small, le, w.0)

read-LeavesOnly :
    (size : ℕ) (c : Cursor)
    → length c.memory < 2 ^ 64
    → LeavesOnly (Wraps size c) (cursor_after (read_data size c))
unfolding read_data load_range
read-LeavesOnly size c small = elim (room_cases size c small) [
  | inl le ↦ inl (read-StaysIn size c (omega (arith, le, small)), not_wrapped size c small le)
  | inr (inl (e, apart)) ↦ inl (rw e tt, apart)
  | inr (inr (e, f, w)) ↦ inr (rw (e, f) refl, w)
]

write-LeavesOnly :
    (bytes : List ℕ) (c : Cursor)
    → length c.memory < 2 ^ 64
    → LeavesOnly (Wraps (length bytes) c) (write_data bytes c)
unfolding write_data store_range
write-LeavesOnly bytes c small = elim (room_cases (length bytes) c small) [
  | inl le ↦
      inl (write-StaysIn bytes c (omega (arith, le, small)), not_wrapped (length bytes) c small le)
  | inr (inl (e, apart)) ↦ inl (rw e tt, apart)
  | inr (inr (e, f, w)) ↦ inr (rw (e, f) refl, w)
]

-- For a block that is shorter than 2 ^ 64: a method that sets or shifts the position returns false, or
-- true with the position inside the block or at its end. So do a read and a write, which then touch no
-- memory outside the block, but for one case: where the sum of the position and the size is at
-- least 2 ^ 64 and what is left of it modulo 2 ^ 64 passes the check, they go outside the block.
pub cursor-LeavesOnly :
    (c : Cursor) (pos val size : ℕ) (d : Distance) (bytes : List ℕ)
    → length c.memory < 2 ^ 64
    → StaysIn (set_pos pos c)
      × StaysIn (shift_from_start val c)
      × StaysIn (shift d c)
      × LeavesOnly (Wraps size c) (do r ← read_data size c; ok r.1)
      × LeavesOnly (Wraps (length bytes) c) (write_data bytes c)
cursor-LeavesOnly c pos val size d bytes small = (
  set_pos-StaysIn pos c,
  shift_from_start-StaysIn val c,
  shift-StaysIn d c,
  read-LeavesOnly size c small,
  write-LeavesOnly bytes c small,
)

read_back :
    (bytes : List ℕ) (c : Cursor)
    → c.pos + length bytes < 2 ^ 64
    → c.pos + length bytes ≤ length c.memory
    → read_data (length bytes) (record { memory = (after_write bytes c).memory; pos = c.pos })
      ≡ ok (bytes, after_write bytes c)
unfolding read_data
read_back bytes c h le =
    let there : Cursor = record { memory = (after_write bytes c).memory; pos = c.pos } in
    let fits : leb (c.pos + length bytes) (length there.memory) ≡ true =
      ground (arith, length-after_write bytes c le, le) in
    let place : c.pos ≡ length (take c.pos c.memory) =
      omega (arith, length-take c.pos c.memory, le) in
    let front : List ℕ = take c.pos c.memory in
    let rest : List ℕ = drop (c.pos + length bytes) c.memory in
    let back : take (length bytes) (drop c.pos (front ++ (bytes ++ rest))) ≡ bytes =
      ap (λ n. take (length bytes) (drop n (front ++ (bytes ++ rest)))) place
      ∙ ap (take (length bytes)) (drop-append front (bytes ++ rest))
      ∙ take-append bytes rest in
    rw (room_lem (length bytes) there h, fits, back) refl

-- What was written is read back from where it was written, by as many bytes, and the reader ends
-- where the writer did. (The position and the size together are below 2 ^ 64.)
pub read-write_data :
    (bytes : List ℕ) (c w : Cursor)
    → c.pos + length bytes < 2 ^ 64
    → write_data bytes c ≡ ok w
    → read_data (length bytes) (record { memory = w.memory; pos = c.pos }) ≡ ok (bytes, w)
read-write_data bytes c w h e = elim (Bool-cases (leb (c.pos + length bytes) (length c.memory))) [
  | inl b ↦
      (let le : c.pos + length bytes ≤ length c.memory = ground (arith, b) in
        let same : ok (after_write bytes c) ≡ ok w =
          sym (write_data_lem bytes c h ∙ rw b refl) ∙ e in
        let q : w ≡ after_write bytes c = cc in rw q (read_back bytes c h le))
  | inr b ↦ (let none : refused ≡ ok w = sym (write_data_lem bytes c h ∙ rw b refl) ∙ e in cc)
]

-- A number below 256 ^ size that was written in `size` bytes is read back as itself, and the reader
-- ends where the writer did. (The position and the size together are below 2 ^ 64.)
pub read-write_number :
    (size val : ℕ) (c w : Cursor)
    → val < 256 ^ size
    → c.pos + size < 2 ^ 64
    → write_number size val c ≡ ok w
    → read_number size (record { memory = w.memory; pos = c.pos }) ≡ ok (val, w)
unfolding write_number read_number
read-write_number size val c w small h e =
    let l : length (bytes_of size val) ≡ size = length-bytes_of size val in
    let r : read_data size (record { memory = w.memory; pos = c.pos }) ≡ ok (bytes_of size val, w) =
      ap (λ n. read_data n (record { memory = w.memory; pos = c.pos })) (sym l)
      ∙ (read-write_data (bytes_of size val) c w (omega (arith, l, h)) e) in
    bind-ok (λ r. ok (number_of r.0, r.1)) r
    ∙ ap (λ n. ok (n, w)) (number_of-bytes_of size val small)
