-- ===== src/Tests/Memory.antt =====
-- Cursors over a block of eight bytes.
use socks.Base.{◌≡◌, refl, ℕ, List, [], ◌∷◌, arith}
use socks.Base.Buffer.{ok, store_range, ◌>>=◌}
use socks.Memory.{
  Cursor, write_number, read_number, room, new_cursor, back, read_data, write_data, set_pos, shift,
  shift_from_start,
}
use socks.Memory.Laws.{StaysIn, LeavesOnly, Wraps, cursor-LeavesOnly, read-write_number}

abbrev block : List ℕ
block = 0 ∷ 0 ∷ 0 ∷ 0 ∷ 0 ∷ 0 ∷ 0 ∷ 0 ∷ []

cursor-LeavesOnly_example :
    StaysIn (set_pos 8 (new_cursor block))
    × StaysIn (shift_from_start 9 (new_cursor block))
    × StaysIn (shift (back 1) (new_cursor block))
    × LeavesOnly (Wraps 3 (new_cursor block)) (do r ← read_data 3 (new_cursor block); ok r.1)
    × LeavesOnly (Wraps 2 (new_cursor block)) (write_data (1 ∷ 2 ∷ []) (new_cursor block))
cursor-LeavesOnly_example =
    cursor-LeavesOnly (new_cursor block) 8 9 3 (back 1) (1 ∷ 2 ∷ []) (omega arith)

abbrev written_block : Cursor
written_block = record { memory = 44 ∷ 1 ∷ 0 ∷ 0 ∷ 0 ∷ 0 ∷ 0 ∷ 0 ∷ []; pos = 2 }

three_hundred_written : write_number 2 300 (new_cursor block) ≡ ok written_block
unfolding write_number write_data room store_range
three_hundred_written = refl

read-write_number_example :
    read_number 2 (record { memory = 44 ∷ 1 ∷ 0 ∷ 0 ∷ 0 ∷ 0 ∷ 0 ∷ 0 ∷ []; pos = 0 })
    ≡ ok (300, written_block)
read-write_number_example =
    read-write_number 2 300 (new_cursor block) written_block (omega arith) (omega arith)
      three_hundred_written
