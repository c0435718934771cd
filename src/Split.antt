-- ===== src/Split.antt =====
-- stringSplit of libratel/StringUtils.cpp. `std::string::find` and `substr` are written out; a
-- string is the list of its bytes.
pub mod Fields
use socks.Base.{
  ℕ, zero, suc, ◌+◌, ◌-◌, ◌∷◌, List, [], Bool, true, false, ◌&&◌, leb, ◌==◌, if◌then◌else◌, Option,
  none, some, length, take, drop,
}

starts_with : List ℕ → List ℕ → Bool
starts_with [] s = true
starts_with (d ∷ ds) [] = false
starts_with (d ∷ ds) (c ∷ s) = d == c && starts_with ds s

-- The first place of `delim`, from the start; `none` is `npos`.
unfoldable pub find_first : List ℕ → List ℕ → Option ℕ
unfolding starts_with
find_first delim [] = if starts_with delim [] then some 0 else none
find_first delim (c ∷ s) =
    let later = find_first delim s in
    if starts_with delim (c ∷ s)
    then some 0
    else elim later [ none ↦ none | some it ↦ some (suc it) ]

-- `str.find(delim, pos)`
unfoldable pub find : List ℕ → List ℕ → ℕ → Option ℕ
unfolding find_first
find str delim pos =
    if leb pos (length str)
    then elim (find_first delim (drop pos str)) [ none ↦ none | some it ↦ some (pos + it) ]
    else none

-- `str.substr(pos, n)`, for a `pos` that is not past the end.
substr : List ℕ → ℕ → ℕ → List ℕ
substr str pos n = take n (drop pos str)

-- The rounds of the loop that follow a delimiter found, each of which finds the next one; `npos -
-- prev` bytes are all that are left. The first argument bounds the rounds.
unfoldable pub split_rest : ℕ → List ℕ → List ℕ → ℕ → List (List ℕ)
unfolding find substr
split_rest zero str delim prev = []
split_rest (suc k) str delim prev = elim (find str delim prev) [
  | none ↦ substr str prev (length str) ∷ []
  | some it ↦
      (let piece = substr str prev (it - prev) in
        piece ∷ split_rest k str delim (prev + (length delim + length piece)))
]

unfoldable pub string_split : List ℕ → List ℕ → List (List ℕ)
unfolding find substr split_rest
string_split str delim = elim (find str delim 0) [
  | none ↦ substr str 0 (length str) ∷ []
  | some it ↦ substr str 0 it ∷ split_rest (length str + 1) str delim (it + length delim)
]
