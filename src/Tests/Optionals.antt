-- ===== src/Tests/Optionals.antt =====
-- Optionals of Optional.h that hold numbers; a moved number is 0.
use socks.Base.{ℕ, ◌≡◌, [], ◌∷◌, List, none, some, ◌==◌, ltb, false, refl}
use socks.Base.Buffer.{ok}
use socks.Optional.Lifetimes.{
  Operation, copied, moved_in, swapped, given, emplaced, other_way, run, both, run_meant, Ends,
  represent, optionals_used,
}
use socks.Optional.Comparing.{at_most_value}

abbrev moved_number : ℕ → ℕ
moved_number n = 0

abbrev steps : List (Operation ℕ)
steps = emplaced 3 ∷ given 4 ∷ swapped ∷ other_way copied ∷ emplaced 5 ∷ moved_in ∷ []

optionals_used_example :
    (run moved_number steps (both moved_number (none, none))
      ≡ ok (both moved_number (run_meant moved_number steps (none, none))))
    × Ends moved_number (represent (run_meant moved_number steps (none, none)).0)
    × Ends moved_number (represent (run_meant moved_number steps (none, none)).1)
optionals_used_example = optionals_used moved_number steps none none

three_not_at_most_four : at_most_value ◌==◌ ltb (represent (some 3)) 4 ≡ ok false
unfolding at_most_value
three_not_at_most_four = refl
