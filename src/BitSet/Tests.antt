-- ===== src/BitSet/Tests.antt =====
-- Runs of the lib/bitset.h theorems on a set of 100 indices in two words.
use dumboss.Base.{
  ℕ, zero, suc, ◌-◌, ◌^◌, ◌≤◌, ◌<◌, ◌≡◌, ◌↔◌, Bool, true, ◌&&◌, [], ◌∷◌, leb, get_or, arith,
  if◌then◌else◌, ok, panic,
}
use dumboss.BitSet.{BitSet, get_count, get_all, set_range}
use dumboss.BitSet.Ones.{IsValid, bit_at, ones}
use dumboss.BitSet.Query.{get_count-ones, get_all_iff}
use dumboss.BitSet.Update.{Writes, set_range-Writes}

abbrev two_words : BitSet
two_words = record { words = 0xff00_0000_0000_00f0 ∷ 0xf ∷ []; count = 100 }

two_words-fits : (i : ℕ) → get_or two_words.words i 0 < 2 ^ 64
two_words-fits zero = omega arith
two_words-fits (suc zero) = omega arith
two_words-fits (suc (suc i)) = omega arith

two_words-IsValid : IsValid two_words
two_words-IsValid = record { small = omega arith; enough = omega arith; fits = two_words-fits }

-- One word for 100 indices.
abbrev short : BitSet
short = record { words = 0 ∷ []; count = 100 }

get_count-ones_example :
    get_count two_words 5 99
    ≡ (if leb 5 99 && leb 99 100 then ok (ones two_words.words (99 - 5) 5) else panic)
get_count-ones_example = get_count-ones two_words-IsValid 5 99

get_all_iff_example :
    (b : Bool) × (get_all two_words 56 68 ≡ ok b)
    × ((b ≡ true) ↔ ((k : ℕ) → 56 ≤ k → k < 68 → bit_at two_words.words k ≡ 1))
get_all_iff_example = get_all_iff two_words-IsValid 56 68 (omega arith) (omega arith)

set_range-Writes_example : Writes two_words 0 70 true (set_range two_words 0 70 true)
set_range-Writes_example = set_range-Writes 0 70 true two_words-IsValid (omega arith) (omega arith)
