-- ===== src/BitSet/Count.antt =====
-- How a write to a range of a bit set changes the number of its set bits.
use dumboss.Base.{ℕ, zero, suc, ◌+◌, ◌-◌, ◌≤◌, ◌<◌, ◌≡◌, refl, true, false, List, arith}
use dumboss.BitSet.{BitSet}
use dumboss.BitSet.Ones.{bit_at, ones, ones-add, ones-full_iff, ones-empty_iff}
use dumboss.BitSet.Update.{Written}

ones-same :
    (a b : List ℕ) (n i : ℕ)
    → ((k : ℕ) → i ≤ k → k < i + n → bit_at a k ≡ bit_at b k)
    → ones a n i ≡ ones b n i
unfolding ones
ones-same a b zero i h = refl
ones-same a b (suc n) i h = omega (
  arith,
  h i (omega arith) (omega arith),
  ones-same a b n (i + 1) (λ k lo hi. h k (omega arith) (omega arith)),
)

ones-split_three :
    (a : List ℕ) (lo count n : ℕ)
    → lo + count ≤ n
    → ones a n 0 ≡ ones a lo 0 + (ones a count lo + ones a (n - (lo + count)) (lo + count))
ones-split_three a lo count n le = omega (
  arith,
  ones-add a lo (n - lo) n 0 lo (omega arith) (omega arith),
  ones-add a count (n - (lo + count)) (n - lo) lo (lo + count) (omega arith) (omega arith),
)

module _ {before after : BitSet} (lo count n : ℕ) (le : lo + count ≤ n) where
  -- A range that was full is cleared.
  pub ones-cleared :
      Written before after lo (lo + count) false
      → ((k : ℕ) → lo ≤ k → k < lo + count → bit_at before.words k ≡ 1)
      → ones after.words n 0 + count ≡ ones before.words n 0
  ones-cleared w full = omega (
    arith,
    ones-split_three before.words lo count n le,
    ones-split_three after.words lo count n le,
    (ones-full_iff before.words count lo).1 full,
    (ones-empty_iff after.words count lo).1 (λ k from to. let here = w.bits k in ground arith),
    ones-same after.words before.words lo 0 (λ k from to. let here = w.bits k in ground arith),
    ones-same after.words before.words (n - (lo + count)) (lo + count)
        (λ k from to. let here = w.bits k in ground arith),
  )

  -- A range that was empty is set.
  pub ones-marked :
      Written before after lo (lo + count) true
      → ((k : ℕ) → lo ≤ k → k < lo + count → bit_at before.words k ≡ 0)
      → ones after.words n 0 ≡ ones before.words n 0 + count
  ones-marked w empty = omega (
    arith,
    ones-split_three before.words lo count n le,
    ones-split_three after.words lo count n le,
    (ones-empty_iff before.words count lo).1 empty,
    (ones-full_iff after.words count lo).1 (λ k from to. let here = w.bits k in ground arith),
    ones-same after.words before.words lo 0 (λ k from to. let here = w.bits k in ground arith),
    ones-same after.words before.words (n - (lo + count)) (lo + count)
        (λ k from to. let here = w.bits k in ground arith),
  )
