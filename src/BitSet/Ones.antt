-- ===== src/BitSet/Ones.antt =====
-- The specification of lib/bitset.h: the bit at an index, and the number of set bits in a range.
use dumboss.Base.{
  ℕ, zero, suc, ◌+◌, ◌-◌, ◌*◌, ◌/◌, ◌%◌, ◌^◌, ◌≤◌, ◌<◌, ◌≡◌, refl, List, get_or, length, arith, ◌↔◌,
}
use dumboss.Base.Bits.{
  bit, bit-le-one, all_ones, eq-all_ones_of_bits, eq-zero_of_bits, bit-all_ones, bit-zero,
}
use dumboss.BitSet.{BitSet, popcount}

-- The count is an `s64`, the words are `u64`, and there is one for every index below the count.
pub record IsValid (bits : BitSet) : Type 0 where
  pub small : bits.count < 2 ^ 63
  pub enough : bits.count ≤ 64 * length bits.words
  pub fits : (i : ℕ) → get_or bits.words i 0 < 2 ^ 64

-- The bit at an index, as 0 or 1.
abbrev pub bit_at : List ℕ → ℕ → ℕ
bit_at words i = bit (get_or words (i / 64) 0) (i % 64)

-- How many of the `n` indices from `i` on have their bit set.
unfoldable pub ones : List ℕ → ℕ → ℕ → ℕ
ones words zero i = 0
ones words (suc n) i = bit_at words i + ones words n (i + 1)

pub ones-add :
    (words : List ℕ) (m n k i j : ℕ)
    → m + n ≡ k
    → i + m ≡ j
    → ones words k i ≡ ones words m i + ones words n j
unfolding ones
ones-add words zero n k i j e f =
    let ek : k ≡ n = omega arith in let ei : i ≡ j = omega arith in rw (ek, ei) (omega arith)
ones-add words (suc m) n zero i j e f = absurd (omega arith)
ones-add words (suc m) n (suc k) i j e f =
    omega (arith, ones-add words m n k (i + 1) j (omega arith) (omega arith))

pub ones-le : (words : List ℕ) (n i : ℕ) → ones words n i ≤ n
unfolding ones
ones-le words zero i = omega arith
ones-le words (suc n) i =
    omega (arith, bit-le-one (get_or words (i / 64) 0) (i % 64), ones-le words n (i + 1))

pub bit_at-le-one : (words : List ℕ) (k : ℕ) → bit_at words k ≤ 1
bit_at-le-one words k = bit-le-one (get_or words (k / 64) 0) (k % 64)

-- The count of a range, seen from one index inside it.
ones-split :
    (words : List ℕ) (n i k : ℕ)
    → i ≤ k
    → k < i + n
    → ones words n i
      ≡ ones words (k - i) i + (bit_at words k + ones words (n - (k - i) - 1) (k + 1))
unfolding ones
ones-split words n i k lo hi = omega (
  arith,
  ones-add words (k - i) (n - (k - i)) n i k (omega arith) (omega arith),
  ones-add words 1 (n - (k - i) - 1) (n - (k - i)) k (k + 1) (omega arith) refl,
)

ones-full_of_bits :
    (words : List ℕ) (n i : ℕ)
    → ((k : ℕ) → i ≤ k → k < i + n → bit_at words k ≡ 1)
    → ones words n i ≡ n
unfolding ones
ones-full_of_bits words zero i h = refl
ones-full_of_bits words (suc n) i h = omega (
  arith,
  h i (omega arith) (omega arith),
  ones-full_of_bits words n (i + 1) (λ k lo hi. h k (omega arith) (omega arith)),
)

ones-empty_of_bits :
    (words : List ℕ) (n i : ℕ)
    → ((k : ℕ) → i ≤ k → k < i + n → bit_at words k ≡ 0)
    → ones words n i ≡ 0
unfolding ones
ones-empty_of_bits words zero i h = refl
ones-empty_of_bits words (suc n) i h = omega (
  arith,
  h i (omega arith) (omega arith),
  ones-empty_of_bits words n (i + 1) (λ k lo hi. h k (omega arith) (omega arith)),
)

-- A range is full exactly when each of its bits is set.
pub ones-full_iff :
    (words : List ℕ) (n i : ℕ)
    → (ones words n i ≡ n) ↔ ((k : ℕ) → i ≤ k → k < i + n → bit_at words k ≡ 1)
ones-full_iff words n i = (
  λ e k lo hi. omega (
    arith,
    ones-split words n i k lo hi,
    ones-le words (k - i) i,
    bit_at-le-one words k,
    ones-le words (n - (k - i) - 1) (k + 1),
  ),
  ones-full_of_bits words n i,
)

-- It is empty exactly when none is.
pub ones-empty_iff :
    (words : List ℕ) (n i : ℕ)
    → (ones words n i ≡ 0) ↔ ((k : ℕ) → i ≤ k → k < i + n → bit_at words k ≡ 0)
ones-empty_iff words n i =
    (λ e k lo hi. omega (arith, ones-split words n i k lo hi), ones-empty_of_bits words n i)

-- The word `a` shifted right by `k`, a bit at a time.
halves : ℕ → ℕ → ℕ
halves a zero = a
halves a (suc k) = halves (a / 2) k

bit-halves : (a k : ℕ) → bit a k ≡ halves a k % 2
unfolding bit halves
bit-halves a zero = refl
bit-halves a (suc k) = bit-halves (a / 2) k

halves-suc : (a k : ℕ) → halves a (suc k) ≡ halves a k / 2
unfolding halves
halves-suc a zero = refl
halves-suc a (suc k) = halves-suc (a / 2) k

-- The bits of one word are counted by `popcount`.
ones-popcount_from :
    (words : List ℕ) (j n k : ℕ)
    → k + n ≤ 64
    → ones words n (64 * j + k) ≡ popcount n (halves (get_or words j 0) k)
unfolding ones popcount
ones-popcount_from words j zero k le = refl
ones-popcount_from words j (suc n) k le =
    let word : (64 * j + k) / 64 ≡ j = omega arith in
    let offset : (64 * j + k) % 64 ≡ k = omega arith in
    let next : 64 * j + k + 1 ≡ 64 * j + suc k = omega arith in
    rw (word, offset, next, ones-popcount_from words j n (suc k) (omega arith), bit-halves)
      (rw halves-suc)

pub ones-popcount :
    (words : List ℕ) (i j : ℕ) → i ≡ 64 * j → ones words 64 i ≡ popcount 64 (get_or words j 0)
unfolding halves
ones-popcount words i j e =
    let at : i ≡ 64 * j + 0 = omega arith in rw at (ones-popcount_from words j 64 0 (omega arith))

-- A word of 64 set bits is `~0`, and a word of none is 0.
pub ones-all_ones :
    (words : List ℕ) (i j : ℕ)
    → i ≡ 64 * j
    → get_or words j 0 < 2 ^ 64
    → (get_or words j 0 ≡ all_ones) ↔ (ones words 64 i ≡ 64)
ones-all_ones words i j e fits = (λ h. full h, λ h. word h)
  where
    full : get_or words j 0 ≡ all_ones → ones words 64 i ≡ 64
    full h = (ones-full_iff words 64 i).1 λ k lo hi.
        let at : k / 64 ≡ j = omega arith in rw (at, h) (bit-all_ones (k % 64) (omega arith))

    word : ones words 64 i ≡ 64 → get_or words j 0 ≡ all_ones
    word h = eq-all_ones_of_bits 64 _ fits λ k lt.
        let at : (64 * j + k) / 64 ≡ j = omega arith in
        let off : (64 * j + k) % 64 ≡ k = omega arith in
        rw (at, off) at ((ones-full_iff words 64 i).0 h (64 * j + k) (omega arith) (omega arith))

pub ones-zero_word :
    (words : List ℕ) (i j : ℕ)
    → i ≡ 64 * j
    → get_or words j 0 < 2 ^ 64
    → (get_or words j 0 ≡ 0) ↔ (ones words 64 i ≡ 0)
ones-zero_word words i j e fits = (λ h. empty h, λ h. word h)
  where
    empty : get_or words j 0 ≡ 0 → ones words 64 i ≡ 0
    empty h =
        (ones-empty_iff words 64 i).1
          λ k lo hi. let at : k / 64 ≡ j = omega arith in rw (at, h) (bit-zero (k % 64))

    word : ones words 64 i ≡ 0 → get_or words j 0 ≡ 0
    word h = eq-zero_of_bits 64 _ fits λ k lt.
        let at : (64 * j + k) / 64 ≡ j = omega arith in
        let off : (64 * j + k) % 64 ≡ k = omega arith in
        rw (at, off) at ((ones-empty_iff words 64 i).0 h (64 * j + k) (omega arith) (omega arith))
