-- ===== src/Memory/Layout.antt =====
-- How the free blocks of kern/memory.c lie: the invariant of the buddy allocator.
use native.Mathlib.Nat.{one-le-pow, mul-mod_right, mul-div_cancel_left}
use dumboss.Base.{
  suc, update, ℕ, ◌+◌, ◌*◌, ◌/◌, ◌%◌, ◌^◌, ◌≤◌, ◌<◌, ◌≡◌, ◌≢◌, ◌⊎◌, refl, sym, ap, ◌∙◌, inl, inr,
  Bool, true, false, ◌||◌, ◌&&◌, List, ◌==◌, ==_iff, if◌then◌else◌, Bool-cases, length, arith,
}
use dumboss.BitSet.{BitSet}
use dumboss.BitSet.Ones.{IsValid, bit_at, ones}
use dumboss.BitSet.Update.{of_bool}
use dumboss.Memory.{Mem, class_count, page_size}
use dumboss.Memory.Chain.{has}
use dumboss.Memory.Heap.{block_of}
use dumboss.Memory.Total.{total}
use dumboss.Memory.Blocks.{Keeps}
use dumboss.Memory.Split.{IsTaken}
use dumboss.Memory.Align.{aligned_inside, pow_next}

-- The block of a page is on the list of a class.
abbrev pub on : (ℕ → List ℕ) → ℕ → ℕ → Bool
on xs d p = has (block_of p) (xs d)

-- Free lists, buddy bits, and the bits of usable and of free pages, for memory of `pages` pages.
-- Every free block is aligned for its class and inside the memory; no two share a page; two buddies
-- are never both free, and their bit tells whether one is; and a page is free exactly where a free
-- block covers it.
pub record Layout (pages : ℕ) (xs : ℕ → List ℕ) (bs : ℕ → BitSet) (usable free : ℕ → ℕ)
    : Type 0 where
  pub blocks :
      (d a : ℕ)
      → has a (xs d) ≡ true
      → (p : ℕ) × (a ≡ block_of p) × (d < class_count) × (p % 2 ^ d ≡ 0) × (p + 2 ^ d ≤ pages)
  pub disjoint :
      (c d p q r : ℕ)
      → on xs c p ≡ true
      → on xs d q ≡ true
      → p ≤ r
      → r < p + 2 ^ c
      → q ≤ r
      → r < q + 2 ^ d
      → (c ≡ d) × (p ≡ q)
  pub single :
      (d p : ℕ)
      → d + 1 < class_count
      → p % 2 ^ (d + 1) ≡ 0
      → on xs d p ≡ true
      → on xs d (p + 2 ^ d) ≡ false
  pub indices : (d p : ℕ) → d + 1 < class_count → p < pages → p / 2 ^ (d + 1) < (bs d).count
  pub pairs :
      (d p : ℕ)
      → d + 1 < class_count
      → p < pages
      → p % 2 ^ (d + 1) ≡ 0
      → bit_at (bs d).words (p / 2 ^ (d + 1)) ≡ of_bool (on xs d p || on xs d (p + 2 ^ d))
  pub listed :
      (d p q : ℕ) → on xs d p ≡ true → p ≤ q → q < p + 2 ^ d → (usable q ≡ 1) × (free q ≡ 1)
  pub covered :
      (q : ℕ)
      → q < pages
      → free q ≡ 1
      → (d : ℕ) × (p : ℕ) × (on xs d p ≡ true) × (p ≤ q) × (q < p + 2 ^ d)

-- The whole allocator: the lists hold as many pages as are marked as free, and that many bytes are
-- free.
pub record IsHeap (pages : ℕ) (m : Mem) (xs : ℕ → List ℕ) (bs : ℕ → BitSet) : Type 0 where
  pub small : pages ≤ 2 ^ 35
  pub twelve : length m.classes ≡ class_count
  pub usable_valid : IsValid m.usable_pages
  pub free_valid : IsValid m.free_pages
  pub usable_count : pages ≤ m.usable_pages.count
  pub free_count : pages ≤ m.free_pages.count
  pub keeps : Keeps m xs bs
  pub counted : total xs ≡ ones m.free_pages.words pages 0
  pub accounted : m.free_memory ≡ total xs * page_size
  pub layout : Layout pages xs bs (bit_at m.usable_pages.words) (bit_at m.free_pages.words)

pub block_of_inj : (p q : ℕ) → block_of p ≡ block_of q → p ≡ q
block_of_inj p q e = omega arith

-- The bit of the pair of a block of class `c` is `value`, and no other bit has changed.
abbrev pub PairIs : ℕ → ℕ → ℕ → (ℕ → BitSet) → (ℕ → BitSet) → Type 0
PairIs value c begin bs bs1 =
    (d : ℕ)
    → d + 1 < class_count
    → ((bs1 d).count ≡ (bs d).count)
      × ((k : ℕ)
          → bit_at (bs1 d).words k
            ≡ (if (d == c) && (k == begin / 2 ^ (c + 1)) then value else bit_at (bs d).words k))

-- The list `rest` is that of class `c` without the block of page `begin`, which is on it.
pub record Removes (xs : ℕ → List ℕ) (c begin : ℕ) (rest : List ℕ) : Type 0 where
  pub was_on : on xs c begin ≡ true
  pub out : has (block_of begin) rest ≡ false
  pub others : (a : ℕ) → a ≢ block_of begin → has a rest ≡ has a (xs c)
  pub one_less : length (xs c) ≡ suc (length rest)

module _ {pages : ℕ} {xs : ℕ → List ℕ} {bs : ℕ → BitSet} {usable free : ℕ → ℕ}
    (layout : Layout pages xs bs usable free) (c begin : ℕ) (rest : List ℕ)
    (gone : Removes xs c begin rest) where
  open layout use {blocks, disjoint, single, indices, pairs, listed, covered}
  open gone use {was_on, out, others}

  pub place : (c < class_count) × (begin % 2 ^ c ≡ 0) × (begin + 2 ^ c ≤ pages)
  place =
      let (b, same, low_class, aligned, inside) = blocks c (block_of begin) was_on in
      let here : begin ≡ b = omega arith in rw here (low_class, aligned, inside)

  -- What is left on a list was there, and is not the block taken.
  pub left :
      (d a : ℕ)
      → has a (update xs c rest d) ≡ true
      → (has a (xs d) ≡ true) × (d ≡ c → a ≢ block_of begin)
  left d a h = elim (Bool-cases (d == c)) [
    | inl same ↦
        let at = (==_iff d c).0 same in
        let here : has a rest ≡ true = ground arith in
        elim (Bool-cases (a == block_of begin)) [
          | inl hit ↦
              let both = ap (λ z. has z rest) (sym ((==_iff a (block_of begin)).0 hit)) ∙ here in cc
          | inr miss ↦
              let before = sym (others a (ground arith)) ∙ here in
              (ap (λ z. has a (xs z)) at ∙ before, λ e f. ground arith)
        ]
    | inr other ↦ (ground arith, λ e f. ground arith)
  ]

  pub left-cases :
      (d a : ℕ)
      → has a (xs d) ≡ true
      → ((d ≡ c) × (a ≡ block_of begin)) ⊎ (has a (update xs c rest d) ≡ true)
  left-cases d a h = elim (Bool-cases (d == c)) [
    | inl same ↦
        let at = (==_iff d c).0 same in
        elim (Bool-cases (a == block_of begin)) [
          | inl first ↦ inl (at, (==_iff a (block_of begin)).0 first)
          | inr later ↦
              let still = others a (ground arith) ∙ (ap (λ z. has a (xs z)) (sym at) ∙ h) in
              inr (ground arith)
        ]
    | inr other ↦ inr (ground arith)
  ]

  -- It has no page in common with it.
  pub left-apart :
      (d p r : ℕ)
      → on (update xs c rest) d p ≡ true
      → p ≤ r
      → r < p + 2 ^ d
      → begin ≤ r
      → r < begin + 2 ^ c
      → ⊥
  left-apart d p r h a b f g =
      let (was, other) = left d (block_of p) h in
      let (same_class, same_page) = disjoint d c p begin r was was_on a b f g in
      other same_class (ap block_of same_page)

  -- The pair of class `d` around a page of the block, for a class below that of the block, lies
  -- inside the block.
  pair_inside :
      (d p : ℕ)
      → d < c
      → begin % 2 ^ c ≡ 0
      → begin ≤ p
      → p < begin + 2 ^ c
      → (begin ≤ 2 ^ (d + 1) * (p / 2 ^ (d + 1)))
        × (2 ^ (d + 1) * (p / 2 ^ (d + 1)) + 2 ^ (d + 1) ≤ begin + 2 ^ c)
  pair_inside d p lt aligned lo hi = aligned_inside (d + 1) c begin p (omega arith) aligned lo hi

  none_inside : (d p : ℕ) → d < c → begin ≤ p → p < begin + 2 ^ c → on xs d p ≡ false
  none_inside d p lt lo hi = elim (Bool-cases (on xs d p)) [
    | inl h ↦
        let (same, _) =
          disjoint d c p begin p h was_on (omega arith)
            (omega (arith, one-le-pow d 2 (omega arith))) lo hi in
        absurd (omega arith)
    | inr h ↦ h
  ]

  pub taken : (bs1 : ℕ → BitSet) → PairIs 0 c begin bs bs1 → IsTaken (update xs c rest) bs1 c begin
  taken bs1 cleared =
      let (low_class, aligned, inside) = place in
      record {
        fresh = λ p d lo hi. elim (Bool-cases (on (update xs c rest) d p)) [
          | inl h ↦
              absurd (
                left-apart d p p h (omega arith) (omega (arith, one-le-pow d 2 (omega arith))) lo
                  hi)
          | inr h ↦ h
        ];
        bounds = λ p d lt lo hi.
            let (count, _) = cleared d (omega arith) in
            omega (arith, indices d p (omega arith) (omega arith));
        quiet = λ p d lt lo hi.
            let e = 2 ^ (d + 1) in
            let p0 = e * (p / e) in
            let (lower, upper) = pair_inside d p lt aligned lo hi in
            let (_, bits) = cleared d (omega arith) in
            let some_pages = one-le-pow (d + 1) 2 (omega arith) in
            let half = one-le-pow d 2 (omega arith) in
            let twice : 2 ^ (d + 1) ≡ 2 ^ d * 2 = pow_next d in
            let pair_bit = pairs d p0 (omega arith) (omega arith) (mul-mod_right e (p / e)) in
            let first = none_inside d p0 lt lower (omega arith) in
            let second = none_inside d (p0 + 2 ^ d) lt (omega arith) (omega arith) in
            let at : p0 / e ≡ p / e = mul-div_cancel_left (p / e) some_pages in
            let known : bit_at (bs d).words (p / e) ≡ 0 =
              ap (bit_at (bs d).words) (sym at) ∙ (pair_bit ∙ rw (first, second) refl) in
            let other : (d == c) ≡ false = ground arith in bits (p / e) ∙ rw other known;
      }
