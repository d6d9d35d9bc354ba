-- ===== src/Memory/SmallHeap.antt =====
-- Runs of the theorems on `alloc_raw` and `zeroed_pages` on a heap of two pages, which are one free block.
use dumboss.Base.{
  ℕ, ◌+◌, ◌/◌, ◌^◌, ◌≤◌, ◌<◌, ◌≡◌, refl, inl, inr, true, false, ◌||◌, ◌==◌, ==_iff, Bool-cases,
  if◌then◌else◌, List, [], ◌∷◌, arith, some, zero, suc, sym, ◌∙◌, replicate, get_or, get_elem?,
  get_elem?-replicate,
}
use native.Mathlib.Nat.{div-eq_of_lt, mod-eq_of_lt, one-le-pow}
use dumboss.Base.Int.{pos}
use dumboss.Base.Bits.{bit}
use dumboss.BitSet.{BitSet}
use dumboss.BitSet.Ones.{IsValid, bit_at, ones}
use dumboss.BitSet.Update.{of_bool}
use dumboss.Memory.{Mem, ClassInfo, class_count, null}
use dumboss.Memory.Alloc.{zeroed_pages, alloc_raw}
use dumboss.Memory.Heap.{Holds, block_of, buddies_of}
use dumboss.Memory.Blocks.{Keeps}
use dumboss.Memory.Total.{total}
use dumboss.Memory.Layout.{Layout, IsHeap, on}
use dumboss.Memory.Zeroed.{Zeroes, zeroed_pages-Zeroes}
use dumboss.Memory.Handout.{Allocates, alloc_raw-Allocates}
use dumboss.Memory.Align.{pow_next}

abbrev pub off : BitSet
off = record { words = 0 ∷ []; count = 1 }

abbrev pub one_on : BitSet
one_on = record { words = 1 ∷ []; count = 1 }

abbrev pub both : BitSet
both = record { words = 3 ∷ []; count = 2 }

abbrev pub lists : ℕ → List ℕ
lists d = if d == 1 then block_of 0 ∷ [] else []

abbrev pub buddies : ℕ → BitSet
buddies d = if d == 1 then one_on else off

abbrev pub class : ℕ → BitSet → ClassInfo
class block bits = record { freelist = block; buddies = bits }

abbrev pub two_pages : Mem
two_pages = record {
  free_memory = 8192;
  usable_pages = both;
  free_pages = both;
  classes = class null off ∷ class (block_of 0) one_on ∷ replicate 10 (class null off);
  blocks = λ p. record { next = null; prev = null; size_class = 1 };
}

pub one_word-IsValid :
    (v count : ℕ) → v < 2 ^ 64 → count ≤ 64 → IsValid (record { words = v ∷ []; count = count })
one_word-IsValid v count lt le = record { small = omega arith; enough = omega arith; fits = fits }
  where
    fits : (i : ℕ) → get_or (v ∷ []) i 0 < 2 ^ 64
    fits zero = lt
    fits (suc i) = omega arith

only : (d p : ℕ) → on lists d p ≡ true → (d ≡ 1) × (p ≡ 0)
only d p h = (ground arith, ground arith)

two_pages-Holds : (d : ℕ) → d < class_count → Holds two_pages d (lists d)
two_pages-Holds zero lt = (_, refl, refl)
two_pages-Holds (suc zero) lt = (_, refl, (refl, omega arith, refl, refl, refl, refl))
two_pages-Holds (suc (suc d)) lt =
    let empty : (suc (suc d) == 1) ≡ false = ground arith in
    rw empty (class null off, get_elem?-replicate 10 d (class null off) (omega arith), refl)

two_pages-buddies :
    (d : ℕ) → d + 1 < class_count → buddies_of (get_elem? two_pages.classes d) ≡ some (buddies d)
two_pages-buddies zero lt = refl
two_pages-buddies (suc zero) lt = refl
two_pages-buddies (suc (suc d)) lt =
    let empty : (suc (suc d) == 1) ≡ false = ground arith in
    rw (empty, get_elem?-replicate 10 d (class null off) (omega arith)) refl

buddies-IsValid : (d : ℕ) → IsValid (buddies d)
buddies-IsValid d = elim (Bool-cases (d == 1)) [
  | inl e ↦ rw e (one_word-IsValid 1 1 (omega arith) (omega arith))
  | inr e ↦ rw e (one_word-IsValid 0 1 (omega arith) (omega arith))
]

two_pages-Keeps : Keeps two_pages lists buddies
two_pages-Keeps = record {
  holds = two_pages-Holds;
  apart = λ c d a ne h. ground arith;
  buddies = two_pages-buddies;
  valid = buddies-IsValid;
}

pub two_at_least : (d : ℕ) → 2 ≤ 2 ^ (d + 1)
two_at_least d = omega (arith, pow_next d, one-le-pow d 2 (omega arith))

pub both_bits : (q : ℕ) → q < 2 → bit_at both.words q ≡ 1
unfolding bit
both_bits zero lt = refl
both_bits (suc zero) lt = refl
both_bits (suc (suc q)) lt = absurd (omega arith)

two_pages-pairs :
    (d p : ℕ)
    → p ≡ 0
    → bit_at (buddies d).words (p / 2 ^ (d + 1)) ≡ of_bool (on lists d p || on lists d (p + 2 ^ d))
unfolding bit
two_pages-pairs d p at =
    let first : 0 / 2 ^ (d + 1) ≡ 0 = div-eq_of_lt (omega (arith, two_at_least d)) in
    rw (at, first)
      (elim (Bool-cases (d == 1)) [
        | inl e ↦ let one : d ≡ 1 = (==_iff d 1).0 e in rw one refl
        | inr e ↦ rw e refl
      ])

two_pages-Layout : Layout 2 lists buddies (bit_at both.words) (bit_at both.words)
two_pages-Layout = record {
  blocks = λ d a h.
      let one : d ≡ 1 = ground arith in
      (0, ground arith, omega arith, rw one refl, rw one (omega arith));
  disjoint = λ c d p q r h k a b f g.
      let (i, j) = only c p h in let (i', j') = only d q k in (omega arith, omega arith);
  single = λ d p low aligned h. elim (Bool-cases (on lists d (p + 2 ^ d))) [
    | inr h' ↦ h'
    | inl k ↦
        let (i, j) = only d (p + 2 ^ d) k in absurd (omega (arith, one-le-pow d 2 (omega arith)))
  ];
  indices = λ d p low lt.
      let first : p / 2 ^ (d + 1) ≡ 0 = div-eq_of_lt (omega (arith, two_at_least d)) in
      rw first (ground arith);
  pairs = λ d p low lt aligned.
      two_pages-pairs d p (sym (mod-eq_of_lt (omega (arith, two_at_least d))) ∙ aligned);
  listed = λ d p q h lo hi.
      let (one, first) = only d p h in
      let to : p + 2 ^ d ≡ 2 = rw (one, first) refl in
      (both_bits q (omega arith), both_bits q (omega arith));
  covered = λ q lt h. (1, 0, refl, omega arith, omega arith);
}

two_pages-counted : total lists ≡ ones both.words 2 0
unfolding ones bit
two_pages-counted = refl

pub two_pages-IsHeap : IsHeap 2 two_pages lists buddies
two_pages-IsHeap = record {
  small = omega arith;
  twelve = refl;
  usable_valid = one_word-IsValid 3 2 (omega arith) (omega arith);
  free_valid = one_word-IsValid 3 2 (omega arith) (omega arith);
  usable_count = omega arith;
  free_count = omega arith;
  keeps = two_pages-Keeps;
  counted = two_pages-counted;
  accounted = refl;
  layout = two_pages-Layout;
}

-- Of the two pages the first is handed out.
alloc_raw-Allocates_example : Allocates 2 two_pages lists 1 true (alloc_raw two_pages (pos 1) true)
alloc_raw-Allocates_example =
    alloc_raw-Allocates two_pages-IsHeap 1 true (omega arith) (omega arith)

zeroed_pages-Zeroes_example : Zeroes 2 two_pages lists 2 (zeroed_pages two_pages (pos 2))
zeroed_pages-Zeroes_example = zeroed_pages-Zeroes 2 two_pages-IsHeap (omega arith) (omega arith)
