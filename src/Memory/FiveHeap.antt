-- ===== src/Memory/FiveHeap.antt =====
-- A heap of five pages for runs of theorems: the first four are given back, and the last is in use.
use mathlib.Core.Path.{subst}
use dumboss.Base.{
  ℕ, zero, suc, ◌+◌, ◌/◌, ◌%◌, ◌^◌, ◌<◌, ◌≡◌, refl, sym, ap, [], ◌∷◌, replicate, get_or,
  get_elem?-replicate, arith, Res, ok,
}
use native.Mathlib.Nat.{div-le_self}
use dumboss.Base.Bits.{bit, bit-zero}
use dumboss.BitSet.{BitSet}
use dumboss.BitSet.Ones.{bit_at}
use dumboss.Memory.{Mem, null}
use dumboss.Memory.Release.{release_pages}
use dumboss.Memory.Heap.{block_of, Yields}
use dumboss.Memory.Blank.{IsBlank, IsBlank-IsHeap}
use dumboss.Memory.Returned.{Releases, release_pages-Releases}
use dumboss.Memory.SmallHeap.{class, one_word-IsValid}

abbrev all_off : BitSet
all_off = record { words = 0 ∷ []; count = 5 }

abbrev blank_five : Mem
blank_five = record {
  free_memory = 0;
  usable_pages = record { words = 31 ∷ []; count = 5 };
  free_pages = record { words = 0 ∷ []; count = 5 };
  classes = replicate 12 (class null all_off);
  blocks = λ p. record { next = null; prev = null; size_class = 0 };
}

pub zero_bits : (k : ℕ) → bit_at (0 ∷ []) k ≡ 0
zero_bits k = word (k / 64)
  where
    word : (i : ℕ) → bit (get_or (0 ∷ []) i 0) (k % 64) ≡ 0
    word zero = bit-zero (k % 64)
    word (suc i) = bit-zero (k % 64)

blank_five-IsBlank : IsBlank 5 blank_five
blank_five-IsBlank = record {
  small = omega arith;
  twelve = refl;
  nothing = refl;
  usable_valid = one_word-IsValid 31 5 (omega arith) (omega arith);
  free_valid = one_word-IsValid 0 5 (omega arith) (omega arith);
  usable_count = omega arith;
  free_count = omega arith;
  none_free = zero_bits;
  class = λ d low. (
    class null all_off,
    get_elem?-replicate 12 d (class null all_off) low,
    refl,
    one_word-IsValid 0 5 (omega arith) (omega arith),
    λ p d_low lt. omega (arith, div-le_self p (2 ^ (d + 1))),
    zero_bits,
  );
}

-- The first five pages are usable.
five_bits : (q : ℕ) → q < 5 → bit_at (31 ∷ []) q ≡ 1
unfolding bit
five_bits zero lt = refl
five_bits (suc zero) lt = refl
five_bits (suc (suc zero)) lt = refl
five_bits (suc (suc (suc zero))) lt = refl
five_bits (suc (suc (suc (suc zero)))) lt = refl
five_bits (suc (suc (suc (suc (suc q))))) lt = absurd (omega arith)

abbrev memory_of : Res Mem → Mem
memory_of (ok m) = m
memory_of _ = blank_five

abbrev pub five_pages : Mem
five_pages = memory_of (release_pages blank_five (block_of 0) 4)

-- What is true of the memory that a call gives is true of `memory_of` its result.
memory_of-Yields : (P : Mem → Type 0) (r : Res Mem) → Yields P r → P (memory_of r)
memory_of-Yields P r (m', e, h) = subst P (sym (ap memory_of e)) h

pub five_pages-Releases : Releases 5 blank_five five_pages 0 0 4
five_pages-Releases =
    memory_of-Yields (λ m'. Releases 5 blank_five m' 0 0 4)
      (release_pages blank_five (block_of 0) 4)
      (release_pages-Releases (IsBlank-IsHeap blank_five-IsBlank) 0 4 (omega arith)
        (λ k lo hi. (five_bits k (omega arith), zero_bits k)))

-- The last page is not free.
pub last_taken : bit_at five_pages.free_pages.words 4 ≡ 0
last_taken = let here = five_pages-Releases.marked.bits 4 in let was = zero_bits 4 in ground arith
