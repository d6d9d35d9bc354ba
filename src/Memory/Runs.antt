-- ===== src/Memory/Runs.antt =====
-- Runs of the theorems on `release_pages`, `validate_heap`, the callers and `memory__init`, on heaps of
-- two pages.
use dumboss.Base.{
  ℕ, ◌+◌, ◌/◌, ◌^◌, ◌≤◌, ◌<◌, ◌≡◌, refl, inr, true, false, List, [], ◌∷◌, replicate,
  get_elem?-replicate, arith, Res, ok, panic,
}
use native.Mathlib.Nat.{div-eq_of_lt}
use dumboss.Base.Int.{pos}
use dumboss.BitSet.{BitSet, get, get_all, set_bit, set_range}
use dumboss.BitSet.Ones.{bit_at}
use dumboss.Memory.{Mem, page_size, null, buddy_info}
use dumboss.Memory.Address.{kernel_ptr, physical_address}
use dumboss.Memory.Freelist.{pop_freelist, add_to_freelist}
use dumboss.Memory.Entries.{MMapEnt}
use dumboss.Memory.Alloc.{Buffer, alloc_raw, clear_buddy, smallest_greater_power2}
use dumboss.Memory.Release.{release_pages, validate_heap, unsafe_mark_memory_usability}
use dumboss.Memory.Usability.{MarksUsable, unsafe_mark_memory_usability-MarksUsable}
use dumboss.Memory.Heap.{block_of, Yields}
use dumboss.Memory.Total.{total}
use dumboss.Memory.Blank.{IsBlank, IsBlank-IsHeap}
use dumboss.Memory.Returned.{Releases, release_pages-Releases, release_pages-panic}
use dumboss.Memory.Roundtrip.{Restores, release_pages-alloc_raw}
use dumboss.Memory.Validate.{validate_heap-IsHeap}
use dumboss.Memory.Init.{fill_heap}
use dumboss.Memory.Filled.{Fills, fill_heap-Fills}
use dumboss.Memory.Client.{Region, Request, take, give, serve_all, Spec}
use dumboss.Memory.Serving.{Serves, serve_all-Serves, free_bits}
use dumboss.Memory.FiveHeap.{zero_bits}
use dumboss.Memory.SmallHeap.{
  two_pages, two_pages-IsHeap, lists, class, off, both, one_word-IsValid, both_bits, two_at_least,
}

abbrev neither : BitSet
neither = record { words = 0 ∷ []; count = 2 }

-- Two usable pages, none of them free.
abbrev blank_pages : Mem
blank_pages = record {
  free_memory = 0;
  usable_pages = both;
  free_pages = neither;
  classes = replicate 12 (class null off);
  blocks = λ p. record { next = null; prev = null; size_class = 0 };
}

blank_pages-IsBlank : IsBlank 2 blank_pages
blank_pages-IsBlank = record {
  small = omega arith;
  twelve = refl;
  nothing = refl;
  usable_valid = one_word-IsValid 3 2 (omega arith) (omega arith);
  free_valid = one_word-IsValid 0 2 (omega arith) (omega arith);
  usable_count = omega arith;
  free_count = omega arith;
  none_free = zero_bits;
  class = λ d low. (
    class null off,
    get_elem?-replicate 12 d (class null off) low,
    refl,
    one_word-IsValid 0 1 (omega arith) (omega arith),
    λ p d_low lt.
        let first : p / 2 ^ (d + 1) ≡ 0 = div-eq_of_lt (omega (arith, two_at_least d)) in
        rw first (omega arith),
    zero_bits,
  );
}

-- Both pages are given back, and merged into one block.
release_pages-Releases_example :
    Yields
      (λ m'. Releases 2 blank_pages m' (total (λ d. [])) 0 2)
      (release_pages blank_pages (block_of 0) 2)
release_pages-Releases_example =
    release_pages-Releases (IsBlank-IsHeap blank_pages-IsBlank) 0 2 (omega arith)
      (λ k lo hi. (both_bits k hi, zero_bits k))

-- The first of two free pages is given back.
release_pages-panic_example : release_pages two_pages (block_of 0) 1 ≡ panic
release_pages-panic_example =
    release_pages-panic two_pages-IsHeap 0 1 (omega arith) 0 (omega arith) (omega arith)
      (inr (both_bits 0 (omega arith)))

validate_heap-IsHeap_example : validate_heap 3 two_pages ≡ ok tt
validate_heap-IsHeap_example = validate_heap-IsHeap 3 two_pages-IsHeap (omega arith)

abbrev low_memory : List MMapEnt
low_memory = record { ptr = 0; size = 8192 } ∷ []

fill_heap-Fills_example :
    Yields (Fills 2 blank_pages low_memory) (fill_heap 3 low_memory blank_pages)
fill_heap-Fills_example =
    fill_heap-Fills 3 low_memory (IsBlank-IsHeap blank_pages-IsBlank) zero_bits
      ((omega arith, omega arith, omega arith), λ k here. refl, tt) (omega arith)

two_pages-Serves : Serves 2 both 2 two_pages []
two_pages-Serves = record {
  lists = lists;
  buddies = _;
  heap = two_pages-IsHeap;
  same_usable = refl;
  holdings = tt;
  conserved = refl;
}

-- Both pages are taken, a third is asked for in vain, and the first is given back.
abbrev requests : List Request
requests = take 1 true ∷ take 1 true ∷ take 1 true ∷ give 1 ∷ []

serve_all-Serves_example :
    (m' : Mem) × (held' : List Region) × (serve_all requests two_pages [] ≡ ok (m', held'))
    × Serves 2 both 2 m' held'
    × Spec (free_bits two_pages) [] (free_bits m') held'
serve_all-Serves_example =
    serve_all-Serves requests two_pages-Serves
      (omega arith, omega arith, (omega arith, omega arith, (omega arith, omega arith, tt)))

abbrev memory_of : Res (Buffer × Mem) → Mem
memory_of (ok (buffer, m)) = m
memory_of _ = two_pages

abbrev first_page_taken : Buffer
first_page_taken = record { bytes = block_of 0; count = 4096 }

one_page_taken :
    alloc_raw two_pages (pos 1) true
    ≡ ok (first_page_taken, memory_of (alloc_raw two_pages (pos 1) true))
unfolding alloc_raw smallest_greater_power2 pop_freelist physical_address get_all get set_range
    set_bit clear_buddy buddy_info add_to_freelist kernel_ptr
one_page_taken = refl

release_pages-alloc_raw_example :
    Yields
      (Restores 2 two_pages)
      (release_pages (memory_of (alloc_raw two_pages (pos 1) true)) (block_of 0) (4096 / page_size))
release_pages-alloc_raw_example =
    release_pages-alloc_raw 1 true first_page_taken two_pages-IsHeap (omega arith) (omega arith)
      one_page_taken (λ e. absurd (omega arith))

-- The first page, which is not free, is no longer usable.
unsafe_mark_memory_usability-MarksUsable_example :
    (((k : ℕ) → 0 ≤ k → k < 1 → bit_at blank_pages.free_pages.words k ≡ 0)
      → Yields
          (λ m'. MarksUsable 2 blank_pages m' 0 1 false)
          (unsafe_mark_memory_usability blank_pages (block_of 0) 1 false))
    × ((k : ℕ)
        → 0 ≤ k
        → k < 1
        → bit_at blank_pages.free_pages.words k ≡ 1
        → unsafe_mark_memory_usability blank_pages (block_of 0) 1 false ≡ panic)
unsafe_mark_memory_usability-MarksUsable_example =
    unsafe_mark_memory_usability-MarksUsable 0 1 false (IsBlank-IsHeap blank_pages-IsBlank)
      (omega arith)
