-- ===== src/Memory/Usability.antt =====
-- `unsafe_mark_memory_usability` of kern/memory.c on a well-formed heap.
use dumboss.Base.{
  ℕ, ◌+◌, ◌*◌, ◌/◌, ◌≤◌, ◌<◌, ◌≡◌, refl, inl, inr, Bool, true, false, List, ◌==◌, leb, Bool-cases,
  le→leb, arith, panic,
}
use dumboss.BitSet.{BitSet}
use dumboss.BitSet.Ones.{bit_at}
use dumboss.BitSet.Query.{get_any_iff, get_count-ones}
use dumboss.BitSet.Update.{Written, set_range-Writes}
use dumboss.Memory.{Mem, page_size, null}
use dumboss.Memory.Release.{unsafe_mark_memory_usability}
use dumboss.Memory.Heap.{block_of, Yields}
use dumboss.Memory.Blocks.{Keeps-pages}
use dumboss.Memory.Layout.{IsHeap}
use dumboss.Memory.Allocate.{physical_address-block_of}
use dumboss.Memory.Returned.{align_down-page}

-- The bits of usable pages may be written, but for those of free pages.
module _ {pages : ℕ} {m : Mem} {xs : ℕ → List ℕ} {bs : ℕ → BitSet} (heap : IsHeap pages m xs bs)
    {u : BitSet} {lo hi : ℕ} {value : Bool} (w : Written m.usable_pages u lo hi value)
    (still : (k : ℕ)
      → bit_at m.free_pages.words k ≡ 1
      → bit_at m.usable_pages.words k ≡ 1
      → bit_at u.words k ≡ 1) where
  pub IsHeap-usable : IsHeap pages (record m { usable_pages = u }) xs bs
  IsHeap-usable = record {
    small = heap.small;
    twelve = heap.twelve;
    usable_valid = w.valid;
    free_valid = heap.free_valid;
    usable_count = omega (arith, heap.usable_count, w.same_count);
    free_count = heap.free_count;
    keeps = Keeps-pages heap.keeps m.free_memory u m.free_pages;
    counted = heap.counted;
    accounted = heap.accounted;
    layout = record {
      blocks = heap.layout.blocks;
      disjoint = heap.layout.disjoint;
      single = heap.layout.single;
      indices = heap.layout.indices;
      pairs = heap.layout.pairs;
      listed = λ d p q h from to.
          let (may_use, free) = heap.layout.listed d p q h from to in (still q free may_use, free);
      covered = heap.layout.covered;
    };
  }

-- The pages of a range are usable, or not, and nothing else has changed.
pub record MarksUsable (pages : ℕ) (m m' : Mem) (begin count : ℕ) (value : Bool) : Type 0 where
  pub lists : ℕ → List ℕ
  pub buddies : ℕ → BitSet
  pub heap : IsHeap pages m' lists buddies
  pub written : Written m.usable_pages m'.usable_pages begin (begin + count) value
  pub free : m'.free_pages ≡ m.free_pages
  pub memory : m'.free_memory ≡ m.free_memory

-- `unsafe_mark_memory_usability` on pages of a well-formed heap that are not free marks just these as
-- usable, or as not, and keeps the heap well formed; where one of them is free it fails an
-- assertion.
pub unsafe_mark_memory_usability-MarksUsable :
    {pages : ℕ} {m : Mem} {xs : ℕ → List ℕ} {bs : ℕ → BitSet} (begin count : ℕ) (value : Bool)
    → IsHeap pages m xs bs
    → begin + count ≤ pages
    → (((k : ℕ) → begin ≤ k → k < begin + count → bit_at m.free_pages.words k ≡ 0)
        → Yields
            (λ m'. MarksUsable pages m m' begin count value)
            (unsafe_mark_memory_usability m (block_of begin) count value))
      × ((k : ℕ)
          → begin ≤ k
          → k < begin + count
          → bit_at m.free_pages.words k ≡ 1
          → unsafe_mark_memory_usability m (block_of begin) count value ≡ panic)
unfolding unsafe_mark_memory_usability
unsafe_mark_memory_usability-MarksUsable {pages} {m} {xs} {bs} begin count value heap inside =
    let (f, get_free, free_iff) =
      get_any_iff heap.free_valid begin (begin + count) (omega arith)
        (omega (arith, heap.free_count)) in
    let (u, set_it, w) =
      set_range-Writes begin (begin + count) value heap.usable_valid (omega arith)
        (omega (arith, heap.usable_count)) in
    let counted = get_count-ones heap.usable_valid begin (begin + count) in
    let ordered : leb begin (begin + count) ≡ true = ground arith in
    let bounded : leb (begin + count) m.usable_pages.count ≡ true =
      le→leb (begin + count) m.usable_pages.count (omega (arith, heap.usable_count)) in
    let there : (block_of begin == null) ≡ false = ground arith in
    let whole : begin * page_size / page_size ≡ begin = omega arith in
    (
      λ none_free.
          let quiet : f ≡ false = free_iff.1 none_free in
          rw
            (
              there,
              physical_address-block_of begin,
              align_down-page begin,
              whole,
              get_free,
              quiet,
              counted,
              ordered,
              bounded,
              set_it,
            )
            (
              _,
              refl,
              record {
                lists = xs;
                buddies = bs;
                heap = IsHeap-usable heap w (λ k lit may_use.
                    let here = w.bits k in let dark = none_free k in ground arith);
                written = w;
                free = refl;
                memory = refl;
              },
            ),
      λ k lo hi lit.
          let busy : f ≡ true = elim (Bool-cases f) [
            | inl on ↦ on
            | inr off ↦ let dark = free_iff.0 off k lo hi in absurd (omega arith)
          ] in
          rw (there, physical_address-block_of begin, align_down-page begin, whole, get_free, busy)
            refl,
    )
