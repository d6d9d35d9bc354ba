-- ===== src/Memory/Filled.antt =====
-- The heap behind the part of `memory__init` of kern/memory.c that fills the allocator.
use dumboss.Base.{
  ℕ, ◌+◌, ◌-◌, ◌*◌, ◌/◌, ◌^◌, ◌≤◌, ◌<◌, ◌≡◌, refl, sym, ap, ◌∙◌, inl, inr, Bool, true, false, ◌&&◌,
  ◌||◌, ||-true, List, [], ◌∷◌, ==_refl, if◌then◌else◌, Bool-cases, arith, leb, ltb, ok, max,
}
use dumboss.BitSet.{BitSet}
use dumboss.BitSet.Ones.{bit_at, ones-empty_iff}
use dumboss.BitSet.Update.{set_range-Writes}
use dumboss.Memory.{Mem, page_size}
use dumboss.Memory.Address.{kernel_ptr-ok}
use dumboss.Memory.Entries.{MMapEnt}
use dumboss.Memory.Heap.{Yields}
use dumboss.Memory.Usability.{IsHeap-usable}
use dumboss.Memory.Layout.{IsHeap}
use dumboss.Memory.Returned.{release_pages-Releases}
use dumboss.Memory.Validate.{validate_heap-IsHeap}
use dumboss.Memory.Init.{first_page, last_page, release_entries, fill_heap}

-- A page is one of the whole pages of an entry, or of one of the entries.
abbrev pub in_entry : MMapEnt → ℕ → Bool
in_entry it k = leb (first_page it) (k * page_size) && ltb (k * page_size) (last_page it)

abbrev pub covers : List MMapEnt → ℕ → Bool
covers [] k = false
covers (it ∷ mmap) k = in_entry it k || covers mmap k

-- An entry inside the memory, that does not lie within one page.
abbrev pub IsFit : ℕ → MMapEnt → Type 0
IsFit pages it =
    (it.ptr + it.size < 2 ^ 47)
    × (it.ptr + it.size ≤ pages * page_size)
    × (first_page it ≤ last_page it)

-- All of the entries are, and no two have a whole page in common.
abbrev pub AreFit : ℕ → List MMapEnt → Type 0
AreFit pages [] = Unit
AreFit pages (it ∷ mmap) =
    IsFit pages it × ((k : ℕ) → in_entry it k ≡ true → covers mmap k ≡ false) × AreFit pages mmap

-- The heap is well formed, and the bits of the entries' pages are set in both sets.
pub record Fills (pages : ℕ) (m : Mem) (mmap : List MMapEnt) (m' : Mem) : Type 0 where
  pub lists : ℕ → List ℕ
  pub buddies : ℕ → BitSet
  pub heap : IsHeap pages m' lists buddies
  pub free :
      (k : ℕ)
      → bit_at m'.free_pages.words k ≡ (if covers mmap k then 1 else bit_at m.free_pages.words k)
  pub usable :
      (k : ℕ)
      → bit_at m'.usable_pages.words k
        ≡ (if covers mmap k then 1 else bit_at m.usable_pages.words k)

-- The pages of an entry, by number.
record Spans (pages : ℕ) (it : MMapEnt) (first last : ℕ) : Type 0 where
  begins : first_page it ≡ first * page_size
  ends : last_page it ≡ last * page_size
  ordered : first ≤ last
  inside : last ≤ pages
  low : last < 2 ^ 35

entry-Spans :
    (pages : ℕ) (it : MMapEnt)
    → IsFit pages it
    → (first : ℕ) × (last : ℕ) × Spans pages it first last
entry-Spans pages it (low, inside, ordered) = (
  (it.ptr + 4095) / page_size,
  (it.ptr + it.size) / page_size,
  record {
    begins = omega arith;
    ends = omega arith;
    ordered = omega arith;
    inside = omega arith;
    low = omega arith;
  },
)

in_entry-eq :
    {pages first last : ℕ} (it : MMapEnt) (k : ℕ)
    → Spans pages it first last
    → in_entry it k ≡ leb first k && ltb k last
in_entry-eq it k spans = rw (spans.begins, spans.ends) (ground arith)

-- One entry.
module _ {pages : ℕ} {m : Mem} {xs : ℕ → List ℕ} {bs : ℕ → BitSet} (heap : IsHeap pages m xs bs)
    (it : MMapEnt) (first last : ℕ) (spans : Spans pages it first last)
    (taken : (k : ℕ) → in_entry it k ≡ true → bit_at m.free_pages.words k ≡ 0) where
  entry-Fills :
      (m1 : Mem) × Fills pages m (it ∷ []) m1
      × ((mmap : List MMapEnt)
          → release_entries (it ∷ mmap) m.free_memory m ≡ release_entries mmap m1.free_memory m1)
  unfolding release_entries
  entry-Fills =
      let count = last - first in
      let ordered = spans.ordered in
      let inside = spans.inside in
      let end : first + count ≡ last = omega arith in
      let (u, set_it, w) =
        set_range-Writes first last true heap.usable_valid ordered
          (omega (arith, heap.usable_count)) in
      let more_usable =
        IsHeap-usable heap w (λ k lit may_use. let here = w.bits k in ground arith) in
      let (m1, done, out) = release_pages-Releases more_usable first count (omega arith) (λ k lo hi.
        let here = w.bits k in (ground arith, taken k (in_entry-eq it k spans ∙ ground arith))) in
      let f : first * page_size / page_size ≡ first = omega arith in
      let l : last * page_size / page_size ≡ last = omega arith in
      let s : (max (last * page_size) (first * page_size) - first * page_size) ≡ count * page_size =
        omega arith in
      let c : count * page_size / page_size ≡ count = omega arith in
      let pointer = kernel_ptr-ok (first * page_size) (omega (arith, spans.low)) in
      (
        m1,
        record {
          lists = out.lists;
          buddies = out.buddies;
          heap = out.heap;
          free = λ k. out.marked.bits k ∙ rw (in_entry-eq it k spans, end) (ground arith);
          usable = λ k.
              ap (λ z. bit_at z.words k) out.usable
              ∙ (w.bits k ∙ rw (in_entry-eq it k spans) (ground arith));
        },
        λ mmap.
            rw (spans.begins, spans.ends, f, l, set_it, pointer, s, c, done)
              (ap (λ z. release_entries mmap z m1) (sym out.free_memory)),
      )

Fills-nil :
    {pages : ℕ} {m : Mem} {xs : ℕ → List ℕ} {bs : ℕ → BitSet}
    → IsHeap pages m xs bs
    → Fills pages m [] m
Fills-nil {xs = xs} {bs} heap = record {
  lists = xs;
  buddies = bs;
  heap = heap;
  free = λ k. refl;
  usable = λ k. refl;
}

Fills-cons :
    {pages : ℕ} {m m1 m' : Mem} (it : MMapEnt) (mmap : List MMapEnt)
    → Fills pages m (it ∷ []) m1
    → Fills pages m1 mmap m'
    → Fills pages m (it ∷ mmap) m'
Fills-cons it mmap first rest = record {
  lists = rest.lists;
  buddies = rest.buddies;
  heap = rest.heap;
  free = λ k. let here = first.free k in let there = rest.free k in ground arith;
  usable = λ k. let here = first.usable k in let there = rest.usable k in ground arith;
}

-- The loop over the entries, none of whose pages is free.
release_entries-Fills :
    (mmap : List MMapEnt) {pages : ℕ} {m : Mem} {xs : ℕ → List ℕ} {bs : ℕ → BitSet}
    → IsHeap pages m xs bs
    → AreFit pages mmap
    → ((k : ℕ) → covers mmap k ≡ true → bit_at m.free_pages.words k ≡ 0)
    → (m' : Mem) × (release_entries mmap m.free_memory m ≡ ok (m'.free_memory, m'))
      × Fills pages m mmap m'
unfolding release_entries
release_entries-Fills [] {m = m} heap fit taken = (m, refl, Fills-nil heap)
release_entries-Fills (it ∷ mmap) {pages} heap (fit, apart, rest) taken =
    let (first, last, spans) = entry-Spans pages it fit in
    let (m1, fills, step) =
      entry-Fills heap it first last spans (λ k here. taken k (rw here refl)) in
    let (m', done, fills') = release_entries-Fills mmap fills.heap rest (λ k there.
      let was = taken k (rw there (||-true (in_entry it k))) in
      let now = fills.free k in
      let outside : in_entry it k ≡ false = elim (Bool-cases (in_entry it k)) [
        | inl here ↦ let off = apart k here in cc
        | inr away ↦ away
      ] in
      ground arith) in
    (m', step mmap ∙ done, Fills-cons it mmap fills fills')

-- The part of `memory__init` that releases the free entries of the memory map, asserts that the free
-- memory is theirs and calls `validate_heap` for the first time, on a well-formed heap without a free
-- page: where the entries are inside the memory, none within one page, and no two share a whole page,
-- none of these assertions fails. `validate_heap` may take a step more for each list than there are
-- pages. Behind it the heap is well formed; of the pages of the memory just the whole pages of the
-- entries are free, and these are usable.
pub fill_heap-Fills :
    {pages : ℕ} {m : Mem} {xs : ℕ → List ℕ} {bs : ℕ → BitSet} (fuel : ℕ) (mmap : List MMapEnt)
    → IsHeap pages m xs bs
    → ((k : ℕ) → bit_at m.free_pages.words k ≡ 0)
    → AreFit pages mmap
    → pages < fuel
    → Yields (Fills pages m mmap) (fill_heap fuel mmap m)
unfolding fill_heap
fill_heap-Fills {pages} {m} fuel mmap heap none fit enough =
    let no_page = (ones-empty_iff m.free_pages.words pages 0).1 (λ k lo hi. none k) in
    let nothing : m.free_memory ≡ 0 = omega (arith, heap.accounted, heap.counted) in
    let (m', done, fills) = release_entries-Fills mmap heap fit (λ k there. none k) in
    let from_zero : release_entries mmap 0 m ≡ ok (m'.free_memory, m') =
      ap (λ z. release_entries mmap z m) (sym nothing) ∙ done in
    let valid = validate_heap-IsHeap fuel fills.heap enough in
    (m', rw (from_zero, ==_refl m'.free_memory, valid) refl, fills)
