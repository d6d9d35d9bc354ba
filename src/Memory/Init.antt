-- ===== src/Memory/Init.antt =====
-- kern/memory.c: the part of `memory__init` that fills the allocator. It marks the pages of the free
-- entries of the memory map as usable, releases them, compares the free memory with theirs and
-- validates the heap. The new page table and the checks that follow are not part of it.
use dumboss.Base.{
  ℕ, ◌+◌, ◌-◌, ◌/◌, ◌%◌, ◌^◌, List, [], ◌∷◌, max, true, ◌==◌, Res, ok, ◌>>=◌, ◌>>◌, assert,
}
use dumboss.BitSet.{align_up, align_down, set_range}
use dumboss.Memory.{Mem, page_size}
use dumboss.Memory.Address.{kernel_ptr}
use dumboss.Memory.Entries.{MMapEnt}
use dumboss.Memory.Release.{release_pages, validate_heap}

-- The first whole page of an entry, and the one behind its last whole page, as addresses.
abbrev pub first_page : MMapEnt → ℕ
first_page entry = align_up entry.ptr page_size

abbrev pub last_page : MMapEnt → ℕ
last_page entry = align_down ((entry.ptr + entry.size) % 2 ^ 64) page_size

-- The loop `FOR(mmap, entry)`, with `available_memory`.
unfoldable pub release_entries : List MMapEnt → ℕ → Mem → Res (ℕ × Mem)
release_entries [] available m = ok (available, m)
release_entries (entry ∷ mmap) available m = do
  let begin = first_page entry
  let end = last_page entry
  let size = max end begin - begin
  usable_pages ← set_range m.usable_pages (begin / page_size) (end / page_size) true
  bytes ← kernel_ptr begin
  m ← release_pages (record m { usable_pages = usable_pages }) bytes (size / page_size)
  release_entries mmap ((available + size) % 2 ^ 64) m

unfoldable pub fill_heap : ℕ → List MMapEnt → Mem → Res Mem
unfolding release_entries
fill_heap fuel mmap m = do
  (available, m) ← release_entries mmap 0 m
  assert (available == m.free_memory)
  validate_heap fuel m
  ok m
