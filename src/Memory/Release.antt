-- ===== src/Memory/Release.antt =====
-- kern/memory.c: `release_pages`, `unsafe_mark_memory_usability` and `validate_heap`.
use dumboss.Base.{
  ℕ, zero, suc, ◌+◌, ◌-◌, ◌*◌, ◌/◌, ◌%◌, ◌^◌, not, ◌&&◌, Bool, true, false, min, ◌==◌,
  if◌then◌else◌, Res, ok, fault, ◌>>=◌, ◌>>◌, assert, load,
}
use dumboss.BitSet
use dumboss.BitSet.{BitSet}
use dumboss.Memory.{Mem, class_count, page_size, null, is_aligned, buddy_info}
use dumboss.Memory.Address.{physical_address}
use dumboss.Memory.Freelist.{remove_from_freelist, add_to_freelist}
use dumboss.Memory.Alloc.{get_buddy, set_buddy}

-- One page: while its buddy is free too, take the buddy off its list and go on with the pair.
unfoldable pub merge : ℕ → ℕ → ℕ → Mem → Res Mem
merge zero class page m = do
  is_aligned page (2 ^ (class_count - 1))
  add_to_freelist m page (class_count - 1)
merge (suc left) class page m = do
  is_aligned page (2 ^ class)
  buds ← buddy_info page class
  buddy_is_free ← get_buddy m class buds.bitset_index
  m ← set_buddy m class buds.bitset_index (not buddy_is_free)
  elim buddy_is_free [
    | false ↦ add_to_freelist m page class
    | true ↦ do
      m ← remove_from_freelist m buds.buddy class
      merge left (class + 1) (min page buds.buddy) m
  ]

unfoldable pub release_loop : ℕ → ℕ → Mem → Res Mem
unfolding merge
release_loop zero page m = ok m
release_loop (suc left) page m = do
  m ← merge (class_count - 1) 0 page m
  release_loop left (page + 1) m

unfoldable pub release_pages : Mem → ℕ → ℕ → Res Mem
unfolding release_loop
release_pages m bytes count = do
  assert (not (bytes == null))
  addr ← physical_address bytes
  assert (addr == BitSet.align_down addr page_size)
  let begin = addr / page_size
  let end = begin + count
  usable ← BitSet.get_all m.usable_pages begin end
  assert usable
  free ← BitSet.get_any m.free_pages begin end
  assert (not free)
  m ← release_loop count begin m
  free_pages ← BitSet.set_range m.free_pages begin end true
  ok (record m {
    free_memory = (m.free_memory + count * page_size) % 2 ^ 64;
    free_pages = free_pages;
  })

unfoldable pub unsafe_mark_memory_usability : Mem → ℕ → ℕ → Bool → Res Mem
unsafe_mark_memory_usability m bytes count usable = do
  assert (not (bytes == null))
  addr ← physical_address bytes
  assert (addr == BitSet.align_down addr page_size)
  let begin_page = addr / page_size
  let end_page = begin_page + count
  any_are_free ← BitSet.get_any m.free_pages begin_page end_page
  assert (not any_are_free)
  existing_pages ← BitSet.get_count m.usable_pages begin_page end_page
  usable_pages ← BitSet.set_range m.usable_pages begin_page end_page usable
  ok (record m { usable_pages = usable_pages })

-- `validate_heap` walks each list to its `NULL`; it gets `fuel` steps for each, and what it has
-- found is `success` and `calculated_free_memory`.
pub record Tally : Type 0 where
  pub success : Bool
  pub free : ℕ

unfoldable pub walk_list : ℕ → Mem → ℕ → ℕ → Tally → Res Tally
walk_list zero m i block t = fault
walk_list (suc fuel) m i block t =
    let rest = walk_list fuel m i (m.blocks block).next (record {
      success = t.success && (m.blocks block).size_class == i;
      free = (t.free + 2 ^ i * page_size) % 2 ^ 64;
    }) in
    if block == null then ok t else rest

unfoldable pub walk_classes : ℕ → ℕ → ℕ → Mem → Tally → Res Tally
unfolding walk_list
walk_classes fuel zero i m t = ok t
walk_classes fuel (suc left) i m t = do
  info ← load m.classes i
  t ← walk_list fuel m i info.freelist t
  walk_classes fuel left (i + 1) m t

unfoldable pub validate_heap : ℕ → Mem → Res (Unit {0})
unfolding walk_classes
validate_heap fuel m = do
  t ← walk_classes fuel class_count 0 m (record { success = true; free = 0 })
  assert (t.success && t.free == m.free_memory)
