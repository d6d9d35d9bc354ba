-- ===== src/Paging/Map.antt =====
-- kern/page_tables.c: `map_page`, `map_2MB_page`, `map_region`, `copy_mapping` and the calls that
-- give a table's pages back.
use dumboss.Base.{
  ℕ, zero, suc, ◌+◌, ◌-◌, ◌*◌, ◌/◌, ◌%◌, ◌^◌, not, ◌&&◌, ◌||◌, Bool, true, false, leb, min, ◌==◌,
  if◌then◌else◌, Res, ok, fault, ◌>>=◌, bit_and, bit_or,
}
use dumboss.Base.Int.{pos}
use dumboss.Memory.{Mem, null, page_size}
use dumboss.Memory.Alloc.{zeroed_pages}
use dumboss.Memory.Release.{release_pages, unsafe_mark_memory_usability}
use dumboss.Paging.{
  Tables, set_entry, page_table_indices, make_pte, pte_address, pte_huge_page, large_page,
  translate, region_size, entry_count,
}

pub record Paging : Type 0 where
  pub memory : Mem
  pub tables : Tables

abbrev pub aligned : ℕ → ℕ → Bool
aligned value alignment = value % alignment == 0

-- One level down from the entry `index` of `table`: where there is no table yet, a zeroed page
-- becomes one. `null` stands for `return false`.
unfoldable pub descend : Paging → ℕ → ℕ → ℕ → Res (ℕ × Paging)
descend s table index flags = do
  next ← pte_address (s.tables table index)
  if not (next == null) then ok (next, s) else do
    (page, memory) ← zeroed_pages s.memory (pos 1)
    if page == null then ok (null, record s { memory = memory }) else do
      entry ← make_pte page flags
      let cleared = λ (t i : ℕ). if t == page then 0 else s.tables t i
      ok (page, record { memory = memory; tables = set_entry cleared table index entry })

unfoldable pub map_page : Paging → ℕ → ℕ → ℕ → ℕ → Res (Bool × Paging)
map_page s p4 virtual kernel flags =
    let indices = page_table_indices virtual in
    if not (not (p4 == null) && aligned p4 page_size)
    then ok (false, s)
    else if not (not (kernel == null) && aligned kernel page_size)
    then ok (false, s)
    else if not (not (virtual == 0) && aligned virtual page_size)
    then ok (false, s)
    else do
      (p3, s) ← descend s p4 indices.p4 flags
      if p3 == null then ok (false, s) else do
        (p2, s) ← descend s p3 indices.p3 flags
        if p2 == null then ok (false, s) else do
          (p1, s) ← descend s p2 indices.p2 flags
          if p1 == null
              then ok (false, s)
              else if not (s.tables p1 indices.p1 == 0)
              then ok (false, s)
              else do
                entry ← make_pte kernel flags
                ok (true, record s { tables = set_entry s.tables p1 indices.p1 entry })

unfoldable pub map_2mb_page : Paging → ℕ → ℕ → ℕ → ℕ → Res (Bool × Paging)
map_2mb_page s p4 virtual kernel flags =
    let indices = page_table_indices virtual in
    if not (not (p4 == null) && aligned p4 page_size)
    then ok (false, s)
    else if not (not (kernel == null) && aligned kernel large_page)
    then ok (false, s)
    else if not (not (virtual == 0) && aligned virtual large_page)
    then ok (false, s)
    else do
      (p3, s) ← descend s p4 indices.p4 flags
      if p3 == null then ok (false, s) else do
        (p2, s) ← descend s p3 indices.p3 flags
        if p2 == null
            then ok (false, s)
            else if not (s.tables p2 indices.p2 == 0)
            then ok (false, s)
            else do
              entry ← make_pte kernel (bit_or flags pte_huge_page)
              ok (true, record s { tables = set_entry s.tables p2 indices.p2 entry })

-- The loop of `map_region`. Every round maps at least a page, so `count + 1` rounds are enough.
unfoldable pub map_loop : ℕ → Paging → ℕ → ℕ → ℕ → ℕ → ℕ → ℕ → Res (Bool × Paging)
map_loop zero s p4 virtual ptr mapped size flags = fault
map_loop (suc fuel) s p4 virtual ptr mapped size flags =
    let rest = λ (diff : ℕ) (t : Paging).
      map_loop fuel t p4 ((virtual + diff) % 2 ^ 64) ((ptr + diff) % 2 ^ 64) (mapped + diff) size
        flags in
    if leb size mapped
    then ok (true, s)
    else if aligned virtual large_page && aligned ptr large_page && leb large_page (size - mapped)
    then (do
      (res, t) ← map_2mb_page s p4 virtual ptr flags
      if res then rest large_page t else ok (false, t))
    else (do
      (res, t) ← map_page s p4 virtual ptr flags
      if res then rest page_size t else ok (false, t))

unfoldable pub map_region : Paging → ℕ → ℕ → ℕ → ℕ → ℕ → Res (Bool × Paging)
unfolding map_loop
map_region s p4 virtual kernel count flags =
    if not (not (p4 == null) && aligned p4 page_size)
    then ok (false, s)
    else if not (not (kernel == null) && aligned kernel page_size)
    then ok (false, s)
    else if not (not (virtual == 0) && aligned virtual page_size)
    then ok (false, s)
    else map_loop (count + 1) s p4 virtual kernel 0 (count * page_size) flags

-- The loop of `copy_mapping`; `count -= size` makes `count` negative at the end, which is 0 here.
-- Every round takes at least a page off, so `count + 1` rounds are enough.
copy_loop : ℕ → ℕ → Paging → ℕ → ℕ → ℕ → ℕ → ℕ → Res (Bool × Paging)
copy_loop steps zero s dest src virt count flags = fault
copy_loop steps (suc fuel) s dest src virt count flags =
    let rest =
      λ (size : ℕ) (t : Paging). copy_loop steps fuel t dest src virt (count - size) flags in
    if count == 0 then ok (true, s) else do
      ptr ← translate s.tables src virt
      if ptr == null then ok (false, s) else do
        size ← region_size steps s.tables src virt
        if size == 0 then ok (false, s) else do
          (res, t) ← map_region s dest virt ptr (min size count) flags
          if res then rest size t else ok (false, t)

-- `copy_mapping`, with `steps` rounds for each `region_size`.
unfoldable pub copy_mapping : ℕ → Paging → ℕ → ℕ → ℕ → ℕ → ℕ → Res (Bool × Paging)
unfolding copy_loop
copy_mapping steps s dest src virt count flags =
    copy_loop steps (count + 1) s dest src (virt / page_size * page_size) count flags

-- `destroy_table_inner` and `destroy_bb_table_inner`, which marks the page usable first. `visit` is
-- the `FOR_PTR` over the entries, from the one behind `left` more.
visit : (ℕ → ℕ → Paging → Res Paging) → ℕ → ℕ → Paging → Res Paging
visit inner table zero s = ok s
visit inner table (suc left) s = do
  let entry = s.tables table (entry_count - suc left)
  child ← pte_address entry
  s ← inner child entry s
  visit inner table left s

give_back_table : Bool → ℕ → Paging → Res Paging
give_back_table mark table s = do
  memory ← (if mark then unsafe_mark_memory_usability s.memory table 1 true else ok s.memory)
  memory ← release_pages memory table 1
  ok (record s { memory = memory })

unfoldable pub destroy_inner : Bool → ℕ → ℕ → ℕ → Paging → Res Paging
unfolding visit give_back_table
destroy_inner mark zero table entry s = ok s
destroy_inner mark (suc level) table entry s =
    let children = visit (destroy_inner mark level) table entry_count s in
    if table == null || not (bit_and entry pte_huge_page == 0)
    then ok s
    else do s ← (if level == 0 then ok s else children); give_back_table mark table s

unfoldable pub destroy_bootboot_table : Paging → ℕ → Res Paging
unfolding destroy_inner
destroy_bootboot_table s p4 = destroy_inner true 4 p4 0 s

unfoldable pub destroy_table : Paging → ℕ → Res Paging
unfolding destroy_inner
destroy_table s p4 = destroy_inner false 4 p4 0 s
