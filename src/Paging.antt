-- ===== src/Paging.antt =====
-- kern/page_tables.c: the four levels of page tables. A table is the address of its page, and its
-- 512 entries are a function of their index, seen apart from the headers of free blocks: a table is
-- meant to stand on a page that is not free. New tables come from the page allocator.
pub mod Entry
pub mod Map
pub mod Canonical
pub mod Walk
pub mod Apart
pub mod Descend
pub mod Grow
pub mod Grown
mod Tests
use dumboss.Base.{
  ℕ, zero, suc, ◌+◌, ◌-◌, ◌*◌, ◌/◌, ◌%◌, ◌^◌, not, ◌&&◌, Bool, true, false, ltb, leb, ◌==◌,
  if◌then◌else◌, Res, ok, panic, fault, ◌>>=◌, ◌>>◌, assert, bit_and, bit_or,
}
use dumboss.Memory.{Mem, null, page_size}
use dumboss.Memory.Address.{kernel_ptr, physical_address}

abbrev pub entry_count : ℕ
entry_count = 512

-- `PTE_HUGE_PAGE` and `PTE_ADDRESS`
abbrev pub pte_huge_page : ℕ
pte_huge_page = 128

abbrev pub pte_address_mask : ℕ
pte_address_mask = 0x000f_ffff_ffff_f000

-- `PTE_KERNEL`: writable, not executable, present, not empty.
abbrev pub pte_kernel : ℕ
pte_kernel = 2 ^ 63 + 2 ^ 9 + 2 + 1

abbrev pub large_page : ℕ
large_page = 2 * 1024 * 1024

abbrev pub Tables : Type 0
Tables = ℕ → ℕ → ℕ

abbrev pub set_entry : Tables → ℕ → ℕ → ℕ → Tables
set_entry tables table index entry t i = if t == table && i == index then entry else tables t i

pub record Indices : Type 0 where
  pub p0 : ℕ
  pub p1 : ℕ
  pub p2 : ℕ
  pub p3 : ℕ
  pub p4 : ℕ

unfoldable pub page_table_indices : ℕ → Indices
page_table_indices address =
    let p1 = address / 2 ^ 12 in
    let p2 = p1 / 2 ^ 9 in
    let p3 = p2 / 2 ^ 9 in
    let p4 = p3 / 2 ^ 9 in
    record {
      p0 = address % page_size;
      p1 = p1 % entry_count;
      p2 = p2 % entry_count;
      p3 = p3 % entry_count;
      p4 = p4 % entry_count;
    }

-- `(u64)(((s64)(x << 16)) >> 16)`: the low 48 bits, with bit 47 copied into the high 16.
unfoldable pub sign_extend : ℕ → ℕ
sign_extend x = let low = x % 2 ^ 48 in if ltb low (2 ^ 47) then low else low + (2 ^ 64 - 2 ^ 48)

unfoldable pub indices_to_address : Indices → ℕ
unfolding sign_extend
indices_to_address i =
    sign_extend
      (bit_or (bit_or (bit_or (i.p4 * 2 ^ 39) (i.p3 * 2 ^ 30)) (i.p2 * 2 ^ 21)) (i.p1 * 2 ^ 12))

unfoldable pub make_pte : ℕ → ℕ → Res ℕ
make_pte ptr flags =
    if ptr == null
    then ok 0
    else do address ← physical_address ptr; ok (bit_or (bit_and address pte_address_mask) flags)

unfoldable pub pte_address : ℕ → Res ℕ
pte_address entry =
    if entry == 0 then ok null else kernel_ptr (sign_extend (bit_and entry pte_address_mask))

-- `translate`
unfoldable pub translate : Tables → ℕ → ℕ → Res ℕ
translate tables p4 virtual =
    let indices = page_table_indices virtual in
    if p4 == null then ok null else do
      p3 ← pte_address (tables p4 indices.p4)
      if p3 == null then ok null else do
        p2 ← pte_address (tables p3 indices.p3)
        if p2 == null then ok null else do
          let p2_entry = tables p2 indices.p2
          page ← pte_address p2_entry
          if page == null
              then ok null
              else if not (bit_and p2_entry pte_huge_page == 0)
              then ok ((page + indices.p1 * 2 ^ 12 + indices.p0) % 2 ^ 64)
              else do
                frame ← pte_address (tables page indices.p1)
                ok ((frame + indices.p0) % 2 ^ 64)

-- `region_size`, with `fuel` rounds.
region_loop : ℕ → Tables → ℕ → ℕ → ℕ → ℕ → Res ℕ
region_loop zero tables p4 virtual expected count = fault
region_loop (suc fuel) tables p4 virtual expected count =
    let rest =
      region_loop fuel tables p4 ((virtual + page_size) % 2 ^ 64) ((expected + page_size) % 2 ^ 64)
        (count + 1) in
    do
      addr ← translate tables p4 virtual
      if addr == null then ok count else if addr == expected then rest else ok count

unfoldable pub region_size : ℕ → Tables → ℕ → ℕ → Res ℕ
unfolding region_loop
region_size fuel tables p4 virtual = do
  expected ← translate tables p4 virtual
  if expected == null then ok 0 else region_loop fuel tables p4 virtual expected 0
