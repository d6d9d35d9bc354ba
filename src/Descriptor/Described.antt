-- ===== src/Descriptor/Described.antt =====
-- What `descriptor__init` of kern/descriptor_tables.c leaves in the table.
use dumboss.Base.{ℕ, ◌+◌, ◌-◌, ◌*◌, ◌/◌, ◌%◌, ◌^◌, ◌≡◌, ◌≢◌, ◌⊎◌, List, get_or, Res, ok, panic}
use dumboss.BitSet.{BitSet}
use dumboss.Memory.{Mem, null, page_size}
use dumboss.Memory.Zeroed.{Zeroes}
use dumboss.Descriptor.Gdt.{
  Gdt, Tss, gdt_kernel_code, sizeof_tss, tss_segment, gdt_limit, base_of, limit_of, access_of,
}

-- The entry that a selector names, and the one behind it, which is the other half of a system
-- segment.
abbrev pub entry_of : Gdt → ℕ → ℕ
entry_of gdt selector = get_or gdt.table (selector / 8) 0

abbrev pub next_entry_of : Gdt → ℕ → ℕ
next_entry_of gdt selector = get_or gdt.table (selector / 8 + 1) 0

-- The table as the processor reads it.
pub record Describes (tss_ptr segment : ℕ) (gdt : Gdt) : Type 0 where
  pub null_entry : get_or gdt.table 0 0 ≡ 0
  pub code : entry_of gdt segment ≡ gdt_kernel_code
  pub kernel : segment % 8 ≡ 0
  pub base : base_of (entry_of gdt (tss_segment 0)) (next_entry_of gdt (tss_segment 0)) ≡ tss_ptr
  pub limit : limit_of (entry_of gdt (tss_segment 0)) ≡ sizeof_tss - 1
  pub access : access_of (entry_of gdt (tss_segment 0)) ≡ 0x89
  pub apart : segment ≢ tss_segment 0
  pub loaded : gdt_limit gdt ≡ 4 * 8 - 1

-- A pointer is `NULL` and an assertion fails; or the table describes the segments, and the first
-- interrupt stack ends where the two pages of `zeroed_pages` do.
abbrev pub Ends :
    (pages : ℕ) (m : Mem) (xs : ℕ → List ℕ) (gdt_ptr tss_ptr : ℕ)
    → Res (ℕ × Gdt × Tss × Mem)
    → Type 0
Ends pages m xs gdt_ptr tss_ptr r =
    ((r ≡ panic) × ((gdt_ptr ≡ null) ⊎ (tss_ptr ≡ null)))
    ⊎ ((segment : ℕ) × (gdt' : Gdt) × (tss' : Tss) × (m' : Mem) × (new_stack : ℕ) × (r
          ≡ ok (segment, gdt', tss', m'))
        × (gdt_ptr ≢ null)
        × (tss_ptr ≢ null)
        × Describes tss_ptr segment gdt'
        × (get_or tss'.interrupt_stack_table 0 0 ≡ (new_stack + 2 * page_size) % 2 ^ 64)
        × Zeroes pages m xs 2 (ok (new_stack, m')))
