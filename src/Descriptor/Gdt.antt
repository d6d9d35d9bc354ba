-- ===== src/Descriptor/Gdt.antt =====
-- kern/descriptor_tables.c: `Gdt`.
use dumboss.Base.{
  not, ℕ, ◌+◌, ◌-◌, ◌*◌, ◌/◌, ◌%◌, ◌^◌, ◌<◌, ◌≡◌, List, ltb, ◌==◌, if◌then◌else◌, arith, bit_and,
  bit_or, Res, ok, ◌>>=◌, ◌>>◌, assert, store,
}
use dumboss.Base.Int.{pos}
use dumboss.Memory.{Mem, null, page_size}
use dumboss.Memory.Alloc.{zeroed_pages}
use dumboss.Base.Bits.{bit_or-add, bit_or-add_high, bit_or-shared}

pub record Gdt : Type 0 where
  pub index : ℕ
  pub table : List ℕ

-- `GDT__KERNEL_CODE`, as the source's static assertion has it, and `GDT__PRESENT`.
abbrev pub gdt_kernel_code : ℕ
gdt_kernel_code = 0x00af_9b00_0000_ffff

abbrev pub gdt_user_code : ℕ
gdt_user_code = 0x00af_fb00_0000_ffff

abbrev pub gdt_dpl_ring_3 : ℕ
gdt_dpl_ring_3 = 3 * 2 ^ 45

abbrev pub gdt_present : ℕ
gdt_present = 2 ^ 47

pub record Tss : Type 0 where
  pub reserved_1 : ℕ
  pub privilege_stack_table : List ℕ
  pub reserved_2 : ℕ
  pub interrupt_stack_table : List ℕ
  pub reserved_3 : ℕ
  pub reserved_4 : ℕ
  pub iomap_base : ℕ

-- `sizeof(Tss)` of the packed record: 4 + 3 * 8 + 8 + 7 * 8 + 8 + 2 + 2.
abbrev pub sizeof_tss : ℕ
sizeof_tss = 104

-- `Gdt__init`
unfoldable pub init : Gdt → Res Gdt
init gdt = do table ← store gdt.table 0 0; ok (record { index = 1; table = table })

-- `Gdt__add_entry` returns the selector.
unfoldable pub add_entry : Gdt → ℕ → Res (ℕ × Gdt)
add_entry gdt entry = do
  let index = gdt.index
  assert (ltb index 8)
  table ← store gdt.table index entry
  let priviledge_level = if bit_and entry gdt_dpl_ring_3 == 0 then 0 else 3
  ok (
    bit_or (index * 2 ^ 3 % 2 ^ 16) priviledge_level,
    record { index = (index + 1) % 2 ^ 16; table = table },
  )

-- `tss_segment`
unfoldable pub tss_segment : ℕ → ℕ
tss_segment core_idx =
    let tss_idx = (core_idx % 2 ^ 16 * 2 + 2) % 2 ^ 16 in tss_idx * 2 ^ 3 % 2 ^ 16

-- The two words that `Gdt__add_tss` makes of the address. A mask of whole bytes and the shift
-- behind it are a division and a remainder.
unfoldable pub tss_low : ℕ → ℕ
tss_low addr =
    bit_or
      (bit_or
        (bit_or (bit_or gdt_present (addr % 2 ^ 24 * 2 ^ 16)) (addr / 2 ^ 24 % 2 ^ 8 * 2 ^ 56))
        (sizeof_tss - 1))
      (9 * 2 ^ 40)

unfoldable pub tss_high : ℕ → ℕ
tss_high addr = addr / 2 ^ 32

-- `Gdt__add_tss`
unfoldable pub add_tss : Gdt → ℕ → ℕ → Res Gdt
add_tss gdt tss core_idx = do
  let index = gdt.index
  assert (ltb (index + 1) 8)
  table ← store gdt.table index (tss_low tss)
  table ← store table (index + 1) (tss_high tss)
  let selector = index * 2 ^ 3 % 2 ^ 16
  assert (selector == tss_segment core_idx)
  ok (record { index = (index + 2) % 2 ^ 16; table = table })

-- `descriptor__init`, before the table is loaded. `gdt_ptr` and `tss_ptr` are what `Bump__bump` has
-- returned, and `gdt` and `tss` what is in the memory there.
unfoldable pub descriptor_init : Mem → ℕ → ℕ → Gdt → Tss → Res (ℕ × Gdt × Tss × Mem)
unfolding init add_entry add_tss
descriptor_init m gdt_ptr tss_ptr gdt tss = do
  assert (not (gdt_ptr == null))
  gdt ← init gdt
  assert (not (tss_ptr == null))
  (new_stack, m) ← zeroed_pages m (pos 2)
  interrupt_stack_table ← store tss.interrupt_stack_table 0 ((new_stack + 2 * page_size) % 2 ^ 64)
  let tss = record tss { interrupt_stack_table = interrupt_stack_table }
  (segment, gdt) ← add_entry gdt gdt_kernel_code
  gdt ← add_tss gdt tss_ptr 0
  ok (segment, gdt, tss, m)

-- The limit that `load_gdt` loads: the table's bytes in use, less one.
unfoldable pub gdt_limit : Gdt → ℕ
gdt_limit gdt = (gdt.index * 8 + 2 ^ 16 - 1) % 2 ^ 16

-- The fields of a system segment descriptor, as the processor reads them: base, limit and type.
unfoldable pub base_of : ℕ → ℕ → ℕ
base_of low high = low / 2 ^ 16 % 2 ^ 24 + low / 2 ^ 56 * 2 ^ 24 + high * 2 ^ 32

unfoldable pub limit_of : ℕ → ℕ
limit_of low = low % 2 ^ 16 + low / 2 ^ 48 % 2 ^ 4 * 2 ^ 16

-- Bits 40 to 47: present, privilege level 0, and the type 9 of an available task state segment.
unfoldable pub access_of : ℕ → ℕ
access_of low = low / 2 ^ 40 % 2 ^ 8

tss_low-sum :
    (addr : ℕ)
    → tss_low addr
      ≡ addr / 2 ^ 24 % 2 ^ 8 * 2 ^ 56 + 2 ^ 47 + 9 * 2 ^ 40 + addr % 2 ^ 24 * 2 ^ 16 + 103
unfolding tss_low
tss_low-sum addr =
    let x = addr % 2 ^ 24 in
    let y = addr / 2 ^ 24 % 2 ^ 8 in
    let a : y * 2 ^ 56 + (2 ^ 47 + x * 2 ^ 16) ≡ (y * 2 ^ 40 + 2 ^ 31 + x) * 2 ^ 16 = omega arith in
    let b : (y * 2 ^ 40 + 2 ^ 31 + x) * 2 ^ 16 + 103
        ≡ (y * 2 ^ 16 + 128) * 2 ^ 40 + (x * 2 ^ 16 + 103) =
      omega arith in
    let c : y * 2 ^ 16 + 128 ≡ (y * 2 ^ 12 + 8) * 2 ^ 4 = omega arith in
    rw
      (
        bit_or-add 47 1 (x * 2 ^ 16) (omega arith),
        bit_or-add_high 56 y (2 ^ 47 + x * 2 ^ 16) (omega arith),
        a,
        bit_or-add 16 (y * 2 ^ 40 + 2 ^ 31 + x) 103 (omega arith),
        b,
        bit_or-shared 40 (y * 2 ^ 16 + 128) 9 (x * 2 ^ 16 + 103) (omega arith),
        c,
        bit_or-add 4 (y * 2 ^ 12 + 8) 9 (omega arith),
      )
      (omega arith)

-- The processor finds in the two words of `Gdt__add_tss` the address of the task state segment, its
-- size less one, and an available task state segment of privilege level 0.
pub tss-fields :
    (addr : ℕ)
    → addr < 2 ^ 64
    → (base_of (tss_low addr) (tss_high addr) ≡ addr)
      × (limit_of (tss_low addr) ≡ sizeof_tss - 1)
      × (access_of (tss_low addr) ≡ 0x89)
unfolding base_of limit_of access_of tss_high
tss-fields addr lt = omega (arith, tss_low-sum addr)
