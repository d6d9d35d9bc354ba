-- ===== src/Descriptor/Tests.antt =====
-- Runs of the theorems on the descriptor tables.
use dumboss.Base.{ℕ, ◌<◌, ◌≡◌, ◌≢◌, List, arith, replicate, get_elem?, some, ok}
use dumboss.Descriptor.Gdt.{Tss, Gdt}
use dumboss.Descriptor.Idt.{IdtEntry, missing, handler_addr, idt_table, idt_table-entries}

abbrev tss : ℕ
tss = 0xffff_8000_1234_5678

abbrev blank_gdt : Gdt
blank_gdt = record { index = 0; table = replicate 8 0 }

abbrev blank_tss : Tss
blank_tss = record {
  reserved_1 = 0;
  privilege_stack_table = replicate 3 0;
  reserved_2 = 0;
  interrupt_stack_table = replicate 7 0;
  reserved_3 = 0;
  reserved_4 = 0;
  iomap_base = 0;
}

idt_table-entries_example :
    (entries : List IdtEntry) × (double_fault : IdtEntry) × (idt_table 8 tss ≡ ok entries)
    × (get_elem? entries 8 ≡ some double_fault)
    × (handler_addr double_fault ≡ tss)
    × (double_fault.options ≡ 0x8e01)
    × ((i : ℕ) → i < 256 → i ≢ 8 → get_elem? entries i ≡ some missing)
idt_table-entries_example = idt_table-entries 8 tss (omega arith)
