-- ===== src/Descriptor/Idt.antt =====
-- kern/interrupts.c: `IdtEntry`, and the table that `load_idt` fills.
use dumboss.Base.{
  ℕ, ◌+◌, ◌*◌, ◌/◌, ◌%◌, ◌^◌, ◌<◌, ◌≡◌, refl, List, ltb, arith, bit_and, bit_or, Res, ok, ◌>>=◌,
  ◌>>◌, assert, replicate, load, store, get_elem?, get_elem?-set_self, get_elem?-set_ne,
  get_elem?-replicate, sym, ◌∙◌, some, ◌≢◌,
}
use dumboss.Base.Bits.{bit_or-add_high}

pub record IdtEntry : Type 0 where
  pub pointer_low : ℕ
  pub gdt_selector : ℕ
  pub options : ℕ
  pub pointer_middle : ℕ
  pub pointer_high : ℕ
  pub reserved : ℕ

-- `IdtEntry__missing`
unfoldable pub missing : IdtEntry
missing = record {
  pointer_low = 0;
  gdt_selector = 0;
  options = 0xe00;
  pointer_middle = 0;
  pointer_high = 0;
  reserved = 0;
}

-- `IdtEntry__set_present` and `IdtEntry__set_IST_index`, of a `u16`; `~U16(7)` is 0xfff8 there.
unfoldable pub set_present : ℕ → ℕ
set_present opts = bit_or opts (2 ^ 15) % 2 ^ 16

unfoldable pub set_ist_index : ℕ → ℕ → Res ℕ
set_ist_index opts idx = do assert (ltb idx 8); ok (bit_or (bit_and opts 0xfff8) idx)

-- `IdtEntry__handler_addr`
unfoldable pub handler_addr : IdtEntry → ℕ
handler_addr entry =
    bit_or (bit_or entry.pointer_low (entry.pointer_middle * 2 ^ 16)) (entry.pointer_high * 2 ^ 32)

-- `IdtEntry__set_handler`; `cs` is the value of the code segment register.
unfoldable pub set_handler : ℕ → IdtEntry → ℕ → Res IdtEntry
unfolding set_present set_ist_index
set_handler cs entry addr = do
  options ← set_ist_index (set_present entry.options) 1
  ok (record entry {
    pointer_low = addr % 2 ^ 16;
    pointer_middle = addr / 2 ^ 16 % 2 ^ 16;
    pointer_high = addr / 2 ^ 32 % 2 ^ 32;
    gdt_selector = cs;
    options = options;
  })

-- The table of `load_idt`, behind the assertion that `Bump__bump` has returned memory for it: every
-- entry missing, but for `double_fault`, which is number 8.
unfoldable pub idt_table : ℕ → ℕ → Res (List IdtEntry)
unfolding missing set_handler
idt_table cs double_fault = do
  let entries = replicate 256 missing
  entry ← load entries 8
  entry ← set_handler cs entry double_fault
  store entries 8 entry

-- The three pieces of a pointer are put together again.
handler_addr-pieces :
    (e : IdtEntry) (addr : ℕ)
    → addr < 2 ^ 64
    → e.pointer_low ≡ addr % 2 ^ 16
    → e.pointer_middle ≡ addr / 2 ^ 16 % 2 ^ 16
    → e.pointer_high ≡ addr / 2 ^ 32 % 2 ^ 32
    → handler_addr e ≡ addr
unfolding handler_addr
handler_addr-pieces e addr lt low middle high =
    rw
      (
        bit_or-add_high 16 e.pointer_middle e.pointer_low (omega arith),
        bit_or-add_high 32 e.pointer_high (e.pointer_middle * 2 ^ 16 + e.pointer_low) (omega arith),
      )
      (omega arith)

-- `IdtEntry__set_handler` returns for every 64-bit address, and the entry leads to that address in
-- the given code segment.
pub handler_addr-set_handler :
    (cs : ℕ) (entry : IdtEntry) (addr : ℕ)
    → addr < 2 ^ 64
    → (entry' : IdtEntry) × (set_handler cs entry addr ≡ ok entry')
      × (handler_addr entry' ≡ addr)
      × (entry'.gdt_selector ≡ cs)
unfolding set_handler
handler_addr-set_handler cs entry addr lt =
    (_, refl, handler_addr-pieces _ addr lt refl refl refl, refl)

-- In the table of `load_idt` the entry of the double fault is present, on the first interrupt
-- stack, and leads to the handler; every other entry is missing.
pub idt_table-entries :
    (cs addr : ℕ)
    → addr < 2 ^ 64
    → (entries : List IdtEntry) × (double_fault : IdtEntry) × (idt_table cs addr ≡ ok entries)
      × (get_elem? entries 8 ≡ some double_fault)
      × (handler_addr double_fault ≡ addr)
      × (double_fault.options ≡ 0x8e01)
      × ((i : ℕ) → i < 256 → i ≢ 8 → get_elem? entries i ≡ some missing)
unfolding idt_table
idt_table-entries cs addr lt = (
  _,
  _,
  refl,
  get_elem?-set_self (replicate 256 missing) 8 _ (omega arith),
  handler_addr-pieces _ addr lt refl refl refl,
  refl,
  λ i small other.
      get_elem?-set_ne (replicate 256 missing) 8 i _ (λ e. other (sym e))
      ∙ get_elem?-replicate 256 i missing small,
)
