-- ===== src/Memory/Alloc.antt =====
-- kern/memory.c: `alloc_raw` and the calls on top of it. lib/basics.h: `smallest_greater_power2`.
use dumboss.Base.{
  ℕ, zero, suc, ◌+◌, ◌-◌, ◌*◌, ◌/◌, ◌%◌, ◌^◌, not, Bool, true, false, Option, none, some, List, ltb,
  leb, ◌==◌, if◌then◌else◌, Res, ok, fault, ◌>>=◌, ◌>>◌, assert, load, store,
}
use dumboss.Base.Int.{ℤ, pos, negsuc}
use dumboss.BitSet
use dumboss.Memory.{Mem, ClassInfo, class_count, page_size, null, set_blocks, buddy_info}
use dumboss.Memory.Address.{physical_address}
use dumboss.Memory.Freelist.{pop_freelist, add_to_freelist}

-- The number of binary digits of a `u64`: 64 less `__builtin_clzl`, which counts leading zeros.
unfoldable pub bit_length : ℕ → ℕ → ℕ
bit_length zero value = 0
bit_length (suc w) value = if value == 0 then 0 else bit_length w (value / 2) + 1

unfoldable pub smallest_greater_power2 : ℕ → ℕ
unfolding bit_length
smallest_greater_power2 value = if leb value 1 then 0 else bit_length 64 (value - 1)

pub record Buffer : Type 0 where
  pub bytes : ℕ
  pub count : ℕ

abbrev pub no_buffer : Buffer
no_buffer = record { bytes = null; count = 0 }

-- `RANGE(min_class, CLASS_COUNT, current)` leaves at `current == CLASS_COUNT` only. From a larger
-- `min_class` it goes on past the array, so its first read there is a fault.
unfoldable pub first_class : ℕ → List ClassInfo → ℕ → Res (Option ℕ)
first_class zero classes current = fault
first_class (suc fuel) classes current =
    let rest = first_class fuel classes (current + 1) in
    if current == class_count
    then ok none
    else do info ← load classes current; if info.freelist == null then rest else ok (some current)

-- `for (it = min_class - 1; it >= 0; it--)`, from `it + 1`.
unfoldable pub last_class : List ClassInfo → ℕ → Res (Option ℕ)
last_class classes zero = ok none
last_class classes (suc it) = do
  info ← load classes it
  if info.freelist == null then last_class classes it else ok (some it)

-- The size class to take a block from, and the number of pages to hand out.
unfoldable pub choose_class : List ClassInfo → ℕ → Bool → Res (Option (ℕ × ℕ))
unfolding first_class last_class
choose_class classes count exact = do
  let min_class = smallest_greater_power2 count
  found ← first_class (class_count + 1) classes min_class
  elim found [
    | some class ↦ ok (some (class, count))
    | none ↦ if exact then ok none else do
      smaller ← last_class classes min_class
      elim smaller [ some it ↦ ok (some (it, 2 ^ it)) | none ↦ ok none ]
  ]

-- `BitSet__set(info->buddies, index, value)`
abbrev pub set_buddy : Mem → ℕ → ℕ → Bool → Res Mem
set_buddy m class index value = do
  info ← load m.classes class
  buddies ← BitSet.set_bit info.buddies index value
  classes ← store m.classes class (record info { buddies = buddies })
  ok (record m { classes = classes })

abbrev pub get_buddy : Mem → ℕ → ℕ → Res Bool
get_buddy m class index = do info ← load m.classes class; BitSet.get info.buddies index

-- The bit of the block's own pair, where its size class has one.
unfoldable pub clear_buddy : ℕ → ℕ → Mem → Res Mem
clear_buddy class begin m = if class == class_count - 1 then ok m else do
  info ← buddy_info begin class
  odd ← get_buddy m class info.bitset_index
  assert odd
  set_buddy m class info.bitset_index false

-- The loop that gives back what is left of the block, from size class `i` down.
unfoldable pub give_back : ℕ → ℕ → ℕ → Mem → Res Mem
give_back zero remaining page m = ok m
give_back (suc child_class) remaining page m = if remaining == 0 then ok m else do
  let child_size = 2 ^ child_class
  info ← buddy_info page child_class
  let index = info.bitset_index
  taken ← get_buddy m child_class index
  assert (not taken)
  elim (ltb child_size remaining) [
    | true ↦ give_back child_class (remaining - child_size) (page + child_size) m
    | false ↦ do
      m ← add_to_freelist m (page + child_size) child_class
      m ← set_buddy m child_class index true
      elim (remaining == child_size) [
        | true ↦ ok m
        | false ↦ give_back child_class remaining page m
      ]
  ]

-- `alloc_raw` once the class is chosen.
unfoldable pub take_block : Mem → ℕ → ℕ → Res (Buffer × Mem)
unfolding give_back
take_block m class count = do
  let size = count * page_size
  let charged = record m { free_memory = (m.free_memory + 2 ^ 64 - size) % 2 ^ 64 }
  (bytes, m) ← pop_freelist charged class
  addr ← physical_address bytes
  let begin = addr / page_size
  let end = begin + count
  usable ← BitSet.get_all m.usable_pages begin end
  assert usable
  free ← BitSet.get_all m.free_pages begin end
  assert free
  free_pages ← BitSet.set_range m.free_pages begin end false
  let m = record m { free_pages = free_pages }
  m ← clear_buddy class begin m
  m ← give_back class count begin m
  ok (record { bytes = bytes; count = size }, m)

unfoldable pub alloc_raw : Mem → ℤ → Bool → Res (Buffer × Mem)
unfolding choose_class take_block
alloc_raw m (negsuc _) exact = ok (no_buffer, m)
alloc_raw m (pos count) exact = if count == 0 then ok (no_buffer, m) else do
  chosen ← choose_class m.classes count exact
  elim chosen [ none ↦ ok (no_buffer, m) | some (class, n) ↦ take_block m class n ]

unfoldable pub try_raw_pages : Mem → ℤ → Res (Buffer × Mem)
unfolding alloc_raw
try_raw_pages m count = alloc_raw m count false

unfoldable pub raw_pages : Mem → ℤ → Res (ℕ × Mem)
unfolding alloc_raw
raw_pages m count = do (buffer, m) ← alloc_raw m count true; ok (buffer.bytes, m)

-- `memset(data, 0, count * _4KB)`, of which the headers at the pages' starts are seen.
unfoldable pub clear_pages : ℕ → ℕ → Mem → Mem
clear_pages zero p m = m
clear_pages (suc count) p m = clear_pages count (p + page_size) (
    set_blocks m
      (λ q. if p == q then record { next = 0; prev = 0; size_class = 0 } else m.blocks q))

abbrev pub pages_of : ℤ → ℕ
pages_of (pos n) = n
pages_of (negsuc _) = 0

unfoldable pub zeroed_pages : Mem → ℤ → Res (ℕ × Mem)
unfolding alloc_raw clear_pages
zeroed_pages m count = do
  (buffer, m) ← alloc_raw m count true
  ok (buffer.bytes, if buffer.bytes == null then m else clear_pages (pages_of count) buffer.bytes m)
