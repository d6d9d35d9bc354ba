-- ===== src/Memory.antt =====
-- kern/memory.c: addresses, and the state of the page allocator.
-- A pointer is its address, a `u64`, and `NULL` is 0. Of the memory behind the kernel's addresses
-- only the header that the allocator keeps at the start of a free page is seen, as a function of
-- the page's address.
pub mod Address
pub mod Freelist
pub mod Alloc
pub mod Release
pub mod Chain
pub mod Heap
pub mod Blocks
pub mod Align
pub mod Buddy
pub mod Pieces
pub mod Split
pub mod Layout
pub mod Total
pub mod Handed
pub mod Added
pub mod Merge
pub mod Validate
pub mod Returned
pub mod Roundtrip
pub mod Usability
pub mod Blank
pub mod Init
pub mod Filled
pub mod Client
pub mod Holdings
pub mod Serving
pub mod Allocate
pub mod Handout
pub mod Zeroed
pub mod Power
pub mod Search
pub mod Choice
pub mod Entries
pub mod Map
mod Tests
pub mod SmallHeap
pub mod FiveHeap
mod Runs
use dumboss.Base.{
  ℕ, ◌+◌, ◌-◌, ◌*◌, ◌/◌, ◌%◌, ◌^◌, List, get_or, set, ltb, ◌==◌, if◌then◌else◌, Res, ok, ◌>>=◌,
  ◌>>◌, assert, load, store, bit_xor,
}
use dumboss.BitSet
use dumboss.BitSet.{BitSet}

-- `CLASS_COUNT` and `_4KB`.
abbrev pub class_count : ℕ
class_count = 12

abbrev pub page_size : ℕ
page_size = 4096

abbrev pub null : ℕ
null = 0

-- `FreeBlock`; `class` is named in full as in the allocator's messages.
pub record FreeBlock : Type 0 where
  pub next : ℕ
  pub prev : ℕ
  pub size_class : ℕ

pub record ClassInfo : Type 0 where
  pub freelist : ℕ
  pub buddies : BitSet

-- `MemGlobals`, and the free blocks' headers. `free_memory` is an `s64` kept as its bit pattern.
pub record Mem : Type 0 where
  pub free_memory : ℕ
  pub usable_pages : BitSet
  pub free_pages : BitSet
  pub classes : List ClassInfo
  pub blocks : ℕ → FreeBlock

-- A write to one header.
abbrev pub update : (ℕ → FreeBlock) → ℕ → FreeBlock → ℕ → FreeBlock
update blocks p block q = if p == q then block else blocks q

abbrev pub set_blocks : Mem → (ℕ → FreeBlock) → Mem
set_blocks m blocks = record m { blocks = blocks }

-- `info->freelist = block` of one class, with the class read before.
abbrev pub set_freelist : Mem → ℕ → ℕ → Res Mem
set_freelist m class block = do
  info ← load m.classes class
  classes ← store m.classes class (record info { freelist = block })
  ok (record m { classes = classes })

abbrev pub is_aligned : ℕ → ℕ → Res (Unit {0})
is_aligned value alignment = assert (value % alignment == 0)

pub record BuddyInfo : Type 0 where
  pub buddy : ℕ
  pub bitset_index : ℕ

unfoldable pub buddy_info : ℕ → ℕ → Res BuddyInfo
buddy_info page class = do
  is_aligned page (2 ^ class)
  ok (record { buddy = bit_xor page (2 ^ class); bitset_index = page / 2 ^ (class + 1) })
