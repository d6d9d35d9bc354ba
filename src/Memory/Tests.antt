-- ===== src/Memory/Tests.antt =====
-- Runs of the kern/memory.c theorems on a heap whose size class 1 holds two blocks.
use dumboss.Base.{
  ℕ, ◌≡◌, refl, [], ◌∷◌, replicate, set, arith, ok, ◌≤◌, ◌^◌, false, Option, ltb, Bool-cases, inl,
  inr, get_elem?-replicate, get_elem?-out, fault, List, ◌+◌,
}
use dumboss.Base.Int.{pos}
use dumboss.BitSet.{align_up, BitSet}
use dumboss.Memory.Address.{kernel_space_begin}
use dumboss.Memory.Map.{free_entries, only_free, free_entries-only_free}
use dumboss.Memory.Entries.{
  MMapEnt, alloc_from_entries, cut, alloc_from_entries-cut, alloc_from_entries-outside,
}
use dumboss.Memory.Alloc.{choose_class, alloc_raw}
use dumboss.Memory.Search.{is_free}
use dumboss.Memory.Choice.{IsChoice, choose_class-IsChoice, alloc_raw-fault}
use dumboss.Memory.{Mem, FreeBlock, ClassInfo, class_count, null, update}
use dumboss.Memory.Freelist.{remove_from_freelist}
use dumboss.Memory.Chain.{erase}
use dumboss.Memory.Heap.{Holds, Relisted, Yields, block_of, remove_from_freelist-erase}

abbrev no_bits : BitSet
no_bits = record { words = []; count = 0 }

abbrev no_class : ClassInfo
no_class = record { freelist = null; buddies = no_bits }

-- The blocks of pages 2 and 6, of two pages each.
abbrev linked : ℕ → FreeBlock
linked =
    update
      (update (λ p. record { next = 0; prev = 0; size_class = 0 }) (block_of 2)
        (record { next = block_of 6; prev = null; size_class = 1 }))
      (block_of 6) (record { next = null; prev = block_of 2; size_class = 1 })

abbrev heap : Mem
heap = record {
  free_memory = 16384;
  usable_pages = no_bits;
  free_pages = no_bits;
  classes =
      set (replicate class_count no_class) 1 (record { freelist = block_of 2; buddies = no_bits });
  blocks = linked;
}

heap-Holds : Holds heap 1 (block_of 2 ∷ block_of 6 ∷ [])
heap-Holds =
    (_, refl, (refl, omega arith, refl, refl, refl, (refl, omega arith, refl, refl, refl, refl)))

remove_from_freelist-erase_example :
    Yields
      (λ m'.
        Relisted heap m' 1
          (erase (block_of 6) (block_of 2 ∷ block_of 6 ∷ []))
          (block_of 2 ∷ block_of 6 ∷ []))
      (remove_from_freelist heap 6 1)
remove_from_freelist-erase_example =
    remove_from_freelist-erase 6 1 (block_of 2 ∷ block_of 6 ∷ []) (omega arith) refl (omega arith)
      heap-Holds refl

-- A heap without a free block.
abbrev used_up : Mem
used_up = record heap { classes = replicate class_count no_class }

used_up-nothing : (d : ℕ) → 3 ≤ 2 ^ d → is_free used_up.classes d ≡ false
used_up-nothing d fits = elim (Bool-cases (ltb d class_count)) [
  | inl inside ↦ rw (get_elem?-replicate class_count d no_class (ground (arith, inside)))
  | inr outside ↦ rw (get_elem?-out used_up.classes d (ground (arith, outside)))
]

choose_class-IsChoice_example :
    (o : Option (ℕ × ℕ)) × (choose_class heap.classes 5 false ≡ ok o)
    × IsChoice heap.classes 5 false o
choose_class-IsChoice_example =
    choose_class-IsChoice heap.classes 5 false refl (omega arith) (omega arith)

alloc_raw-fault_example : alloc_raw heap (pos 5000) false ≡ fault
alloc_raw-fault_example = alloc_raw-fault heap 5000 false refl (omega arith) (omega arith)

abbrev small_entry : MMapEnt
small_entry = record { ptr = 0x1004; size = 16 }

abbrev large_entry : MMapEnt
large_entry = record { ptr = 0x2001; size = 0x1000 }

alloc_from_entries-cut_example :
    alloc_from_entries (small_entry ∷ large_entry ∷ small_entry ∷ []) 13 8
    ≡ ok (
      align_up large_entry.ptr 8 + kernel_space_begin,
      small_entry ∷ cut (align_up 13 8) large_entry ∷ small_entry ∷ [],
    )
alloc_from_entries-cut_example =
    alloc_from_entries-cut (small_entry ∷ []) (small_entry ∷ []) large_entry 13 (omega arith)
      (omega arith) (record { bound = omega arith; within = omega arith }, omega arith, _)
      (record { bound = omega arith; within = omega arith }) (omega arith)

-- Two bytes, none of them aligned.
abbrev tiny_entry : MMapEnt
tiny_entry = record { ptr = 0x1001; size = 2 }

alloc_from_entries-outside_example :
    (rest : List MMapEnt) × (alloc_from_entries (tiny_entry ∷ large_entry ∷ []) 13 8
      ≡ ok (align_up tiny_entry.ptr 8 + kernel_space_begin, rest))
alloc_from_entries-outside_example =
    alloc_from_entries-outside tiny_entry (large_entry ∷ []) 13 (omega arith) (omega arith)
      (omega arith) (omega arith)

-- A free entry, two others, and a free one.
abbrev loader_map : List MMapEnt
loader_map =
    record { ptr = 0; size = 4097 }
    ∷ record { ptr = 4096; size = 4098 }
    ∷ record { ptr = 8192; size = 4096 }
    ∷ record { ptr = 12288; size = 8193 }
    ∷ []

free_entries-only_free_example : free_entries loader_map ≡ only_free loader_map
free_entries-only_free_example = free_entries-only_free loader_map

loader_map_free :
    free_entries loader_map
    ≡ record { ptr = 0; size = 4096 } ∷ record { ptr = 12288; size = 8192 } ∷ []
unfolding free_entries
loader_map_free = refl
