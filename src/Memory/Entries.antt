-- ===== src/Memory/Entries.antt =====
-- kern/memory.c: `alloc_from_entries`, which takes memory from the loader's memory map before the
-- page allocator works, and `mem_fmt`.
use dumboss.Base.{
  lt→ltb, ℕ, zero, suc, ◌+◌, ◌-◌, ◌/◌, ◌%◌, ◌^◌, ◌≤◌, ◌<◌, ◌≡◌, refl, max, false, List, [], ◌∷◌,
  ◌++◌, ltb, ◌==◌, if◌then◌else◌, arith, Res, ok, panic, ◌>>=◌, ◌>>◌, assert,
}
use dumboss.BitSet.{align_up, popcount}
use dumboss.Memory.Address.{kernel_space_begin}

-- `MMapEnt` of a free entry: its first address and its size in bytes.
pub record MMapEnt : Type 0 where
  pub ptr : ℕ
  pub size : ℕ

-- The `FOR(mmap)` of `alloc_from_entries`, with the failed assertion behind it. The difference
-- wraps where the aligned pointer is past the end of the entry.
unfoldable pub entries_loop : ℕ → ℕ → List MMapEnt → Res (ℕ × List MMapEnt)
entries_loop align size [] = panic
entries_loop align size (it ∷ mmap) =
    let aligned_ptr = align_up it.ptr align in
    let aligned_size = (it.size + it.ptr + 2 ^ 64 - aligned_ptr) % 2 ^ 64 in
    let next = entries_loop align size mmap >>= λ (p, rest). ok (p, it ∷ rest) in
    if ltb aligned_size size
    then next
    else ok (
      (aligned_ptr + kernel_space_begin) % 2 ^ 64,
      record { ptr = (aligned_ptr + size) % 2 ^ 64; size = aligned_size - size } ∷ mmap,
    )

unfoldable pub alloc_from_entries : List MMapEnt → ℕ → ℕ → Res (ℕ × List MMapEnt)
unfolding entries_loop
alloc_from_entries mmap size align = do
  assert (ltb 0 size)
  let align = max align 1
  assert (popcount 64 align == 1)
  entries_loop align (align_up size align) mmap

-- The number that `mem_fmt` gives, and how often it has divided it by 1024.
mem_fmt_loop : ℕ → ℕ → ℕ → ℕ × ℕ
mem_fmt_loop zero class size = (size, class)
mem_fmt_loop (suc left) class size =
    let rest = mem_fmt_loop left (class + 1) (size / 1024) in
    if ltb size 1024 then (size, class) else rest

unfoldable pub mem_fmt : ℕ → ℕ × ℕ
unfolding mem_fmt_loop
mem_fmt size = mem_fmt_loop 3 0 size

-- An entry below 2^47 whose first aligned address is not past its end.
pub record IsEntry (it : MMapEnt) : Type 0 where
  pub bound : it.ptr + it.size < 2 ^ 47
  pub within : align_up it.ptr 8 ≤ it.ptr + it.size

-- Entries that have no `size` bytes from their first aligned address on.
abbrev pub TooSmall : ℕ → List MMapEnt → Type 0
TooSmall size [] = Unit
TooSmall size (it ∷ mmap) =
    IsEntry it × (it.ptr + it.size < align_up it.ptr 8 + size) × TooSmall size mmap

entries_loop-skip :
    (size : ℕ) (before mmap rest : List MMapEnt) (p : ℕ)
    → TooSmall size before
    → entries_loop 8 size mmap ≡ ok (p, rest)
    → entries_loop 8 size (before ++ mmap) ≡ ok (p, before ++ rest)
unfolding entries_loop
entries_loop-skip size [] mmap rest p small h = h
entries_loop-skip size (it ∷ before) mmap rest p (entry, short, small) h =
    let left : (it.size + it.ptr + 2 ^ 64 - align_up it.ptr 8) % 2 ^ 64 < size = omega arith in
    rw (lt→ltb _ size left, entries_loop-skip size before mmap rest p small h)

-- What is left of an entry behind `size` bytes from its first aligned address on.
abbrev pub cut : ℕ → MMapEnt → MMapEnt
cut size it = record {
  ptr = align_up it.ptr 8 + size;
  size = it.ptr + it.size - (align_up it.ptr 8 + size);
}

entries_loop-cut :
    (n : ℕ) (it : MMapEnt) (after : List MMapEnt)
    → IsEntry it
    → align_up it.ptr 8 + n ≤ it.ptr + it.size
    → entries_loop 8 n (it ∷ after) ≡ ok (align_up it.ptr 8 + kernel_space_begin, cut n it ∷ after)
unfolding entries_loop
entries_loop-cut n it after entry fits =
    let room : (it.size + it.ptr + 2 ^ 64 - align_up it.ptr 8) % 2 ^ 64
        ≡ it.ptr + it.size - align_up it.ptr 8 =
      omega (arith, entry.bound, entry.within) in
    let enough : ltb (it.ptr + it.size - align_up it.ptr 8) n ≡ false = ground arith in
    let at : (align_up it.ptr 8 + kernel_space_begin) % 2 ^ 64
        ≡ align_up it.ptr 8 + kernel_space_begin =
      omega (arith, entry.bound) in
    let behind : (align_up it.ptr 8 + n) % 2 ^ 64 ≡ align_up it.ptr 8 + n =
      omega (arith, entry.bound) in
    let rest : it.ptr + it.size - align_up it.ptr 8 - n
        ≡ it.ptr + it.size - (align_up it.ptr 8 + n) =
      omega arith in
    rw (room, enough, at, behind, rest)

-- `alloc_from_entries` with alignment 8, on entries below 2^47 whose first aligned addresses are not
-- past their ends: it takes the memory from the first entry that has the rounded size behind that
-- address. The memory is at the entry's first aligned address, as a pointer of the kernel's half;
-- the entry is left with what is behind the memory, and every other entry as it was.
pub alloc_from_entries-cut :
    (before after : List MMapEnt) (it : MMapEnt) (size : ℕ)
    → 0 < size
    → size < 2 ^ 63
    → TooSmall (align_up size 8) before
    → IsEntry it
    → align_up it.ptr 8 + align_up size 8 ≤ it.ptr + it.size
    → alloc_from_entries (before ++ (it ∷ after)) size 8
      ≡ ok (align_up it.ptr 8 + kernel_space_begin, before ++ (cut (align_up size 8) it ∷ after))
unfolding alloc_from_entries popcount
alloc_from_entries-cut before after it size positive small short entry fits =
    rw (lt→ltb 0 size positive) (
      entries_loop-skip (align_up size 8) before (it ∷ after) (cut (align_up size 8) it ∷ after)
        (align_up it.ptr 8 + kernel_space_begin) short
        (entries_loop-cut (align_up size 8) it after entry fits))

-- An entry whose first aligned address is past its end is taken for one of almost 2^64 bytes: the
-- memory that `alloc_from_entries` returns is outside it.
pub alloc_from_entries-outside :
    (it : MMapEnt) (mmap : List MMapEnt) (size : ℕ)
    → 0 < size
    → size < 2 ^ 63
    → it.ptr < 2 ^ 46
    → it.ptr + it.size < align_up it.ptr 8
    → (rest : List MMapEnt) × (alloc_from_entries (it ∷ mmap) size 8
        ≡ ok (align_up it.ptr 8 + kernel_space_begin, rest))
unfolding alloc_from_entries entries_loop popcount
alloc_from_entries-outside it mmap size positive small low past =
    let room : ltb ((it.size + it.ptr + 2 ^ 64 - align_up it.ptr 8) % 2 ^ 64) (align_up size 8)
        ≡ false =
      ground arith in
    let at : (align_up it.ptr 8 + kernel_space_begin) % 2 ^ 64
        ≡ align_up it.ptr 8 + kernel_space_begin =
      omega arith in
    rw (lt→ltb 0 size positive, room, at) (_, refl)
