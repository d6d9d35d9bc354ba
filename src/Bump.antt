-- ===== src/Bump.antt =====
-- lib/basics.h: `Bump`, an allocator that several cores share.
pub mod Safety
mod Tests
use dumboss.Base.{
  update, ℕ, ◌%◌, ◌&&◌, leb, ltb, ◌^◌, ◌+◌, ◌*◌, ◌≤◌, ◌<◌, ◌≡◌, Bool, not, Option, none, some, List,
  [], ◌∷◌, ◌==◌, if◌then◌else◌, Res, ok, ◌>>=◌, ◌>>◌, assert,
}
use dumboss.Base.Int.{ℤ, pos}
use dumboss.BitSet.{align_up, popcount}
use dumboss.Memory.{Mem, page_size, null}
use dumboss.Memory.Alloc.{zeroed_pages, pages_of}

-- `given` is no memory of the kernel's: it keeps the ranges that calls have returned, as offsets
-- from `begin`, the last one first.
pub record Bump : Type 0 where
  pub begin : ℕ
  pub count : ℕ
  pub index : ℕ
  pub given : List (ℕ × ℕ)

-- `Bump__new`; `ext__alloc_pages` is `zeroed_pages`.
unfoldable pub new : Mem → ℤ → Res (Bump × Mem)
new m count = do
  (base, m) ← zeroed_pages m count
  assert (not (base == null))
  ok (record { begin = base; count = pages_of count * page_size; index = 0; given = [] }, m)

-- `<=` of two `s64`, each as the `u64` with its bits.
abbrev pub s64_leb : ℕ → ℕ → Bool
s64_leb a b = leb ((a + 2 ^ 63) % 2 ^ 64) ((b + 2 ^ 63) % 2 ^ 64)

-- What a round of the loop in `Bump__bump_impl` comes to, before the exchange: the assertion of
-- `align_up` fails, the sum of two `s64` that are not negative leaves their range, which C leaves
-- undefined, there is no room, or the range from `aligned_index` to `end_index` fits.
pub data Round : Type 0 where
  bad_align : Round
  overflow : Round
  full : Round
  fits : (aligned_index end_index : ℕ) → Round

unfoldable pub round : (count size align bump_index : ℕ) → Round
round count size align bump_index =
    if not (not (align == 0) && popcount 64 align == 1)
    then bad_align
    else (let aligned_index = align_up bump_index align in
        if ltb aligned_index (2 ^ 63) && leb (2 ^ 63) (aligned_index + size)
        then overflow
        else (let end_index = (aligned_index + size) % 2 ^ 64 in
            if s64_leb end_index count then fits aligned_index end_index else full))

-- Where a core stands in `Bump__bump_impl`, with its local variables. A core whose assertion has
-- failed, or whose sum has overflown, stays there.
pub data Pc : Type 0 where
  away : Pc
  called : (size align : ℕ) → Pc
  trying : (size align bump_index : ℕ) → Pc
  returned : (ptr : Option ℕ) → Pc
  panicked : Pc
  overflown : Pc

-- One access to `index`, or one step without any. The weak exchange may fail at any time, and then
-- loads what is there. A size and an alignment are `s64`, and those of types and of arrays, which
-- are all that the macros pass, are not negative.
pub data Move (b : Bump) : Pc → Bump → Pc → Type 0 where
  call : (size align : ℕ) → size < 2 ^ 63 → align < 2 ^ 63 → Move b away b (called size align)
  load : {size align : ℕ} → Move b (called size align) b (trying size align b.index)
  fail :
      {size align bump_index : ℕ}
      → round b.count size align bump_index ≡ bad_align
      → Move b (trying size align bump_index) b panicked
  overflow_sum :
      {size align bump_index : ℕ}
      → round b.count size align bump_index ≡ overflow
      → Move b (trying size align bump_index) b overflown
  no_room :
      {size align bump_index : ℕ}
      → round b.count size align bump_index ≡ full
      → Move b (trying size align bump_index) b (returned none)
  lose :
      {size align bump_index aligned_index end_index : ℕ}
      → round b.count size align bump_index ≡ fits aligned_index end_index
      → Move b (trying size align bump_index) b (trying size align b.index)
  win :
      {size align bump_index aligned_index end_index : ℕ}
      → round b.count size align bump_index ≡ fits aligned_index end_index
      → b.index ≡ bump_index
      → Move b
          (trying size align bump_index)
          (record b { index = end_index; given = (aligned_index, end_index) ∷ b.given })
          (returned (some ((b.begin + aligned_index) % 2 ^ 64)))
  return : {ptr : Option ℕ} → Move b (returned ptr) b away

pub record System : Type 0 where
  pub bump : Bump
  pub pc : ℕ → Pc

pub data Step (s : System) : System → Type 0 where
  core :
      (i : ℕ) {b : Bump} {p : Pc}
      → Move s.bump (s.pc i) b p
      → Step s (record { bump = b; pc = update s.pc i p })

-- The states that cores reach from a new allocator of `count` bytes.
pub data Reach (begin count : ℕ) : System → Type 0 where
  start : Reach begin count (record {
    bump = record { begin = begin; count = count; index = 0; given = [] };
    pc = λ i. away;
  })
  later : {s t : System} → Reach begin count s → Step s t → Reach begin count t
