-- ===== src/Memory/Address.antt =====
-- kern/memory.c and kern/include/memory.h: the kernel's half of the address space.
use dumboss.Base.{
  ℕ, ◌+◌, ◌-◌, ◌%◌, ◌^◌, ◌≤◌, ◌<◌, ◌≡◌, ltb, leb, arith, Res, ok, ◌>>=◌, ◌>>◌, assert,
}

-- `MEMORY__KERNEL_SPACE_BEGIN`
abbrev pub kernel_space_begin : ℕ
kernel_space_begin = 0xffff_8000_0000_0000

unfoldable pub physical_address : ℕ → Res ℕ
physical_address address = do
  assert (leb kernel_space_begin address)
  ok (address - kernel_space_begin)

-- A sum past the last address wraps; the assertion allows it.
unfoldable pub kernel_address : ℕ → Res ℕ
kernel_address address = do
  assert (ltb address kernel_space_begin)
  ok ((address + kernel_space_begin) % 2 ^ 64)

-- `kernel_ptr` is `kernel_address` with another return type.
unfoldable pub kernel_ptr : ℕ → Res ℕ
kernel_ptr address = do
  assert (ltb address kernel_space_begin)
  ok ((address + kernel_space_begin) % 2 ^ 64)

-- Every kernel pointer goes to its physical address and back.
pub kernel_ptr-physical_address :
    (p : ℕ) → kernel_space_begin ≤ p → p < 2 ^ 64 → (physical_address p >>= kernel_ptr) ≡ ok p
unfolding physical_address kernel_ptr
kernel_ptr-physical_address p lo hi = ground arith

-- A physical address below 2^47 goes to a kernel pointer, never `NULL`, and back.
pub physical_address-kernel_ptr : (a : ℕ) → a < 2 ^ 47 → (kernel_ptr a >>= physical_address) ≡ ok a
unfolding physical_address kernel_ptr
physical_address-kernel_ptr a lt = ground arith

pub kernel_ptr-ok : (a : ℕ) → a < 2 ^ 47 → kernel_ptr a ≡ ok (a + kernel_space_begin)
unfolding kernel_ptr
kernel_ptr-ok a lt = ground arith
