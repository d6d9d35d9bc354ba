-- ===== src/Bytes/Tests.antt =====
-- Runs of the theorems on the copies of bytes of lib/basics.h.
use dumboss.Base.{◌≡◌, inl, refl, arith}
use dumboss.Bytes.{memcpy}
use dumboss.Bytes.Copied.{IsCopy, memcpy-IsCopy}

-- Three bytes move two addresses down, over their own first.
memcpy-IsCopy_example : IsCopy (λ a. a) (memcpy (λ a. a) 10 12 3) 10 12 3
memcpy-IsCopy_example = memcpy-IsCopy (λ a. a) 10 12 3 (inl (omega arith))

moved_byte : memcpy (λ a. a) 10 12 3 11 ≡ 13
unfolding memcpy
moved_byte = refl
