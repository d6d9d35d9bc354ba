-- ===== src/Bytes.antt =====
-- lib/basics.h: `memcpy` and `memset`. Memory is a function from addresses to bytes.
pub mod Copied
mod Tests
use dumboss.Base.{ℕ, zero, suc, ◌+◌, ◌%◌, ◌==◌, if◌then◌else◌}

abbrev pub Bytes : Type 0
Bytes = ℕ → ℕ

abbrev pub store_byte : Bytes → ℕ → ℕ → Bytes
store_byte m address byte a = if a == address then byte else m a

-- The loops, with the rounds left and the index.
memcpy_loop : ℕ → ℕ → ℕ → ℕ → Bytes → Bytes
memcpy_loop zero i dest src m = m
memcpy_loop (suc left) i dest src m =
    memcpy_loop left (i + 1) dest src (store_byte m (dest + i) (m (src + i)))

unfoldable pub memcpy : Bytes → ℕ → ℕ → ℕ → Bytes
unfolding memcpy_loop
memcpy m dest src count = memcpy_loop count 0 dest src m

memset_loop : ℕ → ℕ → ℕ → ℕ → Bytes → Bytes
memset_loop zero i buffer byte m = m
memset_loop (suc left) i buffer byte m =
    memset_loop left (i + 1) buffer byte (store_byte m (buffer + i) byte)

unfoldable pub memset : Bytes → ℕ → ℕ → ℕ → Bytes
unfolding memset_loop
memset m buffer byte len = memset_loop len 0 buffer byte m
