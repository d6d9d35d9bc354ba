-- ===== src/Bytes/Copied.antt =====
-- What `memcpy` and `memset` of lib/basics.h leave in memory.
use dumboss.Base.{
  ℕ, zero, suc, ◌+◌, ◌-◌, ◌≤◌, ◌≡◌, ◌⊎◌, refl, ◌∙◌, inl, inr, ◌&&◌, ◌==◌, if◌then◌else◌, leb, ltb,
  Bool-cases, arith, true,
}
use dumboss.Bytes.{Bytes, store_byte, memcpy_loop, memcpy, memset_loop, memset}

-- The bytes of `source` from `src` on stand at `dest`, `count` of them, and all else is as it was.
abbrev pub IsCopy : Bytes → Bytes → ℕ → ℕ → ℕ → Type 0
IsCopy m m' dest src count =
    (a : ℕ) → m' a ≡ (if leb dest a && ltb a (dest + count) then m (src + (a - dest)) else m a)

memcpy_loop-IsCopy :
    (left i count : ℕ) (m now : Bytes) (dest src : ℕ)
    → i + left ≡ count
    → (dest ≤ src) ⊎ (src + count ≤ dest)
    → IsCopy m now dest src i
    → IsCopy m (memcpy_loop left i dest src now) dest src count
unfolding memcpy_loop
memcpy_loop-IsCopy zero i count m now dest src end apart copied =
    let same : i ≡ count = omega arith in rw (← same) copied
memcpy_loop-IsCopy (suc left) i count m now dest src end apart copied =
    let byte : now (src + i) ≡ m (src + i) =
      copied (src + i) ∙ elim apart [ inl before ↦ ground arith | inr behind ↦ ground arith ] in
    memcpy_loop-IsCopy left (i + 1) count m (store_byte now (dest + i) (now (src + i))) dest src
      (omega arith) apart
      (λ a. elim (Bool-cases (a == dest + i)) [
        | inl here ↦
            let at : src + (a - dest) ≡ src + i = ground arith in
            let inside : leb dest a && ltb a (dest + (i + 1)) ≡ true = ground arith in
            rw (here, inside, at) byte
        | inr away ↦
            let before = copied a in
            let same : leb dest a && ltb a (dest + (i + 1)) ≡ leb dest a && ltb a (dest + i) =
              ground arith in
            rw (away, same) before
      ])

-- `memcpy`, to an address that is not inside the bytes copied and behind their first, copies them and
-- changes nothing else.
pub memcpy-IsCopy :
    (m : Bytes) (dest src count : ℕ)
    → (dest ≤ src) ⊎ (src + count ≤ dest)
    → IsCopy m (memcpy m dest src count) dest src count
unfolding memcpy
memcpy-IsCopy m dest src count apart =
    memcpy_loop-IsCopy count 0 count m m dest src (omega arith) apart (λ a. ground arith)

memset_loop-set :
    (left i len : ℕ) (now : Bytes) (buffer byte a : ℕ)
    → i + left ≡ len
    → memset_loop left i buffer byte now a
      ≡ (if leb (buffer + i) a && ltb a (buffer + len) then byte else now a)
unfolding memset_loop
memset_loop-set zero i len now buffer byte a end = ground arith
memset_loop-set (suc left) i len now buffer byte a end =
    memset_loop-set left (i + 1) len (store_byte now (buffer + i) byte) buffer byte a (omega arith)
    ∙ ground arith

-- `memset` writes each byte of the buffer, and no other.
pub memset-set :
    (m : Bytes) (buffer byte len a : ℕ)
    → memset m buffer byte len a ≡ (if leb buffer a && ltb a (buffer + len) then byte else m a)
unfolding memset
memset-set m buffer byte len a =
    let from : buffer + 0 ≡ buffer = omega arith in
    memset_loop-set len 0 len m buffer byte a (omega arith) ∙ rw from refl
