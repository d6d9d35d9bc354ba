-- ===== src/Memory/Power.antt =====
-- `smallest_greater_power2` of lib/basics.h.
use native.Mathlib.Nat.{pow-suc}
use dumboss.Base.{
  ℕ, zero, suc, ◌+◌, ◌-◌, ◌*◌, ◌/◌, ◌^◌, ◌≤◌, ◌<◌, ◌≡◌, refl, inl, inr, false, ◌==◌, leb,
  Bool-cases, arith,
}
use dumboss.Memory.Alloc.{bit_length, smallest_greater_power2}

twice : (n : ℕ) → 2 ^ (n + 1) ≡ 2 ^ n * 2
twice n = let next : n + 1 ≡ suc n = omega arith in rw next (pow-suc 2 n)

bit_length-zero : (w : ℕ) → bit_length w 0 ≡ 0
unfolding bit_length
bit_length-zero zero = refl
bit_length-zero (suc w) = refl

pub bit_length-lt : (w v : ℕ) → v < 2 ^ w → v < 2 ^ bit_length w v
unfolding bit_length
bit_length-lt zero v lt = lt
bit_length-lt (suc w) v lt = elim (Bool-cases (v == 0)) [
  | inl none ↦ rw none (ground arith)
  | inr some ↦
      let half = bit_length-lt w (v / 2) (omega (arith, pow-suc 2 w)) in
      rw (some, twice (bit_length w (v / 2))) (omega arith)
]

pub bit_length-le : (w v : ℕ) → v < 2 ^ w → 0 < v → 2 ^ bit_length w v ≤ 2 * v
unfolding bit_length
bit_length-le zero v lt positive = absurd (omega arith)
bit_length-le (suc w) v lt positive =
    let some : (v == 0) ≡ false = ground arith in
    rw (some, twice (bit_length w (v / 2)))
      (elim (Bool-cases (v / 2 == 0)) [
        | inl one ↦ let at : v / 2 ≡ 0 = ground arith in rw (at, bit_length-zero w) (omega arith)
        | inr more ↦
            omega (arith, bit_length-le w (v / 2) (omega (arith, pow-suc 2 w)) (ground arith))
      ])

-- `smallest_greater_power2` of a positive `s64` is the exponent of the smallest power of two that
-- is not below it.
pub smallest_greater_power2-bounds :
    (v : ℕ)
    → 0 < v
    → v < 2 ^ 63
    → (v ≤ 2 ^ smallest_greater_power2 v) × (2 ^ smallest_greater_power2 v < 2 * v)
unfolding smallest_greater_power2
smallest_greater_power2-bounds v positive lt = elim (Bool-cases (leb v 1)) [
  | inl one ↦ rw one (ground arith, ground arith)
  | inr more ↦ rw more (
    omega (arith, bit_length-lt 64 (v - 1) (omega arith)),
    omega (arith, bit_length-le 64 (v - 1) (omega arith) (ground arith)),
  )
]
