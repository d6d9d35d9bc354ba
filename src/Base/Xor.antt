-- ===== src/Base/Xor.antt =====
-- Exclusive or with one bit, which `buddy_info` of kern/memory.c takes.
use Prim.Native.Nat.{
  ℕ, zero, suc, ◌+◌, ◌-◌, ◌*◌, ◌/◌, ◌%◌, ◌^◌, ◌≤◌, bit_xor, differ, bit_xor-bitwise,
}
use mathlib.Core.Path.{◌≡◌, refl, sym, ap, ◌∙◌}
use native.Mathlib.Nat.{pow-suc, div-div-eq-div-mul}
use native.Mathlib.Omega.{arith}
use dumboss.Base.Bits.{bitwise_halves, half_pow}

bit_xor_halves : (x y : ℕ) → bit_xor x y ≡ differ (x % 2) (y % 2) + 2 * bit_xor (x / 2) (y / 2)
bit_xor_halves zero y = omega (arith, bit_xor-bitwise 0 y, bit_xor-bitwise 0 (y / 2))
bit_xor_halves (suc x) y = omega (
  arith,
  bitwise_halves (λ n. n) differ x y,
  bit_xor-bitwise (suc x) y,
  bit_xor-bitwise (suc x / 2) (y / 2),
)

differ-zero : (d : ℕ) → differ d 0 ≡ d
differ-zero zero = refl
differ-zero (suc d) = refl

differ-one : (d : ℕ) → d ≤ 1 → differ d 1 ≡ 1 - d
differ-one zero le = refl
differ-one (suc d) le = let none : d ≡ 0 = omega arith in rw none refl

bit_xor-zero_fuel : (n a : ℕ) → a ≤ n → bit_xor a 0 ≡ a
bit_xor-zero_fuel n zero h = refl
bit_xor-zero_fuel zero (suc a) h = absurd (omega arith)
bit_xor-zero_fuel (suc n) (suc a) h = omega (
  arith,
  bit_xor_halves (suc a) 0,
  bit_xor-zero_fuel n (suc a / 2) (omega arith),
  differ-zero (suc a % 2),
)

-- Exclusive or with a power of two adds the power where the bit is 0, and takes it away where it
-- is 1.
pub bit_xor-one_shl :
    (c p : ℕ)
    → (p / 2 ^ c % 2 ≡ 0 → bit_xor p (2 ^ c) ≡ p + 2 ^ c)
      × (p / 2 ^ c % 2 ≡ 1 → bit_xor p (2 ^ c) + 2 ^ c ≡ p)
bit_xor-one_shl zero p =
    let last = differ-one (p % 2) (omega arith) in
    let none = bit_xor-zero_fuel (p / 2) (p / 2) (omega arith) in
    let sum = bit_xor_halves p 1 in (λ e. omega arith, λ e. omega arith)
bit_xor-one_shl (suc c) p =
    let (up, down) = bit_xor-one_shl c (p / 2) in
    let twice : 2 ^ suc c ≡ 2 * 2 ^ c = omega (arith, pow-suc 2 c) in
    let at : p / 2 / 2 ^ c ≡ p / 2 ^ suc c =
      div-div-eq-div-mul p 2 (2 ^ c) ∙ ap (λ z. p / z) (sym twice) in
    let even : 2 ^ suc c % 2 ≡ 0 = omega arith in
    let sum : bit_xor p (2 ^ suc c) ≡ p % 2 + 2 * bit_xor (p / 2) (2 ^ c) = omega (
      arith,
      bit_xor_halves p (2 ^ suc c),
      differ-zero (p % 2),
      ap (λ (z : ℕ). bit_xor (p / 2) z) (half_pow c),
      ap (λ (z : ℕ). differ (p % 2) z) even,
    ) in
    (
      λ e. omega (arith, sum, twice, up (ap (λ z. z % 2) at ∙ e)),
      λ e. omega (arith, sum, twice, down (ap (λ z. z % 2) at ∙ e)),
    )
