-- ===== src/Base/Bits.antt =====
-- The bits of a number, and what `&`, `|` and `~` do to each of them.
use Prim.Native.Nat.{
  ℕ, zero, suc, ◌+◌, ◌-◌, ◌*◌, ◌/◌, ◌%◌, ◌^◌, ◌≤◌, ◌<◌, min, max, bit_and, bit_or, bitwise, digits,
  bit_and-bitwise, bit_or-bitwise,
}
use mathlib.Core.Path.{◌≡◌, refl, ap, ap₂}
use mathlib.Core.Bool.{Bool, true, ◌&&◌}
use native.Mathlib.Nat.{pow-suc, one-le-pow}
use native.Mathlib.Omega.{arith}
use dumboss.Base.Tests.{◌==◌, if◌then◌else◌}

-- Bit `k` of `a`, as 0 or 1.
unfoldable pub bit : ℕ → ℕ → ℕ
bit a zero = a % 2
bit a (suc k) = bit (a / 2) k

-- `1 << k` in `u64` for `k < 64`, and `~a` in `u64`.
abbrev pub one_shl : ℕ → ℕ
one_shl k = 2 ^ k

abbrev pub all_ones : ℕ
all_ones = 2 ^ 64 - 1

abbrev pub complement : ℕ → ℕ
complement a = all_ones - a

-- The native operations recurse on digits with fuel, as many rounds as the first number; it is
-- halved in each, so that a round beyond that number changes nothing.
module _ (rest : ℕ → ℕ) (digit : ℕ → ℕ → ℕ) where
  abbrev run : ℕ → ℕ → ℕ → ℕ
  run = digits rest digit

  run-suc : (fuel x y : ℕ) → x ≤ fuel → run (suc fuel) x y ≡ run fuel x y
  run-suc fuel zero y enough = no_digit fuel
    where
      no_digit : (fuel : ℕ) → run (suc fuel) 0 y ≡ run fuel 0 y
      no_digit zero = refl
      no_digit (suc fuel) = refl
  run-suc zero (suc x) y enough = absurd (omega arith)
  run-suc (suc fuel) (suc x) y enough =
      ap (λ t. t * 2 + digit (suc x % 2) (y % 2)) (run-suc fuel (suc x / 2) (y / 2) (omega arith))

  run_surplus : (surplus fuel x y : ℕ) → x ≤ fuel → run (fuel + surplus) x y ≡ run fuel x y
  run_surplus zero fuel x y enough = let same : fuel + 0 ≡ fuel = omega arith in rw same
  run_surplus (suc surplus) fuel x y enough =
      let longer : fuel + suc surplus ≡ suc (fuel + surplus) = omega arith in
      rw (longer, run-suc (fuel + surplus) x y (omega arith)) (run_surplus surplus fuel x y enough)

  pub bitwise_halves :
      (x y : ℕ)
      → bitwise rest digit (suc x) y
        ≡ digit (suc x % 2) (y % 2) + 2 * bitwise rest digit (suc x / 2) (y / 2)
  bitwise_halves x y =
      let half = suc x / 2 in
      let all : half + (x - half) ≡ x = omega arith in
      omega (
        arith,
        ap (λ fuel. run fuel half (y / 2)) all,
        run_surplus (x - half) half half (y / 2) (omega arith),
      )

-- Both work digit by digit: on the last one, and on what is left of the numbers.
pub bit_or_halves : (x y : ℕ) → bit_or x y ≡ max (x % 2) (y % 2) + 2 * bit_or (x / 2) (y / 2)
bit_or_halves zero y = omega (arith, bit_or-bitwise 0 y, bit_or-bitwise 0 (y / 2))
bit_or_halves (suc x) y = omega (
  arith,
  bitwise_halves (λ n. n) max x y,
  bit_or-bitwise (suc x) y,
  bit_or-bitwise (suc x / 2) (y / 2),
)

pub bit_and_halves : (x y : ℕ) → bit_and x y ≡ min (x % 2) (y % 2) + 2 * bit_and (x / 2) (y / 2)
bit_and_halves zero y = omega (arith, bit_and-bitwise 0 y, bit_and-bitwise 0 (y / 2))
bit_and_halves (suc x) y = omega (
  arith,
  bitwise_halves (λ n. 0) min x y,
  bit_and-bitwise (suc x) y,
  bit_and-bitwise (suc x / 2) (y / 2),
)

pub bit-le-one : (a k : ℕ) → bit a k ≤ 1
unfolding bit
bit-le-one a zero = omega arith
bit-le-one a (suc k) = bit-le-one (a / 2) k

pub bit-bit_or : (a b k : ℕ) → bit (bit_or a b) k ≡ max (bit a k) (bit b k)
unfolding bit
bit-bit_or a b zero = omega (arith, bit_or_halves a b)
bit-bit_or a b (suc k) =
    let half : bit_or a b / 2 ≡ bit_or (a / 2) (b / 2) = omega (arith, bit_or_halves a b) in
    rw half (bit-bit_or (a / 2) (b / 2) k)

pub bit-bit_and : (a b k : ℕ) → bit (bit_and a b) k ≡ min (bit a k) (bit b k)
unfolding bit
bit-bit_and a b zero = omega (arith, bit_and_halves a b)
bit-bit_and a b (suc k) =
    let half : bit_and a b / 2 ≡ bit_and (a / 2) (b / 2) = omega (arith, bit_and_halves a b) in
    rw half (bit-bit_and (a / 2) (b / 2) k)

pub bit-zero : (k : ℕ) → bit 0 k ≡ 0
unfolding bit
bit-zero zero = refl
bit-zero (suc k) = bit-zero k

pub half_pow : (k : ℕ) → 2 ^ suc k / 2 ≡ 2 ^ k
half_pow k = omega (arith, pow-suc 2 k)

pub bit-one_shl : (n k : ℕ) → bit (one_shl n) k ≡ (if n == k then 1 else 0)
unfolding bit
bit-one_shl zero zero = refl
bit-one_shl zero (suc k) = ground (arith, bit-zero k)
bit-one_shl (suc n) zero = ground (arith, pow-suc 2 n)
bit-one_shl (suc n) (suc k) = rw (half_pow n) (ground (arith, bit-one_shl n k))

-- `~` flips each of the `w` bits.
pub bit-complement_of_width : (w a k : ℕ) → a < 2 ^ w → k < w → bit (2 ^ w - 1 - a) k + bit a k ≡ 1
unfolding bit
bit-complement_of_width zero a k fits lt = absurd (omega arith)
bit-complement_of_width (suc w) a zero fits lt = omega (arith, pow-suc 2 w)
bit-complement_of_width (suc w) a (suc k) fits lt =
    let half : (2 ^ suc w - 1 - a) / 2 ≡ 2 ^ w - 1 - a / 2 = omega (arith, pow-suc 2 w) in
    rw half (bit-complement_of_width w (a / 2) k (omega (arith, pow-suc 2 w)) (omega arith))

pub bit-all_ones : (k : ℕ) → k < 64 → bit all_ones k ≡ 1
bit-all_ones k lt = omega (arith, bit-complement_of_width 64 0 k (omega arith) lt, bit-zero k)

-- The operations stay within the width.
pub bit_or-lt : (w a b : ℕ) → a < 2 ^ w → b < 2 ^ w → bit_or a b < 2 ^ w
bit_or-lt zero a b p q =
    let za : a ≡ 0 = omega arith in let zb : b ≡ 0 = omega arith in rw (za, zb) (omega arith)
bit_or-lt (suc w) a b p q = omega (
  arith,
  bit_or_halves a b,
  pow-suc 2 w,
  bit_or-lt w (a / 2) (b / 2) (omega (arith, pow-suc 2 w)) (omega (arith, pow-suc 2 w)),
)

pub bit_and-le : (n a b : ℕ) → a ≤ n → bit_and a b ≤ a
bit_and-le zero zero b p = omega (arith, bit_and-bitwise 0 b)
bit_and-le zero (suc a) b p = absurd (omega arith)
bit_and-le (suc n) zero b p = omega (arith, bit_and-bitwise 0 b)
bit_and-le (suc n) (suc a) b p =
    omega (arith, bit_and_halves (suc a) b, bit_and-le n (suc a / 2) (b / 2) (omega arith))

-- `(1 << k) & v` is not zero exactly when bit `k` is set.
pub bit_and-one_shl : (k v : ℕ) → bit_and (one_shl k) v ≡ bit v k * 2 ^ k
unfolding bit
bit_and-one_shl zero v = omega (arith, bit_and_halves 1 v, bit_and-bitwise 0 (v / 2))
bit_and-one_shl (suc k) v = omega (
  arith,
  bit_and_halves (2 ^ suc k) v,
  ap (λ (t : ℕ). bit_and t (v / 2)) (half_pow k),
  pow-suc 2 k,
  ap (λ (t : ℕ). bit (v / 2) k * t) (pow-suc 2 k),
  bit_and-one_shl k (v / 2),
)

-- `~0` is the only word of `w` bits that has every bit set.
pub eq-all_ones_of_bits : (w a : ℕ) → a < 2 ^ w → ((k : ℕ) → k < w → bit a k ≡ 1) → a ≡ 2 ^ w - 1
unfolding bit
eq-all_ones_of_bits zero a fits h = omega arith
eq-all_ones_of_bits (suc w) a fits h = omega (
  arith,
  h 0 (omega arith),
  pow-suc 2 w,
  one-le-pow w 2,
  eq-all_ones_of_bits w (a / 2) (omega (arith, pow-suc 2 w)) (λ k lt. h (suc k) (omega arith)),
)

pub one-le-two_pow : (k : ℕ) → 1 ≤ 2 ^ k
one-le-two_pow k = one-le-pow k 2 (omega arith)

pub eq-zero_of_bits : (w a : ℕ) → a < 2 ^ w → ((k : ℕ) → k < w → bit a k ≡ 0) → a ≡ 0
unfolding bit
eq-zero_of_bits zero a fits h = omega arith
eq-zero_of_bits (suc w) a fits h = omega (
  arith,
  h 0 (omega arith),
  eq-zero_of_bits w (a / 2) (omega (arith, pow-suc 2 w)) (λ k lt. h (suc k) (omega arith)),
)

pub bit-complement : (a k : ℕ) → a < 2 ^ 64 → k < 64 → bit (complement a) k ≡ 1 - bit a k
bit-complement a k p q = omega (arith, bit-complement_of_width 64 a k p q, bit-le-one a k)

pub one_shl-lt : (k w : ℕ) → k < w → one_shl k < 2 ^ w
one_shl-lt zero zero h = absurd (omega arith)
one_shl-lt zero (suc w) h = omega (arith, pow-suc 2 w, one-le-two_pow w)
one_shl-lt (suc k) zero h = absurd (omega arith)
one_shl-lt (suc k) (suc w) h = omega (arith, pow-suc 2 w, pow-suc 2 k, one_shl-lt k w (omega arith))

bit_or-zero_fuel : (n a : ℕ) → a ≤ n → bit_or a 0 ≡ a
bit_or-zero_fuel n zero h = refl
bit_or-zero_fuel zero (suc a) h = absurd (omega arith)
bit_or-zero_fuel (suc n) (suc a) h =
    omega (arith, bit_or_halves (suc a) 0, bit_or-zero_fuel n (suc a / 2) (omega arith))

-- `(q << k) | r` is a sum where `r` has `k` bits.
pub bit_or-add : (k q r : ℕ) → r < 2 ^ k → bit_or (q * 2 ^ k) r ≡ q * 2 ^ k + r
bit_or-add zero q r fits =
    let none : r ≡ 0 = omega arith in
    let one : q * 2 ^ 0 ≡ q = omega arith in
    rw (none, one) (omega (arith, bit_or-zero_fuel q q (omega arith)))
bit_or-add (suc k) q r fits =
    let even : q * 2 ^ suc k ≡ 2 * (q * 2 ^ k) =
      omega (arith, ap (λ (t : ℕ). q * t) (pow-suc 2 k)) in
    let half : q * 2 ^ suc k / 2 ≡ q * 2 ^ k = omega arith in
    let rest = bit_or-add k q (r / 2) (omega (arith, pow-suc 2 k)) in
    omega (arith, bit_or_halves (q * 2 ^ suc k) r, ap (λ (t : ℕ). bit_or t (r / 2)) half)

-- Two numbers of `w` bits with the same bits are equal.
pub eq_of_bits : (w a b : ℕ) → a < 2 ^ w → b < 2 ^ w → ((k : ℕ) → k < w → bit a k ≡ bit b k) → a ≡ b
unfolding bit
eq_of_bits zero a b p q h = omega arith
eq_of_bits (suc w) a b p q h = omega (
  arith,
  h 0 (omega arith),
  eq_of_bits w (a / 2) (b / 2) (omega (arith, pow-suc 2 w)) (omega (arith, pow-suc 2 w))
      (λ k lt. h (suc k) (omega arith)),
)

-- A multiple of `2 ^ n` has no low bit, and a number below it no high one.
pub bit-low : (n q k : ℕ) → k < n → bit (q * 2 ^ n) k ≡ 0
unfolding bit
bit-low zero q k h = absurd (omega arith)
bit-low (suc n) q zero h = omega (arith, ap (λ (t : ℕ). q * t) (pow-suc 2 n))
bit-low (suc n) q (suc k) h =
    let half : q * 2 ^ suc n / 2 ≡ q * 2 ^ n = omega (arith, ap (λ (t : ℕ). q * t) (pow-suc 2 n)) in
    rw half (bit-low n q k (omega arith))

pub bit-high : (n a k : ℕ) → a < 2 ^ n → n ≤ k → bit a k ≡ 0
unfolding bit
bit-high zero a k h le = let none : a ≡ 0 = omega arith in rw none (bit-zero k)
bit-high (suc n) a zero h le = absurd (omega arith)
bit-high (suc n) a (suc k) h le = bit-high n (a / 2) k (omega (arith, pow-suc 2 n)) (omega arith)

-- A property of the numbers below a bound, by evaluation.
unfoldable pub all_below : ℕ → (ℕ → Bool) → Bool
all_below zero holds = true
all_below (suc bound) holds = all_below bound holds && holds bound

pub of_all_below :
    (bound k : ℕ) (holds : ℕ → Bool) → k < bound → all_below bound holds ≡ true → holds k ≡ true
unfolding all_below
of_all_below zero k holds lt all = absurd (omega arith)
of_all_below (suc bound) k holds lt all = ground (arith, of_all_below bound k holds)

pub le-bit_or : (n a b : ℕ) → b ≤ n → b ≤ bit_or a b
le-bit_or zero a b h = omega arith
le-bit_or (suc n) a zero h = omega arith
le-bit_or (suc n) a (suc b) h =
    omega (arith, bit_or_halves a (suc b), le-bit_or n (a / 2) (suc b / 2) (omega arith))

-- `|` of two numbers, the second of which has no bit below `k`.
pub bit_or-shared :
    (k p q r : ℕ) → r < 2 ^ k → bit_or (p * 2 ^ k + r) (q * 2 ^ k) ≡ bit_or p q * 2 ^ k + r
bit_or-shared zero p q r fits =
    let none : r ≡ 0 = omega arith in
    let left : p * 2 ^ 0 + 0 ≡ p = omega arith in
    let right : q * 2 ^ 0 ≡ q = omega arith in rw (none, left, right) (omega arith)
bit_or-shared (suc k) p q r fits =
    let twice : (n : ℕ) → n * 2 ^ suc k ≡ 2 * (n * 2 ^ k) =
      λ n. omega (arith, ap (λ (t : ℕ). n * t) (pow-suc 2 k)) in
    let left : (p * 2 ^ suc k + r) / 2 ≡ p * 2 ^ k + r / 2 = omega (arith, twice p) in
    let right : q * 2 ^ suc k / 2 ≡ q * 2 ^ k = omega (arith, twice q) in
    let rest = bit_or-shared k p q (r / 2) (omega (arith, pow-suc 2 k)) in
    omega (
      arith,
      bit_or_halves (p * 2 ^ suc k + r) (q * 2 ^ suc k),
      ap₂ (λ (s t : ℕ). bit_or s t) left right,
      twice p,
      twice q,
      twice (bit_or p q),
    )

zero-bit_or : (q : ℕ) → bit_or 0 q ≡ q
zero-bit_or q = bit_or-bitwise 0 q

-- `r | (q << k)` is a sum too where `r` has `k` bits.
pub bit_or-add_high : (k q r : ℕ) → r < 2 ^ k → bit_or r (q * 2 ^ k) ≡ q * 2 ^ k + r
bit_or-add_high k q r fits =
    let at : 0 * 2 ^ k + r ≡ r = omega arith in
    let sum = bit_or-shared k 0 q r fits in rw (at, zero-bit_or q) at sum
