-- ===== src/Text/Digits.antt =====
-- The decimal digits that `_ntoa_long` makes in lib/basics.h.
use native.Mathlib.Nat.{pow-suc}
use dumboss.Base.{
  ℕ, zero, suc, ◌+◌, ◌-◌, ◌*◌, ◌/◌, ◌%◌, ◌^◌, ◌≤◌, ◌<◌, ◌≡◌, refl, inl, inr, Bool, true, ◌&&◌, List,
  [], ◌∷◌, length, leb, ◌==◌, Bool-cases, arith,
}
use dumboss.Base.Int.{ℤ, pos, negsuc}
use dumboss.Text.{digit_loop, ntoa_buffer_size, digit_char}

-- The digits of a number, as the formatter makes them.
abbrev pub decimal : ℕ → List ℕ
decimal n = digit_loop ntoa_buffer_size 0 10 n []

-- The number that a text of decimal digits stands for, read from the left.
unfoldable pub parse : ℕ → List ℕ → ℕ
parse acc [] = acc
parse acc (c ∷ cs) = parse (acc * 10 + (c - b'0')) cs

unfoldable pub all_digits : List ℕ → Bool
all_digits [] = true
all_digits (c ∷ cs) = leb b'0' c && leb c b'9' && all_digits cs

parse-digit_loop :
    (left v : ℕ) (buf : List ℕ)
    → 0 < left
    → v < 10 ^ left
    → parse 0 (digit_loop left 0 10 v buf) ≡ parse v buf
unfolding digit_loop parse
parse-digit_loop zero v buf pos_left lt = absurd (omega arith)
parse-digit_loop (suc left) v buf pos_left lt =
    let bound : v / 10 < 10 ^ left = omega (arith, pow-suc 10 left) in
    let char : digit_char 0 (v % 10) ≡ b'0' + v % 10 = ground arith in
    elim (Bool-cases (v / 10 == 0)) [
      | inl last ↦
          let value : 0 * 10 + (b'0' + v % 10 - b'0') ≡ v = ground arith in rw (last, char, value)
      | inr more ↦
          let value : v / 10 * 10 + (b'0' + v % 10 - b'0') ≡ v = omega arith in
          let room : 0 < left = positive left (ground arith) bound in
          rw (more, parse-digit_loop left (v / 10) (digit_char 0 (v % 10) ∷ buf) room bound)
            (rw (char, value))
    ]
  where
    positive : (n : ℕ) → 0 < v / 10 → v / 10 < 10 ^ n → 0 < n
    positive zero p q = absurd (omega arith)
    positive (suc n) p q = omega arith

all_digits-digit_loop :
    (left v : ℕ) (buf : List ℕ)
    → all_digits buf ≡ true
    → all_digits (digit_loop left 0 10 v buf) ≡ true
unfolding digit_loop all_digits
all_digits-digit_loop zero v buf h = h
all_digits-digit_loop (suc left) v buf h =
    let longer : all_digits (digit_char 0 (v % 10) ∷ buf) ≡ true = ground arith in
    ground (arith, all_digits-digit_loop left (v / 10) (digit_char 0 (v % 10) ∷ buf) longer)

-- A number below 10^k has at most k digits, and no more than the buffer holds.
pub length-digit_loop :
    (k left v : ℕ) (buf : List ℕ)
    → 0 < k
    → v < 10 ^ k
    → length (digit_loop left 0 10 v buf) ≤ length buf + k
unfolding digit_loop
length-digit_loop zero left v buf pos_k lt = absurd (omega arith)
length-digit_loop (suc k) zero v buf pos_k lt = omega arith
length-digit_loop (suc k) (suc left) v buf pos_k lt =
    let bound : v / 10 < 10 ^ k = omega (arith, pow-suc 10 k) in
    elim (Bool-cases (v / 10 == 0)) [
      | inl last ↦ rw last (omega arith)
      | inr more ↦
          let room : 0 < k = positive k (ground arith) bound in
          rw more (
            omega
              (arith, length-digit_loop k left (v / 10) (digit_char 0 (v % 10) ∷ buf) room bound))
    ]
  where
    positive : (n : ℕ) → 0 < v / 10 → v / 10 < 10 ^ n → 0 < n
    positive zero p q = absurd (omega arith)
    positive (suc n) p q = omega arith

-- The text that the loop of `_ntoa_long` makes of a `u64` in base 10 has at most 20 characters, all
-- of them decimal digits, which read back as the number.
pub decimal-parse :
    (v : ℕ)
    → v < 2 ^ 64
    → (parse 0 (decimal v) ≡ v) × (all_digits (decimal v) ≡ true) × (length (decimal v) ≤ 20)
unfolding parse all_digits
decimal-parse v lt = (
  parse-digit_loop 32 v [] (omega arith) (omega arith),
  all_digits-digit_loop 32 v [] refl,
  length-digit_loop 20 32 v [] (omega arith) (omega arith),
)

-- A signed number gets a minus sign in front.
abbrev pub signed_decimal : ℤ → List ℕ
signed_decimal (pos n) = decimal n
signed_decimal (negsuc n) = b'-' ∷ decimal (suc n)
