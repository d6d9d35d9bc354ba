-- ===== src/Memory/Buddy.antt =====
-- `buddy_info` of kern/memory.c: a block and its buddy are the two halves of an aligned pair.
use native.Mathlib.Nat.{mul-mod_right, mul-div_cancel_left, mul_assoc, mul-add, one-le-pow}
use dumboss.Base.{ℕ, ◌+◌, ◌*◌, ◌/◌, ◌%◌, ◌^◌, ◌≡◌, ◌⊎◌, sym, ap, ◌∙◌, inl, inr, arith, bit_xor}
use dumboss.Base.Xor.{bit_xor-one_shl}
use dumboss.Memory.Align.{pow_next, halves, half_cases}

-- The buddy of the block of page `p` and class `c`: the two make the aligned pair from page `pair`
-- on.
pub record IsBuddy (c p buddy pair : ℕ) : Type 0 where
  pub aligned : buddy % 2 ^ c ≡ 0
  pub pair_aligned : pair % 2 ^ (c + 1) ≡ 0
  pub index : buddy / 2 ^ (c + 1) ≡ p / 2 ^ (c + 1)
  pub pair_index : pair / 2 ^ (c + 1) ≡ p / 2 ^ (c + 1)
  pub sides : ((p ≡ pair) × (buddy ≡ pair + 2 ^ c)) ⊎ ((p ≡ pair + 2 ^ c) × (buddy ≡ pair))

pub bit_xor-IsBuddy : (c p : ℕ) → p % 2 ^ c ≡ 0 → (pair : ℕ) × IsBuddy c p (bit_xor p (2 ^ c)) pair
bit_xor-IsBuddy c p aligned =
    let s = 2 ^ c in
    let q = p / (s * 2) in
    let pair = s * 2 * q in
    let some_pages = one-le-pow c 2 (omega arith) in
    let on_pair : pair % (s * 2) ≡ 0 = mul-mod_right (s * 2) q in
    let same : pair / (s * 2) ≡ q = mul-div_cancel_left q (omega arith) in
    let (first_aligned, second_aligned, second_index) = halves s pair some_pages on_pair in
    let (up, down) = bit_xor-one_shl c p in
    let at : pair ≡ s * (2 * q) = mul_assoc s 2 q in
    let even : pair / s ≡ 2 * q = ap (λ z. z / s) at ∙ mul-div_cancel_left (2 * q) some_pages in
    let odd : (pair + s) / s ≡ 2 * q + 1 =
      ap (λ z. z / s) (omega (arith, at, mul-add s (2 * q) 1))
      ∙ mul-div_cancel_left (2 * q + 1) some_pages in
    let wide : (x : ℕ) → x / 2 ^ (c + 1) ≡ x / (s * 2) = λ x. ap (λ z. x / z) (pow_next c) in
    let pair_aligned = ap (λ z. pair % z) (pow_next c) ∙ on_pair in
    let pair_index = wide pair ∙ (same ∙ sym (wide p)) in
    (
      pair,
      elim (half_cases s pair p some_pages on_pair aligned (sym same)) [
        | inl first ↦
            let low : p / s % 2 ≡ 0 = ap (λ z. z / s % 2) first ∙ omega arith in
            let flip : bit_xor p s ≡ pair + s = up low ∙ omega arith in
            record {
              aligned = ap (λ z. z % s) flip ∙ second_aligned;
              pair_aligned = pair_aligned;
              index =
                  ap (λ z. z / 2 ^ (c + 1)) flip
                  ∙ (wide (pair + s) ∙ (second_index ∙ (same ∙ sym (wide p))));
              pair_index = pair_index;
              sides = inl (first, flip);
            }
        | inr second ↦
            let high : p / s % 2 ≡ 1 = ap (λ z. z / s % 2) second ∙ omega arith in
            let flip : bit_xor p s ≡ pair = omega (arith, down high) in
            record {
              aligned = ap (λ z. z % s) flip ∙ first_aligned;
              pair_aligned = pair_aligned;
              index = ap (λ z. z / 2 ^ (c + 1)) flip ∙ pair_index;
              pair_index = pair_index;
              sides = inr (second, flip);
            }
      ],
    )
