-- ===== src/Memory/Align.antt =====
-- Aligned blocks of pages: their halves, and the smaller blocks inside them.
use native.Mathlib.Nat.{
  mod-add-div, mod-lt, mul_comm, mul-div-le, le-div_iff_mul-le, one-le-pow, mul-le-mul_left,
  pow-suc, mul-add, mul_assoc, mul-mod_right, mul-add-div, add-mod_right, div-eq_of_lt,
}
use dumboss.Base.{
  ℕ, zero, suc, ◌+◌, ◌-◌, ◌*◌, ◌/◌, ◌%◌, ◌^◌, ◌≤◌, ◌<◌, ◌≡◌, ◌⊎◌, sym, ap, ◌∙◌, inl, inr, ◌==◌,
  ==_iff, Bool-cases, arith, leb, leb→le,
}

-- The start of the aligned block of `s` pages around a page stays inside any block that is aligned
-- for it.
pub align_inside :
    (s page p : ℕ)
    → 0 < s
    → page % s ≡ 0
    → page ≤ p
    → (page ≤ s * (p / s)) × (s * (p / s) ≤ p) × (p < s * (p / s) + s)
align_inside s page p positive aligned le =
    let first : page ≡ s * (page / s) = omega (arith, mod-add-div page s) in
    let lower : page / s ≤ p / s =
      (le-div_iff_mul-le positive).1 (omega (arith, mul_comm (page / s) s)) in
    let mono = mul-le-mul_left s lower in
    (omega arith, mul-div-le p s, omega (arith, mod-add-div p s, mod-lt p positive))

multiple_below : (s u p : ℕ) → 0 < s → p < s * u → s * (p / s) + s ≤ s * u
multiple_below s u p positive lt =
    let below : p / s + 1 ≤ u = elim (Bool-cases (leb u (p / s))) [
      | inl le ↦ absurd (omega (arith, mul-le-mul_left s (leb→le u (p / s) le), mul-div-le p s))
      | inr gt ↦ ground arith
    ] in
    omega (arith, mul-le-mul_left s below, mul-add s (p / s) 1)

pow-split : (e k : ℕ) → 2 ^ (e + k) ≡ 2 ^ e * 2 ^ k
pow-split e zero = let none : e + 0 ≡ e = omega arith in rw none (omega arith)
pow-split e (suc k) =
    let one_more : e + suc k ≡ suc (e + k) = omega arith in
    rw (one_more, pow-suc 2 (e + k), pow-suc 2 k, pow-split e k) (mul_assoc (2 ^ e) (2 ^ k) 2)

-- The aligned block of `2 ^ e` pages around a page of a larger aligned block lies inside that block.
pub aligned_inside :
    (e c begin p : ℕ)
    → e ≤ c
    → begin % 2 ^ c ≡ 0
    → begin ≤ p
    → p < begin + 2 ^ c
    → (begin ≤ 2 ^ e * (p / 2 ^ e)) × (2 ^ e * (p / 2 ^ e) + 2 ^ e ≤ begin + 2 ^ c)
aligned_inside e c begin p le aligned lo hi =
    let s = 2 ^ e in
    let t = 2 ^ (c - e) in
    let u = begin / 2 ^ c in
    let positive : 0 < s = one-le-pow e 2 (omega arith) in
    let whole : 2 ^ c ≡ s * t =
      let sum : c ≡ e + (c - e) = ground arith in ap (λ z. 2 ^ z) sum ∙ pow-split e (c - e) in
    let from : begin ≡ s * (t * u) =
      omega (arith, mod-add-div begin (2 ^ c)) ∙ (ap (λ z. z * u) whole ∙ mul_assoc s t u) in
    let to : begin + 2 ^ c ≡ s * (t * u + t) = omega (arith, from, whole, mul-add s (t * u) t) in
    let on_s : begin % s ≡ 0 = ap (λ z. z % s) from ∙ mul-mod_right s (t * u) in
    let (lower, _, _) = align_inside s begin p positive on_s lo in
    (lower, omega (arith, to, multiple_below s (t * u + t) p positive (omega (arith, to))))

pub pow_next : (d : ℕ) → 2 ^ (d + 1) ≡ 2 ^ d * 2
pow_next d = let next : d + 1 ≡ suc d = omega arith in ap (λ z. 2 ^ z) next ∙ pow-suc 2 d

-- The two halves of an aligned block are aligned, and in one pair.
pub halves :
    (s page : ℕ)
    → 0 < s
    → page % (s * 2) ≡ 0
    → (page % s ≡ 0) × ((page + s) % s ≡ 0) × ((page + s) / (s * 2) ≡ page / (s * 2))
halves s page positive aligned =
    let q = page / (s * 2) in
    let at : page ≡ s * 2 * q = omega (arith, mod-add-div page (s * 2)) in
    let halved : page ≡ s * (2 * q) = at ∙ mul_assoc s 2 q in
    let first : page % s ≡ 0 = ap (λ z. z % s) halved ∙ mul-mod_right s (2 * q) in
    (
      first,
      add-mod_right page s ∙ first,
      ap (λ z. (z + s) / (s * 2)) at
          ∙ (mul-add-div (omega arith) q s
              ∙ omega (arith, div-eq_of_lt {n = s} {m = s * 2} (omega arith))),
    )

pub pair_half : (d p : ℕ) → p % 2 ^ (d + 1) ≡ 0 → (p + 2 ^ d) / 2 ^ (d + 1) ≡ p / 2 ^ (d + 1)
pair_half d p aligned =
    rw (pow_next d)
      ((halves (2 ^ d) p (one-le-pow d 2 (omega arith)) (rw (← pow_next d) aligned)).2)

-- A block in an aligned pair is one of its halves.
pub half_cases :
    (s p r : ℕ)
    → 0 < s
    → p % (s * 2) ≡ 0
    → r % s ≡ 0
    → r / (s * 2) ≡ p / (s * 2)
    → (r ≡ p) ⊎ (r ≡ p + s)
half_cases s p r positive pair_aligned aligned same =
    let u = p / (s * 2) in
    let v = r / s in
    let at : p ≡ s * (2 * u) = omega (arith, mod-add-div p (s * 2)) ∙ mul_assoc s 2 u in
    let here : r ≡ s * v = omega (arith, mod-add-div r s) in
    let big : 0 < s * 2 = omega arith in
    let inside : (p ≤ r) × (r < p + s * 2) =
      ground (arith, same, mod-add-div r (s * 2), mod-add-div p (s * 2), mod-lt r big) in
    elim (Bool-cases (leb (v + 1) (2 * u))) [
      | inl low ↦
          let le = mul-le-mul_left s (leb→le (v + 1) (2 * u) low) in
          absurd (omega (arith, le, mul-add s v 1, inside.0))
      | inr enough ↦ elim (Bool-cases (leb (2 * u + 2) v)) [
        | inl high ↦
            let le = mul-le-mul_left s (leb→le (2 * u + 2) v high) in
            absurd (omega (arith, le, mul-add s (2 * u) 2, inside.1))
        | inr small ↦ elim (Bool-cases (v == 2 * u)) [
          | inl first ↦ inl (here ∙ (ap (λ z. s * z) ((==_iff v (2 * u)).0 first) ∙ sym at))
          | inr second ↦
              let is_second : v ≡ 2 * u + 1 = ground arith in
              inr (omega (arith, here ∙ ap (λ z. s * z) is_second, mul-add s (2 * u) 1, at))
        ]
      ]
    ]
