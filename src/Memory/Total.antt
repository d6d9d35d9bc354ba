-- ===== src/Memory/Total.antt =====
-- How many pages the free lists of kern/memory.c hold.
use dumboss.Base.{
  update, ℕ, zero, suc, ◌+◌, ◌*◌, ◌^◌, ◌≤◌, ◌<◌, ◌≡◌, refl, ap, ◌∙◌, List, [], ◌∷◌, inl, inr, ◌==◌,
  ==_iff, Bool-cases, false, length, arith,
}
use native.Mathlib.Nat.{one-le-pow, mul-le-mul_left}
use dumboss.Memory.{class_count}
use dumboss.Memory.Heap.{block_of}
use dumboss.Memory.Pieces.{Piece, Tiles, onto}

-- The pages on the lists of the classes below `n`.
abbrev pub pages_below : ℕ → (ℕ → List ℕ) → ℕ
pages_below zero xs = 0
pages_below (suc n) xs = pages_below n xs + length (xs n) * 2 ^ n

abbrev pub total : (ℕ → List ℕ) → ℕ
total xs = pages_below class_count xs

pages_below-other :
    (n c : ℕ) (xs : ℕ → List ℕ) (ys : List ℕ)
    → n ≤ c
    → pages_below n (update xs c ys) ≡ pages_below n xs
pages_below-other zero c xs ys le = refl
pages_below-other (suc n) c xs ys le =
    let other : (n == c) ≡ false = ground arith in
    rw (other, pages_below-other n c xs ys (omega arith)) refl

pages_below-update :
    (n c : ℕ) (xs : ℕ → List ℕ) (ys : List ℕ)
    → c < n
    → pages_below n (update xs c ys) + length (xs c) * 2 ^ c ≡ pages_below n xs + length ys * 2 ^ c
pages_below-update zero c xs ys lt = absurd (omega arith)
pages_below-update (suc n) c xs ys lt = elim (Bool-cases (n == c)) [
  | inl same ↦
      let at = (==_iff n c).0 same in
      let rest = pages_below-other n c xs ys (omega arith) in
      let here : length (xs n) * 2 ^ n ≡ length (xs c) * 2 ^ c =
        ap (λ z. length (xs z) * 2 ^ z) at in
      let there : length ys * 2 ^ n ≡ length ys * 2 ^ c = ap (λ z. length ys * 2 ^ z) at in
      rw (same, rest) (omega arith)
  | inr other ↦ let rest = pages_below-update n c xs ys (ground arith) in rw other (omega arith)
]

pub total-cons :
    (c x : ℕ) (xs : ℕ → List ℕ)
    → c < class_count
    → total (update xs c (x ∷ xs c)) ≡ total xs + 2 ^ c
total-cons c x xs lt =
    let sum = pages_below-update class_count c xs (x ∷ xs c) lt in omega (arith, sum)

pub total-tail :
    (c : ℕ) (xs : ℕ → List ℕ) (rest : List ℕ)
    → c < class_count
    → length (xs c) ≡ suc (length rest)
    → total (update xs c rest) + 2 ^ c ≡ total xs
total-tail c xs rest lt one_less =
    let sum = pages_below-update class_count c xs rest lt in
    let split : length (xs c) * 2 ^ c ≡ 2 ^ c + length rest * 2 ^ c =
      ap (λ z. z * 2 ^ c) one_less ∙ omega arith in
    omega (arith, sum)

-- The pieces of a block are as many pages as they cover.
pub total-onto :
    (class lo hi : ℕ) (ps : List Piece) (xs : ℕ → List ℕ)
    → class ≤ class_count
    → Tiles class lo hi ps
    → total (onto ps xs) + lo ≡ total xs + hi
total-onto class lo hi [] xs le same = omega arith
total-onto class lo hi ((page, c) ∷ ps) xs le (lt, end, aligned, rest) =
    let later = total-onto c lo page ps (update xs c (block_of page ∷ xs c)) (omega arith) rest in
    let here = total-cons c (block_of page) xs (omega arith) in omega (arith, later, here, end)

-- No list has more blocks than all lists have pages.
length-le_below : (n d : ℕ) (xs : ℕ → List ℕ) → d < n → length (xs d) ≤ pages_below n xs
length-le_below zero d xs lt = absurd (omega arith)
length-le_below (suc n) d xs lt = elim (Bool-cases (n == d)) [
  | inl same ↦
      let at : length (xs n) ≡ length (xs d) = ap (λ z. length (xs z)) ((==_iff n d).0 same) in
      let scale = mul-le-mul_left (length (xs n)) (one-le-pow n 2 (omega arith)) in
      omega (arith, at, scale)
  | inr other ↦ omega (arith, length-le_below n d xs (ground arith))
]

pub length-le_total : (d : ℕ) (xs : ℕ → List ℕ) → d < class_count → length (xs d) ≤ total xs
length-le_total d xs lt = length-le_below class_count d xs lt
