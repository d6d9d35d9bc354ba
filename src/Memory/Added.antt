-- ===== src/Memory/Added.antt =====
-- The free blocks of kern/memory.c with one block more: they lie as they must.
use native.Mathlib.Nat.{one-le-pow}
use mathlib.Core.Path.{ap₂, subst}
use dumboss.Base.{
  update, ℕ, ◌+◌, ◌/◌, ◌%◌, ◌^◌, ◌≤◌, ◌<◌, ◌≡◌, ◌⊎◌, refl, sym, ap, ◌∙◌, inl, inr, true, false,
  ◌||◌, ||-true, ◌&&◌, List, ◌∷◌, ◌==◌, ==_iff, if◌then◌else◌, Bool-cases, Bool-iff, arith, leb,
  ltb,
}
use dumboss.BitSet.{BitSet}
use dumboss.BitSet.Ones.{bit_at}
use dumboss.BitSet.Update.{of_bool}
use dumboss.Memory.{class_count}
use dumboss.Memory.Chain.{has}
use dumboss.Memory.Heap.{block_of}
use dumboss.Memory.Layout.{Layout, on, PairIs, block_of_inj}
use dumboss.Memory.Align.{pow_next, pair_half, half_cases}

-- A block of class `c` from page `begin` on, aligned and inside the memory, whose pages are usable
-- and not free.
pub record IsHeld (pages : ℕ) (usable free : ℕ → ℕ) (c begin : ℕ) : Type 0 where
  pub aligned : begin % 2 ^ c ≡ 0
  pub inside : begin + 2 ^ c ≤ pages
  pub may_use : (k : ℕ) → begin ≤ k → k < begin + 2 ^ c → usable k ≡ 1
  pub not_free : (k : ℕ) → begin ≤ k → k < begin + 2 ^ c → free k ≡ 0

module _ {pages : ℕ} {xs : ℕ → List ℕ} {bs : ℕ → BitSet} {usable free : ℕ → ℕ}
    (layout : Layout pages xs bs usable free) (c begin : ℕ)
    (held : IsHeld pages usable free c begin) where
  -- No free block has a page of it.
  pub no_page :
      (d p r : ℕ) → on xs d p ≡ true → p ≤ r → r < p + 2 ^ d → begin ≤ r → r < begin + 2 ^ c → ⊥
  no_page d p r h a b f g =
      let (_, free_page) = layout.listed d p r h a b in
      let taken_page = held.not_free r f g in
      let both : 0 ≡ 1 = sym taken_page ∙ free_page in omega arith

  pub new : (d : ℕ) → on xs d begin ≡ false
  new d = elim (Bool-cases (on xs d begin)) [
    | inl h ↦ absurd (
        no_page d begin begin h (omega arith) (omega (arith, one-le-pow d 2 (omega arith)))
          (omega arith) (omega (arith, one-le-pow c 2 (omega arith))))
    | inr h ↦ h
  ]

-- Such a block comes onto the list of its class, where neither half of its pair is free; its pair's
-- bit becomes 1.
module _ {pages : ℕ} {xs : ℕ → List ℕ} {bs : ℕ → BitSet} {usable free : ℕ → ℕ}
    (layout : Layout pages xs bs usable free) (c begin : ℕ)
    (held : IsHeld pages usable free c begin) (low : c < class_count)
    (no_buddy : (q : ℕ)
      → c + 1 < class_count
      → q / 2 ^ (c + 1) ≡ begin / 2 ^ (c + 1)
      → on xs c q ≡ false) where
  open held use {aligned, inside, may_use, not_free}

  abbrev now : ℕ → List ℕ
  now = update xs c (block_of begin ∷ xs c)

  on-cases :
      (d a : ℕ) → has a (now d) ≡ true → ((d ≡ c) × (a ≡ block_of begin)) ⊎ (has a (xs d) ≡ true)
  on-cases d a h = elim (Bool-cases (d == c)) [
    | inl same ↦
        let at = (==_iff d c).0 same in
        elim (Bool-cases (a == block_of begin)) [
          | inl first ↦ inl (at, (==_iff a (block_of begin)).0 first)
          | inr later ↦
              let there : has a (xs c) ≡ true = ground arith in
              inr (ap (λ z. has a (xs z)) at ∙ there)
        ]
    | inr other ↦ inr (ground arith)
  ]

  on-page_cases : (d p : ℕ) → on now d p ≡ true → ((d ≡ c) × (p ≡ begin)) ⊎ (on xs d p ≡ true)
  on-page_cases d p h = elim (on-cases d (block_of p) h) [
    | inl (same, at) ↦ inl (same, block_of_inj p begin at)
    | inr old ↦ inr old
  ]

  was-on : (d a : ℕ) → has a (xs d) ≡ true → has a (now d) ≡ true
  was-on d a h = elim (Bool-cases (d == c)) [
    | inl same ↦
        let at = (==_iff d c).0 same in
        let there : has a (xs c) ≡ true = ap (λ z. has a (xs z)) (sym at) ∙ h in ground arith
    | inr other ↦ ground arith
  ]

  first-on : on now c begin ≡ true
  first-on = ground arith

  now-disjoint :
      (d e p q r : ℕ)
      → on now d p ≡ true
      → on now e q ≡ true
      → p ≤ r
      → r < p + 2 ^ d
      → q ≤ r
      → r < q + 2 ^ e
      → (d ≡ e) × (p ≡ q)
  now-disjoint d e p q r h k a b f g = elim (on-page_cases d p h) [
    | inl (i, j) ↦ elim (on-page_cases e q k) [
      | inl (i', j') ↦ (omega arith, omega arith)
      | inr old ↦ absurd (
          no_page layout c begin held e q r old f g (omega arith)
            (subst (λ z. r < begin + 2 ^ z) i (omega arith)))
    ]
    | inr old ↦ elim (on-page_cases e q k) [
      | inl (i', j') ↦ absurd (
          no_page layout c begin held d p r old a b (omega arith)
            (subst (λ z. r < begin + 2 ^ z) i' (omega arith)))
      | inr old' ↦ layout.disjoint d e p q r old old' a b f g
    ]
  ]

  now-blocks :
      (d a : ℕ)
      → has a (now d) ≡ true
      → (p : ℕ) × (a ≡ block_of p) × (d < class_count) × (p % 2 ^ d ≡ 0) × (p + 2 ^ d ≤ pages)
  now-blocks d a h = elim (on-cases d a h) [
    | inl (i, at) ↦ (
      begin,
      at,
      omega arith,
      ap (λ z. begin % 2 ^ z) i ∙ aligned,
      subst (λ z. begin + 2 ^ z ≤ pages) (sym i) inside,
    )
    | inr old ↦ layout.blocks d a old
  ]

  now-single :
      (d p : ℕ)
      → d + 1 < class_count
      → p % 2 ^ (d + 1) ≡ 0
      → on now d p ≡ true
      → on now d (p + 2 ^ d) ≡ false
  now-single d p d_low on_pair h = elim (Bool-cases (on now d (p + 2 ^ d))) [
    | inr no_other ↦ no_other
    | inl k ↦
        let half = one-le-pow d 2 (omega arith) in
        absurd (elim (on-page_cases d p h) [
          | inl (i, j) ↦ elim (on-page_cases d (p + 2 ^ d) k) [
            | inl (_, j') ↦ omega arith
            | inr old ↦
                let off =
                  pair_off d (p + 2 ^ d) i d_low
                    (pair_half d p on_pair ∙ ap (λ z. z / 2 ^ (d + 1)) j) in
                cc
          ]
          | inr old ↦ elim (on-page_cases d (p + 2 ^ d) k) [
            | inl (i, j) ↦
                let off =
                  pair_off d p i d_low
                    (sym (pair_half d p on_pair) ∙ ap (λ z. z / 2 ^ (d + 1)) j) in
                cc
            | inr old' ↦ let alone = layout.single d p d_low on_pair old in cc
          ]
        ])
  ]
    where
      pair_off :
          (d q : ℕ)
          → d ≡ c
          → d + 1 < class_count
          → q / 2 ^ (d + 1) ≡ begin / 2 ^ (d + 1)
          → on xs d q ≡ false
      pair_off d q i d_low =
          subst
            (λ z. z + 1 < class_count → q / 2 ^ (z + 1) ≡ begin / 2 ^ (z + 1) → on xs z q ≡ false)
            (sym i) (no_buddy q) d_low

  now-same : (d q : ℕ) → (d ≡ c → q ≡ begin → ⊥) → on now d q ≡ on xs d q
  now-same d q other =
      Bool-iff (on now d q) (on xs d q)
        (λ h. elim (on-page_cases d q h) [ inl (i, j) ↦ absurd (other i j) | inr old ↦ old ])
        (was-on d (block_of q))

  -- The new block is a free half of its pair.
  half-now :
      (d p : ℕ)
      → c ≡ d
      → p % 2 ^ (d + 1) ≡ 0
      → begin / 2 ^ (d + 1) ≡ p / 2 ^ (d + 1)
      → on now d p || on now d (p + 2 ^ d) ≡ true
  half-now d p i =
      subst
        (λ z.
          p % 2 ^ (z + 1) ≡ 0
          → begin / 2 ^ (z + 1) ≡ p / 2 ^ (z + 1)
          → on now z p || on now z (p + 2 ^ z) ≡ true)
        i
        (λ on_pair at.
          elim (half_cases (2 ^ c) p begin (one-le-pow c 2 (omega arith))
            (rw (← pow_next c) on_pair) aligned (rw (← pow_next c) at)) [
              | inl first ↦ rw (ap (on now c) (sym first) ∙ first-on) refl
              | inr second ↦
                  let other = ap (on now c) (sym second) ∙ first-on in
                  ap (λ z. on now c p || z) other ∙ ||-true (on now c p)
            ])

  module _ (bs' : ℕ → BitSet) (paired : PairIs 1 c begin bs bs') where
    now-pairs :
        (d p : ℕ)
        → d + 1 < class_count
        → p < pages
        → p % 2 ^ (d + 1) ≡ 0
        → bit_at (bs' d).words (p / 2 ^ (d + 1)) ≡ of_bool (on now d p || on now d (p + 2 ^ d))
    now-pairs d p d_low lt on_pair =
        let k = p / 2 ^ (d + 1) in
        (paired d d_low).1 k ∙ elim (Bool-cases ((d == c) && (k == begin / 2 ^ (c + 1)))) [
          | inl here ↦
              let same : d ≡ c = ground arith in
              let same_pair : k ≡ begin / 2 ^ (c + 1) = ground arith in
              let at = ap (λ z. begin / 2 ^ (z + 1)) same ∙ sym same_pair in
              rw (here, half-now d p (sym same) on_pair at) refl
          | inr there ↦
              let other : (q : ℕ) → q / 2 ^ (d + 1) ≡ k → d ≡ c → q ≡ begin → ⊥ = λ q halved e f.
                let same_pair : k ≡ begin / 2 ^ (c + 1) =
                  sym halved ∙ ap₂ (λ a b. a / 2 ^ (b + 1)) f e in
                ground arith in
              rw
                (
                  there,
                  now-same d p (other p refl),
                  now-same d (p + 2 ^ d) (other (p + 2 ^ d) (pair_half d p on_pair)),
                )
                (layout.pairs d p d_low lt on_pair)
        ]

    -- With the block's pages marked as free, the free blocks lie as they must.
    pub added :
        (free' : ℕ → ℕ)
        → ((k : ℕ)
            → free' k ≡ (if leb begin k && ltb k (begin + 2 ^ c) then of_bool true else free k))
        → Layout pages now bs' usable free'
    added free' marked = record {
      blocks = now-blocks;
      disjoint = now-disjoint;
      single = now-single;
      indices = λ d p d_low lt. omega (arith, layout.indices d p d_low lt, (paired d d_low).0);
      pairs = now-pairs;
      listed = λ d p q h lo hi. elim (on-page_cases d p h) [
        | inl (i, j) ↦
            let end : q < begin + 2 ^ c = subst (λ z. q < begin + 2 ^ z) i (omega arith) in
            let here = marked q in (may_use q (omega arith) end, ground arith)
        | inr old ↦
            let (usable_page, free_page) = layout.listed d p q old lo hi in
            let here = marked q in (usable_page, ground arith)
      ];
      covered = λ q lt h. elim (Bool-cases (leb begin q && ltb q (begin + 2 ^ c))) [
        | inl here ↦ (c, begin, first-on, ground arith, ground arith)
        | inr there ↦
            let here = marked q in
            let was : free q ≡ 1 = ground arith in
            let (d, p, h, lo, hi) = layout.covered q lt was in
            (d, p, was-on d (block_of p) h, lo, hi)
      ];
    }
