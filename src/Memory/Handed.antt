-- ===== src/Memory/Handed.antt =====
-- The free blocks of kern/memory.c behind `alloc_raw`: they lie as they must.
use native.Mathlib.Nat.{mod-add-div, one-le-pow}
use mathlib.Core.Path.{ap₂, subst}
use dumboss.Base.{
  update, ℕ, ◌+◌, ◌*◌, ◌/◌, ◌%◌, ◌^◌, ◌≤◌, ◌<◌, ◌≡◌, ◌⊎◌, refl, sym, ap, ◌∙◌, inl, inr, true, false,
  ◌||◌, ◌&&◌, List, ◌==◌, if◌then◌else◌, Bool-cases, Bool-iff, arith, leb, ltb,
}
use dumboss.BitSet.{BitSet}
use dumboss.BitSet.Ones.{bit_at}
use dumboss.BitSet.Update.{of_bool}
use dumboss.Memory.{class_count}
use dumboss.Memory.Chain.{has}
use dumboss.Memory.Heap.{block_of}
use dumboss.Memory.Pieces.{
  Piece, Tiles, onto, in_pair, member, has-onto, onto-cases, Tiles-member, Tiles-same, Tiles-cover,
  in_pair-member, member-in_pair,
}
use dumboss.Memory.Split.{Marked}
use dumboss.Memory.Layout.{
  Layout, Removes, on, PairIs, block_of_inj, place, left, left-cases, left-apart,
}
use dumboss.Memory.Align.{aligned_inside, pow_next, pair_half, half_cases}

module _ {pages : ℕ} {xs : ℕ → List ℕ} {bs : ℕ → BitSet} {usable free : ℕ → ℕ}
    (layout : Layout pages xs bs usable free) (c begin : ℕ) (rest : List ℕ)
    (gone : Removes xs c begin rest) (bs1 bs' : ℕ → BitSet) (cleared : PairIs 0 c begin bs bs1)
    (count : ℕ) (positive : 0 < count) (le : count ≤ 2 ^ c) (ps : List Piece)
    (tiles : Tiles c (begin + count) (begin + 2 ^ c) ps) (marked : Marked ps bs1 bs')
    (free' : ℕ → ℕ)
    (wiped : (k : ℕ)
      → free' k ≡ (if leb begin k && ltb k (begin + count) then of_bool false else free k)) where
  abbrev kept : ℕ → List ℕ
  kept = update xs c rest

  abbrev now : ℕ → List ℕ
  now = onto ps kept

  apart :
      (d p r : ℕ) → on kept d p ≡ true → p ≤ r → r < p + 2 ^ d → begin ≤ r → r < begin + 2 ^ c → ⊥
  apart = left-apart layout c begin rest gone

  on-cases : (d p : ℕ) → on now d p ≡ true → (member p d ps ≡ true) ⊎ (on kept d p ≡ true)
  on-cases d p h = elim (Bool-cases (member p d ps)) [
    | inl m ↦ inl m
    | inr n ↦ let split = sym (has-onto ps kept d p) ∙ h in inr (ground arith)
  ]

  piece :
      (d p : ℕ)
      → member p d ps ≡ true
      → (d < c) × (begin + count ≤ p) × (p + 2 ^ d ≤ begin + 2 ^ c) × (p % 2 ^ d ≡ 0)
  piece d p m = Tiles-member c (begin + count) (begin + 2 ^ c) ps p d tiles m

  -- The pair of a piece lies inside the block.
  pair :
      (d p r : ℕ)
      → member r d ps ≡ true
      → p % 2 ^ (d + 1) ≡ 0
      → r / 2 ^ (d + 1) ≡ p / 2 ^ (d + 1)
      → (begin ≤ p) × (p + 2 ^ (d + 1) ≤ begin + 2 ^ c)
  pair d p r m aligned same =
      let (lt, from, to, _) = piece d r m in
      let (_, on_c, _) = place layout c begin rest gone in
      let some_pages = one-le-pow d 2 (omega arith) in
      let (lower, upper) =
        aligned_inside (d + 1) c begin r (omega arith) on_c (omega arith) (omega arith) in
      let at : 2 ^ (d + 1) * (r / 2 ^ (d + 1)) ≡ p =
        ap (λ z. 2 ^ (d + 1) * z) same ∙ omega (arith, mod-add-div p (2 ^ (d + 1))) in
      (omega (arith, at), omega (arith, at))

  now-blocks :
      (d a : ℕ)
      → has a (now d) ≡ true
      → (p : ℕ) × (a ≡ block_of p) × (d < class_count) × (p % 2 ^ d ≡ 0) × (p + 2 ^ d ≤ pages)
  now-blocks d a h = elim (onto-cases ps kept d a h) [
    | inl (p, e, m) ↦
        let (lt, from, to, aligned) = piece d p m in
        let (low, _, inside) = place layout c begin rest gone in
        (p, e, omega arith, aligned, omega arith)
    | inr old ↦ layout.blocks d a (left layout c begin rest gone d a old).0
  ]

  now-disjoint :
      (d e p q r : ℕ)
      → on now d p ≡ true
      → on now e q ≡ true
      → p ≤ r
      → r < p + 2 ^ d
      → q ≤ r
      → r < q + 2 ^ e
      → (d ≡ e) × (p ≡ q)
  now-disjoint d e p q r h k a b f g = elim (on-cases d p h) [
    | inl m ↦
        let (lt, from, to, _) = piece d p m in
        elim (on-cases e q k) [
          | inl n ↦
              Tiles-same c (begin + count) (begin + 2 ^ c) ps p d q e tiles m n
                (inr (r, a, b, f, g))
          | inr old ↦ absurd (apart e q r old f g (omega arith) (omega arith))
        ]
    | inr old ↦ elim (on-cases e q k) [
      | inl n ↦
          let (lt, from, to, _) = piece e q n in
          absurd (apart d p r old a b (omega arith) (omega arith))
      | inr old' ↦
          layout.disjoint d e p q r (left layout c begin rest gone d (block_of p) old).0
            (left layout c begin rest gone e (block_of q) old').0 a b f g
    ]
  ]

  now-single :
      (d p : ℕ)
      → d + 1 < class_count
      → p % 2 ^ (d + 1) ≡ 0
      → on now d p ≡ true
      → on now d (p + 2 ^ d) ≡ false
  now-single d p low aligned h = elim (Bool-cases (on now d (p + 2 ^ d))) [
    | inr no_other ↦ no_other
    | inl k ↦
        let half = one-le-pow d 2 (omega arith) in
        let twice = pow_next d in
        absurd (elim (on-cases d p h) [
          | inl m ↦
              let (from, to) = pair d p p m aligned refl in
              elim (on-cases d (p + 2 ^ d) k) [
                | inl n ↦
                    let (_, same) =
                      Tiles-same c (begin + count) (begin + 2 ^ c) ps p d (p + 2 ^ d) d tiles m n
                        (inl refl) in
                    omega arith
                | inr old ↦
                    apart d (p + 2 ^ d) (p + 2 ^ d) old (omega arith) (omega arith) (omega arith)
                      (omega arith)
              ]
          | inr old ↦ elim (on-cases d (p + 2 ^ d) k) [
            | inl n ↦
                let (from, to) = pair d p (p + 2 ^ d) n aligned (pair_half d p aligned) in
                apart d p p old (omega arith) (omega arith) from (omega arith)
            | inr old' ↦
                let free_alone =
                  layout.single d p low aligned
                    (left layout c begin rest gone d (block_of p) old).0 in
                let both_free = (left layout c begin rest gone d (block_of (p + 2 ^ d)) old').0 in
                cc
          ]
        ])
  ]

  -- Away from the pieces' pairs, and from the block taken, the lists say what they said.
  now-kept : (d q : ℕ) → in_pair ps d (q / 2 ^ (d + 1)) ≡ false → on now d q ≡ on kept d q
  now-kept d q none = elim (Bool-cases (member q d ps)) [
    | inl m ↦ let some_pair = member-in_pair ps d q m in cc
    | inr n ↦ has-onto ps kept d q ∙ rw n refl
  ]

  kept-xs : (d q : ℕ) → (d ≡ c → q ≡ begin → ⊥) → on kept d q ≡ on xs d q
  kept-xs d q other =
      Bool-iff (on kept d q) (on xs d q) (λ h. (left layout c begin rest gone d (block_of q) h).0)
        (λ h. elim (left-cases layout c begin rest gone d (block_of q) h) [
          | inl (same, at) ↦ absurd (other same (block_of_inj q begin at))
          | inr still ↦ still
        ])

  kept-not : (q : ℕ) → q ≡ begin → on kept c q ≡ false
  kept-not q at = elim (Bool-cases (on kept c q)) [
    | inl h ↦
        let some_pages = one-le-pow c 2 (omega arith) in
        absurd (apart c q q h (omega arith) (omega arith) (omega arith) (omega arith))
    | inr h ↦ h
  ]

  -- The block taken was the only free one of its pair.
  taken-pair :
      (p : ℕ)
      → c + 1 < class_count
      → p % 2 ^ (c + 1) ≡ 0
      → begin / 2 ^ (c + 1) ≡ p / 2 ^ (c + 1)
      → (on kept c p ≡ false) × (on kept c (p + 2 ^ c) ≡ false)
  taken-pair p low aligned same =
      let (_, on_c, _) = place layout c begin rest gone in
      let first_free = gone.was_on in
      elim (half_cases (2 ^ c) p begin (one-le-pow c 2 (omega arith)) (rw (← pow_next c) aligned)
        on_c (rw (← pow_next c) same)) [
          | inl at ↦ (
            kept-not p (sym at),
            elim (Bool-cases (on kept c (p + 2 ^ c))) [
              | inl h ↦
                  let was = (left layout c begin rest gone c (block_of (p + 2 ^ c)) h).0 in
                  let alone = layout.single c p low aligned (rw (← at) first_free) in cc
              | inr h ↦ h
            ],
          )
          | inr at ↦ (
            elim (Bool-cases (on kept c p)) [
              | inl h ↦
                  let was = (left layout c begin rest gone c (block_of p) h).0 in
                  let alone = layout.single c p low aligned was in
                  let other : on xs c (p + 2 ^ c) ≡ true = rw (← at) first_free in cc
              | inr h ↦ h
            ],
            kept-not (p + 2 ^ c) (sym at),
          )
        ]

  taken-pair_at :
      (d p : ℕ)
      → c ≡ d
      → d + 1 < class_count
      → p % 2 ^ (d + 1) ≡ 0
      → begin / 2 ^ (d + 1) ≡ p / 2 ^ (d + 1)
      → (on kept d p ≡ false) × (on kept d (p + 2 ^ d) ≡ false)
  taken-pair_at d p same =
      subst
        (λ z.
          z + 1 < class_count
          → p % 2 ^ (z + 1) ≡ 0
          → begin / 2 ^ (z + 1) ≡ p / 2 ^ (z + 1)
          → (on kept z p ≡ false) × (on kept z (p + 2 ^ z) ≡ false))
        same (taken-pair p)

  member-now : (d p : ℕ) → member p d ps ≡ true → on now d p ≡ true
  member-now d p m = has-onto ps kept d p ∙ rw m refl

  kept-now : (d p : ℕ) → on kept d p ≡ true → on now d p ≡ true
  kept-now d p h = has-onto ps kept d p ∙ ground arith

  -- A piece is a free half of its pair.
  half-now :
      (d p r : ℕ)
      → member r d ps ≡ true
      → p % 2 ^ (d + 1) ≡ 0
      → r / 2 ^ (d + 1) ≡ p / 2 ^ (d + 1)
      → on now d p || on now d (p + 2 ^ d) ≡ true
  half-now d p r m aligned at =
      let (_, _, _, r_aligned) = piece d r m in
      let some_free = member-now d r m in
      elim (half_cases (2 ^ d) p r (one-le-pow d 2 (omega arith)) (rw (← pow_next d) aligned)
        r_aligned (rw (← pow_next d) at)) [
          | inl first ↦ rw (ap (on now d) (sym first) ∙ some_free) refl
          | inr second ↦ let other = ap (on now d) (sym second) ∙ some_free in ground arith
        ]

  now-pairs :
      (d p : ℕ)
      → d + 1 < class_count
      → p < pages
      → p % 2 ^ (d + 1) ≡ 0
      → bit_at (bs' d).words (p / 2 ^ (d + 1)) ≡ of_bool (on now d p || on now d (p + 2 ^ d))
  now-pairs d p low lt aligned =
      let k = p / 2 ^ (d + 1) in
      let half = one-le-pow d 2 (omega arith) in
      (marked d).1 k ∙ elim (Bool-cases (in_pair ps d k)) [
        | inl i ↦
            let (r, m, at) = in_pair-member ps d k i in rw (i, half-now d p r m aligned at) refl
        | inr n ↦
            let same = now-kept d p n in
            let same' = now-kept d (p + 2 ^ d) (rw (pair_half d p aligned) n) in
            rw (n, same, same')
              ((cleared d low).1 k ∙ elim (Bool-cases ((d == c) && (k == begin / 2 ^ (c + 1)))) [
                | inl here ↦
                    let same_class : d ≡ c = ground arith in
                    let same_pair : k ≡ begin / 2 ^ (c + 1) = ground arith in
                    let (first, second) =
                      taken-pair_at d p (sym same_class) low aligned
                        (ap (λ z. begin / 2 ^ (z + 1)) same_class ∙ sym same_pair) in
                    rw (here, first, second) refl
                | inr there ↦
                    let apart_from : (q : ℕ) → q / 2 ^ (d + 1) ≡ k → d ≡ c → q ≡ begin → ⊥ =
                      λ q halved e f.
                        let same_pair : k ≡ begin / 2 ^ (c + 1) =
                          sym halved ∙ ap₂ (λ a b. a / 2 ^ (b + 1)) f e in
                        ground arith in
                    rw
                      (
                        there,
                        kept-xs d p (apart_from p refl),
                        kept-xs d (p + 2 ^ d) (apart_from (p + 2 ^ d) (pair_half d p aligned)),
                      )
                      (layout.pairs d p low lt aligned)
              ])
      ]

  now-listed :
      (d p q : ℕ) → on now d p ≡ true → p ≤ q → q < p + 2 ^ d → (usable q ≡ 1) × (free' q ≡ 1)
  now-listed d p q h lo hi = elim (on-cases d p h) [
    | inl m ↦
        let (lt, from, to, _) = piece d p m in
        let (may_use, was) = layout.listed c begin q gone.was_on (omega arith) (omega arith) in
        let same = wiped q in (may_use, ground arith)
    | inr old ↦
        let (may_use, was) =
          layout.listed d p q (left layout c begin rest gone d (block_of p) old).0 lo hi in
        let same = wiped q in
        let away : leb begin q && ltb q (begin + 2 ^ c) ≡ false =
          elim (Bool-cases (leb begin q && ltb q (begin + 2 ^ c))) [
            | inl inside ↦ absurd (apart d p q old lo hi (ground arith) (ground arith))
            | inr outside ↦ outside
          ] in
        (may_use, ground arith)
  ]

  now-covered :
      (q : ℕ)
      → q < pages
      → free' q ≡ 1
      → (d : ℕ) × (p : ℕ) × (on now d p ≡ true) × (p ≤ q) × (q < p + 2 ^ d)
  now-covered q lt set_bit =
      let same = wiped q in
      let was : free q ≡ 1 = ground arith in
      let away : leb begin q && ltb q (begin + count) ≡ false = ground arith in
      let (d, p, h, lo, hi) = layout.covered q lt was in
      elim (left-cases layout c begin rest gone d (block_of p) h) [
        | inl (same_class, at) ↦
            let here = block_of_inj p begin at in
            let there : q < begin + 2 ^ c = rw (← same_class) (omega arith) in
            let (e, r, m, a, b) =
              Tiles-cover c (begin + count) (begin + 2 ^ c) ps q tiles (ground arith) there in
            (e, r, member-now e r m, a, b)
        | inr still ↦ (d, p, kept-now d p still, lo, hi)
      ]

  now-indices : (d p : ℕ) → d + 1 < class_count → p < pages → p / 2 ^ (d + 1) < (bs' d).count
  now-indices d p low lt = omega (arith, layout.indices d p low lt, (marked d).0, (cleared d low).0)

  -- Behind the call, with the first `count` pages of the block handed out and the pieces on their
  -- lists, the free blocks lie as they must.
  pub handed : Layout pages now bs' usable free'
  handed = record {
    blocks = now-blocks;
    disjoint = now-disjoint;
    single = now-single;
    indices = now-indices;
    pairs = now-pairs;
    listed = now-listed;
    covered = now-covered;
  }
