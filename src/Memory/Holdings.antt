-- ===== src/Memory/Holdings.antt =====
-- The regions that callers of kern/memory.c hold, when one more is taken and when one is given back.
use dumboss.Base.{
  ℕ, zero, suc, ◌+◌, ◌≤◌, ◌<◌, ◌≡◌, ap, inl, inr, false, ◌&&◌, some, List, [], ◌∷◌, get_elem?,
  arith, leb, ltb, Bool-cases,
}
use mathlib.Core.Path.{subst}
use dumboss.Memory.Heap.{block_of}
use dumboss.Memory.Merge.{Freed}
use dumboss.Memory.Client.{Region, remove, Apart, AllApart, IsRegion, Holdings, pages_held}

Apart-sym : (r s : Region) → Apart r s → Apart s r
Apart-sym r s (inl before) = inr before
Apart-sym r s (inr behind) = inl behind

AllApart-remove :
    (r : Region) (held : List Region) (i : ℕ) → AllApart r held → AllApart r (remove held i)
AllApart-remove r [] i all = tt
AllApart-remove r (s ∷ held) zero (first, all) = all
AllApart-remove r (s ∷ held) (suc i) (first, all) = (first, AllApart-remove r held i all)

AllApart-get :
    (r s : Region) (held : List Region) (i : ℕ)
    → AllApart r held
    → get_elem? held i ≡ some s
    → Apart r s
AllApart-get r s [] i all e = cc
AllApart-get r s (t ∷ held) zero (first, all) e =
    let same : t ≡ s = cc in subst (Apart r) same first
AllApart-get r s (t ∷ held) (suc i) (first, all) e = AllApart-get r s held i all e

-- A region that is held, and what is held without it.
pub Holdings-remove :
    (pages : ℕ) (usable free : ℕ → ℕ) (r : Region) (held : List Region) (i : ℕ)
    → Holdings pages usable free held
    → get_elem? held i ≡ some r
    → IsRegion pages usable free r
      × AllApart r (remove held i)
      × Holdings pages usable free (remove held i)
      × (pages_held held ≡ r.1 + pages_held (remove held i))
Holdings-remove pages usable free r [] i all e = cc
Holdings-remove pages usable free r (s ∷ held) zero (first, apart, all) e =
    let same : s ≡ r = cc in
    (
      subst (IsRegion pages usable free) same first,
      subst (λ z. AllApart z held) same apart,
      all,
      ap (λ z. z.1 + pages_held held) same,
    )
Holdings-remove pages usable free r (s ∷ held) (suc i) (first, apart, all) e =
    let (region, others, left, sum) = Holdings-remove pages usable free r held i all e in
    (
      region,
      (Apart-sym s r (AllApart-get s r held i apart e), others),
      (first, AllApart-remove s held i apart, left),
      omega (arith, sum),
    )

-- What is held stays so when pages are taken from the free ones.
pub Holdings-fewer :
    (pages : ℕ) (usable free free1 : ℕ → ℕ) (held : List Region)
    → ((k : ℕ) → free k ≡ 0 → free1 k ≡ 0)
    → Holdings pages usable free held
    → Holdings pages usable free1 held
Holdings-fewer pages usable free free1 [] fewer all = tt
Holdings-fewer pages usable free free1 ((a, n) ∷ held) fewer
      ((begin, at, some_pages, inside, region), apart, all) =
    (
      (
        begin,
        at,
        some_pages,
        inside,
        λ k lo hi. let (may_use, taken) = region k lo hi in (may_use, fewer k taken),
      ),
      apart,
      Holdings-fewer pages usable free free1 held fewer all,
    )

-- It stays so, too, when a region apart from it becomes free.
pub Holdings-Freed :
    (pages : ℕ) (usable free free1 : ℕ → ℕ) (begin count : ℕ) (held : List Region)
    → Freed free free1 begin count
    → AllApart (block_of begin, count) held
    → Holdings pages usable free held
    → Holdings pages usable free1 held
Holdings-Freed pages usable free free1 b c [] freed others all = tt
Holdings-Freed pages usable free free1 b c ((a, n) ∷ held) freed (other, others)
      ((begin, at, some_pages, inside, region), apart, all) =
    (
      (
        begin,
        at,
        some_pages,
        inside,
        λ k lo hi.
            let (may_use, taken) = region k lo hi in
            let here = freed k in
            let outside : leb b k && ltb k (b + c) ≡ false =
              elim (Bool-cases (leb b k && ltb k (b + c))) [
                | inr h ↦ h
                | inl h ↦
                    absurd (elim other [ inl before ↦ ground arith | inr behind ↦ ground arith ])
              ] in
            (may_use, ground arith),
      ),
      apart,
      Holdings-Freed pages usable free free1 b c held freed others all,
    )

-- Pages that were free are apart from every region held.
pub AllApart-free :
    (pages : ℕ) (usable free : ℕ → ℕ) (begin count : ℕ) (held : List Region)
    → 0 < count
    → ((k : ℕ) → begin ≤ k → k < begin + count → free k ≡ 1)
    → Holdings pages usable free held
    → AllApart (block_of begin, count) held
AllApart-free pages usable free b c [] positive were_free all = tt
AllApart-free pages usable free b c ((a, n) ∷ held) positive were_free
      ((begin, at, some_pages, inside, region), apart, all) =
    (
      elim (Bool-cases (leb (b + c) begin)) [
        | inl before ↦ inl (ground arith)
        | inr no_before ↦ elim (Bool-cases (leb (begin + n) b)) [
          | inl behind ↦ inr (ground arith)
          | inr no_behind ↦ absurd (elim (Bool-cases (leb b begin)) [
            | inl le ↦
                let (_, taken) = region begin (omega arith) (omega arith) in
                let lit = were_free begin (ground arith) (ground arith) in omega arith
            | inr gt ↦
                let (_, taken) = region b (ground arith) (ground arith) in
                let lit = were_free b (omega arith) (omega arith) in omega arith
          ])
        ]
      ],
      AllApart-free pages usable free b c held positive were_free all,
    )
