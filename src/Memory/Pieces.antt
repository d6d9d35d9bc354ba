-- ===== src/Memory/Pieces.antt =====
-- The free blocks that a block of kern/memory.c is split into.
use dumboss.Base.{
  update, ℕ, suc, ◌+◌, ◌/◌, ◌%◌, ◌^◌, ◌≤◌, ◌<◌, ◌≡◌, ◌⊎◌, refl, sym, ap, ◌∙◌, inl, inr, Bool, true,
  false, ◌||◌, ◌&&◌, List, [], ◌∷◌, ◌==◌, Bool-cases, leb, arith,
}
use dumboss.Memory.Chain.{has}
use dumboss.Memory.Heap.{block_of}

-- A free block, by its first page and its size class.
abbrev pub Piece : Type 0
Piece = ℕ × ℕ

-- The pieces cover the pages from `lo` to `hi` without a gap, the last one first, each aligned for
-- its class, the classes ever smaller and below `class`.
abbrev pub Tiles : ℕ → ℕ → ℕ → List Piece → Type 0
Tiles class lo hi [] = lo ≡ hi
Tiles class lo hi ((page, c) ∷ ps) =
    (c < class) × (page + 2 ^ c ≡ hi) × (page % 2 ^ c ≡ 0) × Tiles c lo page ps

-- The free lists with the pieces in front of them.
abbrev pub onto : List Piece → (ℕ → List ℕ) → ℕ → List ℕ
onto [] xs = xs
onto ((page, c) ∷ ps) xs = onto ps (update xs c (block_of page ∷ xs c))

-- Whether one of the pieces is in the pair of index `k` of class `d`.
abbrev pub in_pair : List Piece → ℕ → ℕ → Bool
in_pair [] d k = false
in_pair ((page, c) ∷ ps) d k = (c == d) && (page / 2 ^ (c + 1) == k) || in_pair ps d k

-- Whether the block of page `p` and class `d` is one of the pieces.
abbrev pub member : ℕ → ℕ → List Piece → Bool
member p d [] = false
member p d ((page, c) ∷ ps) = (c == d) && (page == p) || member p d ps

pub Tiles-widen :
    (class lo hi : ℕ) (ps : List Piece) → Tiles class lo hi ps → Tiles (suc class) lo hi ps
Tiles-widen class lo hi [] e = e
Tiles-widen class lo hi ((page, c) ∷ ps) (lt, end, aligned, rest) =
    (omega arith, end, aligned, rest)

pub has-onto :
    (ps : List Piece) (xs : ℕ → List ℕ) (d p : ℕ)
    → has (block_of p) (onto ps xs d) ≡ member p d ps || has (block_of p) (xs d)
has-onto [] xs d p = refl
has-onto ((page, c) ∷ ps) xs d p =
    has-onto ps (update xs c (block_of page ∷ xs c)) d p ∙ ground arith

-- What is on a list is a piece, or was on it.
pub onto-cases :
    (ps : List Piece) (xs : ℕ → List ℕ) (d a : ℕ)
    → has a (onto ps xs d) ≡ true
    → ((p : ℕ) × (a ≡ block_of p) × (member p d ps ≡ true)) ⊎ (has a (xs d) ≡ true)
onto-cases [] xs d a on = inr on
onto-cases ((page, c) ∷ ps) xs d a on =
    elim (onto-cases ps (update xs c (block_of page ∷ xs c)) d a on) [
      | inl (p, e, m) ↦ inl (p, e, ground arith)
      | inr old ↦ elim (Bool-cases ((c == d) && (a == block_of page))) [
        | inl here ↦ inl (page, ground arith, ground arith)
        | inr there ↦ inr (ground arith)
      ]
    ]

pub Tiles-le : (class lo hi : ℕ) (ps : List Piece) → Tiles class lo hi ps → lo ≤ hi
Tiles-le class lo hi [] e = omega arith
Tiles-le class lo hi ((page, c) ∷ ps) (lt, end, aligned, rest) =
    omega (arith, Tiles-le c lo page ps rest)

pub Tiles-member :
    (class lo hi : ℕ) (ps : List Piece) (p d : ℕ)
    → Tiles class lo hi ps
    → member p d ps ≡ true
    → (d < class) × (lo ≤ p) × (p + 2 ^ d ≤ hi) × (p % 2 ^ d ≡ 0)
Tiles-member class lo hi [] p d e m = cc
Tiles-member class lo hi ((page, c) ∷ ps) p d (lt, end, aligned, rest) m =
    let below = Tiles-le c lo page ps rest in
    elim (Bool-cases ((c == d) && (page == p))) [
      | inl here ↦
          let same_class : c ≡ d = ground arith in
          let same_page : page ≡ p = ground arith in
          rw (← same_class, ← same_page) (lt, below, omega arith, aligned)
      | inr there ↦
          let (less, from, to, ok_align) = Tiles-member c lo page ps p d rest (ground arith) in
          (omega arith, from, omega arith, ok_align)
    ]

-- Both blocks are of one class, or they have a page in common.
abbrev pub Meet : ℕ → ℕ → ℕ → ℕ → Type 0
Meet p d q e = (d ≡ e) ⊎ ((r : ℕ) × (p ≤ r) × (r < p + 2 ^ d) × (q ≤ r) × (r < q + 2 ^ e))

not-Meet : (p d q e : ℕ) → d < e → p + 2 ^ d ≤ q → Meet p d q e → ⊥
not-Meet p d q e lt le (inl same) = absurd (omega arith)
not-Meet p d q e lt le (inr (r, a, b, f, g)) = absurd (omega arith)

Meet-sym : (p d q e : ℕ) → Meet p d q e → Meet q e p d
Meet-sym p d q e (inl same) = inl (sym same)
Meet-sym p d q e (inr (r, a, b, f, g)) = inr (r, f, g, a, b)

-- Two pieces with a page in common are one, and so are two of a class.
pub Tiles-same :
    (class lo hi : ℕ) (ps : List Piece) (p d q e : ℕ)
    → Tiles class lo hi ps
    → member p d ps ≡ true
    → member q e ps ≡ true
    → Meet p d q e
    → (d ≡ e) × (p ≡ q)
Tiles-same class lo hi [] p d q e tiles m n why = cc
Tiles-same class lo hi ((page, c) ∷ ps) p d q e (lt, end, aligned, rest) m n why =
    elim (Bool-cases (member p d ps)) [
      | inl p_there ↦ elim (Bool-cases (member q e ps)) [
        | inl q_there ↦ Tiles-same c lo page ps p d q e rest p_there q_there why
        | inr q_here ↦
            let (less, from, to, _) = Tiles-member c lo page ps p d rest p_there in
            absurd (not-Meet p d q e (ground arith) (ground arith) why)
      ]
      | inr p_here ↦ elim (Bool-cases (member q e ps)) [
        | inl q_there ↦
            let (less, from, to, _) = Tiles-member c lo page ps q e rest q_there in
            absurd (not-Meet q e p d (ground arith) (ground arith) (Meet-sym p d q e why))
        | inr q_here ↦ (ground arith, ground arith)
      ]
    ]

pub Tiles-cover :
    (class lo hi : ℕ) (ps : List Piece) (q : ℕ)
    → Tiles class lo hi ps
    → lo ≤ q
    → q < hi
    → (d : ℕ) × (p : ℕ) × (member p d ps ≡ true) × (p ≤ q) × (q < p + 2 ^ d)
Tiles-cover class lo hi [] q e from to = absurd (omega arith)
Tiles-cover class lo hi ((page, c) ∷ ps) q (lt, end, aligned, rest) from to =
    elim (Bool-cases (leb page q)) [
      | inl here ↦ (c, page, ground arith, ground arith, omega arith)
      | inr below ↦
          let (d, p, m, a, b) = Tiles-cover c lo page ps q rest from (ground arith) in
          (d, p, ground arith, a, b)
    ]

pub in_pair-member :
    (ps : List Piece) (d k : ℕ)
    → in_pair ps d k ≡ true
    → (p : ℕ) × (member p d ps ≡ true) × (p / 2 ^ (d + 1) ≡ k)
in_pair-member [] d k i = cc
in_pair-member ((page, c) ∷ ps) d k i = elim (Bool-cases ((c == d) && (page / 2 ^ (c + 1) == k))) [
  | inl here ↦
      let same_class : c ≡ d = ground arith in
      (page, ground arith, ap (λ z. page / 2 ^ (z + 1)) (sym same_class) ∙ ground arith)
  | inr there ↦ let (p, m, e) = in_pair-member ps d k (ground arith) in (p, ground arith, e)
]

pub member-in_pair :
    (ps : List Piece) (d p : ℕ) → member p d ps ≡ true → in_pair ps d (p / 2 ^ (d + 1)) ≡ true
member-in_pair [] d p m = cc
member-in_pair ((page, c) ∷ ps) d p m = elim (Bool-cases (member p d ps)) [
  | inl there ↦ let rest = member-in_pair ps d p there in ground arith
  | inr here ↦
      let same_class : c ≡ d = ground arith in
      let same_page : page ≡ p = ground arith in rw (← same_class, ← same_page) (ground arith)
]
