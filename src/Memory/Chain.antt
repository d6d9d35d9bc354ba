-- ===== src/Memory/Chain.antt =====
-- The doubly linked lists of kern/memory.c, as the lists of their blocks' addresses.
use dumboss.Base.{
  length, suc, ℕ, ◌≡◌, refl, sym, ◌≢◌, Bool, true, false, ◌||◌, List, [], ◌∷◌, ◌==◌, if◌then◌else◌,
  Bool-cases, ==_iff, inl, inr, arith,
}
use mathlib.Core.Path.{ap, ap₂, subst, subst₂}
use dumboss.Memory.{FreeBlock, null, update}

abbrev pub has : ℕ → List ℕ → Bool
has a [] = false
has a (x ∷ xs) = (a == x) || has a xs

unfoldable pub erase : ℕ → List ℕ → List ℕ
erase a [] = []
erase a (x ∷ xs) = if a == x then xs else x ∷ erase a xs

-- From `p` the `next` pointers lead through the distinct blocks `xs`, all of size class `c`, to
-- `NULL`; the `prev` pointer of each is the block before it, and that of the first is `prev`.
abbrev pub IsChain : (ℕ → FreeBlock) → ℕ → ℕ → ℕ → List ℕ → Type 0
IsChain blocks c prev p [] = p ≡ null
IsChain blocks c prev p (x ∷ xs) =
    (p ≡ x)
    × (x ≢ null)
    × ((blocks x).prev ≡ prev)
    × ((blocks x).size_class ≡ c)
    × (has x xs ≡ false)
    × IsChain blocks c x (blocks x).next xs

-- The two memories agree on every block that is not in the list.
abbrev pub SameOutside : List ℕ → (ℕ → FreeBlock) → (ℕ → FreeBlock) → Type 0
SameOutside xs f g = (a : ℕ) → has a xs ≡ false → g a ≡ f a

-- A chain survives any change that spares its own blocks.
pub frame :
    {f g : ℕ → FreeBlock} (c prev p : ℕ) (xs : List ℕ)
    → ((a : ℕ) → has a xs ≡ true → g a ≡ f a)
    → IsChain f c prev p xs
    → IsChain g c prev p xs
frame c prev p [] same h = h
frame {f} {g} c prev p (x ∷ xs) same (e, ne, before, cls, out, rest) =
    let here : g x ≡ f x = same x (ground arith) in
    (
      e,
      ne,
      rw here before,
      rw here cls,
      out,
      rw here (frame c x (f x).next xs (λ a i. same a (ground arith)) rest),
    )

-- A chain whose first block has a `next` that is known by another name.
cons :
    (g : ℕ → FreeBlock) (c q p x n : ℕ) (xs : List ℕ)
    → p ≡ x
    → x ≢ null
    → (g x).prev ≡ q
    → (g x).size_class ≡ c
    → has x xs ≡ false
    → (g x).next ≡ n
    → IsChain g c x n xs
    → IsChain g c q p (x ∷ xs)
cons g c q p x n xs e ne before cls out next rest =
    (e, ne, before, cls, out, subst (λ t. IsChain g c x t xs) (sym next) rest)

-- `if (next != NULL) next->prev = prev;`
abbrev pub relink : (ℕ → FreeBlock) → ℕ → ℕ → ℕ → FreeBlock
relink f next prev = if next == null then f else update f next (record (f next) { prev = prev })

-- The rest of a chain gets another predecessor.
pub relink-IsChain :
    (f : ℕ → FreeBlock) (c old p q : ℕ) (xs : List ℕ)
    → IsChain f c old p xs
    → IsChain (relink f p q) c q p xs × SameOutside xs f (relink f p q)
relink-IsChain f c old p q [] e = (e, λ a o. ground arith)
relink-IsChain f c old p q (x ∷ xs) (e, ne, before, cls, out, rest) = (
  cons (relink f p q) c q p x (f x).next xs e ne (ground arith) (ground arith) out (ground arith)
      (frame c x (f x).next xs (λ a i. ground arith) rest),
  λ a o. ground arith,
)

-- `next->prev = prev; prev->next = next;` with the second test passed.
abbrev pub join : (ℕ → FreeBlock) → ℕ → ℕ → ℕ → FreeBlock
join f next prev = let g = relink f next prev in update g prev (record (g prev) { next = next })

-- The same around the block `x`.
abbrev pub unlink : (ℕ → FreeBlock) → ℕ → ℕ → FreeBlock
unlink f x = join f (f x).next (f x).prev

join-IsChain :
    (f : ℕ → FreeBlock) (c q p h old n : ℕ) (xs : List ℕ)
    → p ≡ h
    → h ≢ null
    → (f h).prev ≡ q
    → (f h).size_class ≡ c
    → has h xs ≡ false
    → IsChain f c old n xs
    → IsChain (join f n h) c q p (h ∷ xs) × SameOutside (h ∷ xs) f (join f n h)
join-IsChain f c q p h old n xs e ne before cls out rest =
    let (linked, same) = relink-IsChain f c old n h xs rest in
    (
      cons (join f n h) c q p h n xs e ne (ground (arith, same h)) (ground (arith, same h)) out
          (ground arith) (frame c h n xs (λ a i. ground arith) linked),
      λ a o. ground (arith, same a),
    )

pub not-has-erase : (a x : ℕ) (xs : List ℕ) → has a xs ≡ false → has a (erase x xs) ≡ false
unfolding erase
not-has-erase a x [] o = refl
not-has-erase a x (y ∷ xs) o = ground (arith, not-has-erase a x xs)

-- A block behind the first one is taken out of the chain, and nothing outside it changes.
pub unlink-IsChain :
    (f : ℕ → FreeBlock) (c q p x h : ℕ) (xs : List ℕ)
    → IsChain f c q p (h ∷ xs)
    → has x xs ≡ true
    → IsChain (unlink f x) c q p (h ∷ erase x xs) × SameOutside (h ∷ xs) f (unlink f x)
unfolding erase
unlink-IsChain f c q p x h [] all m = cc
unlink-IsChain f c q p x h (y ∷ ys) (e, ne, before, cls, out, rest) m = elim (Bool-cases (x == y)) [
  | inl hit ↦
      let at : x ≡ y = (==_iff x y).0 hit in
      let (_, _, after, _, _, tail) = rest in
      let (chain, same) =
        join-IsChain f c q p h y (f y).next ys e ne before cls (ground arith) tail in
      let joined : join f (f y).next h ≡ unlink f x =
        ap₂ (λ n r. join f n r) (ap (λ z. (f z).next) (sym at)) (rw at (sym after)) in
      let left : ys ≡ erase x (y ∷ ys) = rw hit in
      subst₂ (λ g zs. IsChain g c q p (h ∷ zs) × SameOutside (h ∷ y ∷ ys) f g) joined left
        (chain, λ a o. same a (ground arith))
  | inr miss ↦
      let (chain, same) = unlink-IsChain f c h (f h).next x y ys rest (ground arith) in
      rw miss (
        cons (unlink f x) c q p h (f h).next (y ∷ erase x ys) e ne (ground (arith, same h))
            (ground (arith, same h)) (ground (arith, not-has-erase h x ys)) (ground (arith, same h))
            chain,
        λ a o. same a (ground arith),
      )
]

-- The first block is taken out.
pub tail-IsChain :
    (f : ℕ → FreeBlock) (c p h : ℕ) (xs : List ℕ)
    → IsChain f c null p (h ∷ xs)
    → IsChain (relink f (f h).next null) c null (f h).next xs
      × SameOutside xs f (relink f (f h).next null)
tail-IsChain f c p h xs (e, ne, before, cls, out, rest) =
    relink-IsChain f c h (f h).next null xs rest

-- A new block is put in front.
pub push-IsChain :
    (f : ℕ → FreeBlock) (c p x : ℕ) (xs : List ℕ)
    → x ≢ null
    → has x xs ≡ false
    → IsChain f c null p xs
    → let g = update f x (record { next = p; prev = null; size_class = c }) in
      IsChain (relink g p x) c null x (x ∷ xs) × SameOutside (x ∷ xs) f (relink g p x)
push-IsChain f c p x xs ne out chain =
    let g = update f x (record { next = p; prev = null; size_class = c }) in
    let (linked, same) =
      relink-IsChain g c null p x xs (frame c null p xs (λ a i. ground arith) chain) in
    (
      cons (relink g p x) c null x x p xs refl ne (ground (arith, same x)) (ground (arith, same x))
          out (ground (arith, same x)) linked,
      λ a o. ground (arith, same a),
    )

-- Every block behind the first has a block before it.
pub prev_ne_null :
    (f : ℕ → FreeBlock) (c q p x h : ℕ) (xs : List ℕ)
    → IsChain f c q p (h ∷ xs)
    → has x xs ≡ true
    → (f x).prev ≢ null
prev_ne_null f c q p x h [] all m = cc
prev_ne_null f c q p x h (y ∷ ys) (e, ne, before, cls, out, rest) m = elim (Bool-cases (x == y)) [
  | inl hit ↦ let at : x ≡ y = (==_iff x y).0 hit in rw at (ground arith)
  | inr miss ↦ prev_ne_null f c h (f h).next x y ys rest (ground arith)
]

-- Every block of a chain has the chain's size class.
pub class-IsChain :
    (f : ℕ → FreeBlock) (c q p x : ℕ) (xs : List ℕ)
    → IsChain f c q p xs
    → has x xs ≡ true
    → (f x).size_class ≡ c
class-IsChain f c q p x [] all m = cc
class-IsChain f c q p x (y ∷ ys) (e, ne, before, cls, out, rest) m = elim (Bool-cases (x == y)) [
  | inl hit ↦ let at : x ≡ y = (==_iff x y).0 hit in rw at cls
  | inr miss ↦ class-IsChain f c y (f y).next x ys rest (ground arith)
]

-- The blocks of a chain are distinct: one that is taken out of the list is on it no more.
pub has-erase_self :
    (f : ℕ → FreeBlock) (c q p x : ℕ) (xs : List ℕ)
    → IsChain f c q p xs
    → has x (erase x xs) ≡ false
unfolding erase
has-erase_self f c q p x [] all = refl
has-erase_self f c q p x (y ∷ ys) (e, ne, before, cls, out, rest) = elim (Bool-cases (x == y)) [
  | inl hit ↦ let at : x ≡ y = (==_iff x y).0 hit in rw (hit, at) out
  | inr miss ↦ rw miss (rw (miss, has-erase_self f c y (f y).next x ys rest) refl)
]

pub has-erase_ne : (a x : ℕ) (xs : List ℕ) → a ≢ x → has a (erase x xs) ≡ has a xs
unfolding erase
has-erase_ne a x [] ne = refl
has-erase_ne a x (y ∷ ys) ne = ground (arith, has-erase_ne a x ys)

pub length-erase : (x : ℕ) (xs : List ℕ) → has x xs ≡ true → length xs ≡ suc (length (erase x xs))
unfolding erase
length-erase x [] on = cc
length-erase x (y ∷ ys) on = elim (Bool-cases (x == y)) [
  | inl hit ↦ rw hit refl
  | inr miss ↦
      let later : has x ys ≡ true = ground arith in rw miss (ap suc (length-erase x ys later))
]
