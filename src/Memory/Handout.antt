-- ===== src/Memory/Handout.antt =====
-- What `alloc_raw` of kern/memory.c returns on a well-formed heap.
use native.Mathlib.Nat.{one-le-pow}
use dumboss.Base.{
  ℕ, ◌*◌, ◌^◌, ◌≤◌, ◌<◌, ◌≡◌, ◌⊎◌, refl, ap, ◌∙◌, inl, inr, Bool, true, false, Option, none, some,
  List, [], ◌∷◌, ◌==◌, Bool-cases, get_elem?-out, arith, ltb, ne→==, if◌then◌else◌, Res, ok,
}
use dumboss.Base.Int.{pos}
use dumboss.BitSet.{BitSet}
use dumboss.Memory.{Mem, class_count, page_size, null}
use dumboss.Memory.Alloc.{Buffer, no_buffer, take_block, alloc_raw, smallest_greater_power2}
use dumboss.Memory.Heap.{Holds, block_of}
use dumboss.Memory.Search.{is_free, has_block}
use dumboss.Memory.Choice.{IsChoice, choose_class-IsChoice, power_least}
use dumboss.Memory.Layout.{IsHeap}
use dumboss.Memory.Total.{total}
use dumboss.Memory.Allocate.{HandsOut, take_block-HandsOut}

-- How a call of `alloc_raw` for `count` pages ends. It finds no block, of any size class or, where
-- all of the pages are asked for, of a class of that many pages, and changes nothing; or it hands
-- out `n` pages, as many as asked for, or fewer where that is allowed.
abbrev pub Allocates :
    (pages : ℕ) (m : Mem) (xs : ℕ → List ℕ) (count : ℕ) (exact : Bool) → Res (Buffer × Mem) → Type 0
Allocates pages m xs count exact r =
    ((r ≡ ok (no_buffer, m))
      × ((d : ℕ) → d < class_count → (exact ≡ true → count ≤ 2 ^ d) → xs d ≡ []))
    ⊎ ((m' : Mem) × (begin : ℕ) × (n : ℕ) × (r
          ≡ ok (record { bytes = block_of begin; count = n * page_size }, m'))
        × (0 < n)
        × ((n ≡ count) ⊎ ((exact ≡ false) × (n < count)))
        × HandsOut pages m m' (total xs) begin n)

least :
    (count d : ℕ) (exact : Bool)
    → 0 < count
    → count < 2 ^ 63
    → (exact ≡ true → count ≤ 2 ^ d)
    → (if exact then smallest_greater_power2 count else 0) ≤ d
least count d true positive small enough = power_least count d positive small (enough refl)
least count d false positive small enough = omega arith

module _ {pages : ℕ} {m : Mem} {xs : ℕ → List ℕ} {bs : ℕ → BitSet}
    (heap : IsHeap pages m xs bs) where
  no_list : (c : ℕ) → c < class_count → is_free m.classes c ≡ false → xs c ≡ []
  no_list c low shut = go (xs c) (heap.keeps.holds c low)
    where
      go : (ys : List ℕ) → Holds m c ys → ys ≡ []
      go [] holds = refl
      go (y ∷ ys) (info, e, (first, ne, _, _, _, _)) =
          let free : is_free m.classes c ≡ true = rw (e, first, ne→== y null ne) refl in cc

  some_list :
      (c : ℕ)
      → is_free m.classes c ≡ true
      → (c < class_count) × (begin : ℕ) × (rest : List ℕ) × (xs c ≡ block_of begin ∷ rest)
  some_list c free =
      let (begin, rest, top) = go (xs c) refl (heap.keeps.holds c low) in (low, begin, rest, top)
    where
      low : c < class_count
      low = elim (Bool-cases (ltb c class_count)) [
        | inl lt ↦ ground arith
        | inr ge ↦
            let out = get_elem?-out m.classes c (ground (arith, heap.twelve)) in
            let shut : is_free m.classes c ≡ false = ap has_block out in cc
      ]

      go :
          (ys : List ℕ)
          → xs c ≡ ys
          → Holds m c ys
          → (begin : ℕ) × (rest : List ℕ) × (xs c ≡ block_of begin ∷ rest)
      go [] e (info, known, first) =
          let shut : is_free m.classes c ≡ false = rw (known, first) refl in cc
      go (y ∷ ys) e holds =
          let (begin, at, _, _, _) = heap.layout.blocks c y (rw e (ground arith)) in
          (begin, ys, e ∙ ap (λ z. z ∷ ys) at)

  hands :
      (c n count : ℕ) (exact : Bool)
      → is_free m.classes c ≡ true
      → 0 < n
      → n ≤ 2 ^ c
      → ((n ≡ count) ⊎ ((exact ≡ false) × (n < count)))
      → Allocates pages m xs count exact (take_block m c n)
  hands c n count exact free positive fits why =
      let (low, begin, rest, top) = some_list c free in
      let (m', taken, out) = take_block-HandsOut heap c begin rest n top positive fits in
      inr (m', begin, n, taken, positive, why, out)

  -- `alloc_raw` for 1 to 4096 pages on a well-formed heap fails no assertion. It returns `NULL` and
  -- changes nothing where no list has a block, or, if all of the pages are asked for, no list of a
  -- class of that many pages has one; or it hands out pages, as many as asked for or, if that is
  -- allowed, fewer. They were all marked as free, and are no longer; no other page's mark has
  -- changed, the free memory has become less by just these pages, and the heap is well formed.
  pub alloc_raw-Allocates :
      (count : ℕ) (exact : Bool)
      → 0 < count
      → count ≤ 4096
      → Allocates pages m xs count exact (alloc_raw m (pos count) exact)
  unfolding alloc_raw
  alloc_raw-Allocates count exact positive le =
      let some_pages : (count == 0) ≡ false = ground arith in
      let (o, e, choice) = choose_class-IsChoice m.classes count exact heap.twelve positive le in
      rw (some_pages, e) (go o choice)
    where
      go :
          (o : Option (ℕ × ℕ))
          → IsChoice m.classes count exact o
          → Allocates pages m xs count exact
              (elim o [ none ↦ ok (no_buffer, m) | some (class, n) ↦ take_block m class n ])
      go none nothing = inl (
        refl,
        λ d low enough.
            no_list d low (nothing d (least count d exact positive (omega arith) enough)),
      )
      go (some (c, n)) (free, fits, inl (all, before)) =
          hands c n count exact free (omega arith) fits (inl all)
      go (some (c, n)) (free, fits, inr (partly, whole, fewer, behind)) =
          hands c n count exact free (omega (arith, one-le-pow c 2 (omega arith))) fits
            (inr (partly, fewer))
