-- ===== src/Memory/Search.antt =====
-- The two searches of `alloc_raw` in kern/memory.c for a size class with a free block.
use dumboss.Base.{
  ℕ, zero, suc, ◌+◌, ◌≤◌, ◌<◌, ◌≡◌, refl, inl, inr, Bool, true, false, not, Option, none, some,
  List, length, get_elem?, get_elem?-in, get_elem?-out, ◌==◌, Bool-cases, arith, ok,
}
use dumboss.Memory.{ClassInfo, class_count, null}
use dumboss.Memory.Alloc.{first_class, last_class}

-- A size class, if there is one, has a free block.
abbrev pub has_block : Option ClassInfo → Bool
has_block none = false
has_block (some info) = not (info.freelist == null)

abbrev pub is_free : List ClassInfo → ℕ → Bool
is_free classes c = has_block (get_elem? classes c)

-- The first class with a free block, from `from` on.
abbrev pub IsFirst : List ClassInfo → ℕ → Option ℕ → Type 0
IsFirst classes from none = (d : ℕ) → from ≤ d → is_free classes d ≡ false
IsFirst classes from (some c) =
    (from ≤ c)
    × (is_free classes c ≡ true)
    × ((d : ℕ) → from ≤ d → d < c → is_free classes d ≡ false)

-- The last class with a free block, below `to`.
abbrev pub IsLast : List ClassInfo → ℕ → Option ℕ → Type 0
IsLast classes to none = (d : ℕ) → d < to → is_free classes d ≡ false
IsLast classes to (some c) =
    (c < to) × (is_free classes c ≡ true) × ((d : ℕ) → c < d → d < to → is_free classes d ≡ false)

module _ (classes : List ClassInfo) where
  IsFirst-next :
      (from : ℕ) (o : Option ℕ)
      → is_free classes from ≡ false
      → IsFirst classes (from + 1) o
      → IsFirst classes from o
  IsFirst-next from none here later = λ d le. elim (Bool-cases (d == from)) [
    | inl at ↦ let same : d ≡ from = ground arith in rw same here
    | inr apart ↦ later d (ground arith)
  ]
  IsFirst-next from (some c) here (le, free, before) = (omega arith, free, go)
    where
      go : (d : ℕ) → from ≤ d → d < c → is_free classes d ≡ false
      go d lo hi = elim (Bool-cases (d == from)) [
        | inl at ↦ let same : d ≡ from = ground arith in rw same here
        | inr apart ↦ before d (ground arith) hi
      ]

  IsLast-next :
      (it : ℕ) (o : Option ℕ)
      → is_free classes it ≡ false
      → IsLast classes it o
      → IsLast classes (suc it) o
  IsLast-next it none here earlier = λ d lt. elim (Bool-cases (d == it)) [
    | inl at ↦ let same : d ≡ it = ground arith in rw same here
    | inr apart ↦ earlier d (ground arith)
  ]
  IsLast-next it (some c) here (lt, free, behind) = (omega arith, free, go)
    where
      go : (d : ℕ) → c < d → d < suc it → is_free classes d ≡ false
      go d lo hi = elim (Bool-cases (d == it)) [
        | inl at ↦ let same : d ≡ it = ground arith in rw same here
        | inr apart ↦ behind d lo (ground arith)
      ]

  pub first_class-IsFirst :
      (fuel current : ℕ)
      → length classes ≡ class_count
      → current ≤ class_count
      → class_count < current + fuel
      → (o : Option ℕ) × (first_class fuel classes current ≡ ok o) × IsFirst classes current o
  unfolding first_class
  first_class-IsFirst zero current twelve le enough = absurd (omega arith)
  first_class-IsFirst (suc fuel) current twelve le enough =
      elim (Bool-cases (current == class_count)) [
        | inl end ↦ rw end (none, refl, λ d lo. rw (get_elem?-out classes d (ground (arith, end))))
        | inr inside ↦
            let (info, e) = get_elem?-in classes current (ground (arith, inside)) in
            elim (Bool-cases (info.freelist == null)) [
              | inl empty ↦
                  let (o, r, first) =
                    first_class-IsFirst fuel (current + 1) twelve (ground (arith, inside))
                      (omega arith) in
                  rw (inside, e, empty) (o, r, IsFirst-next current o (rw (e, empty)) first)
              | inr full ↦
                  rw (inside, e, full)
                    (
                      some current,
                      refl,
                      (omega arith, rw (e, full), λ d lo hi. absurd (omega arith)),
                    )
            ]
      ]

  pub last_class-IsLast :
      (it : ℕ)
      → it ≤ length classes
      → (o : Option ℕ) × (last_class classes it ≡ ok o) × IsLast classes it o
  unfolding last_class
  last_class-IsLast zero le = (none, refl, λ d lt. absurd (omega arith))
  last_class-IsLast (suc it) le =
      let (info, e) = get_elem?-in classes it (omega arith) in
      elim (Bool-cases (info.freelist == null)) [
        | inl empty ↦
            let (o, r, last) = last_class-IsLast it (omega arith) in
            rw (e, empty) (o, r, IsLast-next it o (rw (e, empty)) last)
        | inr full ↦
            rw (e, full)
              (some it, refl, (omega arith, rw (e, full), λ d lo hi. absurd (omega arith)))
      ]
