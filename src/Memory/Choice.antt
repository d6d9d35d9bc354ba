-- ===== src/Memory/Choice.antt =====
-- Which block `alloc_raw` of kern/memory.c takes: the search over the size classes, and where it fails.
use native.Mathlib.Nat.{pow-le-pow_right, pow-suc}
use dumboss.Base.{
  ℕ, suc, ◌*◌, ◌^◌, ◌≤◌, ◌<◌, ◌≡◌, ◌⊎◌, refl, inl, inr, Bool, true, false, Option, none, some, List,
  length, get_elem?-out, ◌==◌, leb, if◌then◌else◌, Bool-cases, arith, ok, fault, ◌>>=◌,
}
use dumboss.Base.Int.{pos}
use dumboss.Memory.{Mem, ClassInfo, class_count}
use dumboss.Memory.Alloc.{
  first_class, last_class, choose_class, alloc_raw, no_buffer, smallest_greater_power2,
}
use dumboss.Memory.Power.{smallest_greater_power2-bounds}
use dumboss.Memory.Search.{is_free, IsFirst, IsLast, first_class-IsFirst, last_class-IsLast}

-- A block of size class `c` has `n` pages or more. They are all that is asked for, and no smaller
-- class that has as many has a block; or they are the whole block, fewer than asked for, where that
-- is allowed and no larger class has a block.
abbrev pub IsChoice : List ClassInfo → ℕ → Bool → Option (ℕ × ℕ) → Type 0
IsChoice classes count exact none =
    (d : ℕ) → (if exact then smallest_greater_power2 count else 0) ≤ d → is_free classes d ≡ false
IsChoice classes count exact (some (c, n)) =
    (is_free classes c ≡ true)
    × (n ≤ 2 ^ c)
    × (((n ≡ count) × ((d : ℕ) → count ≤ 2 ^ d → d < c → is_free classes d ≡ false))
        ⊎ ((exact ≡ false)
            × (n ≡ 2 ^ c)
            × (n < count)
            × ((d : ℕ) → c < d → is_free classes d ≡ false)))

two_pow_le : (a b : ℕ) → a ≤ b → 2 ^ a ≤ 2 ^ b
two_pow_le a b le = pow-le-pow_right (omega arith) le

lt_of_pow-lt : (a b : ℕ) → 2 ^ a < 2 ^ b → a < b
lt_of_pow-lt a b lt = elim (Bool-cases (leb b a)) [
  | inl le ↦ absurd (omega (arith, two_pow_le b a (ground (arith, le))))
  | inr gt ↦ ground (arith, gt)
]

power_small : (count : ℕ) → 0 < count → count ≤ 4096 → smallest_greater_power2 count ≤ class_count
power_small count positive le =
    let (up, down) = smallest_greater_power2-bounds count positive (omega arith) in
    let lt = lt_of_pow-lt (smallest_greater_power2 count) 13 (omega arith) in omega arith

-- No class below the one that the count rounds up to has as many pages.
pub power_least :
    (count d : ℕ) → 0 < count → count < 2 ^ 63 → count ≤ 2 ^ d → smallest_greater_power2 count ≤ d
power_least count d positive small le =
    let (up, down) = smallest_greater_power2-bounds count positive small in
    let next : 2 ^ suc d ≡ 2 ^ d * 2 = pow-suc 2 d in
    let lt = lt_of_pow-lt (smallest_greater_power2 count) (suc d) (omega arith) in omega arith

module _ (classes : List ClassInfo) (count r : ℕ) (up : count ≤ 2 ^ r)
    (down : 2 ^ r < 2 * count) where
  -- The search downwards, behind one upwards that has found nothing.
  chosen_below :
      (o : Option ℕ)
      → IsFirst classes r none
      → IsLast classes r o
      → r ≡ smallest_greater_power2 count
      → (chosen : Option (ℕ × ℕ)) × ((elim o [ some it ↦ ok (some (it, 2 ^ it)) | none ↦ ok none ])
          ≡ ok chosen)
        × IsChoice classes count false chosen
  chosen_below none first last at = (none, refl, λ d le. nowhere d)
    where
      nowhere : (d : ℕ) → is_free classes d ≡ false
      nowhere d = elim (Bool-cases (leb r d)) [
        | inl above ↦ first d (ground (arith, above))
        | inr below ↦ last d (ground (arith, below))
      ]
  chosen_below (some it) first (lt, free, last) at =
      let bound = two_pow_le (suc it) r (omega arith) in
      let twice = pow-suc 2 it in
      (some (it, 2 ^ it), refl, (free, omega arith, inr (refl, refl, omega arith, behind)))
    where
      behind : (d : ℕ) → it < d → is_free classes d ≡ false
      behind d lo = elim (Bool-cases (leb r d)) [
        | inl above ↦ first d (ground (arith, above))
        | inr below ↦ last d lo (ground (arith, below))
      ]

-- The search of `alloc_raw` among its twelve classes, for at least one page and at most 4096, ends
-- inside the array and with such a choice; it finds none only where no class from the one that the
-- count rounds up to has a block, and, where fewer pages will do, no class at all.
pub choose_class-IsChoice :
    (classes : List ClassInfo) (count : ℕ) (exact : Bool)
    → length classes ≡ class_count
    → 0 < count
    → count ≤ 4096
    → (o : Option (ℕ × ℕ)) × (choose_class classes count exact ≡ ok o)
      × IsChoice classes count exact o
unfolding choose_class
choose_class-IsChoice classes count exact twelve positive le =
    let r = smallest_greater_power2 count in
    let (up, down) = smallest_greater_power2-bounds count positive (omega arith) in
    let small = power_small count positive le in
    let (o, e, first) = first_class-IsFirst classes 13 r twelve small (omega arith) in
    rw e (go o exact first)
  where
    go :
        (o : Option ℕ) (exact : Bool)
        → IsFirst classes (smallest_greater_power2 count) o
        → (chosen : Option (ℕ × ℕ)) × ((elim o [
          | some class ↦ ok (some (class, count))
          | none ↦ if exact then ok none else do
            smaller ← last_class classes (smallest_greater_power2 count)
            elim smaller [ some it ↦ ok (some (it, 2 ^ it)) | none ↦ ok none ]
        ])
            ≡ ok chosen)
          × IsChoice classes count exact chosen
    go (some c) exact (lo, free, before) =
        let (up, down) = smallest_greater_power2-bounds count positive (omega arith) in
        let enough = two_pow_le (smallest_greater_power2 count) c lo in
        (
          some (c, count),
          refl,
          (
            free,
            omega arith,
            inl (refl, λ d fits. before d (power_least count d positive (omega arith) fits)),
          ),
        )
    go none true first = (none, refl, first)
    go none false first =
        let (up, down) = smallest_greater_power2-bounds count positive (omega arith) in
        let small = power_small count positive le in
        let (o, e, last) =
          last_class-IsLast classes (smallest_greater_power2 count) (omega arith) in
        rw e (chosen_below classes count (smallest_greater_power2 count) up down o first last refl)

-- `alloc_raw` for a positive number of pages up to 4096, where all of them are asked for and no
-- class that has as many has a block, returns `NULL` and changes nothing.
pub alloc_raw-no_buffer :
    (m : Mem) (count : ℕ)
    → length m.classes ≡ class_count
    → 0 < count
    → count ≤ 4096
    → ((d : ℕ) → count ≤ 2 ^ d → is_free m.classes d ≡ false)
    → alloc_raw m (pos count) true ≡ ok (no_buffer, m)
unfolding alloc_raw choose_class
alloc_raw-no_buffer m count twelve positive le nothing =
    let (up, down) = smallest_greater_power2-bounds count positive (omega arith) in
    let (o, e, choice) = choose_class-IsChoice m.classes count true twelve positive le in
    let some_pages : (count == 0) ≡ false = ground arith in
    let none_chosen = refused o choice in rw (some_pages, e, none_chosen)
  where
    refused : (o : Option (ℕ × ℕ)) → IsChoice m.classes count true o → o ≡ none
    refused none choice = refl
    refused (some (c, n)) (free, fits, inl (all, before)) = let shut = nothing c (omega arith) in cc
    refused (some (c, n)) (free, fits, inr (partly, whole, fewer, behind)) = cc

-- `alloc_raw` for more than 4096 pages reads past its twelve classes: its loop over the classes
-- from the one that the count rounds up to ends at the twelfth only.
pub alloc_raw-fault :
    (m : Mem) (count : ℕ) (exact : Bool)
    → length m.classes ≡ class_count
    → 4096 < count
    → count < 2 ^ 63
    → alloc_raw m (pos count) exact ≡ fault
unfolding alloc_raw choose_class first_class
alloc_raw-fault m count exact twelve many small =
    let (up, down) = smallest_greater_power2-bounds count (omega arith) small in
    let r = smallest_greater_power2 count in
    let past = lt_of_pow-lt 12 r (omega arith) in
    let some_pages : (count == 0) ≡ false = ground arith in
    let not_end : (r == class_count) ≡ false = ground (arith, past) in
    let out = get_elem?-out m.classes r (omega arith) in rw (some_pages, not_end, out)
