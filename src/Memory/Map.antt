-- ===== src/Memory/Map.antt =====
-- kern/memory.c: the begin of `memory__init`, which keeps the free entries of the loader's memory map.
-- kern/include/bootboot.h: what an entry's size and type are.
use mathlib.Core.Path.{subst}
use mathlib.Core.List.{append-nil}
use dumboss.Base.{
  ℕ, zero, suc, ◌-◌, ◌≡◌, ◌⊎◌, refl, sym, ap, ◌∙◌, inl, inr, Bool, true, false, not, ◌&&◌, List, [],
  ◌∷◌, ◌++◌, ◌==◌, if◌then◌else◌, length, Bool-cases, arith, bit_and,
}
use dumboss.Memory.Entries.{MMapEnt}

-- `MMapEnt_IsFree`, and `MMapEnt_Type(a) == MMAP_FREE`.
abbrev pub is_free_entry : MMapEnt → Bool
is_free_entry it = bit_and it.size 15 == 1

-- `it->size = MMapEnt_Size(it)`
abbrev pub without_type : MMapEnt → MMapEnt
without_type it = record it { size = bit_and it.size 0xffff_ffff_ffff_fff0 }

-- The inner loop of `SLOW_SORT`, of `left` comparisons.
unfoldable pub sort_pass : ℕ → List MMapEnt → List MMapEnt
sort_pass zero mmap = mmap
sort_pass (suc left) [] = []
sort_pass (suc left) (it ∷ []) = it ∷ []
sort_pass (suc left) (it ∷ next ∷ mmap) =
    let swap = not (is_free_entry it) && is_free_entry next in
    let rest = sort_pass left ((if swap then it else next) ∷ mmap) in
    (if swap then next else it) ∷ rest

-- The outer loop, from `right_bound` down to 1.
unfoldable pub slow_sort : ℕ → List MMapEnt → List MMapEnt
unfolding sort_pass
slow_sort zero mmap = mmap
slow_sort (suc right_bound) mmap = slow_sort right_bound (sort_pass (suc right_bound) mmap)

-- The loop that ends at the first entry that is not free.
unfoldable pub free_prefix : List MMapEnt → List MMapEnt
free_prefix [] = []
free_prefix (it ∷ mmap) =
    let rest = free_prefix mmap in if is_free_entry it then without_type it ∷ rest else []

unfoldable pub free_entries : List MMapEnt → List MMapEnt
unfolding slow_sort free_prefix
free_entries mmap = free_prefix (slow_sort (length mmap - 1) mmap)

-- The free entries, in order.
unfoldable pub only_free : List MMapEnt → List MMapEnt
only_free [] = []
only_free (it ∷ mmap) =
    if is_free_entry it then without_type it ∷ only_free mmap else only_free mmap

abbrev All : Bool → List MMapEnt → Type 0
All b [] = Unit
All b (it ∷ mmap) = (is_free_entry it ≡ b) × All b mmap

abbrev IsSorted : List MMapEnt → Type 0
IsSorted [] = Unit
IsSorted (it ∷ mmap) = ((is_free_entry it ≡ true) × IsSorted mmap) ⊎ All false (it ∷ mmap)

only_free-sort_pass : (k : ℕ) (mmap : List MMapEnt) → only_free (sort_pass k mmap) ≡ only_free mmap
unfolding sort_pass only_free
only_free-sort_pass zero mmap = refl
only_free-sort_pass (suc k) [] = refl
only_free-sort_pass (suc k) (it ∷ []) = refl
only_free-sort_pass (suc k) (it ∷ next ∷ mmap) =
    ground (arith, only_free-sort_pass k (it ∷ mmap), only_free-sort_pass k (next ∷ mmap))

sort_pass-IsSorted : (k : ℕ) (mmap : List MMapEnt) → IsSorted mmap → sort_pass k mmap ≡ mmap
unfolding sort_pass
sort_pass-IsSorted zero mmap sorted = refl
sort_pass-IsSorted (suc k) [] sorted = refl
sort_pass-IsSorted (suc k) (it ∷ []) sorted = refl
sort_pass-IsSorted (suc k) (it ∷ next ∷ mmap) (inl (free, sorted)) =
    rw free (ap (λ z. it ∷ z) (sort_pass-IsSorted k (next ∷ mmap) sorted))
sort_pass-IsSorted (suc k) (it ∷ next ∷ mmap) (inr (used, rest)) =
    rw (used, rest.0) (ap (λ z. it ∷ z) (sort_pass-IsSorted k (next ∷ mmap) (inr rest)))

IsSorted-slow_sort : (r : ℕ) (mmap : List MMapEnt) → IsSorted mmap → IsSorted (slow_sort r mmap)
unfolding slow_sort
IsSorted-slow_sort zero mmap sorted = sorted
IsSorted-slow_sort (suc r) mmap sorted =
    rw (sort_pass-IsSorted (suc r) mmap sorted) (IsSorted-slow_sort r mmap sorted)

IsSorted-append : (a b : List MMapEnt) → All true a → All false b → IsSorted (a ++ b)
IsSorted-append [] [] free used = tt
IsSorted-append [] (it ∷ b) free used = inr used
IsSorted-append (it ∷ a) b (first, free) used = inl (first, IsSorted-append a b free used)

-- A pass over `a` in front of used entries finds all of `a` free, or puts a used entry behind it.
pass :
    (k : ℕ) (a b : List MMapEnt)
    → length a ≡ suc k
    → (All true a)
      ⊎ ((c : List MMapEnt) × (z : MMapEnt) × (length c ≡ k)
          × (is_free_entry z ≡ false)
          × (sort_pass k (a ++ b) ≡ c ++ (z ∷ b)))
unfolding sort_pass
pass k [] b e = cc
pass zero (it ∷ []) b e = elim (Bool-cases (is_free_entry it)) [
  | inl free ↦ inl (free, tt)
  | inr used ↦ inr ([], it, refl, used, refl)
]
pass zero (it ∷ next ∷ a) b e = absurd (omega arith)
pass (suc k) (it ∷ []) b e = absurd (omega arith)
pass (suc k) (it ∷ next ∷ a) b e =
    elim (Bool-cases (not (is_free_entry it) && is_free_entry next)) [
      | inl swaps ↦ elim (pass k (it ∷ a) b (omega arith)) [
        | inl free ↦ absurd (ground arith)
        | inr (c, z, count, used, result) ↦
            inr (next ∷ c, z, omega arith, used, rw swaps (ap (λ l. next ∷ l) result))
      ]
      | inr stays ↦ elim (pass k (next ∷ a) b (omega arith)) [
        | inl free ↦ inl (ground arith, free)
        | inr (c, z, count, used, result) ↦
            inr (it ∷ c, z, omega arith, used, rw stays (ap (λ l. it ∷ l) result))
      ]
    ]

slow_sort-IsSorted :
    (r : ℕ) (a b : List MMapEnt) → length a ≡ suc r → All false b → IsSorted (slow_sort r (a ++ b))
unfolding slow_sort
slow_sort-IsSorted r [] b e used = cc
slow_sort-IsSorted zero (it ∷ []) b e used = elim (Bool-cases (is_free_entry it)) [
  | inl free ↦ inl (free, IsSorted-append [] b tt used)
  | inr not_free ↦ inr (not_free, used)
]
slow_sort-IsSorted zero (it ∷ next ∷ a) b e used = absurd (omega arith)
slow_sort-IsSorted (suc r) (it ∷ a) b e used = elim (pass (suc r) (it ∷ a) b e) [
  | inl free ↦ IsSorted-slow_sort (suc r) (it ∷ a ++ b) (IsSorted-append (it ∷ a) b free used)
  | inr (c, z, count, not_free, result) ↦
      rw result (slow_sort-IsSorted r c (z ∷ b) count (not_free, used))
]

only_free-slow_sort : (r : ℕ) (mmap : List MMapEnt) → only_free (slow_sort r mmap) ≡ only_free mmap
unfolding slow_sort
only_free-slow_sort zero mmap = refl
only_free-slow_sort (suc r) mmap =
    only_free-slow_sort r (sort_pass (suc r) mmap) ∙ only_free-sort_pass (suc r) mmap

only_free-used : (mmap : List MMapEnt) → All false mmap → only_free mmap ≡ []
unfolding only_free
only_free-used [] used = refl
only_free-used (it ∷ mmap) (first, used) = rw first (only_free-used mmap used)

free_prefix-IsSorted : (mmap : List MMapEnt) → IsSorted mmap → free_prefix mmap ≡ only_free mmap
unfolding free_prefix only_free
free_prefix-IsSorted [] sorted = refl
free_prefix-IsSorted (it ∷ mmap) (inl (free, sorted)) =
    rw free (ap (λ z. without_type it ∷ z) (free_prefix-IsSorted mmap sorted))
free_prefix-IsSorted (it ∷ mmap) (inr (first, used)) = rw first (sym (only_free-used mmap used))

-- The sort of `memory__init` and the loop behind it keep just the free entries of the memory map, in
-- their order, with the type taken off their sizes.
pub free_entries-only_free : (mmap : List MMapEnt) → free_entries mmap ≡ only_free mmap
unfolding free_entries
free_entries-only_free mmap =
    free_prefix-IsSorted (slow_sort (length mmap - 1) mmap) (sorted mmap)
    ∙ only_free-slow_sort (length mmap - 1) mmap
  where
    sorted : (mmap : List MMapEnt) → IsSorted (slow_sort (length mmap - 1) mmap)
    sorted [] = tt
    sorted (it ∷ mmap) =
        let count : length mmap ≡ length (it ∷ mmap) - 1 = omega arith in
        rw (← count) (
          subst (λ z. IsSorted (slow_sort (length mmap) z)) (append-nil (it ∷ mmap))
            (slow_sort-IsSorted (length mmap) (it ∷ mmap) [] refl tt))
