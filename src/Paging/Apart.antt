-- ===== src/Paging/Apart.antt =====
-- kern/page_tables.c: tables on pages that the allocator of kern/memory.c has handed out.
use mathlib.Core.Path.{ap₂}
use dumboss.Base.{
  ℕ, ◌+◌, ◌-◌, ◌%◌, ◌^◌, ◌<◌, ◌≡◌, ◌≢◌, refl, sym, ap, ◌∙◌, inl, inr, false, ◌&&◌, ◌==◌, ==_iff,
  ltb, ne→==, if◌then◌else◌, Bool-cases, arith, bit_and, List, [], ◌∷◌, ◌⊎◌, Res, ok, panic,
}
use dumboss.BitSet.{BitSet}
use dumboss.Memory.{Mem, null}
use dumboss.Memory.Address.{kernel_ptr, kernel_ptr-ok, kernel_space_begin}
use dumboss.Memory.Heap.{block_of}
use dumboss.Memory.Total.{total}
use dumboss.Memory.Layout.{IsHeap}
use dumboss.Memory.Serving.{free_bits}
use dumboss.Paging.{Tables, set_entry, pte_address, sign_extend, pte_address_mask, pte_huge_page}
use dumboss.Paging.Walk.{IsPage}
use dumboss.Paging.Map.{Paging}

-- The allocator's heap is well formed, with `left` free pages.
pub record Grows (pages left : ℕ) (s : Paging) : Type 0 where
  pub lists : ℕ → List ℕ
  pub buddies : ℕ → BitSet
  pub heap : IsHeap pages s.memory lists buddies
  pub sum : total lists ≡ left

-- The table stands on a page that is not free, so that its entries are not the header of a free
-- block.
abbrev pub IsApart : Mem → ℕ → Type 0
IsApart m table = (p : ℕ) × (table ≡ block_of p) × (free_bits m p ≡ 0)

-- The tables that the indices lead to, as far as there are any, stand on pages that are not free, and
-- the entries on the way can be read and are not those of huge pages.
abbrev pub HasPath : Mem → Tables → ℕ → List ℕ → Type 0
HasPath m tables table [] = IsApart m table
HasPath m tables table (i ∷ indices) =
    IsApart m table
    × (bit_and (tables table i) pte_huge_page ≡ 0)
    × ((next : ℕ) × (pte_address (tables table i) ≡ ok next)
        × (next ≢ null → HasPath m tables next indices))

pub blank-HasPath :
    (m : Mem) (tables : Tables) (table : ℕ) (indices : List ℕ)
    → IsApart m table
    → ((i : ℕ) → tables table i ≡ 0)
    → HasPath m tables table indices
unfolding pte_address
blank-HasPath m tables table [] apart blank = apart
blank-HasPath m tables table (i ∷ indices) apart blank =
    (apart, rw (blank i) refl, (null, rw (blank i) refl, λ ne. absurd (ne refl)))

-- No page has become free, no entry that was set, of a table whose page is not free, has changed, and
-- what has changed is entries on pages that are not free.
pub record Extends (s s' : Paging) : Type 0 where
  pub not_free : (k : ℕ) → free_bits s.memory k ≡ 0 → free_bits s'.memory k ≡ 0
  pub kept :
      (p i : ℕ)
      → free_bits s.memory p ≡ 0
      → s.tables (block_of p) i ≢ 0
      → s'.tables (block_of p) i ≡ s.tables (block_of p) i
  pub apart : (t i : ℕ) → s'.tables t i ≢ s.tables t i → IsApart s'.memory t

pub Extends-refl : (s : Paging) → Extends s s
Extends-refl s = record {
  not_free = λ k h. h;
  kept = λ p i h ne. refl;
  apart = λ t i ne. absurd (ne refl);
}

pub Extends-trans : {s s1 s2 : Paging} → Extends s s1 → Extends s1 s2 → Extends s s2
Extends-trans {s} {s1} {s2} a b = record {
  not_free = λ k h. b.not_free k (a.not_free k h);
  kept = λ p i h ne.
      let first = a.kept p i h ne in b.kept p i (a.not_free p h) (λ e. ne (sym first ∙ e)) ∙ first;
  apart = λ t i ne. elim (Bool-cases (s2.tables t i == s1.tables t i)) [
    | inl same ↦
        let at = (==_iff (s2.tables t i) (s1.tables t i)).0 same in
        let (p, here, taken) = a.apart t i (λ e. ne (at ∙ e)) in (p, here, b.not_free p taken)
    | inr other ↦ b.apart t i (ground arith)
  ];
}

abbrev value_of : Res ℕ → ℕ
value_of (ok a) = a
value_of _ = 1

kernel_ptr-nonnull : (x : ℕ) → kernel_ptr (sign_extend x) ≢ ok null
unfolding sign_extend kernel_ptr
kernel_ptr-nonnull x e = elim (Bool-cases (ltb (x % 2 ^ 48) (2 ^ 47))) [
  | inl low ↦
      let at : kernel_ptr (sign_extend x) ≡ ok (x % 2 ^ 48 + kernel_space_begin) =
        rw low (kernel_ptr-ok (x % 2 ^ 48) (ground arith)) in
      let same : x % 2 ^ 48 + kernel_space_begin ≡ null = ap value_of (sym at ∙ e) in omega arith
  | inr high ↦
      let outside : ltb (x % 2 ^ 48 + (2 ^ 64 - 2 ^ 48)) kernel_space_begin ≡ false =
        ground arith in
      let fails : kernel_ptr (sign_extend x) ≡ panic = rw (high, outside) refl in
      let same : 1 ≡ null = ap value_of (sym fails ∙ e) in omega arith
]

-- Only an empty entry has the address `NULL`.
pub empty_entry : (e : ℕ) → pte_address e ≡ ok null → e ≡ 0
unfolding pte_address
empty_entry e h = elim (Bool-cases (e == 0)) [
  | inl none ↦ (==_iff e 0).0 none
  | inr some_bits ↦
      absurd (kernel_ptr-nonnull (bit_and e pte_address_mask) (sym (rw some_bits refl) ∙ h))
]

pub block_of-IsPage : (p : ℕ) → p < 2 ^ 35 → IsPage (block_of p)
block_of-IsPage p low = record { low = omega arith; high = omega arith; start = omega arith }

-- Neither a new table nor a write to an empty entry touches an entry that is set.
pub kept_entry :
    (tables : Tables) (page table index entry t i : ℕ)
    → t ≢ page
    → tables table index ≡ 0
    → tables t i ≢ 0
    → set_entry (λ t i. if t == page then 0 else tables t i) table index entry t i ≡ tables t i
kept_entry tables page table index entry t i other empty full =
    elim (Bool-cases (t == table && i == index)) [
      | inl e ↦
          let at : t ≡ table = ground arith in
          let at_index : i ≡ index = ground arith in absurd (full (ap₂ tables at at_index ∙ empty))
      | inr e ↦ rw (e, ne→== t page other) refl
    ]

-- Entries change in the new table and in the one that it is entered into only.
pub changed_table :
    (tables : Tables) (page table index entry t i : ℕ)
    → set_entry (λ t i. if t == page then 0 else tables t i) table index entry t i ≢ tables t i
    → (t ≡ table) ⊎ (t ≡ page)
changed_table tables page table index entry t i ne = elim (Bool-cases (t == table)) [
  | inl e ↦ inl ((==_iff t table).0 e)
  | inr e ↦ elim (Bool-cases (t == page)) [
    | inl f ↦ inr ((==_iff t page).0 f)
    | inr f ↦ absurd (ne (rw (e, f) refl))
  ]
]
