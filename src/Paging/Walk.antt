-- ===== src/Paging/Walk.antt =====
-- `map_page` of kern/page_tables.c against `translate`, where the tables of the address exist.
use dumboss.Base.{
  ℕ, zero, suc, ◌+◌, ◌/◌, ◌%◌, ◌^◌, ◌≤◌, ◌<◌, ◌≡◌, ◌≢◌, refl, inl, inr, true, ◌&&◌, ◌==◌, ==_refl,
  ne→==, if◌then◌else◌, Bool-cases, arith, bit_and, Res, ok, panic, fault, ◌>>=◌,
}
use dumboss.Memory.{null, page_size}
use dumboss.Memory.Address.{kernel_space_begin}
use dumboss.Paging.{
  Tables, set_entry, page_table_indices, make_pte, pte_address, pte_huge_page, translate,
}
use dumboss.Paging.Entry.{IsFlags, pte_address-make_pte}
use dumboss.Paging.Map.{Paging, descend, map_page}

-- The tables of the address are `p3`, `p2` and `p1`.
pub record Walk (tables : Tables) (p4 virtual p3 p2 p1 : ℕ) : Type 0 where
  pub third : pte_address (tables p4 (page_table_indices virtual).p4) ≡ ok p3
  pub second : pte_address (tables p3 (page_table_indices virtual).p3) ≡ ok p2
  pub first : pte_address (tables p2 (page_table_indices virtual).p2) ≡ ok p1
  pub third_ne : p3 ≢ null
  pub second_ne : p2 ≢ null
  pub first_ne : p1 ≢ null
  pub small : bit_and (tables p2 (page_table_indices virtual).p2) pte_huge_page ≡ 0

-- A pointer in the kernel's half to the start of a page.
pub record IsPage (p : ℕ) : Type 0 where
  pub low : kernel_space_begin ≤ p
  pub high : p < 2 ^ 64
  pub start : p % page_size ≡ 0

pub entry-ne-zero : (entry p : ℕ) → pte_address entry ≡ ok p → p ≢ null → entry ≢ 0
unfolding pte_address
entry-ne-zero zero p e ne = λ h. ne (null_of e)
  where
    null_of : ok null ≡ ok p → p ≡ null
    null_of h = cc
entry-ne-zero (suc entry) p e ne = λ h. absurd (omega arith)

ok_of_bind :
    (r : Res ℕ) (f : ℕ → Res ℕ) (p : ℕ) → (r >>= f) ≡ ok p → (e : ℕ) × (r ≡ ok e) × (f e ≡ ok p)
ok_of_bind (ok e) f p h = (e, refl, h)
ok_of_bind panic f p h = cc
ok_of_bind fault f p h = cc

pub make_pte-ok :
    (p flags : ℕ)
    → IsPage p
    → IsFlags flags
    → (e : ℕ) × (make_pte p flags ≡ ok e) × (pte_address e ≡ ok p)
make_pte-ok p flags page f =
    ok_of_bind (make_pte p flags) pte_address p
      (pte_address-make_pte p flags page.low page.high page.start f)

-- A write over an entry that was 0 spares every entry that is not.
set_entry-spares :
    (tables : Tables) (table index entry t i : ℕ)
    → tables table index ≡ 0
    → tables t i ≢ 0
    → set_entry tables table index entry t i ≡ tables t i
set_entry-spares tables table index entry t i empty full =
    elim (Bool-cases (t == table && i == index)) [
      | inr other ↦ rw other
      | inl hit ↦
          let at : t ≡ table = ground (arith, hit) in
          let pos_at : i ≡ index = ground (arith, hit) in absurd (full (rw (at, pos_at) empty))
    ]

-- The addresses of one page share their tables.
indices-offset :
    (virtual offset : ℕ)
    → virtual % page_size ≡ 0
    → offset < page_size
    → page_table_indices (virtual + offset) ≡ record (page_table_indices virtual) { p0 = offset }
unfolding page_table_indices
indices-offset virtual offset start lt =
    let same : (virtual + offset) / 2 ^ 12 ≡ virtual / 2 ^ 12 = omega arith in
    let low : (virtual + offset) % page_size ≡ offset = omega arith in rw (same, low)

translate-Walk :
    (tables : Tables) (p4 virtual offset p3 p2 p1 frame : ℕ)
    → p4 ≢ null
    → virtual % page_size ≡ 0
    → offset < page_size
    → Walk tables p4 virtual p3 p2 p1
    → pte_address (tables p1 (page_table_indices virtual).p1) ≡ ok frame
    → translate tables p4 (virtual + offset) ≡ ok ((frame + offset) % 2 ^ 64)
unfolding translate
translate-Walk tables p4 virtual offset p3 p2 p1 frame ne start lt w e = rw (
  indices-offset virtual offset start lt,
  ne→== p4 null ne,
  w.third,
  ne→== p3 null w.third_ne,
  w.second,
  ne→== p2 null w.second_ne,
  w.first,
  ne→== p1 null w.first_ne,
  w.small,
  e,
)

pub descend-there :
    (s : Paging) (table index flags next : ℕ)
    → pte_address (s.tables table index) ≡ ok next
    → next ≢ null
    → descend s table index flags ≡ ok (next, s)
unfolding descend
descend-there s table index flags next e ne = rw (e, ne→== next null ne)

-- The tables of an address are still there when an entry that was 0 is written.
Walk-set_entry :
    {tables : Tables} {p4 virtual p3 p2 p1 : ℕ} (table index entry : ℕ)
    → tables table index ≡ 0
    → Walk tables p4 virtual p3 p2 p1
    → Walk (set_entry tables table index entry) p4 virtual p3 p2 p1
Walk-set_entry {tables} {p4} {virtual} {p3} {p2} {p1} table index entry empty w =
    let i = page_table_indices virtual in
    let spares = λ (t k p : ℕ) (e : pte_address (tables t k) ≡ ok p) (ne : p ≢ null).
      set_entry-spares tables table index entry t k empty (entry-ne-zero (tables t k) p e ne) in
    record {
      third = rw (spares p4 i.p4 p3 w.third w.third_ne) w.third;
      second = rw (spares p3 i.p3 p2 w.second w.second_ne) w.second;
      first = rw (spares p2 i.p2 p1 w.first w.first_ne) w.first;
      third_ne = w.third_ne;
      second_ne = w.second_ne;
      first_ne = w.first_ne;
      small = rw (spares p2 i.p2 p1 w.first w.first_ne) w.small;
    }

module _ (s : Paging) (p4 virtual kernel flags p3 p2 p1 : ℕ) (p4_ne : p4 ≢ null)
    (p4_start : p4 % page_size ≡ 0) (kernel_page : IsPage kernel) (virtual_ne : virtual ≢ 0)
    (virtual_start : virtual % page_size ≡ 0) (walk : Walk s.tables p4 virtual p3 p2 p1) where
  -- Where the tables of the address exist and the page is not mapped, `map_page` on aligned
  -- addresses, with flags that stand outside the address bits, succeeds without a new table. Then
  -- every address of the page translates to the byte of the kernel's page at the same offset, and
  -- no entry has changed but the one of the page.
  pub map_page-translate :
      (offset : ℕ)
      → offset < page_size
      → IsFlags flags
      → s.tables p1 (page_table_indices virtual).p1 ≡ 0
      → (s' : Paging) × (map_page s p4 virtual kernel flags ≡ ok (true, s'))
        × (translate s'.tables p4 (virtual + offset) ≡ ok (kernel + offset))
        × (s'.memory ≡ s.memory)
        × ((t k : ℕ)
            → s'.tables t k ≡ (
                if t == p1 && k == (page_table_indices virtual).p1
                then s'.tables p1 (page_table_indices virtual).p1
                else s.tables t k))
  unfolding map_page
  map_page-translate offset lt f empty =
      let i = page_table_indices virtual in
      let (entry, made, back) = make_pte-ok kernel flags kernel_page f in
      let kernel_ne : kernel ≢ null = omega (arith, kernel_page.low) in
      let wrap : (kernel + offset) % 2 ^ 64 ≡ kernel + offset =
        omega (arith, kernel_page.high, kernel_page.start) in
      let new = set_entry s.tables p1 i.p1 entry in
      let at : new p1 i.p1 ≡ entry = rw (==_refl p1, ==_refl i.p1) in
      let after = Walk-set_entry p1 i.p1 entry empty walk in
      let reached : pte_address (new p1 i.p1) ≡ ok kernel = rw at back in
      let result =
        translate-Walk new p4 virtual offset p3 p2 p1 kernel p4_ne virtual_start lt after reached in
      (
        record s { tables = new },
        rw (
          ne→== p4 null p4_ne,
          p4_start,
          ne→== kernel null kernel_ne,
          kernel_page.start,
          ne→== virtual 0 virtual_ne,
          virtual_start,
          descend-there s p4 i.p4 flags p3 walk.third walk.third_ne,
          ne→== p3 null walk.third_ne,
          descend-there s p3 i.p3 flags p2 walk.second walk.second_ne,
          ne→== p2 null walk.second_ne,
          descend-there s p2 i.p2 flags p1 walk.first walk.first_ne,
          ne→== p1 null walk.first_ne,
          empty,
          made,
        ),
        rw wrap at result,
        refl,
        λ t k. rw (==_refl p1, ==_refl i.p1),
      )
