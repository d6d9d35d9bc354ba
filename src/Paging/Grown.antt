-- ===== src/Paging/Grown.antt =====
-- `map_page` of kern/page_tables.c against `translate`, with new tables from the page allocator.
use mathlib.Core.Path.{subst}
use dumboss.Base.{
  ℕ, ◌+◌, ◌%◌, ◌≤◌, ◌<◌, ◌≡◌, ◌≢◌, refl, sym, ap, ◌∙◌, inl, inr, true, ne→==, arith, bit_and, List,
  [], ◌∷◌, Res, ok,
}
use dumboss.Memory.{Mem, null, page_size}
use dumboss.Paging.{Tables, page_table_indices, pte_address, pte_huge_page, translate}
use dumboss.Paging.Entry.{IsFlags}
use dumboss.Paging.Map.{Paging, descend, map_page}
use dumboss.Paging.Walk.{IsPage, Walk, entry-ne-zero, descend-there, map_page-translate}
use dumboss.Paging.Apart.{Grows, IsApart, HasPath, Extends, Extends-trans}
use dumboss.Paging.Descend.{descend-Descends}

-- The indices lead to no table, or to one whose entry `last` is empty.
abbrev pub IsUnmapped : Tables → ℕ → List ℕ → ℕ → Type 0
IsUnmapped tables table [] last = tables table last ≡ 0
IsUnmapped tables table (i ∷ indices) last =
    (next : ℕ)
    → pte_address (tables table i) ≡ ok next
    → next ≢ null
    → IsUnmapped tables next indices last

blank-IsUnmapped :
    (tables : Tables) (table : ℕ) (indices : List ℕ) (last : ℕ)
    → ((i : ℕ) → tables table i ≡ 0)
    → IsUnmapped tables table indices last
blank-IsUnmapped tables table [] last blank = blank last
blank-IsUnmapped tables table (i ∷ indices) last blank =
    λ next e ne. absurd (entry-ne-zero (tables table i) next e ne (blank i))

-- A step down where a page is free: a table that leads on, which the entry leads to.
abbrev Steps :
    (pages left : ℕ) (s : Paging) (table index : ℕ) (indices : List ℕ) (last : ℕ)
    → Res (ℕ × Paging)
    → Type 0
Steps pages left s table index indices last r =
    (a : ℕ) × (s' : Paging) × (left' : ℕ) × (r ≡ ok (a, s'))
    × Grows pages left' s'
    × Extends s s'
    × (left ≤ left' + 1)
    × (a ≢ null)
    × HasPath s'.memory s'.tables a indices
    × (pte_address (s'.tables table index) ≡ ok a)
    × (bit_and (s'.tables table index) pte_huge_page ≡ 0)
    × IsUnmapped s'.tables a indices last

step :
    {pages left : ℕ} {s : Paging} (table index : ℕ) (indices : List ℕ) (last flags : ℕ)
    → Grows pages left s
    → 0 < left
    → IsFlags flags
    → bit_and flags pte_huge_page ≡ 0
    → HasPath s.memory s.tables table (index ∷ indices)
    → IsUnmapped s.tables table (index ∷ indices) last
    → Steps pages left s table index indices last (descend s table index flags)
step {s = s} table index indices last flags grows some_left f no_huge path unmapped =
    let (a, s', left', done, grows', extends, fewer, enough, next, found) =
      descend-Descends grows table index indices path flags f in
    elim found [
      | inl (none_there, none_left) ↦ absurd (omega arith)
      | inr (ne, reads, small, was) ↦ (
        a,
        s',
        left',
        done,
        grows',
        extends,
        enough,
        ne,
        next ne,
        reads,
        small no_huge,
        elim was [
          | inl same ↦
              let before = subst (λ z. pte_address (z.tables table index) ≡ ok a) same reads in
              subst (λ z. IsUnmapped z.tables a indices last) (sym same) (unmapped a before ne)
          | inr blank ↦ blank-IsUnmapped s'.tables a indices last blank
        ],
      )
    ]

-- What a table on a page that is not free leads to, it still leads to behind later steps.
kept_entry :
    {s s' : Paging} (t i a : ℕ)
    → IsApart s.memory t
    → Extends s s'
    → pte_address (s.tables t i) ≡ ok a
    → a ≢ null
    → s'.tables t i ≡ s.tables t i
kept_entry {s} {s'} t i a (p, at, taken) extends reads ne =
    let full = entry-ne-zero (s.tables t i) a reads ne in
    let here = extends.kept p i taken (λ e. full (ap (λ z. s.tables z i) at ∙ e)) in
    ap (λ z. s'.tables z i) at ∙ (here ∙ ap (λ z. s.tables z i) (sym at))

IsApart-later : {s s' : Paging} (t : ℕ) → Extends s s' → IsApart s.memory t → IsApart s'.memory t
IsApart-later t extends (p, at, taken) = (p, at, extends.not_free p taken)

-- The tables of an address, and the state with them.
record Reached (pages : ℕ) (s : Paging) (p4 virtual kernel flags : ℕ) : Type 0 where
  p3 : ℕ
  p2 : ℕ
  p1 : ℕ
  there : Paging
  walk : Walk there.tables p4 virtual p3 p2 p1
  empty : there.tables p1 (page_table_indices virtual).p1 ≡ 0
  same : map_page s p4 virtual kernel flags ≡ map_page there p4 virtual kernel flags

IsApart-start : (m : Mem) (t : ℕ) → IsApart m t → (t ≢ null) × (t % page_size ≡ 0)
IsApart-start m t (p, at, taken) = (omega arith, omega arith)

-- What follows the steps down is the same where the tables are there already.
map_page-there :
    (s s3 s2 s1 : Paging) (p4 virtual kernel flags p3 p2 p1 : ℕ)
    → p4 ≢ null
    → p4 % page_size ≡ 0
    → IsPage kernel
    → virtual ≢ 0
    → virtual % page_size ≡ 0
    → let i = page_table_indices virtual in
      descend s p4 i.p4 flags ≡ ok (p3, s3)
      → descend s3 p3 i.p3 flags ≡ ok (p2, s2)
      → descend s2 p2 i.p2 flags ≡ ok (p1, s1)
      → Walk s1.tables p4 virtual p3 p2 p1
      → map_page s p4 virtual kernel flags ≡ map_page s1 p4 virtual kernel flags
unfolding map_page
map_page-there s s3 s2 s1 p4 virtual kernel flags p3 p2 p1 p4_ne p4_start page virtual_ne start
      done3 done2 done1 walk =
    let i = page_table_indices virtual in
    let kernel_ne : kernel ≢ null = omega (arith, page.low) in
    rw
      (
        ne→== p4 null p4_ne,
        p4_start,
        ne→== kernel null kernel_ne,
        page.start,
        ne→== virtual 0 virtual_ne,
        start,
        done3,
        descend-there s1 p4 i.p4 flags p3 walk.third walk.third_ne,
        ne→== p3 null walk.third_ne,
        done2,
        descend-there s1 p3 i.p3 flags p2 walk.second walk.second_ne,
        ne→== p2 null walk.second_ne,
        done1,
        descend-there s1 p2 i.p2 flags p1 walk.first walk.first_ne,
        ne→== p1 null walk.first_ne,
      )
      refl

-- The tables are there behind the steps down.
reach :
    {pages left : ℕ} {s : Paging} (p4 virtual kernel flags : ℕ)
    → Grows pages left s
    → 3 ≤ left
    → let i = page_table_indices virtual in
      HasPath s.memory s.tables p4 (i.p4 ∷ i.p3 ∷ i.p2 ∷ [])
      → IsUnmapped s.tables p4 (i.p4 ∷ i.p3 ∷ i.p2 ∷ []) i.p1
      → IsPage kernel
      → virtual ≢ 0
      → virtual % page_size ≡ 0
      → IsFlags flags
      → bit_and flags pte_huge_page ≡ 0
      → Reached pages s p4 virtual kernel flags
reach {s = s} p4 virtual kernel flags grows enough path unmapped page virtual_ne start f no_huge =
    let i = page_table_indices virtual in
    let (p4_ne, p4_start) = IsApart-start s.memory p4 path.0 in
    let (p3, s3, left3, done3, grows3, extends3, most3, ne3, path3, reads3, small3, unmapped3) =
      step p4 i.p4 (i.p3 ∷ i.p2 ∷ []) i.p1 flags grows (omega arith) f no_huge path unmapped in
    let (p2, s2, left2, done2, grows2, extends2, most2, ne2, path2, reads2, small2, unmapped2) =
      step p3 i.p3 (i.p2 ∷ []) i.p1 flags grows3 (omega arith) f no_huge path3 unmapped3 in
    let (p1, s1, left1, done1, grows1, extends1, most1, ne1, path1, reads1, small1, unmapped1) =
      step p2 i.p2 [] i.p1 flags grows2 (omega arith) f no_huge path2 unmapped2 in
    let third =
      kept_entry p4 i.p4 p3 (IsApart-later p4 extends3 path.0) (Extends-trans extends2 extends1)
        reads3 ne3 in
    let second = kept_entry p3 i.p3 p2 (IsApart-later p3 extends2 path3.0) extends1 reads2 ne2 in
    let walk : Walk s1.tables p4 virtual p3 p2 p1 = record {
      third = rw third reads3;
      second = rw second reads2;
      first = reads1;
      third_ne = ne3;
      second_ne = ne2;
      first_ne = ne1;
      small = small1;
    } in
    record {
      p3 = p3;
      p2 = p2;
      p1 = p1;
      there = s1;
      walk = walk;
      empty = unmapped1;
      same =
          map_page-there s s3 s2 s1 p4 virtual kernel flags p3 p2 p1 p4_ne p4_start page virtual_ne
            start done3 done2 done1 walk;
    }

-- `map_page` of a kernel page at an aligned address other than 0 that is not mapped, on a well-formed
-- heap with at least three free pages, where the tables that the address leads to stand on pages that
-- are not free and their entries on the way can be read and are not those of huge pages, and with
-- flags that are not those of a huge page, succeeds, whichever tables are missing. Behind it every
-- address of the page translates to the byte of the kernel's page at the same offset.
pub map_page-maps :
    {pages left : ℕ} {s : Paging} (p4 virtual kernel flags : ℕ)
    → Grows pages left s
    → 3 ≤ left
    → let i = page_table_indices virtual in
      HasPath s.memory s.tables p4 (i.p4 ∷ i.p3 ∷ i.p2 ∷ [])
      → IsUnmapped s.tables p4 (i.p4 ∷ i.p3 ∷ i.p2 ∷ []) i.p1
      → IsPage kernel
      → virtual ≢ 0
      → virtual % page_size ≡ 0
      → IsFlags flags
      → bit_and flags pte_huge_page ≡ 0
      → (offset : ℕ) → offset < page_size
      → (s' : Paging) × (map_page s p4 virtual kernel flags ≡ ok (true, s'))
        × (translate s'.tables p4 (virtual + offset) ≡ ok (kernel + offset))
map_page-maps {s = s} p4 virtual kernel flags grows enough path unmapped page virtual_ne start f
      no_huge offset lt =
    let r =
      reach p4 virtual kernel flags grows enough path unmapped page virtual_ne start f no_huge in
    let (p4_ne, p4_start) = IsApart-start s.memory p4 path.0 in
    let (s', done, reached, rest, others) =
      map_page-translate r.there p4 virtual kernel flags r.p3 r.p2 r.p1 p4_ne p4_start page
        virtual_ne start r.walk offset lt f r.empty in
    (s', r.same ∙ done, reached)
