-- ===== src/Paging/Grow.antt =====
-- `map_page` of kern/page_tables.c, with new tables from the page allocator.
use mathlib.Core.Path.{ap₂}
use dumboss.Base.{
  ℕ, ◌+◌, ◌≤◌, ◌≡◌, refl, ◌∙◌, inl, inr, Bool, true, false, not, ◌&&◌, ◌==◌, ==_iff, if◌then◌else◌,
  Bool-cases, arith, List, [], ◌∷◌, Res, ok, ◌>>=◌,
}
use dumboss.Memory.{null, page_size}
use dumboss.Memory.Heap.{block_of}
use dumboss.Paging.{page_table_indices, set_entry, make_pte}
use dumboss.Paging.Entry.{IsFlags}
use dumboss.Paging.Walk.{IsPage, make_pte-ok}
use dumboss.Paging.Map.{Paging, aligned, descend, map_page}
use dumboss.Paging.Apart.{Grows, IsApart, HasPath, Extends, Extends-refl, Extends-trans}
use dumboss.Paging.Descend.{Descends, descend-Descends}

-- A step that takes at most `most` pages.
abbrev pub Ends : (A : Type 0) (pages left most : ℕ) (s : Paging) → Res (A × Paging) → Type 0
Ends A pages left most s r =
    (a : A) × (s' : Paging) × (left' : ℕ) × (r ≡ ok (a, s'))
    × Grows pages left' s'
    × Extends s s'
    × (left' ≤ left)
    × (left ≤ left' + most)

guard_Ends :
    {pages left : ℕ} {s : Paging} (most : ℕ) (b : Bool) (r : Res (Bool × Paging))
    → Grows pages left s
    → Ends Bool pages left most s r
    → Ends Bool pages left most s (if b then ok (false, s) else r)
guard_Ends {left = left} {s = s} most true r grows ends =
    (false, s, left, refl, grows, Extends-refl s, omega arith, omega arith)
guard_Ends most false r grows ends = ends

-- A step down and what follows, unless the step finds no page.
then_Ends :
    {pages left : ℕ} {s : Paging} (table index flags rest : ℕ) (indices : List ℕ)
    (r : Res (ℕ × Paging)) (next : ℕ → Paging → Res (Bool × Paging))
    → Descends pages left s table index flags indices r
    → ((a left1 : ℕ) (s1 : Paging)
        → Grows pages left1 s1
        → HasPath s1.memory s1.tables a indices
        → Ends Bool pages left1 rest s1 (next a s1))
    → Ends Bool pages left
        (1 + rest)
        s
        (r >>= λ (a, s1). if a == null then ok (false, s1) else next a s1)
then_Ends table index flags rest indices r next
      (a, s1, left1, done, grows, extends, fewer, enough, path, found) go =
    rw done (elim (Bool-cases (a == null)) [
      | inl none_there ↦ rw none_there (false, s1, left1, refl, grows, extends, fewer, omega arith)
      | inr there ↦
          let (b, s2, left2, done2, grows2, extends2, fewer2, most2) =
            go a left1 s1 grows (path (ground arith)) in
          rw there
            (b, s2, left2, done2, grows2, Extends-trans extends extends2, omega arith, omega arith)
    ])

-- The last entry, where it is empty.
last_Ends :
    {pages left : ℕ} {s : Paging} (table index kernel flags : ℕ)
    → Grows pages left s
    → IsApart s.memory table
    → IsPage kernel
    → IsFlags flags
    → Ends Bool pages left 0 s (
        if not (s.tables table index == 0)
        then ok (false, s)
        else make_pte kernel flags >>= λ entry.
            ok (true, record s { tables = set_entry s.tables table index entry }))
last_Ends {left = left} {s} table index kernel flags grows (q, at_page, taken) page f =
    let (entry, made, reads) = make_pte-ok kernel flags page f in
    elim (Bool-cases (s.tables table index == 0)) [
      | inr full ↦ rw full (false, s, left, refl, grows, Extends-refl s, omega arith, omega arith)
      | inl empty ↦
          rw (empty, made)
            (
              true,
              record s { tables = set_entry s.tables table index entry },
              left,
              refl,
              record {
                lists = grows.lists;
                buddies = grows.buddies;
                heap = grows.heap;
                sum = grows.sum;
              },
              record {
                not_free = λ k h. h;
                kept = λ p i h ne. elim (Bool-cases (block_of p == table && i == index)) [
                  | inl e ↦
                      let at : block_of p ≡ table = ground arith in
                      let at_index : i ≡ index = ground arith in
                      absurd
                        (ne (ap₂ s.tables at at_index ∙ (==_iff (s.tables table index) 0).0 empty))
                  | inr e ↦ rw e refl
                ];
                apart = λ t i ne. elim (Bool-cases (t == table)) [
                  | inl e ↦ (q, (==_iff t table).0 e ∙ at_page, taken)
                  | inr e ↦ absurd (ne (rw e refl))
                ];
              },
              omega arith,
              omega arith,
            )
    ]

-- `map_page` of a kernel page, on a well-formed heap, where the tables that the virtual address leads
-- to, as far as there are any, stand on pages that are not free, and their entries on the way can be
-- read and are not those of huge pages: it fails no assertion. The heap is well formed behind it,
-- with at most three free pages less; no page has become free, no entry that was set, of a table
-- whose page is not free, has changed, and every entry that has changed is on a page that is not
-- free, so that it is not in the header of a free block.
pub map_page-Ends :
    {pages left : ℕ} {s : Paging} (p4 virtual kernel flags : ℕ)
    → Grows pages left s
    → let i = page_table_indices virtual in
      HasPath s.memory s.tables p4 (i.p4 ∷ i.p3 ∷ i.p2 ∷ [])
      → IsPage kernel
      → IsFlags flags
      → Ends Bool pages left 3 s (map_page s p4 virtual kernel flags)
unfolding map_page
map_page-Ends {pages} {left} {s} p4 virtual kernel flags grows path page f =
    let i = page_table_indices virtual in
    let three = i.p3 ∷ i.p2 ∷ [] in
    let two = i.p2 ∷ [] in
    guard_Ends 3 (not (not (p4 == null) && aligned p4 page_size)) _ grows (
      guard_Ends 3 (not (not (kernel == null) && aligned kernel page_size)) _ grows (
        guard_Ends 3 (not (not (virtual == 0) && aligned virtual page_size)) _ grows (
          then_Ends p4 i.p4 flags 2 three (descend s p4 i.p4 flags) _
            (descend-Descends grows p4 i.p4 three path flags f)
            (λ p3 left3 s3 grows3 path3.
              then_Ends p3 i.p3 flags 1 two (descend s3 p3 i.p3 flags) _
                (descend-Descends grows3 p3 i.p3 two path3 flags f)
                (λ p2 left2 s2 grows2 path2.
                  then_Ends p2 i.p2 flags 0 [] (descend s2 p2 i.p2 flags) _
                    (descend-Descends grows2 p2 i.p2 [] path2 flags f)
                    (λ p1 left1 s1 grows1 path1.
                      last_Ends p1 i.p1 kernel flags grows1 path1 page f))))))
