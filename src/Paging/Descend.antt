-- ===== src/Paging/Descend.antt =====
-- kern/page_tables.c: one level down in `map_page`, with a new table from the page allocator.
use native.Mathlib.Nat.{one-le-pow}
use dumboss.Base.{
  zero, suc, ℕ, ◌+◌, ◌^◌, ◌≤◌, ◌<◌, ◌≡◌, ◌≢◌, refl, sym, ap, ◌∙◌, inl, inr, false, ◌==◌, ==_iff,
  ne→==, if◌then◌else◌, Bool-cases, arith, bit_and, List, [], ◌∷◌, ◌⊎◌, ==_refl, Res, ok,
}
use dumboss.Memory.{class_count, null}
use dumboss.Memory.Heap.{block_of}
use dumboss.Memory.Total.{total, pages_below}
use dumboss.Memory.Layout.{block_of_inj}
use dumboss.Memory.Zeroed.{zeroed_pages-Zeroes}
use dumboss.Memory.Serving.{free_bits}
use dumboss.Paging.{set_entry, pte_address, pte_huge_page}
use dumboss.Paging.Entry.{IsFlags, make_pte-small}
use dumboss.Paging.Walk.{make_pte-ok}
use dumboss.Paging.Map.{Paging, descend}
use dumboss.Paging.Apart.{
  Grows, HasPath, blank-HasPath, Extends, Extends-refl, empty_entry, block_of-IsPage, kept_entry,
  changed_table,
}

-- What a step down has found: no page, where none was free; or a table whose entry leads to it, and
-- is not that of a huge page if the flags are not. Either it was there and nothing has changed, or it
-- is new and blank.
abbrev pub Finds : (s : Paging) (table index flags left a : ℕ) (s' : Paging) → Type 0
Finds s table index flags left a s' =
    ((a ≡ null) × (left ≡ 0))
    ⊎ ((a ≢ null)
        × (pte_address (s'.tables table index) ≡ ok a)
        × (bit_and flags pte_huge_page ≡ 0 → bit_and (s'.tables table index) pte_huge_page ≡ 0)
        × ((s' ≡ s) ⊎ ((i : ℕ) → s'.tables a i ≡ 0)))

-- A step down, to a table that leads on.
abbrev pub Descends :
    (pages left : ℕ) (s : Paging) (table index flags : ℕ) (indices : List ℕ)
    → Res (ℕ × Paging)
    → Type 0
Descends pages left s table index flags indices r =
    (a : ℕ) × (s' : Paging) × (left' : ℕ) × (r ≡ ok (a, s'))
    × Grows pages left' s'
    × Extends s s'
    × (left' ≤ left)
    × (left ≤ left' + 1)
    × (a ≢ null → HasPath s'.memory s'.tables a indices)
    × Finds s table index flags left a s'

total-empty : (n : ℕ) (xs : ℕ → List ℕ) → ((d : ℕ) → d < n → xs d ≡ []) → pages_below n xs ≡ 0
total-empty zero xs nothing = refl
total-empty (suc n) xs nothing =
    let below = total-empty n xs (λ d low. nothing d (omega arith)) in
    rw (below, nothing n (omega arith)) (omega arith)

module _ {pages left : ℕ} {s : Paging} (grows : Grows pages left s) (table index : ℕ)
    (indices : List ℕ) (path : HasPath s.memory s.tables table (index ∷ indices)) (flags : ℕ)
    (f : IsFlags flags) where
  pub descend-Descends :
      Descends pages left s table index flags indices (descend s table index flags)
  unfolding descend
  descend-Descends =
      let ((q, at, taken), small, (a, read, next)) = path in
      rw read (elim (Bool-cases (a == null)) [
        | inr there ↦ rw there (
          a,
          s,
          left,
          refl,
          grows,
          Extends-refl s,
          omega arith,
          omega arith,
          next,
          inr (ground arith, read, (λ no_huge. small), inl refl),
        )
        | inl none_there ↦
            let empty : s.tables table index ≡ 0 =
              empty_entry (s.tables table index) (read ∙ ap ok ((==_iff a null).0 none_there)) in
            rw none_there (elim (zeroed_pages-Zeroes 1 grows.heap (omega arith) (omega arith)) [
              | inl (e, nothing) ↦
                  let none_left =
                    total-empty class_count grows.lists
                      (λ d low. nothing d low (one-le-pow d 2 (omega arith))) in
                  rw e (
                    null,
                    s,
                    left,
                    refl,
                    grows,
                    Extends-refl s,
                    omega arith,
                    omega arith,
                    λ ne. absurd (ne refl),
                    inl (refl, sym grows.sum ∙ none_left),
                  )
              | inr (m', begin, e, out, wiped) ↦
                  let low : begin < 2 ^ 35 = omega (arith, out.inside, out.heap.small) in
                  let page = block_of begin in
                  let there : (page == null) ≡ false = ne→== page null (omega arith) in
                  let (entry, made, reads) = make_pte-ok page flags (block_of-IsPage begin low) f in
                  let cleared = λ (t i : ℕ). if t == page then 0 else s.tables t i in
                  let tables = set_entry cleared table index entry in
                  let lit = out.were_free begin (omega arith) (omega arith) in
                  let other : (p : ℕ) → free_bits s.memory p ≡ 0 → p ≢ begin =
                    λ p h e. let dark = ap (free_bits s.memory) (sym e) ∙ h in omega arith in
                  let not_free : (k : ℕ) → free_bits s.memory k ≡ 0 → free_bits m' k ≡ 0 =
                    λ k h. let here = out.wiped.bits k in ground arith in
                  let now_taken : free_bits m' begin ≡ 0 =
                    let here = out.wiped.bits begin in ground arith in
                  let away : (page == table) ≡ false =
                    ne→== page table (λ e. other q taken (block_of_inj q begin (sym at ∙ sym e))) in
                  let blank : (i : ℕ) → tables page i ≡ 0 = λ i. rw (away, ==_refl page) refl in
                  rw (e, there, made)
                    (
                      page,
                      record { memory = m'; tables = tables },
                      total out.lists,
                      refl,
                      record {
                        lists = out.lists;
                        buddies = out.buddies;
                        heap = out.heap;
                        sum = refl;
                      },
                      record {
                        not_free = not_free;
                        kept = λ p i h ne.
                            kept_entry s.tables page table index entry (block_of p) i
                              (λ e. other p h (block_of_inj p begin e)) empty ne;
                        apart = λ t i ne.
                            elim (changed_table s.tables page table index entry t i ne) [
                              | inl here ↦ (q, here ∙ at, not_free q taken)
                              | inr here ↦ (begin, here, now_taken)
                            ];
                      },
                      omega (arith, out.sum, grows.sum),
                      omega (arith, out.sum, grows.sum),
                      λ ne. blank-HasPath m' tables page indices (begin, refl, now_taken) blank,
                      inr (
                        ground arith,
                        rw (==_refl table, ==_refl index) reads,
                        (λ no_huge.
                            rw (==_refl table, ==_refl index)
                              (make_pte-small page flags entry (omega arith) (omega arith) f no_huge
                                made)),
                        inr blank,
                      ),
                    )
            ])
      ])
