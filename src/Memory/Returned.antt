-- ===== src/Memory/Returned.antt =====
-- `release_pages` of kern/memory.c on a well-formed heap.
use mathlib.Core.Path.{subst}
use dumboss.Base.{
  ℕ, zero, suc, ◌+◌, ◌-◌, ◌*◌, ◌/◌, ◌%◌, ◌^◌, ◌≤◌, ◌<◌, ◌≡◌, ◌⊎◌, refl, sym, ap, ◌∙◌, inl, inr,
  true, false, ◌&&◌, List, ◌==◌, if◌then◌else◌, Bool-cases, arith, leb, ltb, ok, panic,
}
use dumboss.BitSet
use dumboss.BitSet.{BitSet, get_all, get_any, set_range}
use dumboss.BitSet.Ones.{bit_at, ones-le}
use dumboss.BitSet.Count.{ones-marked}
use dumboss.BitSet.Query.{get_all_iff, get_any_iff}
use dumboss.BitSet.Update.{of_bool, Written, set_range-Writes}
use dumboss.Memory.{Mem, class_count, page_size, null}
use dumboss.Memory.Release.{release_loop, release_pages}
use dumboss.Memory.Heap.{block_of, Yields}
use dumboss.Memory.Blocks.{Keeps, Keeps-pages}
use dumboss.Memory.Layout.{Layout, IsHeap}
use dumboss.Memory.Allocate.{settles, physical_address-block_of}
use dumboss.Memory.Added.{IsHeld}
use dumboss.Memory.Total.{total}
use dumboss.Memory.Merge.{Merged, Merged-after, Freed, merge-Merged}

-- The pages of a range are usable, and not free.
abbrev pub AreHeld : (ℕ → ℕ) → (ℕ → ℕ) → ℕ → ℕ → Type 0
AreHeld usable free begin count =
    (k : ℕ) → begin ≤ k → k < begin + count → (usable k ≡ 1) × (free k ≡ 0)

release_loop-Merged :
    (count : ℕ) {pages : ℕ} {m : Mem} {xs : ℕ → List ℕ} {bs : ℕ → BitSet} {usable free : ℕ → ℕ}
    (p : ℕ)
    → pages ≤ 2 ^ 35
    → p + count ≤ pages
    → Keeps m xs bs
    → Layout pages xs bs usable free
    → AreHeld usable free p count
    → (free' : ℕ → ℕ) → Freed free free' p count
    → Yields (λ m'. Merged pages usable free' m m' (total xs) count) (release_loop count p m)
unfolding release_loop
release_loop-Merged zero {pages} {m} {xs} {bs} {usable} {free} p small le keeps layout held free'
      freed =
    let same : (k : ℕ) → free' k ≡ free k = λ k. let here = freed k in ground arith in
    (
      m,
      refl,
      record {
        lists = xs;
        buddies = bs;
        keeps = keeps;
        layout = subst (Layout pages xs bs usable) (λ i k. sym (same k) i) layout;
        sum = omega arith;
        same = record {
          class_total = refl;
          free_memory = refl;
          usable_pages = refl;
          free_pages = refl;
        };
      },
    )
release_loop-Merged (suc count) {pages} {m} {xs} {bs} {usable} {free} p small le keeps layout held
      free' freed =
    let free1 : ℕ → ℕ = λ k. if leb p k && ltb k (p + 1) then of_bool true else free k in
    let one_page : IsHeld pages usable free 0 p = record {
      aligned = omega arith;
      inside = omega arith;
      may_use = λ k lo hi. (held k lo (omega arith)).0;
      not_free = λ k lo hi. (held k lo (omega arith)).1;
    } in
    let (m1, done, merged) =
      merge-Merged (class_count - 1) 0 p refl small keeps layout one_page free1 (λ k. refl) in
    let (m', rest, merged') =
      release_loop-Merged count (p + 1) small (omega arith) merged.keeps merged.layout
        (λ k lo hi. let (u, f) = held k (omega arith) (omega arith) in (u, ground arith)) free'
        (λ k. let here = freed k in ground arith) in
    (m', rw done rest, Merged-after merged.same (omega (arith, merged.sum)) merged')

-- What a call that gives back `count` pages from `begin` on does: they are all free, no other page's
-- bit has changed, the lists hold as many pages more, and the heap is well formed.
pub record Releases (pages : ℕ) (m m' : Mem) (before begin count : ℕ) : Type 0 where
  pub lists : ℕ → List ℕ
  pub buddies : ℕ → BitSet
  pub heap : IsHeap pages m' lists buddies
  pub sum : total lists ≡ before + count
  pub marked : Written m.free_pages m'.free_pages begin (begin + count) true
  pub usable : m'.usable_pages ≡ m.usable_pages
  pub free_memory : m'.free_memory ≡ (m.free_memory + count * page_size) % 2 ^ 64

pub align_down-page :
    (p : ℕ) → (p * page_size == BitSet.align_down (p * page_size) page_size) ≡ true
align_down-page p =
    let same : BitSet.align_down (p * page_size) page_size ≡ p * page_size = omega arith in
    ground arith

module _ {pages : ℕ} {m : Mem} {xs : ℕ → List ℕ} {bs : ℕ → BitSet} (heap : IsHeap pages m xs bs)
    (begin count : ℕ) (inside : begin + count ≤ pages) where
  -- `release_pages` on pages of a well-formed heap that are usable and not free fails no assertion.
  -- It marks just these pages as free, puts as many pages onto the lists and adds them to the free
  -- memory; and the heap is well formed: blocks are merged with their free buddies, up to the
  -- largest size class.
  pub release_pages-Releases :
      AreHeld (bit_at m.usable_pages.words) (bit_at m.free_pages.words) begin count
      → Yields
          (λ m'. Releases pages m m' (total xs) begin count)
          (release_pages m (block_of begin) count)
  unfolding release_pages
  release_pages-Releases held =
      let (u, get_usable, usable_iff) =
        get_all_iff heap.usable_valid begin (begin + count) (omega arith)
          (omega (arith, heap.usable_count)) in
      let (f, get_free, free_iff) =
        get_any_iff heap.free_valid begin (begin + count) (omega arith)
          (omega (arith, heap.free_count)) in
      let (fp, set_it, w) =
        set_range-Writes begin (begin + count) true heap.free_valid (omega arith)
          (omega (arith, heap.free_count)) in
      let all_usable = get_usable ∙ ap ok (usable_iff.1 (λ k lo hi. (held k lo hi).0)) in
      let none_free = get_free ∙ ap ok (free_iff.1 (λ k lo hi. (held k lo hi).1)) in
      let there : (block_of begin == null) ≡ false = ground arith in
      let whole : begin * page_size / page_size ≡ begin = omega arith in
      let (m1, done, merged) =
        release_loop-Merged count begin heap.small inside heap.keeps heap.layout held
          (bit_at fp.words) w.bits in
      let set_now : set_range m1.free_pages begin (begin + count) true ≡ ok fp =
        rw merged.same.free_pages set_it in
      let memory = ap (λ z. (z + count * page_size) % 2 ^ 64) merged.same.free_memory in
      let more = ones-marked begin count pages inside w (λ k lo hi. (held k lo hi).1) in
      let most : total xs + count ≤ 2 ^ 35 =
        omega (arith, more, heap.counted, ones-le fp.words pages 0, heap.small) in
      let free_now = (m1.free_memory + count * page_size) % 2 ^ 64 in
      rw
        (
          there,
          physical_address-block_of begin,
          align_down-page begin,
          whole,
          all_usable,
          none_free,
          done,
          set_now,
        )
        (
          _,
          refl,
          record {
            lists = merged.lists;
            buddies = merged.buddies;
            heap =
                settles heap merged.same.usable_pages refl merged.same.class_total w
                  (Keeps-pages merged.keeps free_now m1.usable_pages fp) merged.layout
                  (omega (arith, more, merged.sum, heap.counted))
                  (memory ∙ omega (arith, heap.accounted, merged.sum, most));
            sum = merged.sum;
            marked = w;
            usable = merged.same.usable_pages;
            free_memory = memory;
          },
        )

  -- Where one of the pages is free already, or not usable, it fails an assertion.
  pub release_pages-panic :
      (k : ℕ)
      → begin ≤ k
      → k < begin + count
      → (bit_at m.usable_pages.words k ≡ 0) ⊎ (bit_at m.free_pages.words k ≡ 1)
      → release_pages m (block_of begin) count ≡ panic
  unfolding release_pages
  release_pages-panic k lo hi bad =
      let (u, get_usable, usable_iff) =
        get_all_iff heap.usable_valid begin (begin + count) (omega arith)
          (omega (arith, heap.usable_count)) in
      let (f, get_free, free_iff) =
        get_any_iff heap.free_valid begin (begin + count) (omega arith)
          (omega (arith, heap.free_count)) in
      let there : (block_of begin == null) ≡ false = ground arith in
      let whole : begin * page_size / page_size ≡ begin = omega arith in
      rw (there, physical_address-block_of begin, align_down-page begin, whole, get_usable)
        (elim (Bool-cases u) [
          | inr no_usable ↦ rw no_usable refl
          | inl all_usable ↦
              let lit = usable_iff.0 all_usable k lo hi in
              rw (all_usable, get_free)
                (elim (Bool-cases f) [
                  | inl some_free ↦ rw some_free refl
                  | inr none_free ↦
                      let dark = free_iff.0 none_free k lo hi in
                      absurd (elim bad [ inl off ↦ omega arith | inr on ↦ omega arith ])
                ])
        ])
