-- ===== src/Memory/Roundtrip.antt =====
-- `alloc_raw` of kern/memory.c, and then `release_pages` on what it has handed out.
use dumboss.Base.{
  ℕ, ◌+◌, ◌*◌, ◌/◌, ◌≤◌, ◌<◌, ◌≡◌, ◌≢◌, sym, ap, ◌∙◌, inl, inr, Bool, ◌&&◌, List, arith, leb, ltb,
  Bool-cases, Res, ok,
}
use mathlib.Core.Path.{ap₂}
use dumboss.Base.Int.{pos}
use dumboss.BitSet.{BitSet}
use dumboss.BitSet.Ones.{bit_at}
use dumboss.Memory.{Mem, page_size, null}
use dumboss.Memory.Alloc.{Buffer, no_buffer, alloc_raw}
use dumboss.Memory.Release.{release_pages}
use dumboss.Memory.Heap.{block_of, Yields}
use dumboss.Memory.Layout.{IsHeap}
use dumboss.Memory.Total.{total}
use dumboss.Memory.Allocate.{HandsOut}
use dumboss.Memory.Handout.{alloc_raw-Allocates}
use dumboss.Memory.Returned.{release_pages-Releases}

-- The heap is well formed, and the pages that are free are those that were.
pub record Restores (pages : ℕ) (m m' : Mem) : Type 0 where
  pub lists : ℕ → List ℕ
  pub buddies : ℕ → BitSet
  pub heap : IsHeap pages m' lists buddies
  pub same_free : (k : ℕ) → bit_at m'.free_pages.words k ≡ bit_at m.free_pages.words k
  pub same_memory : m'.free_memory ≡ m.free_memory
  pub same_usable : m'.usable_pages ≡ m.usable_pages

abbrev handed : ℕ → ℕ → Buffer
handed begin n = record { bytes = block_of begin; count = n * page_size }

-- What a call of `alloc_raw` for 1 to 4096 pages has handed out on a well-formed heap can be given
-- back: `release_pages` fails no assertion, and the heap is well formed, with just the pages free
-- that were free before the two calls, and as many bytes.
pub release_pages-alloc_raw :
    {pages : ℕ} {m m1 : Mem} {xs : ℕ → List ℕ} {bs : ℕ → BitSet} (count : ℕ) (exact : Bool)
    (buffer : Buffer)
    → IsHeap pages m xs bs
    → 0 < count
    → count ≤ 4096
    → alloc_raw m (pos count) exact ≡ ok (buffer, m1)
    → buffer.bytes ≢ null
    → Yields (Restores pages m) (release_pages m1 buffer.bytes (buffer.count / page_size))
release_pages-alloc_raw {pages} {m} {m1} {xs} {bs} count exact buffer heap positive le call
      some_pages =
    elim (alloc_raw-Allocates heap count exact positive le) [
      | inl (e, nothing) ↦
          let both : ok (buffer, m1) ≡ ok (no_buffer, m) = sym call ∙ e in
          absurd (some_pages (ap bytes_of both))
      | inr (m1', begin, n, e, n_positive, which, out) ↦
          let both : ok (buffer, m1) ≡ ok (handed begin n, m1') = sym call ∙ e in
          returns begin n (ap (λ r. (of_result r).0) both) (ap (λ r. (of_result r).1) both)
            n_positive out
    ]
  where
    of_result : Res (Buffer × Mem) → Buffer × Mem
    of_result (ok r) = r
    of_result _ = (no_buffer, m)

    returns :
        {m1' : Mem} (begin n : ℕ)
        → buffer ≡ handed begin n
        → m1 ≡ m1'
        → 0 < n
        → HandsOut pages m m1' (total xs) begin n
        → Yields (Restores pages m) (release_pages m1 buffer.bytes (buffer.count / page_size))
    returns {m1'} begin n at same positive out =
        let usable_of : (k : ℕ)
            → k < pages
            → bit_at m.free_pages.words k ≡ 1
            → bit_at m.usable_pages.words k ≡ 1 =
          λ k lt lit.
            let (d, p, on, lo, hi) = heap.layout.covered k lt lit in
            (heap.layout.listed d p k on lo hi).0 in
        let inside = out.inside in
        let (m2, done, back) = release_pages-Releases out.heap begin n out.inside (λ k lo hi.
          let here = out.wiped.bits k in
          (
            ap (λ z. bit_at z.words k) out.usable
                ∙ usable_of k (omega arith) (out.were_free k lo hi),
            ground arith,
          )) in
        let whole : n * page_size / page_size ≡ n = omega arith in
        (
          m2,
          ap₂ (λ b z. release_pages z b.bytes (b.count / page_size)) at same
              ∙ ap (λ z. release_pages m1' (block_of begin) z) whole
              ∙ done,
          record {
            lists = back.lists;
            buddies = back.buddies;
            heap = back.heap;
            same_free = λ k.
                let taken = out.wiped.bits k in
                let given = back.marked.bits k in
                elim (Bool-cases (leb begin k && ltb k (begin + n))) [
                  | inl there ↦
                      let was = out.were_free k (ground arith) (ground arith) in ground arith
                  | inr away ↦ ground arith
                ];
            same_memory = omega (arith, back.heap.accounted, heap.accounted, back.sum, out.sum);
            same_usable = back.usable ∙ out.usable;
          },
        )

    bytes_of : Res (Buffer × Mem) → ℕ
    bytes_of (ok (b, m)) = b.bytes
    bytes_of _ = null
