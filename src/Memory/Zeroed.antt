-- ===== src/Memory/Zeroed.antt =====
-- `zeroed_pages` of kern/memory.c on a well-formed heap: the headers it clears are on no free list.
use native.Mathlib.Nat.{one-le-pow}
use mathlib.Core.Path.{subst}
use dumboss.Base.{
  ℕ, zero, suc, ◌+◌, ◌≤◌, ◌<◌, ◌≡◌, ◌≢◌, ◌⊎◌, refl, ap, ◌∙◌, inl, inr, true, false, List, [], ◌^◌,
  ne→==, ◌==◌, Bool-cases, if◌then◌else◌, arith, Res, ok, ◌>>=◌,
}
use dumboss.Base.Int.{pos}
use dumboss.BitSet.{BitSet}
use dumboss.Memory.{Mem, FreeBlock, class_count, page_size, null, set_blocks}
use dumboss.Memory.Alloc.{Buffer, clear_pages, zeroed_pages, alloc_raw}
use dumboss.Memory.Chain.{has, frame}
use dumboss.Memory.Heap.{block_of}
use dumboss.Memory.Layout.{IsHeap, on}
use dumboss.Memory.Total.{total}
use dumboss.Memory.Allocate.{HandsOut}
use dumboss.Memory.Handout.{alloc_raw-Allocates, Allocates}

abbrev pub blank : FreeBlock
blank = record { next = 0; prev = 0; size_class = 0 }

-- The headers behind the call.
cleared : ℕ → ℕ → (ℕ → FreeBlock) → ℕ → FreeBlock
cleared zero p blocks = blocks
cleared (suc count) p blocks =
    cleared count (p + page_size) (λ q. if p == q then blank else blocks q)

clear_pages-eq :
    (count p : ℕ) (m : Mem) → clear_pages count p m ≡ set_blocks m (cleared count p m.blocks)
unfolding clear_pages cleared
clear_pages-eq zero p m = refl
clear_pages-eq (suc count) p m =
    clear_pages-eq count (p + page_size) (set_blocks m (λ q. if p == q then blank else m.blocks q))

-- A header of another page is as it was.
cleared-other :
    (count begin : ℕ) (blocks : ℕ → FreeBlock) (a : ℕ)
    → ((k : ℕ) → begin ≤ k → k < begin + count → block_of k ≢ a)
    → cleared count (block_of begin) blocks a ≡ blocks a
unfolding cleared
cleared-other zero begin blocks a other = refl
cleared-other (suc count) begin blocks a other =
    let next : block_of begin + page_size ≡ block_of (begin + 1) = omega arith in
    let here = other begin (omega arith) (omega arith) in
    rw next (
      cleared-other count (begin + 1) (λ q. if block_of begin == q then blank else blocks q) a
        (λ k lo hi. other k (omega arith) (omega arith))
      ∙ ground arith)

cleared-blank :
    (count begin : ℕ) (blocks : ℕ → FreeBlock) (k : ℕ)
    → begin ≤ k
    → k < begin + count
    → cleared count (block_of begin) blocks (block_of k) ≡ blank
unfolding cleared
cleared-blank zero begin blocks k lo hi = absurd (omega arith)
cleared-blank (suc count) begin blocks k lo hi =
    let next : block_of begin + page_size ≡ block_of (begin + 1) = omega arith in
    rw next (elim (Bool-cases (k == begin)) [
      | inl first ↦
          cleared-other count (begin + 1) (λ q. if block_of begin == q then blank else blocks q)
            (block_of k) (λ j from to e. ground arith)
          ∙ ground arith
      | inr later ↦
          cleared-blank count (begin + 1) (λ q. if block_of begin == q then blank else blocks q) k
            (ground arith) (omega arith)
    ])

module _ {pages : ℕ} {m m' : Mem} {before begin count : ℕ}
    (out : HandsOut pages m m' before begin count) where
  open out use {heap, lists, buddies}

  -- A page that is handed out is on no list.
  off_lists : (k d : ℕ) → begin ≤ k → k < begin + count → on lists d k ≡ false
  off_lists k d lo hi = elim (Bool-cases (on lists d k)) [
    | inr h ↦ h
    | inl h ↦
        let (_, free) =
          heap.layout.listed d k k h (omega arith) (omega (arith, one-le-pow d 2 (omega arith))) in
        let marked = out.wiped.bits k in ground arith
  ]

  apart : (d a k : ℕ) → has a (lists d) ≡ true → begin ≤ k → k < begin + count → block_of k ≢ a
  apart d a k h lo hi e =
      let off = off_lists k d lo hi in let listed : on lists d k ≡ true = rw e h in cc

  clears-HandsOut :
      HandsOut pages m (set_blocks m' (cleared count (block_of begin) m'.blocks)) before begin count
  clears-HandsOut = record {
    lists = lists;
    buddies = buddies;
    heap = record {
      small = heap.small;
      twelve = heap.twelve;
      usable_valid = heap.usable_valid;
      free_valid = heap.free_valid;
      usable_count = heap.usable_count;
      free_count = heap.free_count;
      keeps = record {
        holds = λ d low.
            let (info, e, chain) = heap.keeps.holds d low in
            (
              info,
              e,
              frame d null info.freelist (lists d)
                  (λ a h. cleared-other count begin m'.blocks a (λ k lo hi. apart d a k h lo hi))
                  chain,
            );
        apart = heap.keeps.apart;
        buddies = heap.keeps.buddies;
        valid = heap.keeps.valid;
      };
      counted = heap.counted;
      accounted = heap.accounted;
      layout = heap.layout;
    };
    sum = out.sum;
    inside = out.inside;
    were_free = out.were_free;
    wiped = out.wiped;
    usable = out.usable;
    free_memory = out.free_memory;
  }

-- How a call of `zeroed_pages` for `count` pages ends: no list of a class of that many pages has a
-- block, and it changes nothing, or it hands them out with their headers zeroed.
abbrev pub Zeroes : (pages : ℕ) (m : Mem) (xs : ℕ → List ℕ) (count : ℕ) → Res (ℕ × Mem) → Type 0
Zeroes pages m xs count r =
    ((r ≡ ok (null, m)) × ((d : ℕ) → d < class_count → count ≤ 2 ^ d → xs d ≡ []))
    ⊎ ((m' : Mem) × (begin : ℕ) × (r ≡ ok (block_of begin, m'))
        × HandsOut pages m m' (total xs) begin count
        × ((k : ℕ) → begin ≤ k → k < begin + count → m'.blocks (block_of k) ≡ blank))

-- `zeroed_pages` for 1 to 4096 pages on a well-formed heap fails no assertion. It returns `NULL` and
-- changes nothing where no list of a class of that many pages has a block; or it hands out that many
-- pages, which were all marked as free, with a zeroed header each, and the heap is well formed: what
-- it clears is on no free list.
pub zeroed_pages-Zeroes :
    {pages : ℕ} {m : Mem} {xs : ℕ → List ℕ} {bs : ℕ → BitSet} (count : ℕ)
    → IsHeap pages m xs bs
    → 0 < count
    → count ≤ 4096
    → Zeroes pages m xs count (zeroed_pages m (pos count))
unfolding zeroed_pages
zeroed_pages-Zeroes {pages} {m} {xs} count heap positive le =
    go (alloc_raw m (pos count) true) (alloc_raw-Allocates heap count true positive le)
  where
    go :
        (r : Res (Buffer × Mem))
        → Allocates pages m xs count true r
        → Zeroes pages m xs count (
            r >>= (λ (buffer, m'). ok (
              buffer.bytes,
              if buffer.bytes == null then m' else clear_pages count buffer.bytes m',
            )))
    go r (inl (e, nothing)) = rw e (inl (refl, λ d low enough. nothing d low (λ always. enough)))
    go r (inr (m', begin, n, e, some_pages, inr (partly, fewer), out)) = cc
    go r (inr (m', begin, n, e, some_pages, inl all, out)) =
        let there : (block_of begin == null) ≡ false = ne→== (block_of begin) null (omega arith) in
        let whole : HandsOut pages m m' (total xs) begin count =
          subst (λ z. HandsOut pages m m' (total xs) begin z) all out in
        rw (e, there)
          (inr (
            set_blocks m' (cleared count (block_of begin) m'.blocks),
            begin,
            ap (λ z. ok (block_of begin, z)) (clear_pages-eq count (block_of begin) m'),
            clears-HandsOut whole,
            λ k lo hi. cleared-blank count begin m'.blocks k lo hi,
          ))
