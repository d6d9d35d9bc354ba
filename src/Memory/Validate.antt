-- ===== src/Memory/Validate.antt =====
-- `validate_heap` of kern/memory.c: what it counts on the free lists.
use dumboss.Base.{
  ℕ, zero, suc, ◌+◌, ◌*◌, ◌%◌, ◌^◌, ◌≤◌, ◌<◌, ◌≡◌, refl, ap, ◌∙◌, true, List, [], ◌∷◌, ◌==◌,
  ==_refl, ne→==, length, arith, ok, assert,
}
use dumboss.BitSet.{BitSet}
use dumboss.BitSet.Ones.{ones-le}
use dumboss.Memory.{Mem, class_count, page_size, null}
use dumboss.Memory.Release.{Tally, walk_list, walk_classes, validate_heap}
use dumboss.Memory.Chain.{IsChain}
use dumboss.Memory.Blocks.{Keeps}
use dumboss.Memory.Layout.{IsHeap}
use dumboss.Memory.Total.{total, pages_below, length-le_total}

-- What has been found after `n` pages in good order.
abbrev tally : ℕ → Tally
tally n = record { success = true; free = n * page_size }

-- A walk down a list of class `c` finds every block of that class, and adds its pages.
walk_list-IsChain :
    (fuel : ℕ) (m : Mem) (c prev p : ℕ) (ys : List ℕ) (n : ℕ)
    → IsChain m.blocks c prev p ys
    → length ys < fuel
    → n + length ys * 2 ^ c ≤ 2 ^ 35
    → walk_list fuel m c p (tally n) ≡ ok (tally (n + length ys * 2 ^ c))
unfolding walk_list
walk_list-IsChain zero m c prev p ys n chain enough small = absurd (omega arith)
walk_list-IsChain (suc fuel) m c prev p [] n chain enough small =
    let none : n + 0 * 2 ^ c ≡ n = omega arith in rw (chain, none) refl
walk_list-IsChain (suc fuel) m c prev p (y ∷ ys) n (first, ne, before, cls, out, rest) enough
      small =
    let split : suc (length ys) * 2 ^ c ≡ 2 ^ c + length ys * 2 ^ c = omega arith in
    let sum : (n * page_size + 2 ^ c * page_size) % 2 ^ 64 ≡ (n + 2 ^ c) * page_size =
      omega arith in
    let later =
      walk_list-IsChain fuel m c y (m.blocks y).next ys (n + 2 ^ c) rest (omega arith)
        (omega arith) in
    let all : n + 2 ^ c + length ys * 2 ^ c ≡ n + suc (length ys) * 2 ^ c = omega arith in
    rw (first, ne→== y null ne, cls, ==_refl c, sum) (later ∙ ap (λ z. ok (tally z)) all)

pages_below-le :
    (left n k : ℕ) (xs : ℕ → List ℕ) → left + n ≡ k → pages_below n xs ≤ pages_below k xs
pages_below-le zero n k xs at = let same : n ≡ k = omega arith in rw same (omega arith)
pages_below-le (suc left) n zero xs at = absurd (omega arith)
pages_below-le (suc left) n (suc k) xs at = omega (arith, pages_below-le left n k xs (omega arith))

walk_classes-Keeps :
    (left fuel i : ℕ) {m : Mem} {xs : ℕ → List ℕ} {bs : ℕ → BitSet}
    → left + i ≡ class_count
    → Keeps m xs bs
    → ((d : ℕ) → d < class_count → length (xs d) < fuel)
    → total xs ≤ 2 ^ 35
    → walk_classes fuel left i m (tally (pages_below i xs)) ≡ ok (tally (total xs))
unfolding walk_classes
walk_classes-Keeps zero fuel i {xs = xs} at keeps enough small =
    let last : i ≡ class_count = omega arith in ap (λ z. ok (tally (pages_below z xs))) last
walk_classes-Keeps (suc left) fuel i {m} {xs} at keeps enough small =
    let low : i < class_count = omega arith in
    let (info, found, chain) = keeps.holds i low in
    let most : pages_below (suc i) xs ≤ total xs =
      pages_below-le left (suc i) class_count xs (omega arith) in
    let walked =
      walk_list-IsChain fuel m i null info.freelist (xs i) (pages_below i xs) chain (enough i low)
        (omega arith) in
    let next : i + 1 ≡ suc i = omega arith in
    rw (found, walked, next) (walk_classes-Keeps left fuel (suc i) (omega arith) keeps enough small)

-- `validate_heap` succeeds exactly where the free memory is what the lists hold.
pub validate_heap-assert :
    {m : Mem} {xs : ℕ → List ℕ} {bs : ℕ → BitSet} (fuel : ℕ)
    → Keeps m xs bs
    → total xs ≤ 2 ^ 35
    → total xs < fuel
    → validate_heap fuel m ≡ assert (total xs * page_size == m.free_memory)
unfolding validate_heap
validate_heap-assert {m} {xs} fuel keeps small enough =
    let walked =
      walk_classes-Keeps class_count fuel 0 refl keeps
        (λ d low. omega (arith, length-le_total d xs low)) small in
    rw walked refl

-- On a well-formed heap `validate_heap` ends and its assertion holds, if it may take a step more for
-- each list than the memory has pages.
pub validate_heap-IsHeap :
    {pages : ℕ} {m : Mem} {xs : ℕ → List ℕ} {bs : ℕ → BitSet} (fuel : ℕ)
    → IsHeap pages m xs bs
    → pages < fuel
    → validate_heap fuel m ≡ ok tt
validate_heap-IsHeap {pages} {m} {xs} fuel heap enough =
    let most = ones-le m.free_pages.words pages 0 in
    validate_heap-assert fuel heap.keeps (omega (arith, heap.counted, heap.small))
      (omega (arith, heap.counted))
    ∙ rw (heap.accounted, ==_refl (total xs * page_size)) refl
