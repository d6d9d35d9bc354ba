-- ===== src/Memory/Allocate.antt =====
-- `alloc_raw` of kern/memory.c on a well-formed heap.
use native.Mathlib.Nat.{mod-add-div, mul-mod_right, mul-div_cancel_left, one-le-pow}
use mathlib.Core.Path.{subst, subst₂}
use dumboss.Base.{
  update, ℕ, ◌+◌, ◌-◌, ◌*◌, ◌/◌, ◌%◌, ◌^◌, ◌≤◌, ◌<◌, ◌≡◌, refl, sym, ap, ◌∙◌, inl, inr, Bool, true,
  false, ◌||◌, List, ◌∷◌, ◌==◌, ==_iff, Bool-cases, length, arith, ok,
}
use dumboss.BitSet.{BitSet, get_all, set_range}
use dumboss.BitSet.Ones.{IsValid, bit_at, ones, ones-le}
use dumboss.BitSet.Count.{ones-cleared}
use dumboss.BitSet.Query.{get-bit_at, get_all_iff}
use dumboss.BitSet.Update.{Written, set_bit-Writes, set_range-Writes}
use dumboss.Memory.{Mem, class_count, page_size, buddy_info}
use dumboss.Memory.Address.{physical_address}
use dumboss.Memory.Alloc.{clear_buddy, take_block, get_buddy}
use dumboss.Memory.Heap.{Holds, block_of}
use dumboss.Memory.Pieces.{onto}
use dumboss.Memory.Total.{total, total-onto, total-tail}
use dumboss.Memory.Blocks.{
  Keeps, SamePages, get_buddy-eq, Keeps-set_buddy, Keeps-pop_freelist, Keeps-pages,
}
use dumboss.Memory.Split.{give_back-Gives}
use dumboss.Memory.Layout.{Layout, IsHeap, Removes, on, PairIs, place, taken}
use dumboss.Memory.Handed.{handed}
use dumboss.Memory.Align.{pow_next, half_cases}

pub physical_address-block_of : (p : ℕ) → physical_address (block_of p) ≡ ok (p * page_size)
unfolding physical_address
physical_address-block_of p = ground arith

module _ {pages : ℕ} {xs : ℕ → List ℕ} {bs : ℕ → BitSet} {usable free : ℕ → ℕ}
    (layout : Layout pages xs bs usable free) (c begin : ℕ) (rest : List ℕ)
    (gone : Removes xs c begin rest) where
  -- The bit of the first block's pair is set.
  pair-set : c + 1 < class_count → bit_at (bs c).words (begin / 2 ^ (c + 1)) ≡ 1
  pair-set low =
      let e = 2 ^ (c + 1) in
      let (_, aligned, inside) = place layout c begin rest gone in
      let first_free = gone.was_on in
      let p = e * (begin / e) in
      let positive = one-le-pow (c + 1) 2 (omega arith) in
      let some_pages = one-le-pow c 2 (omega arith) in
      let at : p / e ≡ begin / e = mul-div_cancel_left (begin / e) positive in
      let pair_aligned : p % e ≡ 0 = mul-mod_right e (begin / e) in
      let one_free : on xs c p || on xs c (p + 2 ^ c) ≡ true =
        elim (half_cases (2 ^ c) p begin some_pages (rw (← pow_next c) pair_aligned) aligned
          (rw (← pow_next c) (sym at))) [
            | inl first ↦ rw (ap (on xs c) (sym first) ∙ first_free) refl
            | inr second ↦ let other = ap (on xs c) (sym second) ∙ first_free in ground arith
          ] in
      ap (bit_at (bs c).words) (sym at)
      ∙ (layout.pairs c p low (omega (arith, mod-add-div begin e)) pair_aligned ∙ rw one_free refl)

  PairIs-update :
      (b : BitSet)
      → Written (bs c) b (begin / 2 ^ (c + 1)) (begin / 2 ^ (c + 1) + 1) false
      → PairIs 0 c begin bs (update bs c b)
  PairIs-update b w d low =
      let same = w.same_count in (ground arith, λ i. let before = w.bits i in ground arith)

  clears :
      {m : Mem}
      → Keeps m (update xs c rest) bs
      → (m' : Mem) × (bs' : ℕ → BitSet) × (clear_buddy c begin m ≡ ok m')
        × Keeps m' (update xs c rest) bs'
        × PairIs 0 c begin bs bs'
        × SamePages m m'
  unfolding clear_buddy buddy_info
  clears {m} keeps = elim (Bool-cases (c == class_count - 1)) [
    | inl last ↦
        let at : c ≡ class_count - 1 = (==_iff c (class_count - 1)).0 last in
        rw last (
          m,
          bs,
          refl,
          keeps,
          λ d low. (refl, λ k. ground arith),
          record { class_total = refl; free_memory = refl; usable_pages = refl; free_pages = refl },
        )
    | inr inner ↦
        let (low_class, aligned, inside) = place layout c begin rest gone in
        let low : c + 1 < class_count = ground arith in
        let some_pages = one-le-pow c 2 (omega arith) in
        let k = begin / 2 ^ (c + 1) in
        let bound = layout.indices c begin low (omega arith) in
        let odd : get_buddy m c k ≡ ok true =
          get_buddy-eq keeps c k low
          ∙ (get-bit_at (keeps.valid c) k bound ∙ rw (pair-set low) refl) in
        let (b, set_it, w) = set_bit-Writes k false (keeps.valid c) bound in
        let (m', set_pair, (keeps', same)) = Keeps-set_buddy keeps c k false b low set_it w.valid in
        rw (inner, aligned, odd, set_pair)
          (m', update bs c b, refl, keeps', PairIs-update b w, same)
  ]

-- What a call that hands out `count` pages from `begin` on does: they were all free, and are free no
-- more; no other page's bit has changed; the lists hold as many pages less; and the heap is well
-- formed.
pub record HandsOut (pages : ℕ) (m m' : Mem) (before begin count : ℕ) : Type 0 where
  pub lists : ℕ → List ℕ
  pub buddies : ℕ → BitSet
  pub heap : IsHeap pages m' lists buddies
  pub sum : total lists + count ≡ before
  pub inside : begin + count ≤ pages
  pub were_free : (k : ℕ) → begin ≤ k → k < begin + count → bit_at m.free_pages.words k ≡ 1
  pub wiped : Written m.free_pages m'.free_pages begin (begin + count) false
  pub usable : m'.usable_pages ≡ m.usable_pages
  pub free_memory : m'.free_memory ≡ (m.free_memory + 2 ^ 64 - count * page_size) % 2 ^ 64

module _ {pages : ℕ} {m : Mem} {xs : ℕ → List ℕ} {bs : ℕ → BitSet}
    (heap : IsHeap pages m xs bs) where
  alone : (c begin : ℕ) (rest : List ℕ) → xs c ≡ block_of begin ∷ rest → Removes xs c begin rest
  alone c begin rest top =
      let first_free : on xs c begin ≡ true = rw top (ground arith) in
      let (p, at, low, _, _) = heap.layout.blocks c (block_of begin) first_free in
      let (info, e, chain) = subst (Holds m c) top (heap.keeps.holds c low) in
      let (first, ne, before, cls, out, behind) = chain in
      record {
        was_on = first_free;
        out = out;
        others = λ a ne. rw top (ground arith);
        one_less = ap length top;
      }

  -- The assertions on the block's pages hold, and its first pages are marked as handed out.
  marks :
      (c begin : ℕ) (rest : List ℕ) (count : ℕ)
      → xs c ≡ block_of begin ∷ rest
      → count ≤ 2 ^ c
      → (free_pages : BitSet) × (get_all m.usable_pages begin (begin + count) ≡ ok true)
        × (get_all m.free_pages begin (begin + count) ≡ ok true)
        × (set_range m.free_pages begin (begin + count) false ≡ ok free_pages)
        × Written m.free_pages free_pages begin (begin + count) false
  marks c begin rest count top le =
      let gone = alone c begin rest top in
      let (_, _, inside) = place heap.layout c begin rest gone in
      let first_free = gone.was_on in
      let all : (k : ℕ)
          → begin ≤ k
          → k < begin + count
          → (bit_at m.usable_pages.words k ≡ 1) × (bit_at m.free_pages.words k ≡ 1) =
        λ k lo hi. heap.layout.listed c begin k first_free lo (omega arith) in
      let (u, get_usable, usable_iff) =
        get_all_iff heap.usable_valid begin (begin + count) (omega arith)
          (omega (arith, heap.usable_count)) in
      let (f, get_free, free_iff) =
        get_all_iff heap.free_valid begin (begin + count) (omega arith)
          (omega (arith, heap.free_count)) in
      let (fp, set_it, w) =
        set_range-Writes begin (begin + count) false heap.free_valid (omega arith)
          (omega (arith, heap.free_count)) in
      (
        fp,
        get_usable ∙ ap ok (usable_iff.1 (λ k lo hi. (all k lo hi).0)),
        get_free ∙ ap ok (free_iff.1 (λ k lo hi. (all k lo hi).1)),
        set_it,
        w,
      )

  pub settles :
      {m' : Mem} {fp : BitSet} {lo hi : ℕ} {value : Bool} {ys : ℕ → List ℕ} {bs' : ℕ → BitSet}
      → m'.usable_pages ≡ m.usable_pages
      → m'.free_pages ≡ fp
      → length m'.classes ≡ length m.classes
      → Written m.free_pages fp lo hi value
      → Keeps m' ys bs'
      → Layout pages ys bs' (bit_at m.usable_pages.words) (bit_at fp.words)
      → total ys ≡ ones fp.words pages 0
      → m'.free_memory ≡ total ys * page_size
      → IsHeap pages m' ys bs'
  settles {ys = ys} {bs' = bs'} u f twelve w keeps layout counted accounted = record {
    small = heap.small;
    twelve = twelve ∙ heap.twelve;
    usable_valid = subst IsValid (sym u) heap.usable_valid;
    free_valid = subst IsValid (sym f) w.valid;
    usable_count = subst (λ z. pages ≤ z.count) (sym u) heap.usable_count;
    free_count =
        subst (λ z. pages ≤ z.count) (sym f) (omega (arith, heap.free_count, w.same_count));
    keeps = keeps;
    counted = counted ∙ ap (λ z. ones z.words pages 0) (sym f);
    accounted = accounted;
    layout =
        subst₂ (λ a b. Layout pages ys bs' (bit_at a.words) (bit_at b.words)) (sym u) (sym f)
          layout;
  }

  pub take_block-HandsOut :
      (c begin : ℕ) (rest : List ℕ) (count : ℕ)
      → xs c ≡ block_of begin ∷ rest
      → 0 < count
      → count ≤ 2 ^ c
      → (m' : Mem) × (take_block m c count
          ≡ ok (record { bytes = block_of begin; count = count * page_size }, m'))
        × HandsOut pages m m' (total xs) begin count
  unfolding take_block
  take_block-HandsOut c begin rest count top positive le =
      let layout = heap.layout in
      let gone = alone c begin rest top in
      let (low, aligned, inside) = place layout c begin rest gone in
      let charged : Mem = record m {
        free_memory = (m.free_memory + 2 ^ 64 - count * page_size) % 2 ^ 64;
      } in
      let keeps = Keeps-pages heap.keeps charged.free_memory m.usable_pages m.free_pages in
      let (m1, popped, keeps1, same1) = Keeps-pop_freelist keeps c (block_of begin) rest low top in
      let (fp, all_usable, all_free, set_it, w) = marks c begin rest count top le in
      let keeps2 = Keeps-pages keeps1 m1.free_memory m.usable_pages fp in
      let (m3, bs1, unpaired, keeps3, cleared, same3) = clears layout c begin rest gone keeps2 in
      let (m4, ps, bs', gave, tiles, keeps4, marked, same4) =
        give_back-Gives c count begin low positive le aligned (omega (arith, heap.small))
          (taken layout c begin rest gone bs1 cleared) keeps3 in
      let usable_eq = same4.usable_pages ∙ same3.usable_pages in
      let free_eq = same4.free_pages ∙ same3.free_pages in
      let whole : begin * page_size / page_size ≡ begin = omega arith in
      let memory = same4.free_memory ∙ (same3.free_memory ∙ same1.free_memory) in
      let were_free : (k : ℕ) → begin ≤ k → k < begin + count → bit_at m.free_pages.words k ≡ 1 =
        λ k lo hi. (layout.listed c begin k gone.was_on lo (omega arith)).1 in
      let fewer = ones-cleared begin count pages (omega arith) w were_free in
      let pieces =
        total-onto c (begin + count) (begin + 2 ^ c) ps (update xs c rest) (omega arith) tiles in
      let sum : total (onto ps (update xs c rest)) + count ≡ total xs =
        omega (arith, pieces, total-tail c xs rest low gone.one_less) in
      let most : total xs ≤ 2 ^ 35 =
        omega (arith, heap.counted, ones-le m.free_pages.words pages 0, heap.small) in
      rw
        (
          popped,
          physical_address-block_of begin,
          whole,
          same1.usable_pages,
          all_usable,
          same1.free_pages,
          all_free,
          set_it,
          unpaired,
          gave,
        )
        (
          m4,
          refl,
          record {
            lists = onto ps (update xs c rest);
            buddies = bs';
            heap =
                settles usable_eq free_eq
                  (same4.class_total ∙ (same3.class_total ∙ same1.class_total)) w keeps4
                  (handed layout c begin rest gone bs1 bs' cleared count positive le ps tiles marked
                    (bit_at fp.words) w.bits)
                  (omega (arith, fewer, sum, heap.counted))
                  (memory ∙ omega (arith, heap.accounted, sum, most));
            sum = sum;
            inside = omega arith;
            were_free = were_free;
            wiped = subst (λ z. Written m.free_pages z begin (begin + count) false) (sym free_eq) w;
            usable = usable_eq;
            free_memory = memory;
          },
        )
