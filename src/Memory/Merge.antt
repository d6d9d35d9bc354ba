-- ===== src/Memory/Merge.antt =====
-- `release_pages` of kern/memory.c on one page: blocks are merged with their free buddies.
use native.Mathlib.Nat.{one-le-pow}
use dumboss.Base.{
  update, ℕ, zero, suc, ◌+◌, ◌-◌, ◌/◌, ◌%◌, ◌^◌, ◌≤◌, ◌<◌, ◌≡◌, refl, sym, ap, ◌∙◌, inl, inr, Bool,
  true, false, ◌||◌, ◌&&◌, List, [], ◌∷◌, ◌==◌, if◌then◌else◌, Bool-cases, arith, leb, ltb, ok,
  bit_xor, min,
}
use dumboss.BitSet.{BitSet}
use dumboss.BitSet.Ones.{bit_at}
use dumboss.BitSet.Query.{get-bit_at}
use dumboss.BitSet.Update.{of_bool, set_bit-Writes}
use dumboss.Memory.{Mem, class_count, null, buddy_info}
use dumboss.Memory.Alloc.{get_buddy, set_buddy}
use dumboss.Memory.Release.{merge}
use dumboss.Memory.Freelist.{add_to_freelist, remove_from_freelist}
use dumboss.Memory.Chain.{erase, has-erase_self, has-erase_ne, length-erase}
use dumboss.Memory.Heap.{block_of, Yields}
use dumboss.Memory.Blocks.{
  Keeps, SamePages, get_buddy-eq, Keeps-set_buddy, Keeps-add_to_freelist,
  Keeps-remove_from_freelist,
}
use dumboss.Memory.Layout.{Layout, Removes, on, PairIs, place, block_of_inj}
use dumboss.Memory.Handed.{handed}
use dumboss.Memory.Added.{IsHeld, added, new}
use dumboss.Memory.Total.{total, total-cons, total-tail}
use dumboss.Memory.Buddy.{IsBuddy, bit_xor-IsBuddy}
use dumboss.Memory.Align.{pow_next, half_cases}

-- Behind the call the free blocks lie as they must for the bits `free'` of free pages, and there are
-- `more` pages on the lists.
pub record Merged (pages : ℕ) (usable free' : ℕ → ℕ) (m m' : Mem) (before more : ℕ) : Type 0 where
  pub lists : ℕ → List ℕ
  pub buddies : ℕ → BitSet
  pub keeps : Keeps m' lists buddies
  pub layout : Layout pages lists buddies usable free'
  pub sum : total lists ≡ before + more
  pub same : SamePages m m'

-- The bits of free pages with those of a range set.
abbrev pub Freed : (ℕ → ℕ) → (ℕ → ℕ) → ℕ → ℕ → Type 0
Freed free free' begin count =
    (k : ℕ) → free' k ≡ (if leb begin k && ltb k (begin + count) then of_bool true else free k)

module _ {pages : ℕ} {xs : ℕ → List ℕ} {bs : ℕ → BitSet} {usable free : ℕ → ℕ}
    (layout : Layout pages xs bs usable free) (c p : ℕ) (held : IsHeld pages usable free c p)
    (low : c + 1 < class_count) {buddy pair : ℕ} (is_buddy : IsBuddy c p buddy pair) where
  open is_buddy use {pair_aligned, index, pair_index, sides}

  some_pages : 1 ≤ 2 ^ c
  some_pages = one-le-pow c 2 (omega arith)

  pair_inside : pair < pages
  pair_inside =
      let inside = held.inside in
      elim sides [
        | inl (at, other) ↦ omega (arith, some_pages)
        | inr (at, other) ↦ omega (arith, some_pages)
      ]

  pair_bit :
      bit_at (bs c).words (p / 2 ^ (c + 1)) ≡ of_bool (on xs c pair || on xs c (pair + 2 ^ c))
  pair_bit =
      ap (bit_at (bs c).words) (sym pair_index) ∙ layout.pairs c pair low pair_inside pair_aligned

  -- With the pair's bit 0 neither half is free, and with it 1 the buddy is.
  quiet :
      (q : ℕ)
      → (bit_at (bs c).words (p / 2 ^ (c + 1)) == 1) ≡ false
      → q / 2 ^ (c + 1) ≡ p / 2 ^ (c + 1)
      → on xs c q ≡ false
  quiet q off same = elim (Bool-cases (on xs c q)) [
    | inr h ↦ h
    | inl h ↦
        let (r, at, _, aligned, _) = layout.blocks c (block_of q) h in
        let same_page = block_of_inj q r at in
        let bit = pair_bit in
        elim (half_cases (2 ^ c) pair q some_pages (rw (← pow_next c) pair_aligned)
          (rw same_page aligned) (rw (← pow_next c) (same ∙ sym pair_index))) [
            | inl first ↦
                let lit : on xs c pair ≡ true = ap (on xs c) (sym first) ∙ h in ground arith
            | inr second ↦
                let lit : on xs c (pair + 2 ^ c) ≡ true = ap (on xs c) (sym second) ∙ h in
                ground arith
          ]
  ]

  busy : (bit_at (bs c).words (p / 2 ^ (c + 1)) == 1) ≡ true → on xs c buddy ≡ true
  busy lit =
      let bit = pair_bit in
      let alone = new layout c p held c in
      elim sides [
        | inl (at, other) ↦
            let off : on xs c pair ≡ false = ap (on xs c) (sym at) ∙ alone in
            ap (on xs c) other ∙ ground arith
        | inr (at, other) ↦
            let off : on xs c (pair + 2 ^ c) ≡ false = ap (on xs c) (sym at) ∙ alone in
            ap (on xs c) other ∙ ground arith
      ]

  least : min p buddy ≡ pair
  least = elim sides [ inl (at, other) ↦ omega arith | inr (at, other) ↦ omega arith ]

  -- The bits with the buddy's pages taken.
  abbrev without_buddy : ℕ → ℕ
  without_buddy k = if leb buddy k && ltb k (buddy + 2 ^ c) then of_bool false else free k

  buddy_place : on xs c buddy ≡ true → (buddy % 2 ^ c ≡ 0) × (buddy + 2 ^ c ≤ pages)
  buddy_place h =
      let (b, at, _, aligned, inside) = layout.blocks c (block_of buddy) h in
      let same = block_of_inj buddy b at in rw same (aligned, inside)

  -- The two together are a block of the next class.
  pair-IsHeld : on xs c buddy ≡ true → IsHeld pages usable without_buddy (c + 1) pair
  pair-IsHeld h =
      let twice = pow_next c in
      let (_, buddy_inside) = buddy_place h in
      let inside = held.inside in
      record {
        aligned = pair_aligned;
        inside = elim sides [ inl (at, other) ↦ omega arith | inr (at, other) ↦ omega arith ];
        may_use = λ k lo hi. elim (Bool-cases (leb buddy k && ltb k (buddy + 2 ^ c))) [
          | inl there ↦ (layout.listed c buddy k h (ground arith) (ground arith)).0
          | inr here ↦ elim sides [
            | inl (at, other) ↦ held.may_use k (ground arith) (ground arith)
            | inr (at, other) ↦ held.may_use k (ground arith) (ground arith)
          ]
        ];
        not_free = λ k lo hi. elim (Bool-cases (leb buddy k && ltb k (buddy + 2 ^ c))) [
          | inl there ↦ rw there refl
          | inr here ↦ rw here (elim sides [
            | inl (at, other) ↦ held.not_free k (ground arith) (ground arith)
            | inr (at, other) ↦ held.not_free k (ground arith) (ground arith)
          ])
        ];
      }

  Freed-pair :
      (free' : ℕ → ℕ)
      → on xs c buddy ≡ true
      → Freed free free' p (2 ^ c)
      → Freed without_buddy free' pair (2 ^ (c + 1))
  Freed-pair free' h freed k =
      let twice = pow_next c in
      let here = freed k in
      elim (Bool-cases (leb buddy k && ltb k (buddy + 2 ^ c))) [
        | inl there ↦
            let (_, lit) = layout.listed c buddy k h (ground arith) (ground arith) in
            elim sides [ inl (at, other) ↦ ground arith | inr (at, other) ↦ ground arith ]
        | inr away ↦ elim sides [ inl (at, other) ↦ ground arith | inr (at, other) ↦ ground arith ]
      ]

Removes-erase :
    {m : Mem} {xs : ℕ → List ℕ} {bs : ℕ → BitSet} (c p : ℕ)
    → Keeps m xs bs
    → c < class_count
    → on xs c p ≡ true
    → Removes xs c p (erase (block_of p) (xs c))
Removes-erase {m} {xs} c p keeps low h =
    let (info, e, chain) = keeps.holds c low in
    record {
      was_on = h;
      out = has-erase_self m.blocks c null info.freelist (block_of p) (xs c) chain;
      others = λ a ne. has-erase_ne a (block_of p) (xs c) ne;
      one_less = length-erase (block_of p) (xs c) h;
    }

-- The bit of a block's pair is written.
sets_pair :
    {m : Mem} {xs : ℕ → List ℕ} {bs : ℕ → BitSet} (c p : ℕ) (value : Bool)
    → Keeps m xs bs
    → c + 1 < class_count
    → p / 2 ^ (c + 1) < (bs c).count
    → (m1 : Mem) × (bs1 : ℕ → BitSet) × (set_buddy m c (p / 2 ^ (c + 1)) value ≡ ok m1)
      × Keeps m1 xs bs1
      × PairIs (of_bool value) c p bs bs1
      × SamePages m m1
sets_pair {bs = bs} c p value keeps low bound =
    let k = p / 2 ^ (c + 1) in
    let (b, set_it, w) = set_bit-Writes k value (keeps.valid c) bound in
    let (m1, set_pair, (keeps1, same)) = Keeps-set_buddy keeps c k value b low set_it w.valid in
    (
      m1,
      update bs c b,
      set_pair,
      keeps1,
      λ d d_low.
          let same_count = w.same_count in
          (ground arith, λ i. let before = w.bits i in ground arith),
      same,
    )

PairIs-half :
    (value c p q : ℕ) (bs bs1 : ℕ → BitSet)
    → q / 2 ^ (c + 1) ≡ p / 2 ^ (c + 1)
    → PairIs value c p bs bs1
    → PairIs value c q bs bs1
PairIs-half value c p q bs bs1 same paired d low =
    let (count, bits) = paired d low in rw same (count, bits)

SamePages-trans : {m m1 m2 : Mem} → SamePages m m1 → SamePages m1 m2 → SamePages m m2
SamePages-trans a b = record {
  class_total = b.class_total ∙ a.class_total;
  free_memory = b.free_memory ∙ a.free_memory;
  usable_pages = b.usable_pages ∙ a.usable_pages;
  free_pages = b.free_pages ∙ a.free_pages;
}

-- The block comes onto its list.
module _ {pages : ℕ} {m : Mem} {xs : ℕ → List ℕ} {bs bs' : ℕ → BitSet} {usable free : ℕ → ℕ}
    (small : pages ≤ 2 ^ 35) (keeps : Keeps m xs bs') (layout : Layout pages xs bs usable free)
    (c p : ℕ) (held : IsHeld pages usable free c p) (free' : ℕ → ℕ)
    (freed : Freed free free' p (2 ^ c)) where
  adds :
      c < class_count
      → ((q : ℕ) → c + 1 < class_count → q / 2 ^ (c + 1) ≡ p / 2 ^ (c + 1) → on xs c q ≡ false)
      → PairIs 1 c p bs bs'
      → Yields (λ m'. Merged pages usable free' m m' (total xs) (2 ^ c)) (add_to_freelist m p c)
  adds low no_buddy paired =
      let some_pages = one-le-pow c 2 (omega arith) in
      let (m', done, (keeps', same)) =
        Keeps-add_to_freelist keeps p c low held.aligned (omega (arith, held.inside))
          (new layout c p held) in
      (
        m',
        done,
        record {
          lists = update xs c (block_of p ∷ xs c);
          buddies = bs';
          keeps = keeps';
          layout = added layout c p held low no_buddy bs' paired free' freed;
          sum = total-cons c (block_of p) xs low;
          same = same;
        },
      )

pub Merged-after :
    {pages : ℕ} {usable free' : ℕ → ℕ} {m m1 m' : Mem} {before more before1 more1 : ℕ}
    → SamePages m m1
    → before1 + more1 ≡ before + more
    → Merged pages usable free' m1 m' before1 more1
    → Merged pages usable free' m m' before more
Merged-after same sum merged = record {
  lists = merged.lists;
  buddies = merged.buddies;
  keeps = merged.keeps;
  layout = merged.layout;
  sum = merged.sum ∙ sum;
  same = SamePages-trans same merged.same;
}

-- The buddy leaves its list.
module _ {pages : ℕ} {m : Mem} {xs : ℕ → List ℕ} {bs bs' : ℕ → BitSet} {usable free : ℕ → ℕ}
    (small : pages ≤ 2 ^ 35) (keeps : Keeps m xs bs') (layout : Layout pages xs bs usable free)
    (c p : ℕ) (low : c < class_count) (h : on xs c p ≡ true) where
  abbrev rest : List ℕ
  rest = erase (block_of p) (xs c)

  gone : Removes xs c p rest
  gone = Removes-erase c p keeps low h

  takes :
      (free1 : ℕ → ℕ)
      → PairIs 0 c p bs bs'
      → ((k : ℕ) → free1 k ≡ (if leb p k && ltb k (p + 2 ^ c) then of_bool false else free k))
      → (m1 : Mem) × (remove_from_freelist m p c ≡ ok m1)
        × Keeps m1 (update xs c rest) bs'
        × Layout pages (update xs c rest) bs' usable free1
        × (total (update xs c rest) + 2 ^ c ≡ total xs)
        × SamePages m m1
  takes free1 cleared wiped =
      let (_, aligned, inside) = place layout c p rest gone in
      let some_pages = one-le-pow c 2 (omega arith) in
      let (m1, done, (keeps1, same)) =
        Keeps-remove_from_freelist keeps p c low aligned (omega arith) h in
      (
        m1,
        done,
        keeps1,
        handed layout c p rest gone bs' bs' cleared (2 ^ c) some_pages (omega arith) [] refl
            (λ d. (refl, λ k. refl)) free1 wiped,
        total-tail c xs rest low gone.one_less,
        same,
      )

-- From size class `c` on, a held block is merged with its free buddies, and comes onto a list: the
-- calls fail no assertion.
pub merge-Merged :
    (left : ℕ) {pages : ℕ} {m : Mem} {xs : ℕ → List ℕ} {bs : ℕ → BitSet} {usable free : ℕ → ℕ}
    (c p : ℕ)
    → left + c ≡ class_count - 1
    → pages ≤ 2 ^ 35
    → Keeps m xs bs
    → Layout pages xs bs usable free
    → IsHeld pages usable free c p
    → (free' : ℕ → ℕ) → Freed free free' p (2 ^ c)
    → Yields (λ m'. Merged pages usable free' m m' (total xs) (2 ^ c)) (merge left c p m)
unfolding merge buddy_info
merge-Merged zero c p at small keeps layout held free' freed =
    let last : c ≡ class_count - 1 = omega arith in
    let here =
      adds small keeps layout c p held free' freed (omega arith) (λ q low. absurd (omega arith))
        (λ d low. (refl, λ k. ground arith)) in
    let aligned : p % 2 ^ (class_count - 1) ≡ 0 = ap (λ z. p % 2 ^ z) (sym last) ∙ held.aligned in
    let (m', done, merged) = here in
    (m', rw aligned (ap (add_to_freelist _ p) (sym last) ∙ done), merged)
merge-Merged (suc left) {m = m} {xs} {bs} c p at small keeps layout held free' freed =
    let low : c + 1 < class_count = omega arith in
    let some_pages = one-le-pow c 2 (omega arith) in
    let k = p / 2 ^ (c + 1) in
    let buddy = bit_xor p (2 ^ c) in
    let (pair, is_buddy) = bit_xor-IsBuddy c p held.aligned in
    let aligned = held.aligned in
    let bound = layout.indices c p low (omega (arith, held.inside)) in
    let read : get_buddy m c k ≡ ok (bit_at (bs c).words k == 1) =
      get_buddy-eq keeps c k low ∙ get-bit_at (keeps.valid c) k bound in
    elim (Bool-cases (bit_at (bs c).words k == 1)) [
      | inr off ↦
          let (m1, bs1, set_pair, keeps1, paired, same1) = sets_pair c p true keeps low bound in
          let (m', done, merged) =
            adds small keeps1 layout c p held free' freed (omega arith)
              (λ q _ same. quiet layout c p held low is_buddy q off same) paired in
          (m', rw (aligned, read, off, set_pair) done, Merged-after same1 refl merged)
      | inl on ↦
          let (m1, bs1, set_pair, keeps1, paired, same1) = sets_pair c p false keeps low bound in
          let free1 = without_buddy layout c p held low is_buddy in
          let h = busy layout c p held low is_buddy on in
          let cleared = PairIs-half 0 c p buddy bs bs1 is_buddy.index paired in
          let (m2, taken, keeps2, layout2, sum, same2) =
            takes small keeps1 layout c buddy (omega arith) h free1 cleared (λ k. refl) in
          let (m', done, merged) =
            merge-Merged left (c + 1) pair (omega arith) small keeps2 layout2
              (pair-IsHeld layout c p held low is_buddy h) free'
              (Freed-pair layout c p held low is_buddy free' h freed) in
          let more : total (update xs c (erase (block_of buddy) (xs c))) + 2 ^ (c + 1)
              ≡ total xs + 2 ^ c =
            omega (arith, sum, pow_next c) in
          let merged' = Merged-after (SamePages-trans same1 same2) more merged in
          (
            m',
            rw (aligned, read, on, set_pair, taken, least layout c p held low is_buddy) done,
            merged',
          )
    ]
