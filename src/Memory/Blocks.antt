-- ===== src/Memory/Blocks.antt =====
-- All free lists and buddy bits of kern/memory.c at once, and the operations on one class among them.
use dumboss.Base.{
  update, ℕ, ◌+◌, ◌%◌, ◌^◌, ◌<◌, ◌≡◌, ◌≢◌, refl, sym, ap, ◌∙◌, inl, inr, Bool, true, false, Option,
  none, some, List, ◌∷◌, ◌==◌, ==_iff, Bool-cases, get_elem?, set, get_elem?-set_self,
  get_elem?-set_ne, length-set, lt-length_of_get_elem?, lt→ltb, length, arith, ok,
}
use mathlib.Core.Path.{subst}
use dumboss.BitSet
use dumboss.BitSet.{BitSet}
use dumboss.BitSet.Ones.{IsValid}
use dumboss.Memory.{Mem, ClassInfo, class_count, null}
use dumboss.Memory.Freelist.{add_to_freelist, pop_freelist, remove_from_freelist}
use dumboss.Memory.Alloc.{get_buddy, set_buddy}
use dumboss.Memory.Chain.{has, erase, not-has-erase, IsChain}
use dumboss.Memory.Heap.{
  Holds, Relisted, Relisted-Holds, Yields, buddies_of, block_of, add_to_freelist-cons,
  pop_freelist-cons, remove_from_freelist-erase,
}

-- Each class's free list is the one given, no block is on two of them, and each class's set of
-- buddies is the one given.
pub record Keeps (m : Mem) (xs : ℕ → List ℕ) (bs : ℕ → BitSet) : Type 0 where
  pub holds : (d : ℕ) → d < class_count → Holds m d (xs d)
  pub apart : (c d a : ℕ) → c ≢ d → has a (xs c) ≡ true → has a (xs d) ≡ false
  pub buddies : (d : ℕ) → d + 1 < class_count → buddies_of (get_elem? m.classes d) ≡ some (bs d)
  pub valid : (d : ℕ) → IsValid (bs d)

-- The counter and the sets of pages have not changed, nor the number of classes.
pub record SamePages (m m' : Mem) : Type 0 where
  pub class_total : length m'.classes ≡ length m.classes
  pub free_memory : m'.free_memory ≡ m.free_memory
  pub usable_pages : m'.usable_pages ≡ m.usable_pages
  pub free_pages : m'.free_pages ≡ m.free_pages

module _ {m : Mem} {xs : ℕ → List ℕ} {bs : ℕ → BitSet} (keeps : Keeps m xs bs) where
  open keeps use {holds, apart, buddies, valid}

  -- Behind a call that has changed the list of one class and the headers of blocks that are on no
  -- other.
  Relisted-Keeps :
      {m' : Mem} (class : ℕ) (ys zs : List ℕ)
      → Relisted m m' class ys zs
      → ((a : ℕ) → has a ys ≡ true → (d : ℕ) → d ≢ class → has a (xs d) ≡ false)
      → ((a : ℕ) → has a zs ≡ true → (d : ℕ) → d ≢ class → has a (xs d) ≡ false)
      → Keeps m' (update xs class ys) bs × SamePages m m'
  Relisted-Keeps {m'} class ys zs r fresh untouched = (
    record {
      holds = λ d b. elim (Bool-cases (d == class)) [
        | inl e ↦
            let at = (==_iff d class).0 e in rw e (subst (λ z. Holds m' z ys) (sym at) r.holds)
        | inr e ↦
            let other : d ≢ class = ground arith in
            let away : (a : ℕ) → has a (xs d) ≡ true → has a zs ≡ false = λ a on.
              elim (Bool-cases (has a zs)) [
                | inl h ↦ let off = untouched a h d other in cc
                | inr h ↦ h
              ] in
            rw e (Relisted-Holds d (xs d) r (λ f. other (sym f)) away (holds d b))
      ];
      apart = λ c d a ne on. elim (Bool-cases (c == class)) [
        | inl e ↦
            let other : d ≢ class = ground arith in
            let off = fresh a (ground arith) d other in ground arith
        | inr e ↦
            let other : c ≢ class = ground arith in
            let there : has a (xs c) ≡ true = ground arith in
            let off = apart c d a ne there in
            elim (Bool-cases (has a ys)) [
              | inl h ↦ let gone = fresh a h c other in cc
              | inr h ↦ ground arith
            ]
      ];
      buddies = λ d b. elim (Bool-cases (d == class)) [
        | inl e ↦
            let at = (==_iff d class).0 e in
            ap (λ z. buddies_of (get_elem? m'.classes z)) at
            ∙ r.buddies
            ∙ ap (λ z. buddies_of (get_elem? m.classes z)) (sym at)
            ∙ buddies d b
        | inr e ↦ ap buddies_of (r.others d (ground arith)) ∙ buddies d b
      ];
      valid = valid;
    },
    record {
      class_total = r.class_total;
      free_memory = r.free_memory;
      usable_pages = r.usable_pages;
      free_pages = r.free_pages;
    },
  )

  -- A block that is on no list comes onto one.
  pub Keeps-add_to_freelist :
      (page class : ℕ)
      → class < class_count
      → page % 2 ^ class ≡ 0
      → page < 2 ^ 35
      → ((d : ℕ) → has (block_of page) (xs d) ≡ false)
      → Yields
          (λ m'. Keeps m' (update xs class (block_of page ∷ xs class)) bs × SamePages m m')
          (add_to_freelist m page class)
  Keeps-add_to_freelist page class lt aligned low fresh =
      let (m', done, r) =
        add_to_freelist-cons page class (xs class) lt aligned low (holds class lt) (fresh class) in
      let ys = block_of page ∷ xs class in
      let new : (a : ℕ) → has a ys ≡ true → (d : ℕ) → d ≢ class → has a (xs d) ≡ false =
        λ a on d ne. ground (arith, fresh d, apart class d a) in
      (m', done, Relisted-Keeps class ys ys r new new)

  -- The first block of a list is popped.
  pub Keeps-pop_freelist :
      (class x : ℕ) (rest : List ℕ)
      → class < class_count
      → xs class ≡ x ∷ rest
      → (m' : Mem) × (pop_freelist m class ≡ ok (x, m'))
        × Keeps m' (update xs class rest) bs
        × SamePages m m'
  Keeps-pop_freelist class x rest lt top =
      let (m', done, r) =
        pop_freelist-cons class x rest lt (subst (Holds m class) top (holds class lt)) in
      let was : (a : ℕ) → has a rest ≡ true → has a (xs class) ≡ true =
        λ a on. rw top (ground arith) in
      let kept : (a : ℕ) → has a rest ≡ true → (d : ℕ) → d ≢ class → has a (xs d) ≡ false =
        λ a on d ne. apart class d a (λ e. ne (sym e)) (was a on) in
      let (keeps', same) = Relisted-Keeps class rest rest r kept kept in (m', done, keeps', same)

  -- A block is taken out of its list, wherever it stands.
  pub Keeps-remove_from_freelist :
      (page class : ℕ)
      → class < class_count
      → page % 2 ^ class ≡ 0
      → page < 2 ^ 35
      → has (block_of page) (xs class) ≡ true
      → Yields
          (λ m'. Keeps m' (update xs class (erase (block_of page) (xs class))) bs × SamePages m m')
          (remove_from_freelist m page class)
  Keeps-remove_from_freelist page class lt aligned low found =
      let rest = erase (block_of page) (xs class) in
      let (m', done, r) =
        remove_from_freelist-erase page class (xs class) lt aligned low (holds class lt) found in
      let was : (a : ℕ) → has a rest ≡ true → has a (xs class) ≡ true =
        λ a on. ground (arith, not-has-erase a (block_of page) (xs class)) in
      let kept : (a : ℕ) → has a (xs class) ≡ true → (d : ℕ) → d ≢ class → has a (xs d) ≡ false =
        λ a on d ne. apart class d a (λ e. ne (sym e)) on in
      (m', done, Relisted-Keeps class rest (xs class) r (λ a on. kept a (was a on)) kept)

  class_of :
      (d : ℕ)
      → d + 1 < class_count
      → (info : ClassInfo) × (get_elem? m.classes d ≡ some info) × (info.buddies ≡ bs d)
  class_of d lt = known (get_elem? m.classes d) (buddies d lt)
    where
      known :
          (o : Option ClassInfo)
          → buddies_of o ≡ some (bs d)
          → (info : ClassInfo) × (o ≡ some info) × (info.buddies ≡ bs d)
      known none e = cc
      known (some info) e = (info, refl, cc)

  pub get_buddy-eq : (d i : ℕ) → d + 1 < class_count → get_buddy m d i ≡ BitSet.get (bs d) i
  get_buddy-eq d i lt = let (info, e, at) = class_of d lt in rw (e, at) refl

  pub Keeps-set_buddy :
      (d i : ℕ) (value : Bool) (b : BitSet)
      → d + 1 < class_count
      → BitSet.set_bit (bs d) i value ≡ ok b
      → IsValid b
      → Yields (λ m'. Keeps m' xs (update bs d b) × SamePages m m') (set_buddy m d i value)
  Keeps-set_buddy d i value b lt e v =
      let (info, found, at) = class_of d lt in
      let bound = lt-length_of_get_elem? m.classes d found in
      let new : ClassInfo = record info { buddies = b } in
      (
        record m { classes = set m.classes d new },
        rw (found, at, e, lt→ltb d (length m.classes) bound),
        (
          record {
            holds = λ c low. elim (Bool-cases (c == d)) [
              | inl same ↦
                  let here = (==_iff c d).0 same in
                  let (old, known, chain) = holds c low in
                  let known_here : get_elem? m.classes d ≡ some old =
                    sym (ap (get_elem? m.classes) here) ∙ known in
                  let same_info : old ≡ info = cc in
                  (
                    new,
                    ap (get_elem? (set m.classes d new)) here
                        ∙ get_elem?-set_self m.classes d new bound,
                    subst (λ z. IsChain m.blocks c null z.freelist (xs c)) same_info chain,
                  )
              | inr other ↦
                  let (old, known, chain) = holds c low in
                  (old, get_elem?-set_ne m.classes d c new (ground arith) ∙ known, chain)
            ];
            apart = apart;
            buddies = λ c low. elim (Bool-cases (c == d)) [
              | inl same ↦
                  let here = (==_iff c d).0 same in
                  rw same (
                    ap (λ z. buddies_of (get_elem? (set m.classes d new) z)) here
                    ∙ ap buddies_of (get_elem?-set_self m.classes d new bound))
              | inr other ↦ rw other (
                  ap buddies_of (get_elem?-set_ne m.classes d c new (ground arith)) ∙ buddies c low)
            ];
            valid = λ c. ground (arith, valid c);
          },
          record {
            class_total = length-set m.classes d new;
            free_memory = refl;
            usable_pages = refl;
            free_pages = refl;
          },
        ),
      )

  -- The counter and the sets of pages may be anything.
  pub Keeps-pages :
      (free_memory : ℕ) (usable_pages free_pages : BitSet)
      → Keeps
          (record m {
            free_memory = free_memory;
            usable_pages = usable_pages;
            free_pages = free_pages;
          })
          xs
          bs
  Keeps-pages free_memory usable_pages free_pages = record {
    holds = holds;
    apart = apart;
    buddies = buddies;
    valid = valid;
  }
