-- ===== src/Memory/Blank.antt =====
-- The page allocator of kern/memory.c as `memory__init` sets it up: all sets zeroed, all lists empty.
use mathlib.Core.Path.{subst}
use dumboss.Base.{
  ℕ, ◌+◌, ◌/◌, ◌^◌, ◌≤◌, ◌<◌, ◌≡◌, refl, sym, Option, none, some, [], length, get_elem?,
  lt-length_of_get_elem?, arith,
}
use dumboss.BitSet.{BitSet}
use dumboss.BitSet.Ones.{IsValid, bit_at, ones-empty_iff}
use dumboss.Memory.{Mem, ClassInfo, class_count, null}
use dumboss.Memory.Layout.{IsHeap}

-- The twelve classes have no block, and each but the last a zeroed bit for every pair of blocks.
pub record IsBlank (pages : ℕ) (m : Mem) : Type 0 where
  pub small : pages ≤ 2 ^ 35
  pub twelve : length m.classes ≡ class_count
  pub nothing : m.free_memory ≡ 0
  pub usable_valid : IsValid m.usable_pages
  pub free_valid : IsValid m.free_pages
  pub usable_count : pages ≤ m.usable_pages.count
  pub free_count : pages ≤ m.free_pages.count
  pub none_free : (k : ℕ) → bit_at m.free_pages.words k ≡ 0
  pub class :
      (d : ℕ)
      → d < class_count
      → (info : ClassInfo) × (get_elem? m.classes d ≡ some info)
        × (info.freelist ≡ null)
        × IsValid info.buddies
        × ((p : ℕ) → d + 1 < class_count → p < pages → p / 2 ^ (d + 1) < info.buddies.count)
        × ((k : ℕ) → bit_at info.buddies.words k ≡ 0)

abbrev no_bits : BitSet
no_bits = record { words = []; count = 0 }

abbrev buddies_or_none : Option ClassInfo → BitSet
buddies_or_none none = no_bits
buddies_or_none (some info) = info.buddies

abbrev pub buddies_of_class : Mem → ℕ → BitSet
buddies_of_class m d = buddies_or_none (get_elem? m.classes d)

buddies_or_none-IsValid :
    (o : Option ClassInfo)
    → ((info : ClassInfo) → o ≡ some info → IsValid info.buddies)
    → IsValid (buddies_or_none o)
buddies_or_none-IsValid none all = record {
  small = omega arith;
  enough = omega arith;
  fits = λ i. omega arith;
}
buddies_or_none-IsValid (some info) all = all info refl

-- Such an allocator is a well-formed heap.
pub IsBlank-IsHeap :
    {pages : ℕ} {m : Mem} → IsBlank pages m → IsHeap pages m (λ d. []) (buddies_of_class m)
IsBlank-IsHeap {pages} {m} blank = record {
  small = blank.small;
  twelve = blank.twelve;
  usable_valid = blank.usable_valid;
  free_valid = blank.free_valid;
  usable_count = blank.usable_count;
  free_count = blank.free_count;
  keeps = record {
    holds = λ d low. let (info, e, empty, _, _, _) = blank.class d low in (info, e, empty);
    apart = λ c d a ne h. cc;
    buddies = λ d low. let (info, e, _, _, _, _) = blank.class d (omega arith) in rw e refl;
    valid = λ d. buddies_or_none-IsValid (get_elem? m.classes d) (λ info e.
        let low : d < class_count =
          omega (arith, lt-length_of_get_elem? m.classes d e, blank.twelve) in
        let (info', e', _, valid, _, _) = blank.class d low in
        let same : info' ≡ info = cc in subst (λ z. IsValid z.buddies) same valid);
  };
  counted = sym ((ones-empty_iff m.free_pages.words pages 0).1 (λ k lo hi. blank.none_free k));
  accounted = blank.nothing;
  layout = record {
    blocks = λ d a h. cc;
    disjoint = λ c d p q r h. cc;
    single = λ d p low aligned h. refl;
    indices = λ d p low lt.
        let (info, e, _, _, bound, _) = blank.class d (omega arith) in rw e (bound p low lt);
    pairs = λ d p low lt aligned.
        let (info, e, _, _, _, zero_bits) = blank.class d (omega arith) in
        rw e (zero_bits (p / 2 ^ (d + 1)));
    listed = λ d p q h. cc;
    covered = λ q lt h. let off = blank.none_free q in absurd (omega arith);
  };
}
