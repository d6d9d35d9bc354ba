-- ===== src/Memory/Heap.antt =====
-- The free list operations of kern/memory.c on well-formed lists, with what they leave alone.
use mathlib.Core.Path.{subst}
use dumboss.Base.{
  ℕ, ◌+◌, ◌*◌, ◌%◌, ◌^◌, ◌<◌, ◌≡◌, refl, sym, ap, ◌∙◌, ◌≢◌, inl, inr, true, false, Option, none,
  some, List, [], ◌∷◌, ◌==◌, ==_iff, ==_refl, ne→==, if◌then◌else◌, Bool-cases, length, get_elem?,
  set, length-set, lt-length_of_get_elem?, get_elem?-set_self, get_elem?-set_ne, lt→ltb, arith, Res,
  ok, panic, ◌>>◌, assert,
}
use dumboss.BitSet.{BitSet}
use dumboss.Memory.{
  Mem, FreeBlock, ClassInfo, class_count, page_size, null, set_freelist, set_blocks,
}
use dumboss.Memory.Address.{kernel_ptr-ok, kernel_space_begin}
use dumboss.Memory.Freelist.{
  set_prev, set_next, pop_freelist, remove_from_freelist, add_to_freelist,
}
use dumboss.Memory.Chain.{
  IsChain, SameOutside, has, erase, frame, relink, unlink, unlink-IsChain, tail-IsChain,
  push-IsChain, prev_ne_null, class-IsChain,
}

-- The free list of size class `c` holds the blocks at `xs`, in order.
abbrev pub Holds : Mem → ℕ → List ℕ → Type 0
Holds m c xs =
    (info : ClassInfo) × (get_elem? m.classes c ≡ some info)
    × IsChain m.blocks c null info.freelist xs

abbrev pub buddies_of : Option ClassInfo → Option BitSet
buddies_of none = none
buddies_of (some info) = some info.buddies

-- `m'` is `m` with the free list of class `c` now `xs`: no other class has changed, no bit set, no
-- counter, and no block but those of `zs`.
pub record Relisted (m m' : Mem) (c : ℕ) (xs zs : List ℕ) : Type 0 where
  pub holds : Holds m' c xs
  pub others : (d : ℕ) → c ≢ d → get_elem? m'.classes d ≡ get_elem? m.classes d
  pub buddies : buddies_of (get_elem? m'.classes c) ≡ buddies_of (get_elem? m.classes c)
  pub outside : SameOutside zs m.blocks m'.blocks
  pub class_total : length m'.classes ≡ length m.classes
  pub free_memory : m'.free_memory ≡ m.free_memory
  pub usable_pages : m'.usable_pages ≡ m.usable_pages
  pub free_pages : m'.free_pages ≡ m.free_pages

-- The free list of another class, of other blocks, is as it was.
pub Relisted-Holds :
    {m m' : Mem} {c : ℕ} {xs zs : List ℕ} (d : ℕ) (ws : List ℕ)
    → Relisted m m' c xs zs
    → c ≢ d
    → ((a : ℕ) → has a ws ≡ true → has a zs ≡ false)
    → Holds m d ws
    → Holds m' d ws
Relisted-Holds d ws r ne apart (info, e, chain) =
    (info, r.others d ne ∙ e, frame d null info.freelist ws (λ a i. r.outside a (apart a i)) chain)

Relisted-widen :
    {m m' : Mem} {c : ℕ} {xs zs : List ℕ} (h : ℕ)
    → Relisted m m' c xs zs
    → Relisted m m' c xs (h ∷ zs)
Relisted-widen h r = record {
  holds = r.holds;
  others = r.others;
  buddies = r.buddies;
  outside = λ a o. r.outside a (ground arith);
  class_total = r.class_total;
  free_memory = r.free_memory;
  usable_pages = r.usable_pages;
  free_pages = r.free_pages;
}

-- Every operation ends in a write of the head of the list.
relisted :
    (m : Mem) (c p : ℕ) (xs zs : List ℕ) (info : ClassInfo) (blocks : ℕ → FreeBlock)
    → get_elem? m.classes c ≡ some info
    → IsChain blocks c null p xs
    → SameOutside zs m.blocks blocks
    → Relisted m
        (record m { classes = set m.classes c (record info { freelist = p }); blocks = blocks })
        c
        xs
        zs
relisted m c p xs zs info blocks e chain same =
    let bound : c < length m.classes = lt-length_of_get_elem? m.classes c e in
    let now = get_elem?-set_self m.classes c (record info { freelist = p }) bound in
    record {
      holds = (record info { freelist = p }, now, chain);
      others = λ d ne. get_elem?-set_ne m.classes c d (record info { freelist = p }) ne;
      buddies = rw (now, e);
      outside = same;
      class_total = length-set m.classes c (record info { freelist = p });
      free_memory = refl;
      usable_pages = refl;
      free_pages = refl;
    }

set_freelist-ok :
    (m : Mem) (c p : ℕ) (info : ClassInfo)
    → get_elem? m.classes c ≡ some info
    → set_freelist m c p
      ≡ ok (record m { classes = set m.classes c (record info { freelist = p }) })
set_freelist-ok m c p info e =
    rw (e, lt→ltb c (length m.classes) (lt-length_of_get_elem? m.classes c e))

-- The call returns a memory that satisfies the predicate.
abbrev pub Yields : (Mem → Type 0) → Res Mem → Type 0
Yields P r = (m' : Mem) × (r ≡ ok m') × P m'

-- `if (p != NULL) p->prev = q;`
relink_mem :
    (m : Mem) (f : ℕ → FreeBlock) (p q : ℕ)
    → (if p == null then set_blocks m f else set_prev (set_blocks m f) p q)
      ≡ set_blocks m (relink f p q)
relink_mem m f p q = elim (Bool-cases (p == null)) [ inl e ↦ rw e | inr e ↦ rw e ]

-- Such a write, and then that of the head of the list.
relink-set_freelist :
    (m : Mem) (f : ℕ → FreeBlock) (p q c h : ℕ) (xs zs : List ℕ) (info : ClassInfo)
    → get_elem? m.classes c ≡ some info
    → IsChain (relink f p q) c null h xs
    → SameOutside zs m.blocks (relink f p q)
    → Yields
        (λ m'. Relisted m m' c xs zs)
        (set_freelist (if p == null then set_blocks m f else set_prev (set_blocks m f) p q) c h)
relink-set_freelist m f p q c h xs zs info e chain same = (
  _,
  ap (λ z. set_freelist z c h) (relink_mem m f p q)
      ∙ set_freelist-ok (set_blocks m (relink f p q)) c h info e,
  relisted m c h xs zs info (relink f p q) e chain same,
)

-- The address of a page's header.
abbrev pub block_of : ℕ → ℕ
block_of page = page * page_size + kernel_space_begin

-- `add_to_freelist` on a page below 2^35 that is aligned for its class, and whose block is not on
-- the class's list, puts the block in front of that list, and changes nothing but the list and
-- the headers of its blocks.
pub add_to_freelist-cons :
    {m : Mem} (page class : ℕ) (xs : List ℕ)
    → class < class_count
    → page % 2 ^ class ≡ 0
    → page < 2 ^ 35
    → Holds m class xs
    → has (block_of page) xs ≡ false
    → Yields
        (λ m'. Relisted m m' class (block_of page ∷ xs) (block_of page ∷ xs))
        (add_to_freelist m page class)
unfolding add_to_freelist
add_to_freelist-cons {m} page class xs lt aligned low (info, e, chain) fresh =
    let small : page * page_size % 2 ^ 64 ≡ page * page_size = omega arith in
    let at = kernel_ptr-ok (page * page_size) (omega arith) in
    let (pushed, same) =
      push-IsChain m.blocks class info.freelist (block_of page) xs (omega arith) fresh chain in
    rw (lt→ltb class class_count lt, aligned, small, at, e)
      (relink-set_freelist m _ info.freelist (block_of page) class (block_of page)
        (block_of page ∷ xs) (block_of page ∷ xs) info e pushed same)

-- `pop_freelist` takes the first block of the list of its class, and changes nothing but the list
-- and the headers of the blocks that stay on it.
pub pop_freelist-cons :
    {m : Mem} (class x : ℕ) (xs : List ℕ)
    → class < class_count
    → Holds m class (x ∷ xs)
    → (m' : Mem) × (pop_freelist m class ≡ ok (x, m')) × Relisted m m' class xs xs
unfolding pop_freelist
pop_freelist-cons {m} class x xs lt (info, e, chain) =
    let (first, ne, before, cls, out, rest) = chain in
    let next = (m.blocks x).next in
    let (left, same) = tail-IsChain m.blocks class info.freelist x xs chain in
    rw
      (
        lt→ltb class class_count lt,
        e,
        first,
        ne→== x null ne,
        cls,
        ==_refl class,
        before,
        lt→ltb class (length m.classes) (lt-length_of_get_elem? m.classes class e),
      )
      (
        _,
        ap (λ z. ok (x, z))
            (relink_mem
              (record m { classes = set m.classes class (record info { freelist = next }) })
              m.blocks next null),
        relisted m class next xs xs info (relink m.blocks next null) e left same,
      )

-- On an empty list `pop_freelist` fails an assertion.
pub pop_freelist-nil :
    (m : Mem) (class : ℕ) → class < class_count → Holds m class [] → pop_freelist m class ≡ panic
unfolding pop_freelist
pop_freelist-nil m class lt (info, e, chain) = rw (lt→ltb class class_count lt, e, chain)

-- Where the head of the list stays, only blocks are written.
relinked :
    (m : Mem) (c : ℕ) (xs zs : List ℕ) (info : ClassInfo) (blocks : ℕ → FreeBlock)
    → get_elem? m.classes c ≡ some info
    → IsChain blocks c null info.freelist xs
    → SameOutside zs m.blocks blocks
    → Relisted m (set_blocks m blocks) c xs zs
relinked m c xs zs info blocks e chain same = record {
  holds = (info, e, chain);
  others = λ d ne. refl;
  buddies = refl;
  outside = same;
  class_total = refl;
  free_memory = refl;
  usable_pages = refl;
  free_pages = refl;
}

-- What `remove_from_freelist` does once it has found the class of the block `b`.
abbrev take_out : Mem → ClassInfo → ℕ → ℕ → Res Mem
take_out m info b class =
    let prev = (m.blocks b).prev in
    let next = (m.blocks b).next in
    let m' = if next == null then m else set_prev m next prev in
    if prev == null
    then (do assert (info.freelist == b); set_freelist m' class next)
    else ok (set_next m' prev next)

take_out-first :
    (m : Mem) (info : ClassInfo) (class b : ℕ) (xs : List ℕ)
    → get_elem? m.classes class ≡ some info
    → IsChain m.blocks class null info.freelist (b ∷ xs)
    → Yields (λ m'. Relisted m m' class xs xs) (take_out m info b class)
take_out-first m info class b xs e chain =
    let (first, ne, before, cls, out, rest) = chain in
    let (left, same) = tail-IsChain m.blocks class info.freelist b xs chain in
    rw (before, first, ==_refl b)
      (relink-set_freelist m m.blocks (m.blocks b).next null class (m.blocks b).next xs xs info e
        left same)

take_out-later :
    (m : Mem) (info : ClassInfo) (class b h : ℕ) (xs : List ℕ)
    → get_elem? m.classes class ≡ some info
    → IsChain m.blocks class null info.freelist (h ∷ xs)
    → has b xs ≡ true
    → Yields (λ m'. Relisted m m' class (h ∷ erase b xs) (h ∷ xs)) (take_out m info b class)
take_out-later m info class b h xs e chain found =
    let (left, same) = unlink-IsChain m.blocks class null info.freelist b h xs chain found in
    let behind = prev_ne_null m.blocks class null info.freelist b h xs chain found in
    let next = (m.blocks b).next in
    let prev = (m.blocks b).prev in
    (
      _,
      rw (ne→== prev null behind)
          (ap (λ z. ok (set_next z prev next)) (relink_mem m m.blocks next prev)),
      relinked m class (h ∷ erase b xs) (h ∷ xs) info (unlink m.blocks b) e left same,
    )

-- `remove_from_freelist` on a page below 2^35 that is aligned for its class, and whose block is on
-- the class's list, takes the block out, wherever it stands; the others keep their order, and
-- nothing changes but the list and the headers of the blocks that were on it.
pub remove_from_freelist-erase :
    {m : Mem} (page class : ℕ) (xs : List ℕ)
    → class < class_count
    → page % 2 ^ class ≡ 0
    → page < 2 ^ 35
    → Holds m class xs
    → has (block_of page) xs ≡ true
    → Yields
        (λ m'. Relisted m m' class (erase (block_of page) xs) xs)
        (remove_from_freelist m page class)
unfolding remove_from_freelist erase
remove_from_freelist-erase page class [] lt aligned low holds found = cc
remove_from_freelist-erase {m} page class (h ∷ xs) lt aligned low (info, e, chain) found =
    let small : page * page_size % 2 ^ 64 ≡ page * page_size = omega arith in
    let at = kernel_ptr-ok (page * page_size) (omega arith) in
    let same_class =
      class-IsChain m.blocks class null info.freelist (block_of page) (h ∷ xs) chain found in
    rw (lt→ltb class class_count lt, aligned, small, at, same_class, ==_refl class, e)
      (elim (Bool-cases (block_of page == h)) [
        | inl hit ↦
            let at : block_of page ≡ h = (==_iff (block_of page) h).0 hit in
            let front =
              subst (λ z. IsChain m.blocks class null info.freelist (z ∷ xs)) (sym at) chain in
            let (m', done, r) = take_out-first m info class (block_of page) xs e front in
            rw hit (m', done, Relisted-widen h r)
        | inr miss ↦
            rw miss (take_out-later m info class (block_of page) h xs e chain (ground arith))
      ])
