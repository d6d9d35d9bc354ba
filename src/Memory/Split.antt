-- ===== src/Memory/Split.antt =====
-- `alloc_raw` of kern/memory.c splits a block: what it gives back of it, and where that goes.
use native.Mathlib.Nat.{pow-suc, one-le-pow}
use mathlib.Core.Path.{subst, subst₂}
use dumboss.Base.{
  update, ℕ, zero, suc, ◌+◌, ◌-◌, ◌*◌, ◌/◌, ◌%◌, ◌^◌, ◌≤◌, ◌<◌, ◌≡◌, refl, sym, ap, ◌∙◌, inl, inr,
  true, false, List, [], ◌∷◌, ◌==◌, if◌then◌else◌, Bool-cases, ltb, arith, Res, ok,
}
use dumboss.BitSet.{BitSet}
use dumboss.BitSet.Ones.{bit_at}
use dumboss.BitSet.Query.{get-bit_at}
use dumboss.BitSet.Update.{Written, set_bit-Writes}
use dumboss.Memory.{Mem, class_count, buddy_info}
use dumboss.Memory.Alloc.{give_back, get_buddy, set_buddy}
use dumboss.Memory.Freelist.{add_to_freelist}
use dumboss.Memory.Chain.{has}
use dumboss.Memory.Heap.{block_of}
use dumboss.Memory.Pieces.{Piece, Tiles, Tiles-widen, onto, in_pair}
use dumboss.Memory.Blocks.{Keeps, SamePages, Keeps-add_to_freelist, get_buddy-eq, Keeps-set_buddy}
use dumboss.Memory.Align.{halves}

-- The bits of the pieces' pairs have become 1, and no other bit has changed.
abbrev pub Marked : List Piece → (ℕ → BitSet) → (ℕ → BitSet) → Type 0
Marked ps bs bs' =
    (d : ℕ)
    → ((bs' d).count ≡ (bs d).count)
      × ((k : ℕ) → bit_at (bs' d).words k ≡ (if in_pair ps d k then 1 else bit_at (bs d).words k))

-- No page of the block is on a free list, and the bits of all pairs inside it are 0.
pub record IsTaken (xs : ℕ → List ℕ) (bs : ℕ → BitSet) (class page : ℕ) : Type 0 where
  pub fresh : (p d : ℕ) → page ≤ p → p < page + 2 ^ class → has (block_of p) (xs d) ≡ false
  pub bounds :
      (p d : ℕ) → d < class → page ≤ p → p < page + 2 ^ class → p / 2 ^ (d + 1) < (bs d).count
  pub quiet :
      (p d : ℕ)
      → d < class
      → page ≤ p
      → p < page + 2 ^ class
      → bit_at (bs d).words (p / 2 ^ (d + 1)) ≡ 0

SamePages-trans : {a b c : Mem} → SamePages a b → SamePages b c → SamePages a c
SamePages-trans p q = record {
  class_total = q.class_total ∙ p.class_total;
  free_memory = q.free_memory ∙ p.free_memory;
  usable_pages = q.usable_pages ∙ p.usable_pages;
  free_pages = q.free_pages ∙ p.free_pages;
}

-- What a call of the loop with size class `class` does.
abbrev pub Gives : Mem → (ℕ → List ℕ) → (ℕ → BitSet) → ℕ → ℕ → ℕ → Res Mem → Type 0
Gives m xs bs class remaining page r =
    (m' : Mem) × (ps : List Piece) × (bs' : ℕ → BitSet) × (r ≡ ok m')
    × Tiles class (page + remaining) (page + 2 ^ class) ps
    × Keeps m' (onto ps xs) bs'
    × Marked ps bs bs'
    × SamePages m m'

module _ {xs : ℕ → List ℕ} {bs : ℕ → BitSet} (c page : ℕ) (taken : IsTaken xs bs (suc c) page) where
  open taken use {fresh, bounds, quiet}

  upper_half : IsTaken xs bs c (page + 2 ^ c)
  upper_half =
      let twice = pow-suc 2 c in
      record {
        fresh = λ p d lo hi. fresh p d (omega arith) (omega arith);
        bounds = λ p d lt lo hi. bounds p d (omega arith) (omega arith) (omega arith);
        quiet = λ p d lt lo hi. quiet p d (omega arith) (omega arith) (omega arith);
      }

  lower_half :
      (b : BitSet) → IsTaken (update xs c (block_of (page + 2 ^ c) ∷ xs c)) (update bs c b) c page
  lower_half b =
      let twice = pow-suc 2 c in
      record {
        fresh = λ p d lo hi.
            let out = fresh p d lo (omega arith) in
            let other = fresh p c lo (omega arith) in ground arith;
        bounds =
            λ p d lt lo hi. let bound = bounds p d (omega arith) lo (omega arith) in ground arith;
        quiet = λ p d lt lo hi. let off = quiet p d (omega arith) lo (omega arith) in ground arith;
      }

  mark :
      (b : BitSet) (bs' : ℕ → BitSet) (ps : List Piece)
      → (page + 2 ^ c) / 2 ^ (c + 1) ≡ page / 2 ^ (c + 1)
      → Written (bs c) b (page / 2 ^ (c + 1)) (page / 2 ^ (c + 1) + 1) true
      → Marked ps (update bs c b) bs'
      → Marked ((page + 2 ^ c, c) ∷ ps) bs bs'
  mark b bs' ps pair w marked d =
      let (count, bits) = marked d in
      let same = w.same_count in
      (ground arith, λ k. let here = bits k in let before = w.bits k in ground arith)

-- Nothing is given back of a block that is handed out whole.
Gives-none :
    {xs : ℕ → List ℕ} {bs : ℕ → BitSet} (m : Mem) (class remaining page : ℕ)
    → Keeps m xs bs
    → remaining ≡ 2 ^ class
    → Gives m xs bs class remaining page (ok m)
Gives-none {bs = bs} m class remaining page keeps whole = (
  m,
  [],
  bs,
  refl,
  ap (λ z. page + z) whole,
  keeps,
  λ d. (refl, λ k. refl),
  record { class_total = refl; free_memory = refl; usable_pages = refl; free_pages = refl },
)

module _ {xs : ℕ → List ℕ} {bs : ℕ → BitSet} (c page : ℕ) (taken : IsTaken xs bs (suc c) page)
    (remaining : ℕ) where
  -- The lower half is handed out whole, and the loop goes on in the upper one.
  Gives-upper :
      {m : Mem} {r : Res Mem}
      → 2 ^ c < remaining
      → Gives m xs bs c (remaining - 2 ^ c) (page + 2 ^ c) r
      → Gives m xs bs (suc c) remaining page r
  Gives-upper more (m', ps, bs', done, tiles, keeps, marked, same) =
      let twice = pow-suc 2 c in
      let from : page + 2 ^ c + (remaining - 2 ^ c) ≡ page + remaining = omega arith in
      let to : page + 2 ^ c + 2 ^ c ≡ page + 2 ^ suc c = omega arith in
      let tiled = Tiles-widen c _ _ ps (subst₂ (λ a b. Tiles c a b ps) from to tiles) in
      (m', ps, bs', done, tiled, keeps, marked, same)

  -- The upper half is given back, and the loop goes on in the lower one.
  Gives-lower :
      {m m' : Mem} {r : Res Mem} (b : BitSet)
      → (page + 2 ^ c) % 2 ^ c ≡ 0
      → (page + 2 ^ c) / 2 ^ (c + 1) ≡ page / 2 ^ (c + 1)
      → Written (bs c) b (page / 2 ^ (c + 1)) (page / 2 ^ (c + 1) + 1) true
      → SamePages m m'
      → Gives m' (update xs c (block_of (page + 2 ^ c) ∷ xs c)) (update bs c b) c remaining page r
      → Gives m xs bs (suc c) remaining page r
  Gives-lower b aligned pair w same (m', ps, bs', done, tiles, keeps, marked, same') =
      let twice = pow-suc 2 c in
      (
        m',
        (page + 2 ^ c, c) ∷ ps,
        bs',
        done,
        (omega arith, omega arith, aligned, tiles),
        keeps,
        mark c page taken b bs' ps pair w marked,
        SamePages-trans same same',
      )

-- The block of the upper half goes onto its list, and its pair's bit becomes 1.
abbrev Added : Mem → (ℕ → List ℕ) → (ℕ → BitSet) → ℕ → ℕ → Mem → Type 0
Added m xs bs c page m' =
    (b : BitSet) × Written (bs c) b (page / 2 ^ (c + 1)) (page / 2 ^ (c + 1) + 1) true
    × Keeps m' (update xs c (block_of (page + 2 ^ c) ∷ xs c)) (update bs c b)
    × SamePages m m'

module _ {m : Mem} {xs : ℕ → List ℕ} {bs : ℕ → BitSet} (c page : ℕ) (small : c + 1 < class_count)
    (aligned : page % 2 ^ suc c ≡ 0) (low : page + 2 ^ suc c ≤ 2 ^ 35)
    (taken : IsTaken xs bs (suc c) page) (keeps : Keeps m xs bs) where
  positive : 0 < 2 ^ c
  positive = one-le-pow c 2 (omega arith)

  halved :
      (page % 2 ^ c ≡ 0)
      × ((page + 2 ^ c) % 2 ^ c ≡ 0)
      × ((page + 2 ^ c) / 2 ^ (c + 1) ≡ page / 2 ^ (c + 1))
  halved =
      let (first, second, pair) = halves (2 ^ c) page positive (rw (← pow-suc 2 c) aligned) in
      let next : 2 ^ c * 2 ≡ 2 ^ (c + 1) = sym (pow-suc 2 c) ∙ ap (λ z. 2 ^ z) (omega arith) in
      (first, second, subst (λ z. (page + 2 ^ c) / z ≡ page / z) next pair)

  pair_bit : get_buddy m c (page / 2 ^ (c + 1)) ≡ ok false
  pair_bit =
      let twice = pow-suc 2 c in
      let bound = taken.bounds page c (omega arith) (omega arith) (omega (arith, positive)) in
      let off = taken.quiet page c (omega arith) (omega arith) (omega (arith, positive)) in
      get_buddy-eq keeps c (page / 2 ^ (c + 1)) small
      ∙ get-bit_at (keeps.valid c) (page / 2 ^ (c + 1)) bound
      ∙ rw off refl

  adds :
      (m' : Mem) × (m'' : Mem) × (add_to_freelist m (page + 2 ^ c) c ≡ ok m')
      × (set_buddy m' c (page / 2 ^ (c + 1)) true ≡ ok m'')
      × Added m xs bs c page m''
  adds =
      let twice = pow-suc 2 c in
      let bound = taken.bounds page c (omega arith) (omega arith) (omega (arith, positive)) in
      let (m', added, (keeps', same)) =
        Keeps-add_to_freelist keeps (page + 2 ^ c) c (omega arith) halved.1
          (omega (arith, positive))
          (λ d. taken.fresh (page + 2 ^ c) d (omega arith) (omega (arith, positive))) in
      let (b, set_it, w) = set_bit-Writes (page / 2 ^ (c + 1)) true (keeps.valid c) bound in
      let (m'', set_pair, (keeps'', same')) =
        Keeps-set_buddy keeps' c (page / 2 ^ (c + 1)) true b small set_it w.valid in
      (m', m'', added, set_pair, (b, w, keeps'', SamePages-trans same same'))

-- The loop of `alloc_raw` on a block of size class `class` whose first `remaining` pages are handed
-- out, with well-formed free lists: it fails no assertion, and gives the other pages back. They are
-- tiled by free blocks, at most one of each class, which are put in front of their lists; the bits
-- of their pairs become 1. No other list, bit, counter or set of pages changes.
pub give_back-Gives :
    (class : ℕ) {m : Mem} {xs : ℕ → List ℕ} {bs : ℕ → BitSet} (remaining page : ℕ)
    → class < class_count
    → 0 < remaining
    → remaining ≤ 2 ^ class
    → page % 2 ^ class ≡ 0
    → page + 2 ^ class ≤ 2 ^ 35
    → IsTaken xs bs class page
    → Keeps m xs bs
    → Gives m xs bs class remaining page (give_back class remaining page m)
unfolding give_back buddy_info
give_back-Gives zero {m} {xs} {bs} remaining page lt some_left le aligned low taken keeps =
    Gives-none m zero remaining page keeps (omega arith)
give_back-Gives (suc c) {m} {xs} {bs} remaining page lt some_left le aligned low taken keeps =
    let going : (remaining == 0) ≡ false = ground arith in
    let twice = pow-suc 2 c in
    let half = halved c page (omega arith) aligned low taken keeps in
    let off = pair_bit c page (omega arith) aligned low taken keeps in
    rw (going, half.0, off)
      (elim (Bool-cases (ltb (2 ^ c) remaining)) [
        | inl more ↦ rw more (
            Gives-upper c page taken remaining (ground arith) (
              give_back-Gives c (remaining - 2 ^ c) (page + 2 ^ c) (omega arith) (ground arith)
                (omega arith) half.1 (omega arith) (upper_half c page taken) keeps))
        | inr whole ↦ rw whole (
            let (m', m'', added, set_pair, (b, w, keeps'', same)) =
              adds c page (omega arith) aligned low taken keeps in
            rw (added, set_pair)
              (Gives-lower c page taken remaining b half.1 half.2 w same
                (elim (Bool-cases (remaining == 2 ^ c)) [
                  | inl exactly ↦
                      rw exactly (Gives-none m'' c remaining page keeps'' (ground arith))
                  | inr fewer ↦ rw fewer (
                      give_back-Gives c remaining page (omega arith) some_left (ground arith) half.0
                        (omega arith) (lower_half c page taken b) keeps'')
                ])))
      ])
