-- ===== src/Memory/Serving.antt =====
-- Callers of kern/memory.c, served: no assertion fails, no two of them get the same page, and no
-- page is lost.
use mathlib.Core.Path.{subst}
use dumboss.Base.{
  ℕ, ◌+◌, ◌*◌, ◌/◌, ◌≤◌, ◌<◌, ◌≡◌, refl, sym, ap, ◌∙◌, inl, inr, Bool, false, Option, none, some,
  List, [], ◌∷◌, ◌==◌, if◌then◌else◌, get_elem?, arith, Res, ok, ◌>>=◌, ne→==,
}
use dumboss.Base.Int.{pos}
use dumboss.BitSet.{BitSet}
use dumboss.BitSet.Ones.{bit_at}
use dumboss.Memory.{Mem, page_size, null}
use dumboss.Memory.Alloc.{Buffer, alloc_raw}
use dumboss.Memory.Release.{release_pages}
use dumboss.Memory.Heap.{block_of}
use dumboss.Memory.Total.{total}
use dumboss.Memory.Layout.{IsHeap}
use dumboss.Memory.Allocate.{HandsOut}
use dumboss.Memory.Handout.{Allocates, alloc_raw-Allocates}
use dumboss.Memory.Returned.{release_pages-Releases}
use dumboss.Memory.Client.{
  Region, Request, take, give, remove, serve, serve_all, Spec, still, takes, gives, Holdings,
  pages_held, AllSmall, AllApart,
}
use dumboss.Memory.Holdings.{Holdings-remove, Holdings-fewer, Holdings-Freed, AllApart-free}

abbrev pub free_bits : Mem → ℕ → ℕ
free_bits m = bit_at m.free_pages.words

-- A well-formed heap and the regions held: with the pages that are free they are `sum` pages.
pub record Serves (pages : ℕ) (usable : BitSet) (sum : ℕ) (m : Mem) (held : List Region)
    : Type 0 where
  pub lists : ℕ → List ℕ
  pub buddies : ℕ → BitSet
  pub heap : IsHeap pages m lists buddies
  pub same_usable : m.usable_pages ≡ usable
  pub holdings : Holdings pages (bit_at usable.words) (free_bits m) held
  pub conserved : total lists + pages_held held ≡ sum

-- A request is served: the specification makes the same step, or none.
abbrev Step : ℕ → BitSet → ℕ → Mem → List Region → Res (Mem × List Region) → Type 0
Step pages usable sum m held r =
    (m1 : Mem) × (held1 : List Region) × (r ≡ ok (m1, held1))
    × Serves pages usable sum m1 held1
    × ((free' : ℕ → ℕ) (held' : List Region)
        → Spec (free_bits m1) held1 free' held'
        → Spec (free_bits m) held free' held')

module _ {pages : ℕ} {usable : BitSet} {sum : ℕ} {m : Mem} {held : List Region}
    (serves : Serves pages usable sum m held) where
  open serves use {heap, same_usable, holdings, conserved}

  -- A page that is free is usable.
  free-usable : (k : ℕ) → k < pages → free_bits m k ≡ 1 → bit_at usable.words k ≡ 1
  free-usable k lt lit =
      let (d, p, on, lo, hi) = heap.layout.covered k lt lit in
      let (may_use, _) = heap.layout.listed d p k on lo hi in
      ap (λ z. bit_at z.words k) (sym same_usable) ∙ may_use

  handed_over :
      {m1 : Mem} (begin count : ℕ)
      → 0 < count
      → HandsOut pages m m1 (total serves.lists) begin count
      → Serves pages usable sum m1 ((block_of begin, count) ∷ held)
  handed_over {m1} begin count positive out =
      let fewer : (k : ℕ) → free_bits m k ≡ 0 → free_bits m1 k ≡ 0 =
        λ k off. let here = out.wiped.bits k in ground arith in
      let inside = out.inside in
      record {
        lists = out.lists;
        buddies = out.buddies;
        heap = out.heap;
        same_usable = out.usable ∙ same_usable;
        holdings = (
          (
            begin,
            refl,
            positive,
            inside,
            λ k lo hi.
                let here = out.wiped.bits k in
                (free-usable k (omega arith) (out.were_free k lo hi), ground arith),
          ),
          AllApart-free pages (bit_at usable.words) (free_bits m) begin count held positive
              out.were_free holdings,
          Holdings-fewer pages (bit_at usable.words) (free_bits m) (free_bits m1) held fewer
              holdings,
        );
        conserved = omega (arith, out.sum, conserved);
      }

  take-Step :
      (count : ℕ) (exact : Bool)
      → 0 < count
      → count ≤ 4096
      → Step pages usable sum m held (serve (take count exact) m held)
  take-Step count exact positive le =
      go (alloc_raw m (pos count) exact) (alloc_raw-Allocates heap count exact positive le)
    where
      go :
          (r : Res (Buffer × Mem))
          → Allocates pages m serves.lists count exact r
          → Step pages usable sum m held (
              r >>= (λ (buffer, m). ok (
                m,
                if buffer.bytes == null
                    then held
                    else (buffer.bytes, buffer.count / page_size) ∷ held,
              )))
      go r (inl (e, nothing)) = rw e (m, held, refl, serves, λ f h spec. spec)
      go r (inr (m1, begin, n, e, some_pages, which, out)) =
          let there : (block_of begin == null) ≡ false =
            ne→== (block_of begin) null (omega arith) in
          let whole : n * page_size / page_size ≡ n = omega arith in
          rw (e, there, whole)
            (
              m1,
              (block_of begin, n) ∷ held,
              refl,
              handed_over begin n some_pages out,
              λ f h spec. takes begin n some_pages out.were_free out.wiped.bits spec,
            )

  give-Step : (i : ℕ) → Step pages usable sum m held (serve (give i) m held)
  give-Step i = go (get_elem? held i) refl
    where
      go :
          (o : Option Region)
          → get_elem? held i ≡ o
          → Step pages usable sum m held (elim o [
            | none ↦ ok (m, held)
            | some (bytes, count) ↦ release_pages m bytes count >>= λ m. ok (m, remove held i)
          ])
      go none e = (m, held, refl, serves, λ f h spec. spec)
      go (some (bytes, count)) e =
          let ((begin, at, positive, inside, region), others, left, parts) =
            Holdings-remove pages (bit_at usable.words) (free_bits m) (bytes, count) held i holdings
              e in
          let there : get_elem? held i ≡ some (block_of begin, count) =
            e ∙ ap (λ z. some (z, count)) at in
          let (m1, done, out) = release_pages-Releases heap begin count inside (λ k lo hi.
            let (may_use, taken) = region k lo hi in
            (ap (λ z. bit_at z.words k) same_usable ∙ may_use, taken)) in
          let given : release_pages m bytes count ≡ ok m1 =
            ap (λ z. release_pages m z count) at ∙ done in
          rw given (
            m1,
            remove held i,
            refl,
            record {
              lists = out.lists;
              buddies = out.buddies;
              heap = out.heap;
              same_usable = out.usable ∙ same_usable;
              holdings =
                  Holdings-Freed pages (bit_at usable.words) (free_bits m) (free_bits m1) begin
                    count (remove held i) out.marked.bits
                    (subst (λ z. AllApart (z, count) (remove held i)) at others) left;
              conserved = omega (arith, out.sum, parts, conserved);
            },
            λ f h spec. gives i begin count there out.marked.bits spec,
          )

-- Requests in any order, of 1 to 4096 pages each, by callers who give back what they hold: on a
-- well-formed heap no call fails an assertion or reads outside an array. Behind them the heap is well
-- formed, no two regions held have a byte in common and none has a page that is free, the free pages
-- and those held are as many as before, and what has happened to the set of free pages and to the
-- regions held are steps of the specification.
pub serve_all-Serves :
    (rs : List Request) {pages : ℕ} {usable : BitSet} {sum : ℕ} {m : Mem} {held : List Region}
    → Serves pages usable sum m held
    → AllSmall rs
    → (m' : Mem) × (held' : List Region) × (serve_all rs m held ≡ ok (m', held'))
      × Serves pages usable sum m' held'
      × Spec (free_bits m) held (free_bits m') held'
unfolding serve_all
serve_all-Serves [] {m = m} {held} serves small = (m, held, refl, serves, still)
serve_all-Serves (take count exact ∷ rs) serves (positive, le, small) =
    let (m1, held1, done, serves1, step) = take-Step serves count exact positive le in
    let (m', held', rest, serves', spec) = serve_all-Serves rs serves1 small in
    (
      m',
      held',
      ap (λ r. r >>= (λ (m, held). serve_all rs m held)) done ∙ rest,
      serves',
      step (free_bits m') held' spec,
    )
serve_all-Serves (give i ∷ rs) serves small =
    let (m1, held1, done, serves1, step) = give-Step serves i in
    let (m', held', rest, serves', spec) = serve_all-Serves rs serves1 small in
    (
      m',
      held',
      ap (λ r. r >>= (λ (m, held). serve_all rs m held)) done ∙ rest,
      serves',
      step (free_bits m') held' spec,
    )
