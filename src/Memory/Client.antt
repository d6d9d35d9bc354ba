-- ===== src/Memory/Client.antt =====
-- Callers of kern/memory.c that give back just what they were handed, each once: `alloc_raw` and
-- `release_pages` in any order, against a specification that knows a set of free pages and nothing of
-- blocks, lists and buddies.
use dumboss.Base.{
  ℕ, zero, suc, ◌+◌, ◌*◌, ◌/◌, ◌≤◌, ◌<◌, ◌≡◌, ◌⊎◌, Bool, false, ◌&&◌, none, some, List, [], ◌∷◌,
  ◌==◌, if◌then◌else◌, get_elem?, leb, ltb, Res, ok, ◌>>=◌,
}
use dumboss.Base.Int.{pos}
use dumboss.BitSet.Update.{of_bool}
use dumboss.Memory.{Mem, page_size, null}
use dumboss.Memory.Alloc.{alloc_raw}
use dumboss.Memory.Release.{release_pages}
use dumboss.Memory.Heap.{block_of}
use dumboss.Memory.Merge.{Freed}
use dumboss.Memory.Returned.{AreHeld}

-- What a caller holds: an address, and the number of pages from it on.
abbrev pub Region : Type 0
Region = ℕ × ℕ

-- A call for `count` pages, or the return of the region at an index.
pub data Request : Type 0 where
  take : (count : ℕ) → (exact : Bool) → Request
  give : (i : ℕ) → Request

abbrev pub remove : List Region → ℕ → List Region
remove [] i = []
remove (r ∷ held) zero = held
remove (r ∷ held) (suc i) = r ∷ remove held i

abbrev pub serve : Request → Mem → List Region → Res (Mem × List Region)
serve (take count exact) m held = do
  (buffer, m) ← alloc_raw m (pos count) exact
  ok (m, if buffer.bytes == null then held else (buffer.bytes, buffer.count / page_size) ∷ held)
serve (give i) m held = elim (get_elem? held i) [
  | none ↦ ok (m, held)
  | some (bytes, count) ↦ do m ← release_pages m bytes count; ok (m, remove held i)
]

unfoldable pub serve_all : List Request → Mem → List Region → Res (Mem × List Region)
serve_all [] m held = ok (m, held)
serve_all (r ∷ rs) m held = do (m, held) ← serve r m held; serve_all rs m held

-- The specification: a set of free pages, and the regions held. Pages are taken where they are all
-- free, and a region held is given back.
pub data Spec : (ℕ → ℕ) → List Region → (ℕ → ℕ) → List Region → Type 0 where
  still : {free : ℕ → ℕ} {held : List Region} → Spec free held free held
  takes :
      {free free1 free' : ℕ → ℕ} {held held' : List Region} (begin count : ℕ)
      → 0 < count
      → ((k : ℕ) → begin ≤ k → k < begin + count → free k ≡ 1)
      → ((k : ℕ)
          → free1 k ≡ (if leb begin k && ltb k (begin + count) then of_bool false else free k))
      → Spec free1 ((block_of begin, count) ∷ held) free' held'
      → Spec free held free' held'
  gives :
      {free free1 free' : ℕ → ℕ} {held held' : List Region} (i begin count : ℕ)
      → get_elem? held i ≡ some (block_of begin, count)
      → Freed free free1 begin count
      → Spec free1 (remove held i) free' held'
      → Spec free held free' held'

-- Two regions have no byte in common.
abbrev pub Apart : Region → Region → Type 0
Apart (a, n) (b, k) = (a + n * page_size ≤ b) ⊎ (b + k * page_size ≤ a)

abbrev pub AllApart : Region → List Region → Type 0
AllApart r [] = Unit
AllApart r (s ∷ held) = Apart r s × AllApart r held

-- The pages of a region, one at least, are inside the memory, usable and not free.
abbrev pub IsRegion : ℕ → (ℕ → ℕ) → (ℕ → ℕ) → Region → Type 0
IsRegion pages usable free (bytes, count) =
    (begin : ℕ) × (bytes ≡ block_of begin)
    × (0 < count)
    × (begin + count ≤ pages)
    × AreHeld usable free begin count

-- Each region held is one, and no two have a byte in common.
abbrev pub Holdings : ℕ → (ℕ → ℕ) → (ℕ → ℕ) → List Region → Type 0
Holdings pages usable free [] = Unit
Holdings pages usable free (r ∷ held) =
    IsRegion pages usable free r × AllApart r held × Holdings pages usable free held

abbrev pub pages_held : List Region → ℕ
pages_held [] = 0
pages_held ((bytes, count) ∷ held) = count + pages_held held

abbrev pub AllSmall : List Request → Type 0
AllSmall [] = Unit
AllSmall (take count exact ∷ rs) = (0 < count) × (count ≤ 4096) × AllSmall rs
AllSmall (give i ∷ rs) = AllSmall rs
