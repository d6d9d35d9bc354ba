-- ===== src/Bump/Safety.antt =====
-- What `Bump__bump_impl` returns is inside the allocator's memory, and apart from all else that it
-- has returned.
use dumboss.Base.{ℕ, ◌^◌, ◌≤◌, ◌<◌, ◌≡◌, List, [], ◌∷◌, arith}
use dumboss.Bump.{Bump, Pc, called, trying, Round, fits}

-- From the last to the first: ranges that end at `limit` or below, each behind the one after it in
-- the list.
abbrev pub Stacked : ℕ → List (ℕ × ℕ) → Type 0
Stacked limit [] = Unit
Stacked limit ((begin, end) ∷ ranges) = (begin ≤ end) × (end ≤ limit) × Stacked begin ranges

pub Stacked-widen : (a b : ℕ) (ranges : List (ℕ × ℕ)) → a ≤ b → Stacked a ranges → Stacked b ranges
Stacked-widen a b [] le s = tt
Stacked-widen a b ((begin, end) ∷ ranges) le (inside, below, rest) = (inside, omega arith, rest)

-- What fits begins at `bump_index` or behind it, and ends inside the `count` bytes.
abbrev Fits : ℕ → ℕ → Round → Type 0
Fits count bump_index (fits aligned_index end_index) =
    (bump_index ≤ aligned_index) × (aligned_index ≤ end_index) × (end_index ≤ count)
Fits count bump_index _ = Unit

abbrev HasSizes : Pc → Type 0
HasSizes (called size align) = (size < 2 ^ 63) × (align < 2 ^ 63)
HasSizes (trying size align bump_index) = (size < 2 ^ 63) × (align < 2 ^ 63)
HasSizes _ = Unit

pub record Inv (begin count : ℕ) (b : Bump) (pc : ℕ → Pc) : Type 0 where
  pub base : b.begin ≡ begin
  pub size : b.count ≡ count
  pub room : b.index ≤ count
  pub stacked : Stacked b.index b.given
  pub has_sizes : (i : ℕ) → HasSizes (pc i)
