-- ===== src/Tasks/Invariant/Indices.antt =====
-- An access keeps `read_from` and `write_to` in order, and at most the number of slots apart.
use dumboss.Base.{update, ℕ, ◌+◌, ◌≤◌, ◌≡◌, arith}
use dumboss.Tasks.Queue.{Queue, Pc, Move, advance_write_to, advance_read_from}
use dumboss.Tasks.Invariant.Defs.{Within, Inv}

module _ {n : ℕ} {q : Queue} {pc : ℕ → Pc} (inv : Inv n q pc) (i : ℕ) where
  open inv use {ordered, bounded, within}

  pub Move-bounds :
      {p p' : Pc} {q' : Queue}
      → Move n q p q' p'
      → pc i ≡ p
      → (q'.read_from ≤ q'.write_to) × (q'.write_to ≤ q'.read_from + n)
  Move-bounds (advance_write_to g h) e = ground (arith, within i)
  Move-bounds (advance_read_from g h) e = ground (arith, within i)
  Move-bounds mv e = ground arith

  pub Move-Within :
      {p p' : Pc} {q' : Queue}
      → Move n q p q' p'
      → pc i ≡ p
      → (j : ℕ) → Within n q' (update pc i p' j)
  Move-Within (advance_write_to g h) e j = ground (arith, within i, within j)
  Move-Within (advance_read_from g h) e j = ground (arith, within i, within j)
  Move-Within mv e j = ground (arith, within i, within j)
