-- ===== src/Tasks/Invariant/Slots.antt =====
-- An access keeps the slots with their owners.
use dumboss.Base.{update, ℕ, ◌%◌, ◌≡◌, some, arith}
use dumboss.Tasks.Queue.{Queue, Pc, Move, claim, claim_task}
use dumboss.Tasks.Invariant.Defs.{owned, mark, Inv}

module _ {n : ℕ} {q : Queue} {pc : ℕ → Pc} (inv : Inv n q pc) (i : ℕ) where
  open inv use {marked, owner}

  pub Move-marked :
      {p p' : Pc} {q' : Queue}
      → Move n q p q' p'
      → pc i ≡ p
      → (j k : ℕ) → owned (update pc i p' j) ≡ some k
      → (q'.tasks k).sync_info ≡ mark (update pc i p' j)
  Move-marked (claim {w = w} g) e j k o = ground (arith, marked j (w % n), marked j k)
  Move-marked (claim_task {r = r} g) e j k o = ground (arith, marked j (r % n), marked j k)
  Move-marked mv e j k o = ground (arith, marked j k, marked i k, owner i j k)

  pub Move-owner :
      {p p' : Pc} {q' : Queue}
      → Move n q p q' p'
      → pc i ≡ p
      → (a b k : ℕ) → owned (update pc i p' a) ≡ some k
      → owned (update pc i p' b) ≡ some k
      → a ≡ b
  Move-owner (claim {w = w} g) e a b k oa ob = ground (arith, marked a k, marked b k, owner a b k)
  Move-owner (claim_task {r = r} g) e a b k oa ob =
      ground (arith, marked a k, marked b k, owner a b k)
  Move-owner mv e a b k oa ob = ground (arith, owner a b k, owner i a k, owner i b k)
