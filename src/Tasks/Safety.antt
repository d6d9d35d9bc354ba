-- ===== src/Tasks/Safety.antt =====
-- What the cores may rely on, in every state that they can reach.
use dumboss.Base.{ℕ, ◌+◌, ◌≤◌, ◌≡◌, refl, false, some, arith}
use dumboss.Tasks.Queue.{TaskData, read}
use dumboss.Tasks.System.{System, Step, core, elsewhere, initial, Reach, start, later}
use dumboss.Tasks.Invariant.Defs.{owned, mark, Inv}
use dumboss.Tasks.Invariant.Slots.{Move-marked, Move-owner}
use dumboss.Tasks.Invariant.Contents.{
  Move-new, Move-drawer, Move-unused, Move-unsent, Move-Agrees, Move-stored, Move-distinct,
}
use dumboss.Tasks.Invariant.Indices.{Move-bounds, Move-Within}

initial-Inv : (n : ℕ) → Inv n initial.queue initial.pc
initial-Inv n = record {
  marked = λ i k o. ground arith;
  owner = λ i j k o q. ground arith;
  new = λ i id d. ground arith;
  drawer = λ i j id d q. ground arith;
  unused = λ id le. refl;
  unsent = λ id e. refl;
  agrees = λ i. tt;
  stored = λ k f. ground arith;
  distinct = λ k l f g e. ground arith;
  ordered = omega arith;
  bounded = omega arith;
  within = λ i. tt;
}

Step-Inv : {n : ℕ} {s t : System} → Step n s t → Inv n s.queue s.pc → Inv n t.queue t.pc
Step-Inv (core i mv) inv = record {
  marked = Move-marked inv i mv refl;
  owner = Move-owner inv i mv refl;
  new = Move-new inv i mv refl;
  drawer = Move-drawer inv i mv refl;
  unused = Move-unused inv i mv refl;
  unsent = Move-unsent inv i mv refl;
  agrees = Move-Agrees inv i mv refl;
  stored = Move-stored inv i mv refl;
  distinct = Move-distinct inv i mv refl;
  ordered = (Move-bounds inv i mv refl).0;
  bounded = (Move-bounds inv i mv refl).1;
  within = Move-Within inv i mv refl;
}
Step-Inv elsewhere inv = record {
  marked = inv.marked;
  owner = inv.owner;
  new = λ i id d. let (lt, e) = inv.new i id d in (omega arith, e);
  drawer = inv.drawer;
  unused = λ id le. inv.unused id (omega arith);
  unsent = inv.unsent;
  agrees = λ i. ground (arith, inv.agrees i);
  stored = inv.stored;
  distinct = inv.distinct;
  ordered = inv.ordered;
  bounded = inv.bounded;
  within = λ i. ground (arith, inv.within i);
}

pub Reach-Inv : {n : ℕ} {s : System} → Reach n s → Inv n s.queue s.pc
Reach-Inv {n} start = initial-Inv n
Reach-Inv (later r st) = Step-Inv st (Reach-Inv r)

-- Two cores never have a claim on one slot, and the slot is marked as written or read by the one
-- that has: between the exchange that claims it and the store that gives it back, no other core
-- writes or reads it.
pub slot_exclusion :
    {n : ℕ} {s : System}
    → Reach n s
    → (i j k : ℕ) → owned (s.pc i) ≡ some k
    → owned (s.pc j) ≡ some k
    → (i ≡ j) × ((s.queue.tasks k).sync_info ≡ mark (s.pc i))
slot_exclusion r i j k oi oj = ((Reach-Inv r).owner i j k oi oj, (Reach-Inv r).marked i k oi)

-- A task that a core is about to return from `dequeue_task` has been put into the queue under its
-- identifier, with that content, and no call has returned it before; no other core is about to
-- return it.
pub dequeue_once :
    {n : ℕ} {s : System}
    → Reach n s
    → (i j id : ℕ) {k l : ℕ} {content other : TaskData} → s.pc i ≡ read k id content
    → s.pc j ≡ read l id other
    → (s.queue.sent id ≡ some content) × (s.queue.taken id ≡ false) × (i ≡ j)
dequeue_once {s = s} r i j id {k} {l} {content} {other} at_i at_j =
    let inv = Reach-Inv r in
    ground (
      arith,
      inv.agrees i,
      inv.agrees j,
      inv.marked i k,
      inv.marked j l,
      inv.stored k,
      inv.distinct k l,
      inv.owner i j k,
    )

-- `write_to - read_from`, by which the source counts the tasks of a queue, is never negative and
-- never more than the number of slots.
pub queue_bounds :
    {n : ℕ} {s : System}
    → Reach n s
    → (s.queue.read_from ≤ s.queue.write_to) × (s.queue.write_to ≤ s.queue.read_from + n)
queue_bounds r = ((Reach-Inv r).ordered, (Reach-Inv r).bounded)
