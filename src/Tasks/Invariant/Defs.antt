-- ===== src/Tasks/Invariant/Defs.antt =====
-- The invariant of a worker's queue: who owns which slot, and what the slots hold.
use dumboss.Base.{ℕ, ◌+◌, ◌≤◌, ◌<◌, ◌≡◌, Bool, true, false, Option, none, some}
use dumboss.Tasks.Queue.{
  Queue, Sync, writing, queued, reading, Pc, enqueue_bound, find_slot, next_slot, claimed, numbered,
  named, filled, dequeue_bound, find_task, next_task, found, half_read, read,
}

-- The slot that a core has claimed, and what it has written into `sync_info`.
abbrev pub owned : Pc → Option ℕ
owned (claimed content k) = some k
owned (numbered content k id) = some k
owned (named content k id) = some k
owned (filled content k id) = some k
owned (found k) = some k
owned (half_read k id) = some k
owned (read k id content) = some k
owned _ = none

abbrev pub mark : Pc → Sync
mark (found k) = reading
mark (half_read k id) = reading
mark (read k id content) = reading
mark _ = writing

-- The identifier that a core has drawn and not yet put into the queue.
abbrev pub drawn : Pc → Option ℕ
drawn (numbered content k id) = some id
drawn (named content k id) = some id
drawn (filled content k id) = some id
drawn _ = none

-- What the local variables of a core say about the slot that it owns.
abbrev pub Agrees : Queue → Pc → Type 0
Agrees q (named content k id) = (q.tasks k).id ≡ id
Agrees q (filled content k id) = ((q.tasks k).id ≡ id) × ((q.tasks k).content ≡ content)
Agrees q (half_read k id) = (q.tasks k).id ≡ id
Agrees q (read k id content) = ((q.tasks k).id ≡ id) × ((q.tasks k).content ≡ content)
Agrees q _ = Unit

-- What they say about the indices.
abbrev pub Within : ℕ → Queue → Pc → Type 0
Within n q (enqueue_bound content bound) = bound ≤ q.read_from + n
Within n q (find_slot content bound w) = bound ≤ q.read_from + n
Within n q (next_slot content bound w) = bound ≤ q.read_from + n
Within n q (dequeue_bound w) = w ≤ q.write_to
Within n q (find_task w r) = w ≤ q.write_to
Within n q (next_task w r) = w ≤ q.write_to
Within n q _ = Unit

-- A slot that holds a task for a core to take.
abbrev pub full : Sync → Bool
full queued = true
full reading = true
full _ = false

pub record Inv (n : ℕ) (q : Queue) (pc : ℕ → Pc) : Type 0 where
  pub marked : (i k : ℕ) → owned (pc i) ≡ some k → (q.tasks k).sync_info ≡ mark (pc i)
  pub owner : (i j k : ℕ) → owned (pc i) ≡ some k → owned (pc j) ≡ some k → i ≡ j
  pub new : (i id : ℕ) → drawn (pc i) ≡ some id → (id < q.next_id) × (q.sent id ≡ none)
  pub drawer : (i j id : ℕ) → drawn (pc i) ≡ some id → drawn (pc j) ≡ some id → i ≡ j
  pub unused : (id : ℕ) → q.next_id ≤ id → q.sent id ≡ none
  pub unsent : (id : ℕ) → q.sent id ≡ none → q.taken id ≡ false
  pub agrees : (i : ℕ) → Agrees q (pc i)
  pub stored :
      (k : ℕ)
      → full (q.tasks k).sync_info ≡ true
      → (q.sent (q.tasks k).id ≡ some (q.tasks k).content) × (q.taken (q.tasks k).id ≡ false)
  pub distinct :
      (k l : ℕ)
      → full (q.tasks k).sync_info ≡ true
      → full (q.tasks l).sync_info ≡ true
      → (q.tasks k).id ≡ (q.tasks l).id
      → k ≡ l
  pub ordered : q.read_from ≤ q.write_to
  pub bounded : q.write_to ≤ q.read_from + n
  pub within : (i : ℕ) → Within n q (pc i)
