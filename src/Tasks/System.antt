-- ===== src/Tasks/System.antt =====
-- Any number of cores at one worker's queue, interleaved in any order. The calls of other workers'
-- queues are seen where they add to `TaskGlobals.next_id`.
use dumboss.Base.{update, ℕ, ◌+◌, none, false}
use dumboss.Tasks.Queue.{Queue, Sync, Pc, away, Move}

pub record System : Type 0 where
  pub queue : Queue
  pub pc : ℕ → Pc

pub data Step (task_count : ℕ) (s : System) : System → Type 0 where
  core :
      (i : ℕ) {q : Queue} {p : Pc}
      → Move task_count s.queue (s.pc i) q p
      → Step task_count s (record { queue = q; pc = update s.pc i p })
  elsewhere :
      Step task_count s (record s { queue = record s.queue { next_id = s.queue.next_id + 1 } })

-- `tasks__init` leaves zeroed pages: every slot is empty.
abbrev pub initial : System
initial = record {
  queue = record {
    tasks = λ k. record {
      sync_info = Sync.empty;
      id = 0;
      content = record { code = 0; pointer = 0; data_size = 0 };
    };
    read_from = 0;
    write_to = 0;
    next_id = 0;
    sent = λ id. none;
    taken = λ id. false;
  };
  pc = λ i. away;
}

pub data Reach (task_count : ℕ) : System → Type 0 where
  start : Reach task_count initial
  later : {s t : System} → Reach task_count s → Step task_count s t → Reach task_count t
