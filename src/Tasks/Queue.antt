-- ===== src/Tasks/Queue.antt =====
-- kern/multitasking.c: `enqueue_task` and `dequeue_task` on one worker's queue, an access to shared
-- memory at a time.
use dumboss.Base.{update, ℕ, ◌+◌, ◌%◌, ◌≤◌, ◌<◌, ◌≡◌, ◌≢◌, Bool, true, false, Option, some}

-- The values of `sync_info`.
pub data Sync : Type 0 where
  empty : Sync
  writing : Sync
  queued : Sync
  reading : Sync

-- `TaskData`; the field `data` is `pointer` here.
pub record TaskData : Type 0 where
  pub code : ℕ
  pub pointer : ℕ
  pub data_size : ℕ

pub record Task : Type 0 where
  pub sync_info : Sync
  pub id : ℕ
  pub content : TaskData

-- `WorkerState` and `TaskGlobals.next_id`. `sent` and `taken` are no memory of the kernel's: they
-- keep which identifiers a call has put into the queue, with what, and which a call has returned.
pub record Queue : Type 0 where
  pub tasks : ℕ → Task
  pub read_from : ℕ
  pub write_to : ℕ
  pub next_id : ℕ
  pub sent : ℕ → Option TaskData
  pub taken : ℕ → Bool

abbrev pub put_task : Queue → ℕ → Task → Queue
put_task q k task = record q { tasks = update q.tasks k task }

abbrev pub put_sync : Queue → ℕ → Sync → Queue
put_sync q k sync = put_task q k (record (q.tasks k) { sync_info = sync })

-- Where a core stands in a call, with the local variables that are live there. `task` is the slot
-- that `target` points to.
pub data Pc : Type 0 where
  away : Pc
  enqueue : (content : TaskData) → Pc
  enqueue_bound : (content : TaskData) (upper_bound : ℕ) → Pc
  find_slot : (content : TaskData) (upper_bound write_to : ℕ) → Pc
  next_slot : (content : TaskData) (upper_bound write_to : ℕ) → Pc
  claimed : (content : TaskData) (task : ℕ) → Pc
  numbered : (content : TaskData) (task id : ℕ) → Pc
  named : (content : TaskData) (task id : ℕ) → Pc
  filled : (content : TaskData) (task id : ℕ) → Pc
  added : Bool → Pc
  dequeue : Pc
  dequeue_bound : (write_to : ℕ) → Pc
  find_task : (write_to read_from : ℕ) → Pc
  next_task : (write_to read_from : ℕ) → Pc
  found : (task : ℕ) → Pc
  half_read : (task id : ℕ) → Pc
  read : (task id : ℕ) (content : TaskData) → Pc
  got : (id : ℕ) (content : TaskData) → Pc
  got_none : Pc

-- One access. A weak exchange may fail at any time, and then loads what is there; a strong one that
-- fails loads a value that the code does not use. Behind an exchange that succeeds, `write_to` and
-- `read_from` still have the value that was expected.
pub data Move (task_count : ℕ) (q : Queue) : Pc → Queue → Pc → Type 0 where
  call_enqueue : (content : TaskData) → Move task_count q away q (enqueue content)
  load_read_from :
      {content : TaskData}
      → Move task_count q (enqueue content) q (enqueue_bound content (q.read_from + task_count))
  load_write_to :
      {content : TaskData} {bound : ℕ}
      → Move task_count q (enqueue_bound content bound) q (find_slot content bound q.write_to)
  claim :
      {content : TaskData} {bound w : ℕ}
      → (q.tasks (w % task_count)).sync_info ≡ empty
      → Move task_count q
          (find_slot content bound w)
          (put_sync q (w % task_count) writing)
          (claimed content (w % task_count))
  occupied :
      {content : TaskData} {bound w : ℕ}
      → (q.tasks (w % task_count)).sync_info ≢ empty
      → Move task_count q (find_slot content bound w) q (next_slot content bound w)
  advance_write_to :
      {content : TaskData} {bound w : ℕ}
      → w < bound
      → q.write_to ≡ w
      → Move task_count q
          (next_slot content bound w)
          (record q { write_to = w + 1 })
          (find_slot content bound w)
  reload_write_to :
      {content : TaskData} {bound w : ℕ}
      → w < bound
      → Move task_count q (next_slot content bound w) q (next_slot content bound q.write_to)
  full :
      {content : TaskData} {bound w : ℕ}
      → bound ≤ w
      → Move task_count q (next_slot content bound w) q (added false)
  number :
      {content : TaskData} {k : ℕ}
      → Move task_count q
          (claimed content k)
          (record q { next_id = q.next_id + 1 })
          (numbered content k q.next_id)
  store_id :
      {content : TaskData} {k id : ℕ}
      → Move task_count q
          (numbered content k id)
          (put_task q k (record (q.tasks k) { id = id }))
          (named content k id)
  store_content :
      {content : TaskData} {k id : ℕ}
      → Move task_count q
          (named content k id)
          (put_task q k (record (q.tasks k) { content = content }))
          (filled content k id)
  publish :
      {content : TaskData} {k id : ℕ}
      → Move task_count q
          (filled content k id)
          (record (put_sync q k queued) { sent = update q.sent id (some content) })
          (added true)
  return_added : {b : Bool} → Move task_count q (added b) q away
  call_dequeue : Move task_count q away q dequeue
  load_end : Move task_count q dequeue q (dequeue_bound q.write_to)
  load_begin : {w : ℕ} → Move task_count q (dequeue_bound w) q (find_task w q.read_from)
  claim_task :
      {w r : ℕ}
      → (q.tasks (r % task_count)).sync_info ≡ queued
      → Move task_count q
          (find_task w r)
          (put_sync q (r % task_count) reading)
          (found (r % task_count))
  not_queued :
      {w r : ℕ}
      → (q.tasks (r % task_count)).sync_info ≢ queued
      → Move task_count q (find_task w r) q (next_task w r)
  advance_read_from :
      {w r : ℕ}
      → r < w
      → q.read_from ≡ r
      → Move task_count q (next_task w r) (record q { read_from = r + 1 }) (find_task w r)
  reload_read_from :
      {w r : ℕ} → r < w → Move task_count q (next_task w r) q (next_task w q.read_from)
  none_left : {w r : ℕ} → w ≤ r → Move task_count q (next_task w r) q got_none
  load_id : {k : ℕ} → Move task_count q (found k) q (half_read k (q.tasks k).id)
  load_content : {k id : ℕ} → Move task_count q (half_read k id) q (read k id (q.tasks k).content)
  vacate :
      {k id : ℕ} {content : TaskData}
      → Move task_count q
          (read k id content)
          (record (put_sync q k empty) { taken = update q.taken id true })
          (got id content)
  return_got : {id : ℕ} {content : TaskData} → Move task_count q (got id content) q away
  return_none : Move task_count q got_none q away
