-- ===== src/Tasks/Workers.antt =====
-- kern/multitasking.c: the loops over `TaskGlobals.workers`, of `add_task_inner`, `task_main` and
-- `get_worker_index`. What a call of `enqueue_task` or `dequeue_task` comes to depends on the other
-- cores, as Tasks/Queue has it; here it is an argument. `sync_info` of the task that `dequeue_task`
-- returns is `Task__Empty` where it returns none.
use dumboss.Base.{
  ℕ, zero, suc, ◌+◌, ◌%◌, Bool, true, false, Option, none, some, List, [], ◌∷◌, ◌==◌, if◌then◌else◌,
  length, set, Res, ok, panic, ◌>>=◌, load,
}
use dumboss.Tasks.Queue.{TaskData}

module _ {W : Type 0} (enqueue_task : W → TaskData → Bool × W) where
  unfoldable pub add_task_inner : List W → TaskData → Bool × List W
  add_task_inner [] content = (false, [])
  add_task_inner (it ∷ workers) content =
      let (added, it') = enqueue_task it content in
      let (later, workers') = add_task_inner workers content in
      if added then (true, it' ∷ workers) else (later, it' ∷ workers')

-- The loop of `task_main` over the workers, with the rounds left and `it`.
module _ {W T : Type 0} (dequeue_task : W → Option T × W) where
  unfoldable pub find_task_loop : ℕ → ℕ → ℕ → ℕ → List W → Res (Option T × List W)
  find_task_loop zero it self_index worker_count workers = ok (none, workers)
  find_task_loop (suc left) it self_index worker_count workers = do
    let worker_index = (it + self_index) % worker_count
    worker ← load workers worker_index
    let (task, worker') = dequeue_task worker
    let workers' = set workers worker_index worker'
    let rest = find_task_loop left (it + 1) self_index worker_count workers'
    elim task [ none ↦ rest | some t ↦ ok (some t, workers') ]

  unfoldable pub find_task : ℕ → List W → Res (Option T × List W)
  unfolding find_task_loop
  find_task self_index workers =
      find_task_loop (length workers) 0 self_index (length workers) workers

-- The worker of a core, by the identifiers of the workers' cores. Without one the code exits.
unfoldable pub find_core : ℕ → ℕ → List ℕ → Res ℕ
find_core id index [] = panic
find_core id index (core_id ∷ workers) =
    let rest = find_core id (index + 1) workers in if core_id == id then ok index else rest

unfoldable pub get_worker_index : ℕ → List ℕ → Res ℕ
unfolding find_core
get_worker_index id workers = find_core id 0 workers
