-- ===== src/Tasks/Tests.antt =====
-- Runs of the theorems on a queue of four slots, and one run that strands a task.
use dumboss.Base.{
  ℕ, ◌+◌, ◌≤◌, ◌≡◌, refl, Bool, true, false, Option, none, some, List, [], ◌∷◌, ◌++◌, replicate, ok,
  arith,
}
use dumboss.Tasks.Queue.{TaskData, queued, read, got_none}
use dumboss.Tasks.Invariant.Defs.{mark}
use dumboss.Tasks.Schedule.{put, take, Run, run}
use dumboss.Tasks.Workers.{add_task_inner, find_task, get_worker_index}
use dumboss.Tasks.Search.{Finds, find_task-Finds, Adds, add_task_inner-Adds}
use dumboss.Tasks.Safety.{slot_exclusion, dequeue_once, queue_bounds}

-- Core 0 has put content 7 into the queue, and core 1 has read it.
abbrev handed_over : Run 4
handed_over = run 4 (replicate 6 (take 1) ++ replicate 9 (put 0 7))

abbrev seven : TaskData
seven = record { code = 7; pointer = 0; data_size = 0 }

handed_over_pc : handed_over.last.pc 1 ≡ read 0 0 seven
unfolding run
handed_over_pc = refl

slot_exclusion_example :
    (◌≡◌ {A = ℕ} 1 1) × ((handed_over.last.queue.tasks 0).sync_info ≡ mark (handed_over.last.pc 1))
unfolding run
slot_exclusion_example = slot_exclusion handed_over.reach 1 1 0 refl refl

dequeue_once_example :
    (handed_over.last.queue.sent 0 ≡ some seven)
    × (handed_over.last.queue.taken 0 ≡ false)
    × (◌≡◌ {A = ℕ} 1 1)
unfolding run
dequeue_once_example =
    dequeue_once handed_over.reach 1 1 0 {k = 0} {l = 0} {content = seven} {other = seven} refl refl

queue_bounds_example :
    (handed_over.last.queue.read_from ≤ handed_over.last.queue.write_to)
    × (handed_over.last.queue.write_to ≤ handed_over.last.queue.read_from + 4)
queue_bounds_example = queue_bounds handed_over.reach

-- Core 0 has claimed slot 0 when core 1 puts a task into slot 1, and core 2 takes that one: it has
-- moved `read_from` past slot 0. Then core 0 finishes, and core 2 finds no task.
abbrev stranded : Run 4
stranded = run 4 (
    replicate 5 (take 2)
    ++ (replicate 5 (put 0 7)
        ++ (replicate 13 (take 2) ++ (replicate 14 (put 1 8) ++ replicate 4 (put 0 7)))))

stranded_task :
    (stranded.last.pc 2 ≡ got_none)
    × ((stranded.last.queue.tasks 0).sync_info ≡ queued)
    × (stranded.last.queue.read_from ≡ 2)
    × (stranded.last.queue.write_to ≡ 2)
unfolding run
stranded_task = (refl, refl, refl, refl)

-- One core alone, on a queue of two slots: it puts 7, 8, takes one, puts 9, takes one. The second
-- time it gets 9, which has overtaken 8 in the slot that 7 had.
abbrev overtaken : Run 2
overtaken = run 2 (
    replicate 7 (take 0)
    ++ (replicate 11 (put 0 9)
        ++ (replicate 8 (take 0) ++ (replicate 11 (put 0 8) ++ replicate 9 (put 0 7)))))

overtaken_task :
    (overtaken.last.pc 0 ≡ read 0 2 (record { code = 9; pointer = 0; data_size = 0 }))
    × ((overtaken.last.queue.tasks 1).sync_info ≡ queued)
    × ((overtaken.last.queue.tasks 1).id ≡ 1)
unfolding run
overtaken_task = (refl, refl, refl)

-- Three workers whose queues are lists of numbers: only the last has tasks.
abbrev first_of : List ℕ → Option ℕ × List ℕ
first_of [] = (none, [])
first_of (t ∷ ts) = (some t, ts)

abbrev queues : List (List ℕ)
queues = [] ∷ [] ∷ (5 ∷ 6 ∷ []) ∷ []

find_task-Finds_example : Finds first_of 1 queues (omega arith) (find_task first_of 1 queues)
find_task-Finds_example = find_task-Finds first_of 1 queues (omega arith)

found_task : find_task first_of 1 queues ≡ ok (some 5, [] ∷ [] ∷ (6 ∷ []) ∷ [])
unfolding find_task
found_task = refl

-- A queue takes one task.
abbrev put_one : List ℕ → TaskData → Bool × List ℕ
put_one [] content = (true, content.code ∷ [])
put_one (t ∷ ts) content = (false, t ∷ ts)

add_task_inner-Adds_example :
    Adds put_one seven ((1 ∷ []) ∷ [] ∷ []) (add_task_inner put_one ((1 ∷ []) ∷ [] ∷ []) seven)
add_task_inner-Adds_example = add_task_inner-Adds put_one seven ((1 ∷ []) ∷ [] ∷ [])

third_core : get_worker_index 9 (4 ∷ 7 ∷ 9 ∷ []) ≡ ok 2
unfolding get_worker_index
third_core = refl
