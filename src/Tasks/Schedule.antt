-- ===== src/Tasks/Schedule.antt =====
-- Reachable states of a queue by evaluation: the cores run in a given order. No weak exchange fails
-- without need.
use mathlib.Core.Logic.{dite}
use dumboss.Base.{
  ℕ, ◌%◌, ◌≤◌, ◌<◌, ◌≡◌, ◌≢◌, ◌⊎◌, inl, inr, refl, dec_lt, ℕ_discrete, arith, List, [], ◌∷◌,
}
use dumboss.Tasks.Queue.{
  Queue, Sync, empty, writing, queued, reading, Pc, away, enqueue, enqueue_bound, find_slot,
  next_slot, claimed, numbered, named, filled, added, dequeue, dequeue_bound, find_task, next_task,
  found, half_read, read, got, got_none, Move,
}
use dumboss.Tasks.System.{System, Reach, start, later, core}

-- Whether a core that is away enqueues next, and what.
pub data Turn : Type 0 where
  put : (core content : ℕ) → Turn
  take : (core : ℕ) → Turn

abbrev who : Turn → ℕ
who (put i content) = i
who (take i) = i

abbrev Next : ℕ → Queue → Pc → Type 0
Next n q p = (q' : Queue) × (p' : Pc) × Move n q p q' p'

is_empty : (s : Sync) → (s ≡ empty) ⊎ (s ≢ empty)
is_empty empty = inl refl
is_empty writing = inr (λ e. cc)
is_empty queued = inr (λ e. cc)
is_empty reading = inr (λ e. cc)

is_queued : (s : Sync) → (s ≡ queued) ⊎ (s ≢ queued)
is_queued queued = inl refl
is_queued writing = inr (λ e. cc)
is_queued empty = inr (λ e. cc)
is_queued reading = inr (λ e. cc)

pub le_of_not-lt : (a b : ℕ) → (a < b → ⊥) → b ≤ a
le_of_not-lt a b h = omega arith

advance : (n : ℕ) (turn : Turn) (q : Queue) (p : Pc) → Next n q p
unfolding is_empty is_queued ℕ_discrete dec_lt
advance n (put i c) q away =
    (_, _, Move.call_enqueue (record { code = c; pointer = 0; data_size = 0 }))
advance n (take i) q away = (_, _, Move.call_dequeue)
advance n turn q (enqueue c) = (_, _, Move.load_read_from)
advance n turn q (enqueue_bound c bound) = (_, _, Move.load_write_to)
advance n turn q (find_slot c bound w) = elim (is_empty (q.tasks (w % n)).sync_info) [
  | inl e ↦ (_, _, Move.claim e)
  | inr e ↦ (_, _, Move.occupied e)
]
advance n turn q (next_slot c bound w) =
    dite (dec_lt w bound)
      (λ lt.
        dite (ℕ_discrete q.write_to w) (λ e. (_, _, Move.advance_write_to lt e))
          (λ e. (_, _, Move.reload_write_to lt)))
      (λ ge. (_, _, Move.full (le_of_not-lt w bound ge)))
advance n turn q (claimed c k) = (_, _, Move.number)
advance n turn q (numbered c k id) = (_, _, Move.store_id)
advance n turn q (named c k id) = (_, _, Move.store_content)
advance n turn q (filled c k id) = (_, _, Move.publish)
advance n turn q (added b) = (_, _, Move.return_added)
advance n turn q dequeue = (_, _, Move.load_end)
advance n turn q (dequeue_bound w) = (_, _, Move.load_begin)
advance n turn q (find_task w r) = elim (is_queued (q.tasks (r % n)).sync_info) [
  | inl e ↦ (_, _, Move.claim_task e)
  | inr e ↦ (_, _, Move.not_queued e)
]
advance n turn q (next_task w r) =
    dite (dec_lt r w)
      (λ lt.
        dite (ℕ_discrete q.read_from r) (λ e. (_, _, Move.advance_read_from lt e))
          (λ e. (_, _, Move.reload_read_from lt)))
      (λ ge. (_, _, Move.none_left (le_of_not-lt r w ge)))
advance n turn q (found k) = (_, _, Move.load_id)
advance n turn q (half_read k id) = (_, _, Move.load_content)
advance n turn q (read k id c) = (_, _, Move.vacate)
advance n turn q (got id c) = (_, _, Move.return_got)
advance n turn q got_none = (_, _, Move.return_none)

pub record Run (n : ℕ) : Type 0 where
  pub last : System
  pub reach : Reach n last

-- The turns, the last one first.
unfoldable pub run : (n : ℕ) → List Turn → Run n
unfolding advance
run n [] = record { last = _; reach = start }
run n (turn ∷ turns) =
    let before = run n turns in
    let s = before.last in
    let step = advance n turn s.queue (s.pc (who turn)) in
    record { last = _; reach = later before.reach (core (who turn) step.2) }
