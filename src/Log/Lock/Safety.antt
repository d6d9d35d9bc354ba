-- ===== src/Log/Lock/Safety.antt =====
-- One core at a time logs, the lines come whole, and a call that logs inside a call never returns.
use mathlib.Core.List.{append_assoc, append-nil}
use dumboss.Base.{ℕ, ◌≡◌, refl, ◌∙◌, Bool, true, false, List, [], ◌∷◌, ◌++◌, update, arith}
use dumboss.Log.Lock.{
  Port, Pc, away, locking, holding, sending, exited, Move, lock, write, unlock, System, Step, core,
  initial, Reach, start, later,
}

-- Whether a core has the mutex: also while it waits for the mutex that it has.
abbrev pub has_mutex : Pc → Bool
has_mutex (locking nested) = nested
has_mutex (holding nested) = true
has_mutex (sending nested done left) = true
has_mutex _ = false

-- What a core has sent of its line.
abbrev pub part : Pc → List ℕ
part (sending nested done left) = done
part _ = []

abbrev pub concat : List (List ℕ) → List ℕ
concat [] = []
concat (line ∷ lines) = line ++ concat lines

concat-append :
    (lines : List (List ℕ)) (line : List ℕ) → concat (lines ++ (line ∷ [])) ≡ concat lines ++ line
concat-append [] line = append-nil line
concat-append (l ∷ lines) line =
    rw (concat-append lines line, append_assoc l (concat lines) line) refl

-- A call inside a call never gets behind the lock.
abbrev IsOuter : Pc → Type 0
IsOuter (locking nested) = Unit
IsOuter (holding nested) = nested ≡ false
IsOuter (sending nested done left) = nested ≡ false
IsOuter away = Unit
IsOuter exited = ⊥

record Inv (p : Port) (pc : ℕ → Pc) : Type 0 where
  closed : (i : ℕ) → has_mutex (pc i) ≡ true → p.mutex ≡ 1
  owner : (i j : ℕ) → has_mutex (pc i) ≡ true → has_mutex (pc j) ≡ true → i ≡ j
  outer : (i : ℕ) → IsOuter (pc i)
  open_text : p.mutex ≡ 0 → p.bytes ≡ concat p.lines
  text : (i : ℕ) → has_mutex (pc i) ≡ true → p.bytes ≡ concat p.lines ++ part (pc i)

module _ {p : Port} {pc : ℕ → Pc} (inv : Inv p pc) (i : ℕ) where
  open inv use {closed, owner, outer, open_text, text}

  Move-closed :
      {c c' : Pc} {q : Port}
      → Move p c q c'
      → pc i ≡ c
      → (j : ℕ) → has_mutex (update pc i c' j) ≡ true
      → q.mutex ≡ 1
  Move-closed (lock free) e j h = refl
  Move-closed mv e j h = ground (arith, closed j, closed i, owner i j, outer i)

  Move-owner :
      {c c' : Pc} {q : Port}
      → Move p c q c'
      → pc i ≡ c
      → (a b : ℕ) → has_mutex (update pc i c' a) ≡ true
      → has_mutex (update pc i c' b) ≡ true
      → a ≡ b
  Move-owner (lock free) e a b h k = ground (arith, closed a, closed b, owner a b)
  Move-owner mv e a b h k = ground (arith, owner a b, owner i a, owner i b, outer i)

  Move-IsOuter :
      {c c' : Pc} {q : Port} → Move p c q c' → pc i ≡ c → (j : ℕ) → IsOuter (update pc i c' j)
  Move-IsOuter (lock {nested = true} free) e j = ground (arith, closed i)
  Move-IsOuter (lock {nested = false} free) e j = ground (arith, outer j)
  Move-IsOuter mv e j = ground (arith, outer i, outer j)

  Move-open_text :
      {c c' : Pc} {q : Port} → Move p c q c' → pc i ≡ c → q.mutex ≡ 0 → q.bytes ≡ concat q.lines
  Move-open_text (unlock {line = line}) e free = ground (arith, text i, concat-append p.lines line)
  Move-open_text mv e free = ground (arith, open_text, closed i)

  Move-text :
      {c c' : Pc} {q : Port}
      → Move p c q c'
      → pc i ≡ c
      → (j : ℕ) → has_mutex (update pc i c' j) ≡ true
      → q.bytes ≡ concat q.lines ++ part (update pc i c' j)
  Move-text (lock free) e j h = ground (arith, closed j, append-nil (concat p.lines))
  Move-text (unlock {line = line}) e j h = ground (arith, outer i, owner i j)
  Move-text (write {done = done} {c = c}) e j h =
      ground (arith, text i, owner i j, append_assoc (concat p.lines) done (c ∷ []))
  Move-text mv e j h = ground (arith, text j, text i)

  -- A move of `i`, or of any core that finds the mutex taken by a core that waits for it.
  Move-stuck :
      {c c' : Pc} {q : Port}
      → Move p c q c'
      → pc i ≡ c
      → (j : ℕ) → pc j ≡ locking true
      → (update pc i c' j ≡ locking true) × (q.bytes ≡ p.bytes)
  Move-stuck (lock free) e j w = ground (arith, closed j)
  Move-stuck mv e j w = ground (arith, owner i j)

Step-Inv : {s t : System} → Step s t → Inv s.port s.pc → Inv t.port t.pc
Step-Inv (core i mv) inv = record {
  closed = Move-closed inv i mv refl;
  owner = Move-owner inv i mv refl;
  outer = Move-IsOuter inv i mv refl;
  open_text = Move-open_text inv i mv refl;
  text = Move-text inv i mv refl;
}

Step-stuck :
    {s t : System}
    → Step s t
    → Inv s.port s.pc
    → (j : ℕ) → s.pc j ≡ locking true
    → (t.pc j ≡ locking true) × (t.port.bytes ≡ s.port.bytes)
Step-stuck (core i mv) inv j w = Move-stuck inv i mv refl j w

Reach-Inv : {s t : System} → Reach s t → Inv s.port s.pc → Inv t.port t.pc
Reach-Inv start inv = inv
Reach-Inv (later r st) inv = Step-Inv st (Reach-Inv r inv)

initial-Inv : Inv initial.port initial.pc
initial-Inv = record {
  closed = λ i h. ground arith;
  owner = λ i j h k. ground arith;
  outer = λ i. tt;
  open_text = λ e. refl;
  text = λ i h. ground arith;
}

-- In every state that the cores reach, at most one of them has the mutex: it is locked while a core
-- formats or sends a line, or waits for it in a call inside such a call.
pub lock_exclusion :
    {s : System}
    → Reach initial s
    → (i j : ℕ) → has_mutex (s.pc i) ≡ true
    → has_mutex (s.pc j) ≡ true
    → (i ≡ j) × (s.port.mutex ≡ 1)
lock_exclusion r i j h k = let inv = Reach-Inv r initial-Inv in (inv.owner i j h k, inv.closed i h)

-- The serial port gets whole lines, one after the other: in every state that the cores reach, its
-- bytes are the lines of the calls that have unlocked the mutex, in that order, while the mutex is
-- unlocked, and followed by the begin of its line while a core sends one.
pub whole_lines :
    {s : System}
    → Reach initial s
    → (s.port.mutex ≡ 0 → s.port.bytes ≡ concat s.port.lines)
      × ((i : ℕ) (nested : Bool) (done left : List ℕ)
          → s.pc i ≡ sending nested done left
          → s.port.bytes ≡ concat s.port.lines ++ done)
whole_lines r =
    let inv = Reach-Inv r initial-Inv in
    (inv.open_text, λ i nested done left at_i. ground (arith, inv.text i))

-- From a state in which a core logs inside a call that has the mutex, the core waits for the mutex in
-- every later state, and no core sends another byte.
pub lock_deadlock :
    {s t : System}
    → Reach initial s
    → (i : ℕ) → s.pc i ≡ locking true
    → Reach s t
    → (t.pc i ≡ locking true) × (t.port.bytes ≡ s.port.bytes)
lock_deadlock r i waits start = (waits, refl)
lock_deadlock r i waits (later q st) =
    let (still, same) = lock_deadlock r i waits q in
    let (waits, silent) = Step-stuck st (Reach-Inv q (Reach-Inv r initial-Inv)) i still in
    (waits, silent ∙ same)
