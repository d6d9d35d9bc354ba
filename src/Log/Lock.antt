-- ===== src/Log/Lock.antt =====
-- kern/__lib_impl__.c with lib/sync.h: the cores that log, one access to the mutex or to the serial
-- port at a time. `UseInterrupts` is not set.
pub mod Safety
use dumboss.Base.{ℕ, ◌≡◌, Bool, true, false, List, [], ◌∷◌, ◌++◌, if◌then◌else◌, update}

-- `lines` is no memory of the kernel's: it keeps the texts of the calls that have unlocked the mutex.
pub record Port : Type 0 where
  pub mutex : ℕ
  pub bytes : List ℕ
  pub lines : List (List ℕ)

-- Where a core stands. `nested` tells a call that `ext__log_fmt` makes of itself, or a failed
-- assertion makes, before its mutex is unlocked: behind such a call the core exits.
pub data Pc : Type 0 where
  away : Pc
  locking : (nested : Bool) → Pc
  holding : (nested : Bool) → Pc
  sending : (nested : Bool) (done left : List ℕ) → Pc
  exited : Pc

-- The weak exchange of `Mutex__try_lock` may fail at any time. What the text between the two locks is
-- comes from `log` and `log_fmt`: here it is any.
pub data Move (p : Port) : Pc → Port → Pc → Type 0 where
  call : Move p away p (locking false)
  spin : {nested : Bool} → Move p (locking nested) p (locking nested)
  lock :
      {nested : Bool}
      → p.mutex ≡ 0
      → Move p (locking nested) (record p { mutex = 1 }) (holding nested)
  call_itself : {nested : Bool} → Move p (holding nested) p (locking true)
  compose : {nested : Bool} (line : List ℕ) → Move p (holding nested) p (sending nested [] line)
  write :
      {nested : Bool} {done left : List ℕ} {c : ℕ}
      → Move p
          (sending nested done (c ∷ left))
          (record p { bytes = p.bytes ++ (c ∷ []) })
          (sending nested (done ++ (c ∷ [])) left)
  unlock :
      {nested : Bool} {line : List ℕ}
      → Move p
          (sending nested line [])
          (record p { mutex = 0; lines = p.lines ++ (line ∷ []) })
          (if nested then exited else away)

pub record System : Type 0 where
  pub port : Port
  pub pc : ℕ → Pc

pub data Step (s : System) : System → Type 0 where
  core :
      (i : ℕ) {q : Port} {p : Pc}
      → Move s.port (s.pc i) q p
      → Step s (record { port = q; pc = update s.pc i p })

abbrev pub initial : System
initial = record { port = record { mutex = 0; bytes = []; lines = [] }; pc = λ i. away }

-- The states that steps lead to from a state.
pub data Reach (s : System) : System → Type 0 where
  start : Reach s s
  later : {t u : System} → Reach s t → Step t u → Reach s u
