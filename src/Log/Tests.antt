-- ===== src/Log/Tests.antt =====
-- Runs of the theorems on short messages, and on two cores.
use dumboss.Base.{
  ℕ, ◌≡◌, refl, Bool, true, false, List, [], ◌∷◌, ◌++◌, some, replicate, ok, panic, arith, update,
}
use dumboss.Text.{Bytes, unsigned, digit_loop}
use dumboss.Text.Format.{render, text_of}
use dumboss.Log.{Sloc, sent, newline, log, log_fmt}
use dumboss.Log.Lines.{Ends, prefix_text, log_fmt-Ends, log_fmt-panic, log-sent, text_all}
use dumboss.Log.Lock.{
  Pc, locking, sending, call, lock, call_itself, compose, write, System, core, initial, Reach,
  start, later,
}
use dumboss.Log.Lock.Safety.{whole_lines, lock_deadlock, concat}
use dumboss.Log.Serial.{shown}

abbrev place : Sloc
place = record { file = some (b'm' ∷ b'.' ∷ b'c' ∷ []); line = 7 }

abbrev memory : Bytes
memory p = 0

-- "%f up"
abbrev template : List ℕ
template = b'%' ∷ b'f' ∷ b' ' ∷ b'u' ∷ b'p' ∷ []

log_fmt-Ends_example :
    Ends 4096 place
      (render template (unsigned 2 ∷ []))
      (log_fmt false 4096 place template (unsigned 2 ∷ []) memory)
unfolding digit_loop
log_fmt-Ends_example =
    log_fmt-Ends 4096 place memory template (unsigned 2 ∷ []) (tt, tt) (omega arith)

abbrev long_place : Sloc
long_place = record { file = some (replicate 200 b'x'); line = 7 }

log_fmt-panic_example : log_fmt false 4096 long_place template [] memory ≡ panic
log_fmt-panic_example = log_fmt-panic 4096 long_place memory template [] (omega arith)

log-sent_example :
    (m' : Bytes) × (log false 4096 place (unsigned 2 ∷ []) memory
      ≡ ok (sent (shown (prefix_text place ++ (b'2' ∷ [])) ++ (newline ∷ [])), m'))
unfolding text_all text_of digit_loop
log-sent_example = log-sent 4096 memory place (unsigned 2 ∷ []) (b'2' ∷ []) (tt, tt) refl

-- Core 0 has sent the first byte of two, and core 1 waits.
abbrev half_sent : System
half_sent = record {
  port = record { mutex = 1; bytes = 65 ∷ []; lines = [] };
  pc =
      update
        (update
          (update (update (update initial.pc 0 (locking false)) 0 (Pc.holding false)) 1
            (locking false))
          0 (sending false [] (65 ∷ 10 ∷ [])))
        0 (sending false (65 ∷ []) (10 ∷ []));
}

half_sent-Reach : Reach initial half_sent
half_sent-Reach =
    later
      (later (later (later (later start (core 0 call)) (core 0 (lock refl))) (core 1 call))
        (core 0 (compose (65 ∷ 10 ∷ []))))
      (core 0 write)

whole_lines_example :
    (half_sent.port.mutex ≡ 0 → half_sent.port.bytes ≡ concat half_sent.port.lines)
    × ((i : ℕ) (nested : Bool) (done left : List ℕ)
        → half_sent.pc i ≡ sending nested done left
        → half_sent.port.bytes ≡ concat half_sent.port.lines ++ done)
whole_lines_example = whole_lines half_sent-Reach

-- Core 0 has called itself, and tries the lock.
abbrev stuck : System
stuck = record {
  port = record { mutex = 1; bytes = []; lines = [] };
  pc = update (update (update initial.pc 0 (locking false)) 0 (Pc.holding false)) 0 (locking true);
}

stuck-Reach : Reach initial stuck
stuck-Reach = later (later (later start (core 0 call)) (core 0 (lock refl))) (core 0 call_itself)

abbrev stuck_later : System
stuck_later = record { port = stuck.port; pc = update stuck.pc 1 (locking false) }

lock_deadlock_example :
    (stuck_later.pc 0 ≡ locking true) × (stuck_later.port.bytes ≡ stuck.port.bytes)
lock_deadlock_example = lock_deadlock stuck-Reach 0 refl (later start (core 1 call))
