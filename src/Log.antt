-- ===== src/Log.antt =====
-- kern/__lib_impl__.c: what the kernel logs. The log's buffer is 200 bytes at an address; the serial
-- port is the list of the bytes that it is given.
pub mod Serial
pub mod Lines
pub mod Lock
mod Tests
use dumboss.Base.{
  ℕ, zero, suc, ◌+◌, ◌-◌, Bool, List, [], ◌∷◌, some, min, length, ltb, if◌then◌else◌, Res, ok,
  panic, ◌>>=◌,
}
use dumboss.Base.Int.{ℤ, pos, negsuc}
use dumboss.Text.{Bytes, Str, CString, Any, char_ptr, unsigned, str_suffix, strcpy_s, fmt_any, fmt}

-- `sloc`
pub record Sloc : Type 0 where
  pub file : CString
  pub line : ℕ

abbrev pub buf_size : ℕ
buf_size = 200

-- "[%f:%f]: "
abbrev pub prefix_template : List ℕ
prefix_template = b'[' ∷ b'%' ∷ b'f' ∷ b':' ∷ b'%' ∷ b'f' ∷ b']' ∷ b':' ∷ b' ' ∷ []

-- "... [clipped]"
abbrev pub clipped : List ℕ
clipped =
    b'.' ∷ b'.' ∷ b'.' ∷ b' ' ∷ b'[' ∷ b'c' ∷ b'l' ∷ b'i' ∷ b'p' ∷ b'p' ∷ b'e' ∷ b'd' ∷ b']' ∷ []

abbrev pub newline : ℕ
newline = 10

-- How a call ends: it has sent its bytes and unlocked the mutex, or it calls itself with the mutex
-- still locked.
pub data Ending : Type 0 where
  silent : Ending
  sent : List ℕ → Ending
  calls_itself : Ending

-- A length that the code uses as the begin of a `Str__suffix`, which asserts that it is not negative.
abbrev pub as_count : ℤ → Res ℕ
as_count (pos n) = ok n
as_count (negsuc n) = panic

unfoldable pub write_prefix_to_buffer : Str → Sloc → Bytes → Res (ℤ × Bytes)
write_prefix_to_buffer out loc m =
    fmt out prefix_template (char_ptr loc.file ∷ unsigned loc.line ∷ []) m

-- `if (written > BUF_SIZE) { … }`
unfoldable pub clip : Str → ℕ → Bytes → Res (ℕ × Bytes)
clip out written m =
    if ltb buf_size written
    then (do
      suffix ← str_suffix out (out.count - length clipped)
      ok (buf_size, (strcpy_s suffix (some clipped) m).1))
    else ok (written, m)

-- The bytes from `p` on, and the end of the line.
unfoldable pub serial : Bytes → ℕ → ℕ → List ℕ
serial m p zero = newline ∷ []
serial m p (suc left) = m p ∷ serial m (p + 1) left

-- What both calls do once the text is in the buffer.
abbrev pub finish : Str → ℕ → Bytes → Res (Ending × Bytes)
finish out written m = do
  (written, m) ← clip out written m
  ok (sent (serial m out.address written), m)

-- The loop of `ext__log` over the arguments.
unfoldable pub log_args : Str → ℕ → List Any → Bytes → Res (ℕ × Bytes)
log_args out written [] m = ok (written, m)
log_args out written (arg ∷ args) m = do
  suffix ← str_suffix out (min written buf_size)
  let (fmt_try, m) = fmt_any suffix arg m
  n ← as_count fmt_try
  log_args out (written + n) args m

unfoldable pub log : Bool → ℕ → Sloc → List Any → Bytes → Res (Ending × Bytes)
unfolding write_prefix_to_buffer log_args clip serial
log use_interrupts buffer loc args m = if use_interrupts then ok (silent, m) else do
  let out : Str = record { address = buffer; count = buf_size }
  (prefix, m) ← write_prefix_to_buffer out loc m
  written ← as_count prefix
  (written, m) ← log_args out written args m
  finish out written m

-- Both calls of `ext__log_fmt` by itself stand before the mutex is unlocked.
abbrev pub finish_fmt : Str → ℕ → ℤ × Bytes → Res (Ending × Bytes)
finish_fmt out written (negsuc n, m) = ok (calls_itself, m)
finish_fmt out written (pos n, m) = finish out (written + n) m

unfoldable pub log_fmt : Bool → ℕ → Sloc → List ℕ → List Any → Bytes → Res (Ending × Bytes)
unfolding write_prefix_to_buffer clip serial
log_fmt use_interrupts buffer loc template args m = if use_interrupts then ok (silent, m) else do
  let out : Str = record { address = buffer; count = buf_size }
  (prefix, m) ← write_prefix_to_buffer out loc m
  written ← as_count prefix
  suffix ← str_suffix out written
  (fmt_try, m) ← fmt suffix template args m
  finish_fmt out written (fmt_try, m)
