-- ===== src/Text.antt =====
-- lib/basics.h: strings, and formatting of values into a buffer. lib/types.h: `String` and `any`.
-- Memory is a function from addresses to bytes. A `const char *` is `none` for `NULL`, or the
-- characters before the terminating zero, which the buffer does not overlap.
pub mod Digits
pub mod Put
pub mod Print
pub mod Format
mod Tests
use dumboss.Base.{
  ℕ, zero, suc, ◌+◌, ◌-◌, ◌*◌, ◌/◌, ◌%◌, ◌^◌, not, ◌&&◌, ◌||◌, Bool, true, false, Option, none,
  some, List, [], ◌∷◌, length, ltb, leb, min, ◌==◌, if◌then◌else◌, Res, ok, panic, ◌>>=◌, ◌>>◌,
  assert, bit_and,
}
use dumboss.Base.Int.{ℤ, pos, negsuc}

abbrev pub Bytes : Type 0
Bytes = ℕ → ℕ

abbrev pub write : Bytes → ℕ → ℕ → Bytes
write m p v q = if p == q then v else m q

-- `String`
pub record Str : Type 0 where
  pub address : ℕ
  pub count : ℕ

unfoldable pub str_new : ℕ → ℤ → Str
str_new address (negsuc _) = record { address = 0; count = 0 }
str_new address (pos count) = record { address = address; count = count }

unfoldable pub str_is_null : Str → Bool
str_is_null s = s.address == 0 || s.count == 0

unfoldable pub str_slice : Str → ℕ → ℕ → Res Str
str_slice s begin end = do
  assert (leb begin end)
  assert (leb end s.count)
  ok (record { address = s.address + begin; count = end - begin })

unfoldable pub str_suffix : Str → ℕ → Res Str
str_suffix s begin = do
  assert (leb begin s.count)
  ok (record { address = s.address + begin; count = s.count - begin })

abbrev pub CString : Type 0
CString = Option (List ℕ)

unfoldable pub strlen : CString → ℕ
strlen none = 0
strlen (some cs) = length cs

-- `for (; written < dest.count && src[written]; written++) dest.data[written] = src[written];`
copy_loop : Str → List ℕ → ℕ → Bytes → ℕ × Bytes
copy_loop dest [] written m = (written, m)
copy_loop dest (c ∷ cs) written m =
    let rest = copy_loop dest cs (written + 1) (write m (dest.address + written) c) in
    if ltb written dest.count then rest else (written, m)

unfoldable pub strcpy_s : Str → CString → Bytes → ℕ × Bytes
unfolding copy_loop
strcpy_s dest none m = (0, m)
strcpy_s dest (some cs) m = copy_loop dest cs 0 m

-- The value in an `any`, by its `type`. The integer types share a field.
pub data Any : Type 0 where
  bool : Bool → Any
  unsigned : ℕ → Any
  signed : ℤ → Any
  char : ℕ → Any
  char_ptr : CString → Any
  -- a `type` that is none of the enumerators
  unknown : Any

-- `_out_buffer`
abbrev pub out_buffer : ℕ → ℕ → ℕ → ℕ → Bytes → Bytes
out_buffer character buffer idx maxlen m =
    if ltb idx maxlen then write m (buffer + idx) character else m

-- The flags that `_ntoa_long` and its helpers test.
abbrev pub flags_zeropad : ℕ
flags_zeropad = 1

abbrev pub flags_left : ℕ
flags_left = 2

abbrev pub flags_plus : ℕ
flags_plus = 4

abbrev pub flags_space : ℕ
flags_space = 8

abbrev pub flags_hash : ℕ
flags_hash = 16

abbrev pub flags_uppercase : ℕ
flags_uppercase = 32

abbrev pub flags_precision : ℕ
flags_precision = 1024

abbrev pub on : ℕ → ℕ → Bool
on flags flag = not (bit_and flags flag == 0)

abbrev pub ntoa_buffer_size : ℕ
ntoa_buffer_size = 32

-- Where the output stands: the next index and the memory.
pub record Out : Type 0 where
  pub idx : ℕ
  pub memory : Bytes

module _ (buffer maxlen : ℕ) where
  -- `out(character, buffer, idx++, maxlen);`
  abbrev pub emit : ℕ → Out → Out
  emit character o = record {
    idx = o.idx + 1;
    memory = out_buffer character buffer o.idx maxlen o.memory;
  }

  abbrev pub emit_times : ℕ → ℕ → Out → Out
  emit_times zero character o = o
  emit_times (suc n) character o = emit_times n character (emit character o)

  abbrev pub emit_all : List ℕ → Out → Out
  emit_all [] o = o
  emit_all (c ∷ cs) o = emit_all cs (emit c o)

  -- `_out_rev`. `buf[0 .. len)` is a stack here, the last character first, which is the order in
  -- which the loop `while (len) out(buf[--len], ...)` puts it out.
  unfoldable pub out_rev : List ℕ → ℕ → ℕ → Out → Out
  out_rev buf width flags o =
      let start_idx = o.idx in
      let padded =
        if not (on flags flags_left) && not (on flags flags_zeropad)
        then emit_times (width - length buf) b' ' o
        else o in
      let done = emit_all buf padded in
      if on flags flags_left then emit_times (width - (done.idx - start_idx)) b' ' done else done

-- `while (test && len < bound && len < PRINTF_NTOA_BUFFER_SIZE) buf[len++] = '0';`
unfoldable pub pad_zeros : ℕ → ℕ → List ℕ → List ℕ
pad_zeros zero bound buf = buf
pad_zeros (suc left) bound buf =
    let rest = pad_zeros left bound (b'0' ∷ buf) in
    if ltb (length buf) bound && ltb (length buf) ntoa_buffer_size then rest else buf

-- `if (len < PRINTF_NTOA_BUFFER_SIZE) buf[len++] = c;`
abbrev pub append : ℕ → List ℕ → List ℕ
append c buf = if ltb (length buf) ntoa_buffer_size then c ∷ buf else buf

abbrev pub drop_one : List ℕ → List ℕ
drop_one [] = []
drop_one (c ∷ cs) = cs

-- The part of `_ntoa_format` under `if (flags & FLAGS_HASH)`.
unfoldable pub ntoa_hash : List ℕ → ℕ → ℕ → ℕ → ℕ → List ℕ
ntoa_hash buf base prec width flags =
    let len = length buf in
    let cut =
      if not (on flags flags_precision) && not (len == 0) && (len == prec || len == width)
      then (if not (len - 1 == 0) && base == 16 then drop_one (drop_one buf) else drop_one buf)
      else buf in
    let marked =
      if base == 16 && not (on flags flags_uppercase) && ltb (length cut) ntoa_buffer_size
      then b'x' ∷ cut
      else (if base == 16 && on flags flags_uppercase && ltb (length cut) ntoa_buffer_size
          then b'X' ∷ cut
          else (if base == 2 && ltb (length cut) ntoa_buffer_size then b'b' ∷ cut else cut)) in
    append b'0' marked

unfoldable pub ntoa_format : ℕ → ℕ → Out → List ℕ → Bool → ℕ → ℕ → ℕ → ℕ → Out
unfolding pad_zeros ntoa_hash out_rev
ntoa_format buffer maxlen o buf negative base prec width flags =
    let padding = not (on flags flags_left) in
    let width' =
      if padding
        && not (width == 0)
        && on flags flags_zeropad
        && (negative || on flags (flags_plus + flags_space))
      then width - 1
      else width in
    let precise = if padding then pad_zeros ntoa_buffer_size prec buf else buf in
    let zeroed =
      if padding && on flags flags_zeropad
      then pad_zeros ntoa_buffer_size width' precise
      else precise in
    let hashed = if on flags flags_hash then ntoa_hash zeroed base prec width' flags else zeroed in
    let signed =
      if negative
      then append b'-' hashed
      else (if on flags flags_plus
          then append b'+' hashed
          else (if on flags flags_space then append b' ' hashed else hashed)) in
    out_rev buffer maxlen signed width' flags o

abbrev pub digit_char : ℕ → ℕ → ℕ
digit_char flags digit =
    if ltb digit 10
    then b'0' + digit
    else (if on flags flags_uppercase then b'A' else b'a') + digit - 10

-- The `do … while (value && len < PRINTF_NTOA_BUFFER_SIZE)` of `_ntoa_long`, with room for `left`
-- more characters.
unfoldable pub digit_loop : ℕ → ℕ → ℕ → ℕ → List ℕ → List ℕ
digit_loop zero flags base value buf = buf
digit_loop (suc left) flags base value buf =
    let longer = digit_char flags (value % base) ∷ buf in
    let rest = digit_loop left flags base (value / base) longer in
    if value / base == 0 then longer else rest

unfoldable pub ntoa_long : ℕ → ℕ → Out → ℕ → Bool → ℕ → ℕ → ℕ → ℕ → Out
unfolding digit_loop ntoa_format
ntoa_long buffer maxlen o value negative base prec width flags =
    let flags' = if value == 0 && on flags flags_hash then flags - flags_hash else flags in
    let buf =
      if not (on flags' flags_precision) || not (value == 0)
      then digit_loop ntoa_buffer_size flags' base value []
      else [] in
    ntoa_format buffer maxlen o buf negative base prec width flags'

unfoldable pub fmt_u64 : Str → ℕ → Bytes → ℕ × Bytes
unfolding ntoa_long
fmt_u64 out value m =
    let o = ntoa_long out.address out.count (record { idx = 0; memory = m }) value false 10 0 0 0 in
    (o.idx, o.memory)

abbrev pub magnitude : ℤ → ℕ
magnitude (pos n) = n
magnitude (negsuc n) = suc n

abbrev pub is_negative : ℤ → Bool
is_negative (pos n) = false
is_negative (negsuc n) = true

-- The C negates a negative value, which overflows for -2 ^ 63; here that has the digits of 2 ^ 63.
unfoldable pub fmt_i64 : Str → ℤ → Bytes → ℕ × Bytes
unfolding ntoa_long
fmt_i64 out value m =
    let o =
      ntoa_long out.address out.count (record { idx = 0; memory = m }) (magnitude value)
        (is_negative value) 10 0 0 0 in
    (o.idx, o.memory)

abbrev pub drop : ℕ → List ℕ → List ℕ
drop zero cs = cs
drop (suc n) [] = []
drop (suc n) (c ∷ cs) = drop n cs

-- `written = strcpy_s(out, src); return written + strlen(src + written);`
unfoldable pub copy_text : Str → List ℕ → Bytes → ℤ × Bytes
unfolding strcpy_s strlen
copy_text out src m =
    let (written, m') = strcpy_s out (some src) m in
    (pos (written + strlen (some (drop written src))), m')

abbrev pub word_true : List ℕ
word_true = b't' ∷ b'r' ∷ b'u' ∷ b'e' ∷ []

abbrev pub word_false : List ℕ
word_false = b'f' ∷ b'a' ∷ b'l' ∷ b's' ∷ b'e' ∷ []

-- `any__fmt_any`
unfoldable pub fmt_any : Str → Any → Bytes → ℤ × Bytes
unfolding fmt_u64 fmt_i64 copy_text
fmt_any out (bool b) m = copy_text out (if b then word_true else word_false) m
fmt_any out (unsigned n) m = let (n', m') = fmt_u64 out n m in (pos n', m')
fmt_any out (signed z) m = let (n', m') = fmt_i64 out z m in (pos n', m')
fmt_any out (char c) m = (pos 1, if leb 1 out.count then write m out.address c else m)
fmt_any out (char_ptr none) m = (pos 0, m)
fmt_any out (char_ptr (some src)) m = copy_text out src m
fmt_any out unknown m = (negsuc 0, m)

-- `any__fmt`: what is left of `fmt`, `format_count`, `written` and the arguments not yet used.
-- -format_count - 1 is `negsuc format_count`. A directive goes on with `next`,
-- unless the value could not be formatted.
abbrev pub proceed :
    (ℕ → ℕ → List Any → Bytes → Res (ℤ × Bytes)) → ℕ → ℕ → List Any → ℤ × Bytes → Res (ℤ × Bytes)
proceed next format_count written args (negsuc _, m) = ok (negsuc format_count, m)
proceed next format_count written args (pos n, m) = next (format_count + 1) (written + n) args m

abbrev pub directive :
    Str → (ℕ → ℕ → List Any → Bytes → Res (ℤ × Bytes)) → ℕ → ℕ → List Any → Bytes → Res (ℤ × Bytes)
directive out next format_count written [] m = ok (negsuc format_count, m)
directive out next format_count written (arg ∷ args) m = do
  suffix ← str_suffix out (min written out.count)
  proceed next format_count written args (fmt_any suffix arg m)

unfoldable pub fmt_loop : Str → List ℕ → ℕ → ℕ → List Any → Bytes → Res (ℤ × Bytes)
fmt_loop out [] format_count written [] m = ok (pos written, m)
fmt_loop out [] format_count written (arg ∷ args) m = ok (negsuc format_count, m)
fmt_loop out (c ∷ []) format_count written args m =
    let plain =
      fmt_loop out [] format_count (written + 1) args
        (out_buffer c out.address written out.count m) in
    if c == b'%' then ok (negsuc format_count, m) else plain
fmt_loop out (c ∷ d ∷ fmt) format_count written args m =
    let plain =
      fmt_loop out (d ∷ fmt) format_count (written + 1) args
        (out_buffer c out.address written out.count m) in
    let percent =
      fmt_loop out fmt format_count (written + 1) args
        (out_buffer b'%' out.address written out.count m) in
    if not (c == b'%')
    then plain
    else if d == b'%'
    then percent
    else if not (d == b'f')
    then ok (negsuc format_count, m)
    else directive out (fmt_loop out fmt) format_count written args m

unfoldable pub fmt : Str → List ℕ → List Any → Bytes → Res (ℤ × Bytes)
unfolding fmt_loop
fmt out template args m = fmt_loop out template 0 0 args m
