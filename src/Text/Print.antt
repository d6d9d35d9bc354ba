-- ===== src/Text/Print.antt =====
-- `fmt_u64` and `fmt_i64` of lib/basics.h put the digits of the number into the buffer.
use dumboss.Base.{
  ℕ, suc, ◌+◌, ◌-◌, ◌^◌, ◌≤◌, ◌≡◌, ap, ◌∙◌, Bool, true, false, ◌&&◌, List, [], length, ltb, ◌==◌,
  if◌then◌else◌, lt→ltb, arith,
}
use dumboss.Base.Int.{ℤ, pos, negsuc}
use dumboss.Text.{
  Bytes, Str, Out, append, pad_zeros, ntoa_format, ntoa_long, ntoa_buffer_size, fmt_u64, fmt_i64,
  magnitude,
}
use dumboss.Text.Digits.{decimal, signed_decimal, length-digit_loop}
use dumboss.Text.Put.{put, emit_all-put}

no_padding : (buf : List ℕ) → pad_zeros ntoa_buffer_size 0 buf ≡ buf
unfolding pad_zeros
no_padding buf = ground arith

-- With no flag, precision or width, `_ntoa_format` puts out the sign and the digits.
ntoa_format-put :
    (buffer maxlen : ℕ) (m : Bytes) (buf : List ℕ) (negative : Bool)
    → ntoa_format buffer maxlen (record { idx = 0; memory = m }) buf negative 10 0 0 0 ≡ (
        let text = if negative then append b'-' buf else buf in
        record { idx = length text; memory = put m buffer maxlen text })
unfolding ntoa_format
ntoa_format-put buffer maxlen m buf negative =
    let text = if negative then append b'-' buf else buf in
    let no_width : 0 - length text ≡ 0 = omega arith in
    let at : buffer + 0 ≡ buffer = omega arith in
    let left : maxlen - 0 ≡ maxlen = omega arith in
    let count : 0 + length text ≡ length text = omega arith in
    rw (no_padding buf, no_width) (emit_all-put buffer maxlen text 0 m ∙ rw (at, left, count))

-- So does `_ntoa_long`, with the digits of the value.
ntoa_long-put :
    (buffer maxlen : ℕ) (m : Bytes) (value : ℕ) (negative : Bool)
    → ntoa_long buffer maxlen (record { idx = 0; memory = m }) value negative 10 0 0 0 ≡ (
        let text = if negative then append b'-' (decimal value) else decimal value in
        record { idx = length text; memory = put m buffer maxlen text })
unfolding ntoa_long
ntoa_long-put buffer maxlen m value negative =
    let no_flags : (if value == 0 && false then 0 - 16 else 0) ≡ 0 = ground arith in
    rw no_flags (ntoa_format-put buffer maxlen m (decimal value) negative)

-- `fmt_u64` puts out the decimal digits of the number, as much as fits the buffer, and returns how
-- many there are, also where they do not fit.
pub fmt_u64-put :
    (out : Str) (v : ℕ) (m : Bytes)
    → fmt_u64 out v m ≡ (length (decimal v), put m out.address out.count (decimal v))
unfolding fmt_u64
fmt_u64-put out v m =
    ap (λ (o : Out). (o.idx, o.memory)) (ntoa_long-put out.address out.count m v false)

-- `fmt_i64` puts out a minus sign for a negative `s64`, and the decimal digits of its magnitude, as
-- much as fits the buffer, and returns how many characters that would be in all.
pub fmt_i64-put :
    (out : Str) (z : ℤ) (m : Bytes)
    → magnitude z ≤ 2 ^ 63
    → fmt_i64 out z m ≡ (length (signed_decimal z), put m out.address out.count (signed_decimal z))
unfolding fmt_i64
fmt_i64-put out (pos v) m le =
    ap (λ (o : Out). (o.idx, o.memory)) (ntoa_long-put out.address out.count m v false)
fmt_i64-put out (negsuc v) m le =
    let short = length-digit_loop 20 32 (suc v) [] (omega arith) (omega arith) in
    let fits : ltb (length (decimal (suc v))) ntoa_buffer_size ≡ true = lt→ltb _ _ (omega arith) in
    ap (λ (o : Out). (o.idx, o.memory)) (ntoa_long-put out.address out.count m (suc v) true)
    ∙ rw fits
