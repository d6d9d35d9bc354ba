-- ===== src/BitSet.antt =====
-- lib/bitset.h: a set of page numbers as an array of 64-bit words. The array is behind a pointer
-- that every copy of a `BitSet` shares, so a function that writes returns the new `BitSet`.
-- An index is an `s64` that is not negative in any call of the kernel: it is a number here, and
-- the assertion `0 <= index` holds by that.
pub mod Ones
pub mod Query
pub mod Update
pub mod Count
mod Tests
use dumboss.Base.{
  ℕ, zero, suc, ◌+◌, ◌-◌, ◌*◌, ◌/◌, ◌%◌, ◌^◌, bit_and, bit_or, Bool, true, false, not, List, ltb,
  leb, ◌==◌, if◌then◌else◌, Res, ok, panic, fault, ◌>>=◌, ◌>>◌, assert, load, store,
}
use dumboss.Base.Bits.{one_shl, all_ones, complement}

pub record BitSet : Type 0 where
  pub words : List ℕ
  pub count : ℕ

unfoldable pub from_raw : List ℕ → ℕ → BitSet
from_raw words count = record { words = words; count = count }

-- `__builtin_align_up` and `__builtin_align_down`, as `u64`. Where the value is an `s64`, this is the
-- word of the result, which is the result itself below 2 ^ 63.
abbrev pub align_up : ℕ → ℕ → ℕ
align_up value alignment = (value + (alignment - 1)) % 2 ^ 64 / alignment * alignment

abbrev pub align_down : ℕ → ℕ → ℕ
align_down value alignment = value / alignment * alignment

-- `__builtin_popcountl`, of the low `n` bits.
unfoldable pub popcount : ℕ → ℕ → ℕ
popcount zero word = 0
popcount (suc n) word = word % 2 + popcount n (word / 2)

unfoldable pub get : BitSet → ℕ → Res Bool
get bits idx = do
  assert (ltb idx bits.count)
  v ← load bits.words (idx / 64)
  ok (not (0 == bit_and (one_shl (idx % 64)) v))

-- `for (i = i; i < end; i++) if (BitSet__get(bits, i)) count++;` with `end - i` rounds left.
count_bits : BitSet → ℕ → ℕ → ℕ → Res ℕ
count_bits bits zero i count = ok count
count_bits bits (suc left) i count = do
  b ← get bits i
  count_bits bits left (i + 1) (if b then count + 1 else count)

-- `for (i = i; i < fast_end / 64; i++) count += __builtin_popcountl(bits.data[i]);`
count_words : BitSet → ℕ → ℕ → ℕ → Res ℕ
count_words bits zero i count = ok count
count_words bits (suc left) i count = do
  v ← load bits.words i
  count_words bits left (i + 1) (count + popcount 64 v)

unfoldable pub get_count : BitSet → ℕ → ℕ → Res ℕ
unfolding count_bits count_words
get_count bits begin end = do
  assert (leb begin end)
  assert (leb end bits.count)
  let fast_begin = align_up begin 64
  let fast_end = align_down end 64
  if leb fast_end fast_begin then count_bits bits (end - begin) begin 0 else do
    head ← count_bits bits (fast_begin - begin) begin 0
    body ← count_words bits (fast_end / 64 - fast_begin / 64) (fast_begin / 64) head
    count_bits bits (end - fast_end) fast_end body

-- `BitSet__get_all` and `BitSet__get_any` are one text up to a constant: the first returns `false`
-- at the first clear bit and `true` at the end, the second `true` at the first set bit and `false`
-- at the end. `stop` is the value that they look for and return early.
scan_bits : Bool → BitSet → ℕ → ℕ → Res Bool
scan_bits stop bits zero i = ok (not stop)
scan_bits stop bits (suc left) i = do
  b ← get bits i
  if (if stop then b else not b) then ok stop else scan_bits stop bits left (i + 1)

scan_words : Bool → BitSet → ℕ → ℕ → Res Bool
scan_words stop bits zero i = ok (not stop)
scan_words stop bits (suc left) i = do
  v ← load bits.words i
  if not (v == (if stop then 0 else all_ones)) then ok stop else scan_words stop bits left (i + 1)

scan : Bool → BitSet → ℕ → ℕ → Res Bool
unfolding scan_bits scan_words
scan stop bits begin end = do
  assert (leb begin end)
  assert (leb end bits.count)
  let fast_begin = align_up begin 64
  let fast_end = align_down end 64
  if leb fast_end fast_begin then scan_bits stop bits (end - begin) begin else do
    head ← scan_bits stop bits (fast_begin - begin) begin
    if (if stop then head else not head) then ok stop else do
      body ← scan_words stop bits (fast_end / 64 - fast_begin / 64) (fast_begin / 64)
      if (if stop then body else not body)
          then ok stop
          else scan_bits stop bits (end - fast_end) fast_end

unfoldable pub get_all : BitSet → ℕ → ℕ → Res Bool
unfolding scan
get_all bits begin end = scan false bits begin end

unfoldable pub get_any : BitSet → ℕ → ℕ → Res Bool
unfolding scan
get_any bits begin end = scan true bits begin end

-- `BitSet__set`, named for the bit as `set` is the name of a write to a list.
unfoldable pub set_bit : BitSet → ℕ → Bool → Res BitSet
set_bit bits idx value = do
  assert (ltb idx bits.count)
  v ← load bits.words (idx / 64)
  let bit_offset = idx % 64
  words ←
      store bits.words (idx / 64) (
        if value
        then bit_or v (one_shl bit_offset)
        else bit_and v (complement (one_shl bit_offset)))
  ok (record bits { words = words })

set_bits : ℕ → ℕ → Bool → BitSet → Res BitSet
set_bits zero i value bits = ok bits
set_bits (suc left) i value bits = do bits ← set_bit bits i value; set_bits left (i + 1) value bits

-- `bits.data[i] = 0; if (value) bits.data[i] = ~bits.data[i];` for the rounds left.
set_words : ℕ → ℕ → Bool → BitSet → Res BitSet
set_words zero i value bits = ok bits
set_words (suc left) i value bits = do
  words ← store bits.words i (if value then complement 0 else 0)
  set_words left (i + 1) value (record bits { words = words })

-- `for (i = 0, idx = 0; idx < bits.count; i++, idx += 64)` makes `ceil(count / 64)` rounds.
unfoldable pub set_all : BitSet → Bool → Res BitSet
unfolding set_words
set_all bits value = set_words ((bits.count + 63) / 64) 0 value bits

unfoldable pub set_range : BitSet → ℕ → ℕ → Bool → Res BitSet
unfolding set_bits set_words
set_range bits begin end value = do
  assert (leb begin end)
  assert (leb end bits.count)
  let fast_begin = align_up begin 64
  let fast_end = align_down end 64
  if leb fast_end fast_begin then set_bits (end - begin) begin value bits else do
    bits ← set_bits (fast_begin - begin) begin value bits
    bits ← set_words (fast_end / 64 - fast_begin / 64) (fast_begin / 64) value bits
    set_bits (end - fast_end) fast_end value bits
