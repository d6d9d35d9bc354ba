-- ===== src/BitSet/Update.antt =====
-- `BitSet__set`, `BitSet__set_range` and `BitSet__set_all`: which bits change, and that no write
-- leaves the array.
use dumboss.Base.{
  ℕ, zero, suc, ◌+◌, ◌-◌, ◌*◌, ◌/◌, ◌%◌, ◌^◌, ◌≤◌, ◌<◌, ◌≡◌, refl, sym, ◌∙◌, inl, inr, Bool, true,
  false, ◌&&◌, List, get_or, set, length, length-set, get_or-set, arith, ltb, leb, ◌==◌,
  if◌then◌else◌, Bool-cases, ==_iff, lt→ltb, ltb→lt, le→leb, bit_and, bit_or, Res, ok, fault, ◌>>=◌,
  load-ok, store-ok,
}
use dumboss.Base.Bits.{
  bit, one_shl, complement, bit-le-one, bit-zero, bit-all_ones, bit-bit_or, bit-bit_and,
  bit-one_shl, bit-complement, bit_or-lt, bit_and-le, one_shl-lt,
}
use dumboss.BitSet.{BitSet, set_bit, set_bits, set_words, set_all, set_range, align_up, align_down}
use dumboss.BitSet.Ones.{IsValid, bit_at}

abbrev pub of_bool : Bool → ℕ
of_bool true = 1
of_bool false = 0

-- `after` is `before` with the bits from `lo` to `hi` set to `value`.
pub record Written (before after : BitSet) (lo hi : ℕ) (value : Bool) : Type 0 where
  pub valid : IsValid after
  pub same_count : after.count ≡ before.count
  pub same_length : length after.words ≡ length before.words
  pub bits :
      (k : ℕ)
      → bit_at after.words k
        ≡ (if leb lo k && ltb k hi then of_bool value else bit_at before.words k)

-- The call returns, and its result is so written.
abbrev pub Writes : BitSet → ℕ → ℕ → Bool → Res BitSet → Type 0
Writes before lo hi value r = (after : BitSet) × (r ≡ ok after) × Written before after lo hi value

Written-refl : (b : BitSet) (lo : ℕ) (value : Bool) → IsValid b → Written b b lo lo value
Written-refl b lo value v = record {
  valid = v;
  same_count = refl;
  same_length = refl;
  bits = λ k. ground arith;
}

Written-trans :
    {a b c : BitSet} (lo mid hi : ℕ) {value : Bool}
    → lo ≤ mid
    → mid ≤ hi
    → Written a b lo mid value
    → Written b c mid hi value
    → Written a c lo hi value
Written-trans lo mid hi p q w x = record {
  valid = x.valid;
  same_count = x.same_count ∙ w.same_count;
  same_length = x.same_length ∙ w.same_length;
  bits = λ k. ground (arith, w.bits k, x.bits k);
}

-- Two such calls, one behind the other, on neighbouring ranges.
Writes-bind :
    {b : BitSet} (lo mid hi : ℕ) {value : Bool} (r : Res BitSet) (next : BitSet → Res BitSet)
    → lo ≤ mid
    → mid ≤ hi
    → Writes b lo mid value r
    → ((c : BitSet) → Written b c lo mid value → Writes c mid hi value (next c))
    → Writes b lo hi value (r >>= next)
Writes-bind lo mid hi r next p q (c, e, w) then_ =
    let (d, f, x) = then_ c w in (d, rw e f, Written-trans lo mid hi p q w x)

-- What `BitSet__set` stores into the word.
abbrev patch : ℕ → ℕ → Bool → ℕ
patch v off value = if value then bit_or v (one_shl off) else bit_and v (complement (one_shl off))

bit-patch :
    (v off k : ℕ) (value : Bool)
    → off < 64
    → k < 64
    → bit (patch v off value) k ≡ (if off == k then of_bool value else bit v k)
bit-patch v off k true p q =
    ground (arith, bit-bit_or v (one_shl off) k, bit-one_shl off k, bit-le-one v k)
bit-patch v off k false p q = ground (
  arith,
  bit-bit_and v (complement (one_shl off)) k,
  bit-complement (one_shl off) k (one_shl-lt off 64 p) q,
  bit-one_shl off k,
  bit-le-one v k,
)

patch-lt : (v off : ℕ) (value : Bool) → v < 2 ^ 64 → off < 64 → patch v off value < 2 ^ 64
patch-lt v off true p q = bit_or-lt 64 v (one_shl off) p (one_shl-lt off 64 q)
patch-lt v off false p q = omega (arith, bit_and-le v v (complement (one_shl off)))

-- A store of one word keeps the set valid.
store-IsValid :
    {b : BitSet} (i w : ℕ)
    → IsValid b
    → i < length b.words
    → w < 2 ^ 64
    → IsValid (record b { words = set b.words i w })
store-IsValid {b} i w v lt fits = record {
  small = v.small;
  enough = rw (length-set b.words i w) v.enough;
  fits = λ j. ground (arith, get_or-set b.words i j w 0, v.fits j);
}

-- After that store the bit at `i` is new, and every other one is old.
bit_at-patch :
    (words : List ℕ) (i k : ℕ) (value : Bool)
    → i / 64 < length words
    → bit_at (set words (i / 64) (patch (get_or words (i / 64) 0) (i % 64) value)) k
      ≡ (if leb i k && ltb k (i + 1) then of_bool value else bit_at words k)
bit_at-patch words i k value word =
    let old = get_or words (i / 64) 0 in
    rw (get_or-set words (i / 64) (k / 64) (patch old (i % 64) value) 0 word)
      (elim (Bool-cases (i / 64 == k / 64)) [
        | inr other ↦ rw other (ground arith)
        | inl same ↦
            let here : k / 64 ≡ i / 64 = sym ((==_iff (i / 64) (k / 64)).0 same) in
            rw (same, bit-patch old (i % 64) (k % 64) value (omega arith) (omega arith), here)
              (ground arith)
      ])

-- `BitSet__set` on an index inside the set writes that bit, and no other.
pub set_bit-Writes :
    {b : BitSet} (i : ℕ) (value : Bool)
    → IsValid b
    → i < b.count
    → Writes b i (i + 1) value (set_bit b i value)
unfolding set_bit
set_bit-Writes {b} i value v lt =
    let word : i / 64 < length b.words = omega (arith, v.enough) in
    let old = get_or b.words (i / 64) 0 in
    let new = patch old (i % 64) value in
    (
      record b { words = set b.words (i / 64) new },
      rw (lt→ltb i b.count lt, load-ok b.words (i / 64) 0 word, store-ok b.words (i / 64) new word),
      record {
        valid =
            store-IsValid (i / 64) new v word
              (patch-lt old (i % 64) value (v.fits (i / 64)) (omega arith));
        same_count = refl;
        same_length = length-set b.words (i / 64) new;
        bits = λ k. bit_at-patch b.words i k value word;
      },
    )

set_bits-Writes :
    (b : BitSet) (left i j : ℕ) (value : Bool)
    → IsValid b
    → i + left ≡ j
    → j ≤ b.count
    → Writes b i j value (set_bits left i value b)
unfolding set_bits
set_bits-Writes b zero i j value v e le =
    let at : j ≡ i = omega arith in rw at (b, refl, Written-refl b i value v)
set_bits-Writes b (suc left) i j value v e le =
    Writes-bind i (i + 1) j _ _ (omega arith) (omega arith) (set_bit-Writes i value v (omega arith))
      (λ c w.
        let same = w.same_count in
        set_bits-Writes c left (i + 1) j value w.valid (omega arith) (omega arith))

-- What the word loops store.
abbrev filled : Bool → ℕ
filled value = if value then complement 0 else 0

bit-filled : (value : Bool) (k : ℕ) → k < 64 → bit (filled value) k ≡ of_bool value
bit-filled true k lt = bit-all_ones k lt
bit-filled false k lt = bit-zero k

bit_at-filled :
    (words : List ℕ) (i k : ℕ) (value : Bool)
    → i < length words
    → bit_at (set words i (filled value)) k
      ≡ (if leb (64 * i) k && ltb k (64 * (i + 1)) then of_bool value else bit_at words k)
bit_at-filled words i k value lt =
    rw (get_or-set words i (k / 64) (filled value) 0 lt) (ground (arith, bit-filled value (k % 64)))

filled-lt : (value : Bool) → filled value < 2 ^ 64
filled-lt true = omega arith
filled-lt false = omega arith

set_word-Written :
    (b : BitSet) (i lo hi : ℕ) (value : Bool)
    → IsValid b
    → i < length b.words
    → lo ≡ 64 * i
    → hi ≡ 64 * (i + 1)
    → Written b (record b { words = set b.words i (filled value) }) lo hi value
set_word-Written b i lo hi value v lt e f = record {
  valid = store-IsValid i (filled value) v lt (filled-lt value);
  same_count = refl;
  same_length = length-set b.words i (filled value);
  bits = λ k. rw (e, f) (bit_at-filled b.words i k value lt);
}

set_words-Writes :
    (b : BitSet) (left i lo hi : ℕ) (value : Bool)
    → IsValid b
    → lo ≡ 64 * i
    → lo + 64 * left ≡ hi
    → hi ≤ 64 * length b.words
    → Writes b lo hi value (set_words left i value b)
unfolding set_words
set_words-Writes b zero i lo hi value v e f le =
    let at : hi ≡ lo = omega arith in rw at (b, refl, Written-refl b lo value v)
set_words-Writes b (suc left) i lo hi value v e f le =
    let stored : BitSet = record b { words = set b.words i (filled value) } in
    let w = set_word-Written b i lo (lo + 64) value v (omega arith) e (omega arith) in
    let same = w.same_length in
    let (d, rest, x) =
      set_words-Writes stored left (i + 1) (lo + 64) hi value w.valid (omega arith) (omega arith)
        (omega arith) in
    (
      d,
      rw (store-ok b.words i (filled value) (omega arith)) rest,
      Written-trans lo (lo + 64) hi (omega arith) (omega arith) w x,
    )

-- The stretches of `BitSet__set_range` where the range holds a whole word.
stretches-Writes :
    {b : BitSet} (begin end : ℕ) (value : Bool)
    → IsValid b
    → begin ≤ end
    → end ≤ b.count
    → align_up begin 64 < align_down end 64
    → Writes b begin end value (
        set_bits (align_up begin 64 - begin) begin value b >>= λ c.
        set_words (align_down end 64 / 64 - align_up begin 64 / 64) (align_up begin 64 / 64) value c
        >>= set_bits (end - align_down end 64) (align_down end 64) value)
stretches-Writes {b} begin end value v p q far =
    let small = v.small in
    let lo = align_up begin 64 in
    let hi = align_down end 64 in
    Writes-bind begin lo end _ _ (omega arith) (omega arith)
      (set_bits-Writes b (lo - begin) begin lo value v (omega arith) (omega arith))
      (λ c w.
        let same_count = w.same_count in
        let enough = w.valid.enough in
        Writes-bind lo hi end _ _ (omega arith) (omega arith)
          (set_words-Writes c (hi / 64 - lo / 64) (lo / 64) lo hi value w.valid (omega arith)
            (omega arith) (omega arith))
          (λ d x.
            let same = x.same_count in
            set_bits-Writes d (end - hi) hi end value x.valid (omega arith) (omega arith)))

-- `BitSet__set_range` on a range inside the set returns, with the bits of the range written, every
-- other bit as it was, and the set still valid.
pub set_range-Writes :
    {b : BitSet} (begin end : ℕ) (value : Bool)
    → IsValid b
    → begin ≤ end
    → end ≤ b.count
    → Writes b begin end value (set_range b begin end value)
unfolding set_range
set_range-Writes {b} begin end value v p q =
    rw (le→leb begin end p, le→leb end b.count q)
      (elim (Bool-cases (leb (align_down end 64) (align_up begin 64))) [
        | inl near ↦ rw near (set_bits-Writes b (end - begin) begin end value v (omega arith) q)
        | inr far ↦ rw far (stretches-Writes begin end value v p q (ground arith))
      ])

-- `BitSet__set_all` on a valid set, whose array has a word for each index, returns a valid set with
-- the bit of each index below the count written.
pub set_all-Writes :
    {b : BitSet} (value : Bool)
    → IsValid b
    → (after : BitSet) × (set_all b value ≡ ok after)
      × IsValid after
      × ((k : ℕ) → k < b.count → bit_at after.words k ≡ of_bool value)
unfolding set_all
set_all-Writes {b} value v =
    let enough = v.enough in
    let (after, e, w) =
      set_words-Writes b ((b.count + 63) / 64) 0 0 (64 * ((b.count + 63) / 64)) value v refl
        (omega arith) (omega arith) in
    (after, e, w.valid, λ k lt. ground (arith, w.bits k))

-- Rounds past the end of the array write outside it.
set_words-fault :
    (b : BitSet) (left i : ℕ) (value : Bool)
    → i ≤ length b.words
    → length b.words < i + left
    → set_words left i value b ≡ fault
unfolding set_words
set_words-fault b zero i value p q = absurd (omega arith)
set_words-fault b (suc left) i value p q = elim (Bool-cases (ltb i (length b.words))) [
  | inr out ↦ rw out
  | inl inside ↦
      let same = length-set b.words i (filled value) in
      let lt = ltb→lt i (length b.words) inside in
      rw inside (
        set_words-fault (record b { words = set b.words i (filled value) }) left (i + 1) value
          (omega arith) (omega arith))
]

-- With too few words for the count, `BitSet__set_all` writes outside the array.
pub set_all-fault :
    (b : BitSet) (value : Bool) → 64 * length b.words < b.count → set_all b value ≡ fault
unfolding set_all
set_all-fault b value few =
    set_words-fault b ((b.count + 63) / 64) 0 value (omega arith) (omega arith)
