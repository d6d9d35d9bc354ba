-- ===== src/BitSet/Query.antt =====
-- `BitSet__get`, `BitSet__get_count`, `BitSet__get_all` and `BitSet__get_any`: the loops over
-- bits, words and bits again give what the bits of the range, one by one, give.
use dumboss.Base.{
  ℕ, zero, suc, ◌+◌, ◌-◌, ◌*◌, ◌/◌, ◌%◌, ◌^◌, ◌≤◌, ◌<◌, ◌≡◌, refl, ap, ◌↔◌, inl, inr, Bool, true,
  false, not, ◌&&◌, length, arith, leb, ◌==◌, if◌then◌else◌, Bool-cases, lt→ltb, leb→le, le→leb, ok,
  panic, ◌>>=◌, load-ok, bit_and,
}
use dumboss.Base.Bits.{bit, one_shl, bit_and-one_shl, bit-le-one, one-le-two_pow}
use dumboss.BitSet.{
  BitSet, get, count_bits, count_words, get_count, scan_bits, scan_words, scan, get_all, get_any,
  align_up, align_down,
}
use dumboss.BitSet.Ones.{
  IsValid, bit_at, bit_at-le-one, ones, ones-add, ones-le, ones-popcount, ones-all_ones,
  ones-zero_word, ones-full_iff, ones-empty_iff,
}

test_bit : (k v : ℕ) → not (0 == bit_and (one_shl k) v) ≡ (bit v k == 1)
test_bit k v =
    ground (arith, bit_and-one_shl k v, bit-le-one v k, one-le-two_pow k, mul_bit (bit v k) (2 ^ k))
  where
    mul_bit : (b p : ℕ) → (b ≡ 0 → b * p ≡ 0) × (b ≡ 1 → b * p ≡ p)
    mul_bit b p = (λ e. rw e (omega arith), λ e. rw e (omega arith))

module _ {bits : BitSet} (v : IsValid bits) where
  open bits use {words, count}

  -- `BitSet__get` on an index below the count of a valid set returns its bit.
  pub get-bit_at : (i : ℕ) → i < count → get bits i ≡ ok (bit_at words i == 1)
  unfolding get
  get-bit_at i lt =
      let word : i / 64 < length words = omega (arith, v.enough) in
      rw (lt→ltb i count lt, load-ok words (i / 64) 0 word) (ap ok (test_bit (i % 64) _))

  count_bits-ones :
      (left i n : ℕ) → i + left ≤ count → count_bits bits left i n ≡ ok (n + ones words left i)
  unfolding count_bits ones
  count_bits-ones zero i n le = ap ok (omega arith)
  count_bits-ones (suc left) i n le = rw (get-bit_at i (omega arith)) (
      rw (count_bits-ones left (i + 1) _ (omega arith))
        (ap ok (ground (arith, bit_at-le-one words i))))

  count_words-ones :
      (left i n k : ℕ)
      → i + left ≤ length words
      → k ≡ 64 * i
      → count_words bits left i n ≡ ok (n + ones words (64 * left) k)
  unfolding count_words ones
  count_words-ones zero i n k le e = ap ok (omega arith)
  count_words-ones (suc left) i n k le e = rw (load-ok words i 0 (omega arith)) (
      rw (count_words-ones left (i + 1) _ (k + 64) (omega arith) (omega arith)) (
        ap ok (
          omega (
            arith,
            ones-popcount words k i e,
            ones-add words 64 (64 * left) (64 * suc left) k (k + 64) (omega arith) refl,
          ))))

  -- The three stretches of a range that holds a whole word.
  split :
      (begin end : ℕ)
      → begin ≤ end
      → end ≤ count
      → align_up begin 64 < align_down end 64
      → ones words (end - begin) begin
        ≡ ones words (align_up begin 64 - begin) begin
          + (ones words (64 * (align_down end 64 / 64 - align_up begin 64 / 64)) (align_up begin 64)
              + ones words (end - align_down end 64) (align_down end 64))
  split begin end p q lt =
      let small = v.small in
      omega (
        arith,
        ones-add words (align_up begin 64 - begin) (end - align_up begin 64) (end - begin) begin
            (align_up begin 64) (omega arith) (omega arith),
        ones-add words (64 * (align_down end 64 / 64 - align_up begin 64 / 64))
            (end - align_down end 64) (end - align_up begin 64) (align_up begin 64)
            (align_down end 64) (omega arith) (omega arith),
      )

  -- `BitSet__get_count` counts the set bits of the range, and fails an assertion on a range that
  -- is not inside the set.
  pub get_count-ones :
      (begin end : ℕ)
      → get_count bits begin end
        ≡ (if leb begin end && leb end count then ok (ones words (end - begin) begin) else panic)
  unfolding get_count
  get_count-ones begin end = elim (Bool-cases (leb begin end)) [
    | inr no_begin ↦ rw no_begin
    | inl p ↦ elim (Bool-cases (leb end count)) [
      | inr no_end ↦ rw (p, no_end)
      | inl q ↦ rw (p, q) (inside (leb→le _ _ p) (leb→le _ _ q))
    ]
  ]
    where
      inside :
          begin ≤ end
          → end ≤ count
          → (if leb (align_down end 64) (align_up begin 64)
              then count_bits bits (end - begin) begin 0
              else (count_bits bits (align_up begin 64 - begin) begin 0 >>= λ head.
                  count_words bits
                    (align_down end 64 / 64 - align_up begin 64 / 64)
                    (align_up begin 64 / 64)
                    head
                  >>= λ body. count_bits bits (end - align_down end 64) (align_down end 64) body))
            ≡ ok (ones words (end - begin) begin)
      inside p q = elim (Bool-cases (leb (align_down end 64) (align_up begin 64))) [
        | inl near ↦
            rw (near, count_bits-ones (end - begin) begin 0 (omega arith)) (ap ok (omega arith))
        | inr far ↦
            let lt : align_up begin 64 < align_down end 64 = ground arith in
            let enough = v.enough in
            rw (far, count_bits-ones (align_up begin 64 - begin) begin 0 (omega arith))
              (rw
                (count_words-ones (align_down end 64 / 64 - align_up begin 64 / 64)
                  (align_up begin 64 / 64) _ (align_up begin 64) (omega arith) (omega arith))
                (rw (count_bits-ones (end - align_down end 64) (align_down end 64) _ (omega arith))
                  (ap ok (omega (arith, split begin end p q lt)))))
      ]

  -- What a scan of `n` bits returns when `set` of them are set.
  abbrev verdict : Bool → ℕ → ℕ → Bool
  verdict true n set = not (set == 0)
  verdict false n set = set == n

  scan_bits-ones :
      (stop : Bool) (left i : ℕ)
      → i + left ≤ count
      → scan_bits stop bits left i ≡ ok (verdict stop left (ones words left i))
  unfolding scan_bits ones
  scan_bits-ones true zero i le = refl
  scan_bits-ones false zero i le = refl
  scan_bits-ones true (suc left) i le =
      rw (get-bit_at i (omega arith), scan_bits-ones true left (i + 1) (omega arith))
        (ground (arith, bit_at-le-one words i))
  scan_bits-ones false (suc left) i le =
      rw (get-bit_at i (omega arith), scan_bits-ones false left (i + 1) (omega arith))
        (ground (arith, bit_at-le-one words i, ones-le words left (i + 1)))

  scan_words-ones :
      (stop : Bool) (left i k : ℕ)
      → i + left ≤ length words
      → k ≡ 64 * i
      → scan_words stop bits left i ≡ ok (verdict stop (64 * left) (ones words (64 * left) k))
  unfolding scan_words ones
  scan_words-ones true zero i k le e = refl
  scan_words-ones false zero i k le e = refl
  scan_words-ones true (suc left) i k le e =
      rw
        (
          load-ok words i 0 (omega arith),
          scan_words-ones true left (i + 1) (k + 64) (omega arith) (omega arith),
          ones-add words 64 (64 * left) (64 * suc left) k (k + 64) (omega arith) refl,
        )
        (ground (arith, ones-zero_word words k i e (v.fits i)))
  scan_words-ones false (suc left) i k le e =
      rw
        (
          load-ok words i 0 (omega arith),
          scan_words-ones false left (i + 1) (k + 64) (omega arith) (omega arith),
          ones-add words 64 (64 * left) (64 * suc left) k (k + 64) (omega arith) refl,
        )
        (ground (
          arith,
          ones-all_ones words k i e (v.fits i),
          ones-le words 64 k,
          ones-le words (64 * left) (k + 64),
        ))

  verdict-split :
      (stop : Bool) (m n o a b c : ℕ)
      → a ≤ m
      → b ≤ n
      → c ≤ o
      → (if (if stop then verdict stop m a else not (verdict stop m a))
          then ok stop
          else (if (if stop then verdict stop n b else not (verdict stop n b))
              then ok stop
              else ok (verdict stop o c)))
        ≡ ok (verdict stop (m + (n + o)) (a + (b + c)))
  verdict-split true m n o a b c p q r = ground arith
  verdict-split false m n o a b c p q r = ground arith

  scan-ones :
      (stop : Bool) (begin end : ℕ)
      → begin ≤ end
      → end ≤ count
      → scan stop bits begin end ≡ ok (verdict stop (end - begin) (ones words (end - begin) begin))
  unfolding scan
  scan-ones stop begin end p q =
      rw (le→leb begin end p, le→leb end count q)
        (elim (Bool-cases (leb (align_down end 64) (align_up begin 64))) [
          | inl near ↦ rw near (scan_bits-ones stop (end - begin) begin (omega arith))
          | inr far ↦
              let lt : align_up begin 64 < align_down end 64 = ground arith in
              let enough = v.enough in
              let small = v.small in
              let total : end - begin
                  ≡ align_up begin 64
                    - begin
                    + (64 * (align_down end 64 / 64 - align_up begin 64 / 64)
                        + (end - align_down end 64)) =
                omega arith in
              rw
                (
                  far,
                  scan_bits-ones stop (align_up begin 64 - begin) begin (omega arith),
                  scan_words-ones stop (align_down end 64 / 64 - align_up begin 64 / 64)
                      (align_up begin 64 / 64) (align_up begin 64) (omega arith) (omega arith),
                  scan_bits-ones stop (end - align_down end 64) (align_down end 64) (omega arith),
                  split begin end p q lt,
                  total,
                )
                (verdict-split stop _ _ _ _ _ _ (ones-le words _ _) (ones-le words _ _)
                  (ones-le words _ _))
        ])

  -- `BitSet__get_all` on a range inside the set returns, and returns `true` exactly when every
  -- bit of the range is set.
  pub get_all_iff :
      (begin end : ℕ)
      → begin ≤ end
      → end ≤ count
      → (b : Bool) × (get_all bits begin end ≡ ok b)
        × ((b ≡ true) ↔ ((k : ℕ) → begin ≤ k → k < end → bit_at words k ≡ 1))
  unfolding get_all
  get_all_iff begin end p q =
      let full = ones-full_iff words (end - begin) begin in
      (
        _,
        scan-ones false begin end p q,
        (
          λ e k lo hi. full.0 (ground arith) k lo (omega arith),
          λ h. ground (arith, full.1 (λ k lo hi. h k lo (omega arith))),
        ),
      )

  -- `BitSet__get_any` on a range inside the set returns, and returns `false` exactly when no bit
  -- of the range is set.
  pub get_any_iff :
      (begin end : ℕ)
      → begin ≤ end
      → end ≤ count
      → (b : Bool) × (get_any bits begin end ≡ ok b)
        × ((b ≡ false) ↔ ((k : ℕ) → begin ≤ k → k < end → bit_at words k ≡ 0))
  unfolding get_any
  get_any_iff begin end p q =
      let empty = ones-empty_iff words (end - begin) begin in
      (
        _,
        scan-ones true begin end p q,
        (
          λ e k lo hi. empty.0 (ground arith) k lo (omega arith),
          λ h. ground (arith, empty.1 (λ k lo hi. h k lo (omega arith))),
        ),
      )
