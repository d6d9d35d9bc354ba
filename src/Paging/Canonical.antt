-- ===== src/Paging/Canonical.antt =====
-- kern/page_tables.c: `page_table_indices` and `indices_to_address`.
use dumboss.Base.{ℕ, ◌+◌, ◌-◌, ◌*◌, ◌/◌, ◌%◌, ◌^◌, ◌≤◌, ◌<◌, ◌≡◌, ◌⊎◌, arith, bit_or}
use dumboss.Base.Bits.{bit_or-add}
use dumboss.Memory.{page_size}
use dumboss.Paging.{page_table_indices, sign_extend, indices_to_address, entry_count}

-- An address whose high 16 bits are copies of bit 47.
abbrev pub IsCanonical : ℕ → Type 0
IsCanonical a = (a < 2 ^ 47) ⊎ ((2 ^ 64 - 2 ^ 47 ≤ a) × (a < 2 ^ 64))

-- Each index is within its table, and the offset within its page.
pub page_table_indices-lt :
    (a : ℕ)
    → let i = page_table_indices a in
      (i.p0 < page_size)
      × (i.p1 < entry_count)
      × (i.p2 < entry_count)
      × (i.p3 < entry_count)
      × (i.p4 < entry_count)
unfolding page_table_indices
page_table_indices-lt a = omega arith

or_as_sum :
    (p4 p3 p2 p1 : ℕ)
    → p3 < 512
    → p2 < 512
    → p1 < 512
    → bit_or (bit_or (bit_or (p4 * 2 ^ 39) (p3 * 2 ^ 30)) (p2 * 2 ^ 21)) (p1 * 2 ^ 12)
      ≡ p4 * 2 ^ 39 + p3 * 2 ^ 30 + p2 * 2 ^ 21 + p1 * 2 ^ 12
or_as_sum p4 p3 p2 p1 h3 h2 h1 =
    let two : p4 * 2 ^ 39 + p3 * 2 ^ 30 ≡ (p4 * 512 + p3) * 2 ^ 30 = omega arith in
    let three : (p4 * 512 + p3) * 2 ^ 30 + p2 * 2 ^ 21 ≡ ((p4 * 512 + p3) * 512 + p2) * 2 ^ 21 =
      omega arith in
    rw (
      bit_or-add 39 p4 (p3 * 2 ^ 30) (omega arith),
      two,
      bit_or-add 30 (p4 * 512 + p3) (p2 * 2 ^ 21) (omega arith),
      three,
      bit_or-add 21 ((p4 * 512 + p3) * 512 + p2) (p1 * 2 ^ 12) (omega arith),
    )

-- The address put together from the indices of a canonical address is the start of its page.
pub indices_to_address-page_table_indices :
    (a : ℕ) → IsCanonical a → indices_to_address (page_table_indices a) ≡ a / page_size * page_size
unfolding indices_to_address page_table_indices sign_extend
indices_to_address-page_table_indices a canonical =
    rw
      (or_as_sum (a / 2 ^ 12 / 2 ^ 9 / 2 ^ 9 / 2 ^ 9 % 512) (a / 2 ^ 12 / 2 ^ 9 / 2 ^ 9 % 512)
        (a / 2 ^ 12 / 2 ^ 9 % 512) (a / 2 ^ 12 % 512) (omega arith) (omega arith) (omega arith))
      (ground arith)
