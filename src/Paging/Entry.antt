-- ===== src/Paging/Entry.antt =====
-- kern/page_tables.c: `make_pte` and `pte_address`.
use dumboss.Base.{
  ℕ, ◌-◌, ◌*◌, ◌/◌, ◌%◌, ◌^◌, ◌≤◌, ◌<◌, ◌≡◌, ◌≢◌, refl, sym, ap, ◌∙◌, true, ltb, leb, ◌&&◌, ◌==◌,
  ==_iff, ne→==, le→leb, if◌then◌else◌, arith, min, bit_and, bit_or, ok, ◌>>=◌,
}
use dumboss.Base.Bits.{
  eq-zero_of_bits, bit, bit-bit_and, bit-bit_or, bit-low, bit-high, bit-zero, bit-le-one,
  bit_and-le, bit_or-lt, le-bit_or, eq_of_bits, all_below, of_all_below,
}
use dumboss.Memory.{null, page_size}
use dumboss.Memory.Address.{kernel_space_begin, kernel_ptr-ok, physical_address}
use dumboss.Paging.{make_pte, pte_address, sign_extend, pte_address_mask, pte_huge_page}

-- `PTE_ADDRESS` has the bits from 12 to 51.
mask_table :
    all_below 64 (λ k. bit pte_address_mask k == (if leb 12 k && ltb k 52 then 1 else 0)) ≡ true
unfolding all_below bit
mask_table = refl

bit-mask : (k : ℕ) → k < 64 → bit pte_address_mask k ≡ (if leb 12 k && ltb k 52 then 1 else 0)
bit-mask k lt = (==_iff _ _).0 (of_all_below 64 k _ lt mask_table)

-- Flags stand outside the bits of the address, and some flag is set.
pub record IsFlags (flags : ℕ) : Type 0 where
  pub fits : flags < 2 ^ 64
  pub some_flag : flags ≢ 0
  pub apart : bit_and flags pte_address_mask ≡ 0

-- The address of a page in an entry, and its flags, are read back as they were put in.
pub entry-address :
    (a flags : ℕ)
    → a < 2 ^ 47
    → a % page_size ≡ 0
    → IsFlags flags
    → bit_and (bit_or (bit_and a pte_address_mask) flags) pte_address_mask ≡ a
entry-address a flags lt aligned f =
    eq_of_bits 64 _ a
      (omega (
        arith,
        bit_and-le (bit_or (bit_and a pte_address_mask) flags)
            (bit_or (bit_and a pte_address_mask) flags) pte_address_mask,
        bit_or-lt 64 (bit_and a pte_address_mask) flags
            (omega (arith, bit_and-le a a pte_address_mask)) f.fits,
      ))
      (omega arith) same
  where
    as_pages : a ≡ a / page_size * 2 ^ 12
    as_pages = omega arith

    same :
        (k : ℕ)
        → k < 64
        → bit (bit_and (bit_or (bit_and a pte_address_mask) flags) pte_address_mask) k ≡ bit a k
    same k small =
        let low : k < 12 → bit a k ≡ 0 = λ h. rw as_pages (bit-low 12 (a / page_size) k h) in
        let high : 47 ≤ k → bit a k ≡ 0 = λ h. bit-high 47 a k lt h in
        let no_flag : min (bit flags k) (bit pte_address_mask k) ≡ 0 =
          sym (bit-bit_and flags pte_address_mask k) ∙ rw f.apart (bit-zero k) in
        ground (
          arith,
          bit-bit_and (bit_or (bit_and a pte_address_mask) flags) pte_address_mask k,
          bit-bit_or (bit_and a pte_address_mask) flags k,
          bit-bit_and a pte_address_mask k,
          bit-mask k small,
          bit-le-one a k,
          bit-le-one flags k,
          low,
          high,
          no_flag,
        )

sign_extend-low : (a : ℕ) → a < 2 ^ 47 → sign_extend a ≡ a
unfolding sign_extend
sign_extend-low a lt = ground arith

or-ne-zero : (a flags : ℕ) → flags ≢ 0 → bit_or a flags ≢ 0
or-ne-zero a flags ne e = ne (omega (arith, le-bit_or flags a flags (omega arith)))

-- `pte_address` of the entry that `make_pte` makes for the address of a page in the kernel's half,
-- with flags that are not 0 and stand outside the address bits, is that page.
pub pte_address-make_pte :
    (p flags : ℕ)
    → kernel_space_begin ≤ p
    → p < 2 ^ 64
    → p % page_size ≡ 0
    → IsFlags flags
    → (make_pte p flags >>= pte_address) ≡ ok p
unfolding make_pte pte_address physical_address
pte_address-make_pte p flags lo hi aligned f =
    let a = p - kernel_space_begin in
    let entry = bit_or (bit_and a pte_address_mask) flags in
    let back = entry-address a flags (omega arith) (omega arith) f in
    rw
      (
        ne→== p null (omega arith),
        le→leb kernel_space_begin p lo,
        ne→== entry 0 (or-ne-zero (bit_and a pte_address_mask) flags f.some_flag),
        back,
        sign_extend-low a (omega arith),
        kernel_ptr-ok a (omega arith),
      )
      (ap ok (omega arith))

pub ok-injective : (a b : ℕ) → ok a ≡ ok b → a ≡ b
ok-injective a b e = cc

-- An entry is that of a huge page only if the flags say so.
or-small :
    (a flags : ℕ)
    → a < 2 ^ 64
    → flags < 2 ^ 64
    → bit_and flags pte_huge_page ≡ 0
    → bit_and (bit_or (bit_and a pte_address_mask) flags) pte_huge_page ≡ 0
or-small a flags low fits small =
    let entry = bit_or (bit_and a pte_address_mask) flags in
    eq-zero_of_bits 64 (bit_and entry pte_huge_page)
      (omega (
        arith,
        bit_and-le entry entry pte_huge_page,
        bit_or-lt 64 (bit_and a pte_address_mask) flags
            (omega (arith, bit_and-le a a pte_address_mask)) fits,
      ))
      (λ k lt.
        let no_flag : min (bit flags k) (bit pte_huge_page k) ≡ 0 =
          sym (bit-bit_and flags pte_huge_page k) ∙ rw small (bit-zero k) in
        let high : 8 ≤ k → bit pte_huge_page k ≡ 0 =
          λ h. bit-high 8 pte_huge_page k (omega arith) h in
        ground (
          arith,
          bit-bit_and entry pte_huge_page k,
          bit-bit_or (bit_and a pte_address_mask) flags k,
          bit-bit_and a pte_address_mask k,
          bit-mask k lt,
          no_flag,
          high,
        ))

pub make_pte-small :
    (p flags entry : ℕ)
    → kernel_space_begin ≤ p
    → p < 2 ^ 64
    → IsFlags flags
    → bit_and flags pte_huge_page ≡ 0
    → make_pte p flags ≡ ok entry
    → bit_and entry pte_huge_page ≡ 0
unfolding make_pte physical_address
make_pte-small p flags entry lo hi f small made =
    let a = p - kernel_space_begin in
    let at : make_pte p flags ≡ ok (bit_or (bit_and a pte_address_mask) flags) =
      rw (ne→== p null (omega arith), le→leb kernel_space_begin p lo) refl in
    rw (ok-injective _ _ (sym made ∙ at)) (or-small a flags (omega arith) f.fits small)
