-- ===== src/Memory/AddressSpace/Indices.antt =====
-- How kernel/src/mem/address_space.cpp splits a virtual address, and what `fix_flags` keeps.
use epsilon_os.Base.{
  not64, not, true, ℕ, ◌+◌, ◌*◌, ◌/◌, ◌%◌, ◌^◌, ◌<◌, ◌≡◌, ◌∙◌, ◌↔◌, sym, ap, arith, ◌||◌, bit_and,
  bit_or, ◌==◌, if◌then◌else◌, Bool-cases, inl, inr, ==_iff,
}
use native.Mathlib.Decide.{ℕ_discrete}
use epsilon_os.Base.Bits.{
  bit, bit-le, bit-bit_and, bit-bit_or, bit-pow_self, bit-pow_ne, zero-bit, bit_or-lt,
  bit_and-le_left,
}
use epsilon_os.Base.Masks.{and_low_mask}
use epsilon_os.Bitmap.{cell_clear}
use epsilon_os.Bitmap.Digits.{bit-cell_clear_self, bit-cell_clear_ne}
use epsilon_os.Memory.PageTable.{is_present}
use epsilon_os.Memory.PageTable.Entries.{is_present_lem}
use epsilon_os.Memory.AddressSpace.{pml4_index, pdp_index, pd_index, pt_index, fix_flags}

index_lem : (x n : ℕ) → x < 2 ^ 64 → bit_and (x / 2 ^ n) 0x1FF ≡ x / 2 ^ n % 512
index_lem x n h = and_low_mask 64 9 (x / 2 ^ n) (omega arith) (omega arith)

-- The four indices and the offset in the page make up the low 48 bits of the address.
pub indices_join :
    (x : ℕ)
    → x < 2 ^ 64
    → x % 2 ^ 48
      ≡ pml4_index x * 2 ^ 39
        + pdp_index x * 2 ^ 30
        + pd_index x * 2 ^ 21
        + pt_index x * 2 ^ 12
        + x % 4096
unfolding pml4_index pdp_index pd_index pt_index
indices_join x h =
    omega (arith, index_lem x 39 h, index_lem x 30 h, index_lem x 21 h, index_lem x 12 h)

-- The number of the page of the 48-bit space that an address lies in.
abbrev pub page_number : ℕ → ℕ
page_number x = x % 2 ^ 48 / 4096

-- The four indices are the digits of this number to the base 512.
pub indices-page_number :
    (x : ℕ)
    → x < 2 ^ 64
    → (pml4_index x ≡ page_number x / 2 ^ 27 % 512)
      × (pdp_index x ≡ page_number x / 2 ^ 18 % 512)
      × (pd_index x ≡ page_number x / 2 ^ 9 % 512)
      × (pt_index x ≡ page_number x % 512)
unfolding pml4_index pdp_index pd_index pt_index
indices-page_number x h =
    omega (arith, index_lem x 39 h, index_lem x 30 h, index_lem x 21 h, index_lem x 12 h)

-- Every index is below the 512 entries of a table.
pub indices-lt :
    (x : ℕ)
    → x < 2 ^ 64
    → (pml4_index x < 512) × (pdp_index x < 512) × (pd_index x < 512) × (pt_index x < 512)
unfolding pml4_index pdp_index pd_index pt_index
indices-lt x h =
    omega (arith, index_lem x 39 h, index_lem x 30 h, index_lem x 21 h, index_lem x 12 h)

abbrev pub SameIndices : ℕ → ℕ → Type 0
SameIndices x y =
    (pml4_index x ≡ pml4_index y)
    × (pdp_index x ≡ pdp_index y)
    × (pd_index x ≡ pd_index y)
    × (pt_index x ≡ pt_index y)

-- Two addresses are walked by the same four indices exactly when they lie in the same page of the
-- 48-bit space.
pub indices-page_iff :
    (x y : ℕ) → x < 2 ^ 64 → y < 2 ^ 64 → SameIndices x y ↔ (x % 2 ^ 48 / 4096 ≡ y % 2 ^ 48 / 4096)
unfolding pml4_index pdp_index pd_index pt_index
indices-page_iff x y h g = (
  λ e. omega (
    arith,
    index_lem x 39 h,
    index_lem x 30 h,
    index_lem x 21 h,
    index_lem x 12 h,
    index_lem y 39 g,
    index_lem y 30 g,
    index_lem y 21 g,
    index_lem y 12 g,
  ),
  λ e. omega (
    arith,
    index_lem x 39 h,
    index_lem x 30 h,
    index_lem x 21 h,
    index_lem x 12 h,
    index_lem y 39 g,
    index_lem y 30 g,
    index_lem y 21 g,
    index_lem y 12 g,
  ),
)

-- `if (x & 2 ^ j) x &= ~2 ^ j` clears one bit.
drop_bit : ℕ → ℕ → ℕ
drop_bit x j = if bit_and x (2 ^ j) == 0 then x else cell_clear x j

bit-drop_bit :
    (x j k : ℕ) → j < 64 → k < 64 → bit (drop_bit x j) k ≡ (if k == j then 0 else bit x k)
unfolding drop_bit
bit-drop_bit x j k hj hk = elim (Bool-cases (bit_and x (2 ^ j) == 0)) [
  | inl z ↦
      let none : bit (bit_and x (2 ^ j)) j ≡ 0 =
        ap (λ (t : ℕ). bit t j) ((==_iff _ _).0 z) ∙ zero-bit j in
      let clear : bit x j ≡ 0 = omega (arith, bit-bit_and x (2 ^ j) j, bit-pow_self j) in
      rw z (elim (ℕ_discrete k j) [ yes e ↦ ground (arith, ap (bit x) e) | no ne ↦ ground arith ])
  | inr z ↦ rw z (elim (ℕ_discrete k j) [
    | yes e ↦ ground (arith, bit-cell_clear_self x j hj, ap (bit (cell_clear x j)) e)
    | no ne ↦ ground (arith, bit-cell_clear_ne x j k hj hk (λ e. ne (sym e)))
  ])
]

-- `fix_flags` gives a page the flags asked for with `Present`, and the directories the same
-- without `PAT` (bit 7) and `ExecuteDisable` (bit 63).
pub fix_flags_lem :
    (flags k : ℕ)
    → k < 64
    → (bit ((fix_flags flags).1) k ≡ (if k == 0 then 1 else bit flags k))
      × (bit ((fix_flags flags).0) k
          ≡ (if k == 7 || k == 63 then 0 else if k == 0 then 1 else bit flags k))
unfolding fix_flags cell_clear drop_bit
fix_flags_lem flags k h = (page, directory)
  where
    page : bit (bit_or flags 1) k ≡ (if k == 0 then 1 else bit flags k)
    page = elim (ℕ_discrete k 0) [
      | yes e ↦ ground (arith, bit-bit_or flags 1 k, ap (bit 1) e, bit-pow_self 0, bit-le flags k)
      | no ne ↦ ground (arith, bit-bit_or flags 1 k, bit-pow_ne 0 k (λ e. ne (sym e)))
    ]

    directory :
        bit ((fix_flags flags).0) k
        ≡ (if k == 7 || k == 63 then 0 else if k == 0 then 1 else bit flags k)
    directory = ground (
      arith,
      bit-drop_bit (drop_bit (bit_or flags 1) 7) 63 k (omega arith) h,
      bit-drop_bit (bit_or flags 1) 7 k (omega arith) h,
      page,
    )

drop_bit-lt : (x j : ℕ) → x < 2 ^ 64 → drop_bit x j < 2 ^ 64
unfolding drop_bit cell_clear
drop_bit-lt x j small = elim (Bool-cases (bit_and x (2 ^ j) == 0)) [
  | inl e ↦ rw e small
  | inr e ↦ rw e (omega (arith, bit_and-le_left 64 x (not64 (2 ^ j)) small))
]

directory-lt : (flags : ℕ) → flags < 2 ^ 64 → (fix_flags flags).0 < 2 ^ 64
unfolding fix_flags drop_bit cell_clear
directory-lt flags h =
    drop_bit-lt (drop_bit (bit_or flags 1) 7) 63
      (drop_bit-lt (bit_or flags 1) 7 (bit_or-lt 64 flags 1 h (omega arith)))

-- The flags of directories are 64-bit flags with `Present`.
pub fix_flags-directory :
    (flags : ℕ)
    → flags < 2 ^ 64
    → ((fix_flags flags).0 < 2 ^ 64) × (is_present ((fix_flags flags).0) ≡ true)
unfolding bit
fix_flags-directory flags h =
    let wide : (fix_flags flags).0 < 2 ^ 64 = directory-lt flags h in
    let odd : (fix_flags flags).0 % 2 ≡ 1 =
      omega (arith, (fix_flags_lem flags 0 (omega arith)).1) in
    (wide, is_present_lem ((fix_flags flags).0) wide ∙ ap (λ (t : ℕ). not (t == 0)) odd)
