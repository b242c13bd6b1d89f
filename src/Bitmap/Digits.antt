-- ===== src/Bitmap/Digits.antt =====
-- The bit operations of kernel/include/lib/bitmap.hpp on one entry, digit by digit.
use epsilon_os.Base.{
  ℕ, zero, suc, ◌+◌, ◌^◌, ◌≤◌, ◌<◌, ◌≡◌, ◌≢◌, ◌∙◌, sym, arith, none, some, Option, not64, shr, ◌==◌,
  Bool-cases, inl, inr,
}
use epsilon_os.Base.Bits.{
  bit, bit-le, bit-eq, bits_ext, bit-bit_and, bit-bit_or, bit-pow_self, bit-pow_ne,
}
use epsilon_os.Base.Bits.{bit-compl, bit_or-lt, bit_and-le_left}
use epsilon_os.Base.Masks.{and_low_mask}
use native.Mathlib.Nat.{pow-le-pow_right}
use native.Mathlib.Decide.{ℕ_discrete}
use epsilon_os.Bitmap.{cell_bit, cell_set, cell_clear, first_unused}

pow-lt-word : (j : ℕ) → j < 64 → 2 ^ j < 2 ^ 64
pow-lt-word j h =
    omega (arith, pow-le-pow_right {n = 2} (omega arith) {i = j} {j = 63} (omega arith))

pub cell_bit-eq : (c j : ℕ) → c < 2 ^ 64 → cell_bit c j ≡ bit c j
unfolding cell_bit
cell_bit-eq c j h = and_low_mask 64 1 (shr c j) (omega arith) (omega arith) ∙ sym (bit-eq c j)

pub cell_set-lt : (c j : ℕ) → c < 2 ^ 64 → j < 64 → cell_set c j < 2 ^ 64
unfolding cell_set
cell_set-lt c j h g = bit_or-lt 64 c (2 ^ j) h (pow-lt-word j g)

pub cell_clear-lt : (c j : ℕ) → c < 2 ^ 64 → cell_clear c j < 2 ^ 64
unfolding cell_clear
cell_clear-lt c j h = omega (arith, bit_and-le_left 64 c (not64 (2 ^ j)) h)

pub bit-cell_set_self : (c j : ℕ) → bit (cell_set c j) j ≡ 1
unfolding cell_set
bit-cell_set_self c j = omega (arith, bit-bit_or c (2 ^ j) j, bit-pow_self j, bit-le c j)

pub bit-cell_set_ne : (c j k : ℕ) → j ≢ k → bit (cell_set c j) k ≡ bit c k
unfolding cell_set
bit-cell_set_ne c j k h = omega (arith, bit-bit_or c (2 ^ j) k, bit-pow_ne j k h)

pub bit-cell_clear_self : (c j : ℕ) → j < 64 → bit (cell_clear c j) j ≡ 0
unfolding cell_clear
bit-cell_clear_self c j h = omega (
  arith,
  bit-bit_and c (not64 (2 ^ j)) j,
  bit-compl 64 (2 ^ j) j (pow-lt-word j h) h,
  bit-pow_self j,
)

pub bit-cell_clear_ne : (c j k : ℕ) → j < 64 → k < 64 → j ≢ k → bit (cell_clear c j) k ≡ bit c k
unfolding cell_clear
bit-cell_clear_ne c j k h g ne = omega (
  arith,
  bit-bit_and c (not64 (2 ^ j)) k,
  bit-compl 64 (2 ^ j) k (pow-lt-word j h) g,
  bit-pow_ne j k ne,
  bit-le c k,
)

-- Clearing a bit that was clear before it was set gives the cell back.
pub cell_clear-cell_set :
    (c j : ℕ) → c < 2 ^ 64 → j < 64 → bit c j ≡ 0 → cell_clear (cell_set c j) j ≡ c
cell_clear-cell_set c j h g z =
    bits_ext 64 (cell_clear (cell_set c j) j) c
      (cell_clear-lt (cell_set c j) j (cell_set-lt c j h g)) h
      λ k kh. elim (ℕ_discrete j k) [
        | yes e ↦ rw (← e) (bit-cell_clear_self (cell_set c j) j g ∙ sym z)
        | no ne ↦ bit-cell_clear_ne (cell_set c j) j k g kh ne ∙ bit-cell_set_ne c j k ne
      ]

-- What the inner loop of `find_set` returns: the first clear bit, if there is one.
abbrev pub FirstUnused : ℕ → ℕ → ℕ → Option ℕ → Type 0
FirstUnused c lo hi none = (k : ℕ) → lo ≤ k → k < hi → bit c k ≡ 1
FirstUnused c lo hi (some j) =
    (lo ≤ j) × (j < hi) × (bit c j ≡ 0) × ((k : ℕ) → lo ≤ k → k < j → bit c k ≡ 1)

FirstUnused-suc :
    (c lo hi : ℕ) (r : Option ℕ)
    → bit c lo ≡ 1
    → FirstUnused c (lo + 1) hi r
    → FirstUnused c lo hi r
FirstUnused-suc c lo hi none b h =
    λ k p q. elim (ℕ_discrete lo k) [ yes e ↦ rw (← e) b | no ne ↦ h k (omega arith) q ]
FirstUnused-suc c lo hi (some j) b h = (
  omega arith,
  h.1,
  h.2,
  λ k p q. elim (ℕ_discrete lo k) [ yes e ↦ rw (← e) b | no ne ↦ h.3 k (omega arith) q ],
)

pub first_unused-FirstUnused :
    (left j c : ℕ) → c < 2 ^ 64 → FirstUnused c j (j + left) (first_unused left j c)
unfolding first_unused
first_unused-FirstUnused zero j c h = λ k p q. absurd (omega arith)
first_unused-FirstUnused (suc left) j c h = elim (Bool-cases (cell_bit c j == 0)) [
  | inl e ↦
      rw e
        (omega arith, omega arith, ground (arith, cell_bit-eq c j h), λ k p q. absurd (omega arith))
  | inr e ↦
      rw (e, let s : j + suc left ≡ j + 1 + left = omega arith in s)
        (FirstUnused-suc c j (j + 1 + left) (first_unused left (j + 1) c)
          (ground (arith, cell_bit-eq c j h, bit-le c j))
          (first_unused-FirstUnused left (j + 1) c h))
]
