-- ===== src/Base/Masks.antt =====
-- The masks that the kernel uses, as arithmetic: low and high masks, fields joined by `|`, and
-- the rounding helpers of kernel/include/types.hpp.
use Prim.Native.Nat.{ℕ, zero, suc, ◌+◌, ◌-◌, ◌*◌, ◌/◌, ◌%◌, ◌^◌, ◌≤◌, ◌<◌, bit_and, bit_or}
use mathlib.Core.Path.{◌≡◌, sym, ap, ◌∙◌}
use native.Mathlib.Nat.{one-le-pow, pow-le-pow_right, mod-lt, div-add-mod', add-zero}
use native.Mathlib.Decide.{dec_lt, ℕ_discrete}
use mathlib.Core.Bool.{Bool, true, false}
use epsilon_os.Base.Tests.{◌==◌, if◌then◌else◌}
use native.Mathlib.Omega.{arith}
use epsilon_os.Base.Word.{not64, round_up, round_down}
use epsilon_os.Base.Bits.{bit, bit-le, bit_of_lt, bits_ext, bit-bit_and, bit-bit_or, bit-compl}
use epsilon_os.Base.Bits.{bit-ones, bit-mod_low, bit-mod_high, bit-join_low, bit-join_high}
use epsilon_os.Base.Bits.{bit-pow_self, bit-pow_ne, zero-bit, bit_and-le_left, bit_or-lt}

pow-pos : (n : ℕ) → 0 < 2 ^ n
pow-pos n = one-le-pow n 2 (omega arith)

-- The digits of `x` with the lowest `n` cleared.
pub bit-high_low : (n x k : ℕ) → k < n → bit (x / 2 ^ n * 2 ^ n) k ≡ 0
bit-high_low n x k h =
    ap (λ (t : ℕ). bit t k) (sym (add-zero (x / 2 ^ n * 2 ^ n)))
    ∙ bit-join_low n (x / 2 ^ n) 0 k (pow-pos n) h
    ∙ zero-bit k

pub bit-high_high : (n x k : ℕ) → n ≤ k → bit (x / 2 ^ n * 2 ^ n) k ≡ bit x k
bit-high_high n x k h =
    ap (λ (t : ℕ). bit t k) (sym (add-zero (x / 2 ^ n * 2 ^ n)))
    ∙ bit-join_high n (x / 2 ^ n) 0 k (pow-pos n) h
    ∙ sym (bit-join_high n (x / 2 ^ n) (x % 2 ^ n) k (mod-lt x (pow-pos n)) h)
    ∙ ap (λ (t : ℕ). bit t k) (div-add-mod' x (2 ^ n))

-- `x & (2 ^ n - 1)` is the remainder.
pub and_low_mask : (w n x : ℕ) → n ≤ w → x < 2 ^ w → bit_and x (2 ^ n - 1) ≡ x % 2 ^ n
and_low_mask w n x hn hx =
    bits_ext w (bit_and x (2 ^ n - 1)) (x % 2 ^ n)
      (omega (arith, bit_and-le_left w x (2 ^ n - 1) hx)) (omega (arith, mod-le))
      λ k hk. elim (dec_lt k n) [
        | yes p ↦
            omega
              (arith, bit-bit_and x (2 ^ n - 1) k, bit-ones n k p, bit-mod_low n x k p, bit-le x k)
        | no p ↦ omega (
          arith,
          bit-bit_and x (2 ^ n - 1) k,
          bit_of_lt n (2 ^ n - 1) k (omega (arith, pow-pos n)) (omega arith),
          bit-mod_high n x k (omega arith),
        )
      ]
  where
    mod-le : x % 2 ^ n ≤ x
    mod-le = omega arith

-- `x & ~(2 ^ n - 1)` on 64 bits clears the lowest `n` digits.
pub and_high_mask :
    (n x : ℕ) → n ≤ 64 → x < 2 ^ 64 → bit_and x (not64 (2 ^ n - 1)) ≡ x / 2 ^ n * 2 ^ n
and_high_mask n x hn hx =
    bits_ext 64 (bit_and x (not64 (2 ^ n - 1))) (x / 2 ^ n * 2 ^ n)
      (omega (arith, bit_and-le_left 64 x (not64 (2 ^ n - 1)) hx))
      (omega (arith, div-add-mod' x (2 ^ n)))
      λ k hk. elim (dec_lt k n) [
        | yes p ↦ omega (
          arith,
          bit-bit_and x (not64 (2 ^ n - 1)) k,
          bit-compl 64 (2 ^ n - 1) k mask-lt hk,
          bit-ones n k p,
          bit-high_low n x k p,
        )
        | no p ↦ omega (
          arith,
          bit-bit_and x (not64 (2 ^ n - 1)) k,
          bit-compl 64 (2 ^ n - 1) k mask-lt hk,
          bit_of_lt n (2 ^ n - 1) k (omega (arith, pow-pos n)) (omega arith),
          bit-high_high n x k (omega arith),
          bit-le x k,
        )
      ]
  where
    mask-lt : 2 ^ n - 1 < 2 ^ 64
    mask-lt = omega (arith, pow-pos n, pow-le-pow_right {n = 2} (omega arith) hn)

-- `(q << n) | r` is a sum where `r` fits below.
pub or_fields :
    (w n q r : ℕ) → r < 2 ^ n → q * 2 ^ n + r < 2 ^ w → bit_or (q * 2 ^ n) r ≡ q * 2 ^ n + r
or_fields w n q r hr h =
    bits_ext w (bit_or (q * 2 ^ n) r) (q * 2 ^ n + r)
      (bit_or-lt w (q * 2 ^ n) r (omega arith) (omega arith)) h
      λ k hk. elim (dec_lt k n) [
        | yes p ↦
            omega (arith, bit-bit_or (q * 2 ^ n) r k, shifted_low k p, bit-join_low n q r k hr p)
        | no p ↦ omega (
          arith,
          bit-bit_or (q * 2 ^ n) r k,
          shifted_high k (omega arith),
          bit_of_lt n r k hr (omega arith),
          bit-join_high n q r k hr (omega arith),
        )
      ]
  where
    shifted_low : (k : ℕ) → k < n → bit (q * 2 ^ n) k ≡ 0
    shifted_low k p =
        ap (λ (t : ℕ). bit t k) (sym (add-zero (q * 2 ^ n)))
        ∙ bit-join_low n q 0 k (pow-pos n) p
        ∙ zero-bit k

    shifted_high : (k : ℕ) → n ≤ k → bit (q * 2 ^ n) k ≡ bit q (k - n)
    shifted_high k p =
        ap (λ (t : ℕ). bit t k) (sym (add-zero (q * 2 ^ n))) ∙ bit-join_high n q 0 k (pow-pos n) p

pub or_comm : (w x y : ℕ) → x < 2 ^ w → y < 2 ^ w → bit_or x y ≡ bit_or y x
or_comm w x y hx hy =
    bits_ext w (bit_or x y) (bit_or y x) (bit_or-lt w x y hx hy) (bit_or-lt w y x hy hx)
      λ k h. omega (arith, bit-bit_or x y k, bit-bit_or y x k)

-- `|=` with one bit.
pub bit-or_bit : (x j k : ℕ) → bit (bit_or x (2 ^ j)) k ≡ (if k == j then 1 else bit x k)
bit-or_bit x j k = elim (ℕ_discrete k j) [
  | yes e ↦ ground (arith, bit-bit_or x (2 ^ j) k, ap (bit (2 ^ j)) e, bit-pow_self j, bit-le x k)
  | no ne ↦ ground (arith, bit-bit_or x (2 ^ j) k, bit-pow_ne j k (λ e. ne (sym e)))
]

-- Over a small range a law of masks holds if it holds at every number.
unfoldable pub all_below : ℕ → (ℕ → Bool) → Bool
all_below zero p = true
all_below (suc n) p = if p n then all_below n p else false

pub all_below_sound : (n : ℕ) (p : ℕ → Bool) (x : ℕ) → all_below n p ≡ true → x < n → p x ≡ true
unfolding all_below
all_below_sound zero p x h l = absurd (omega arith)
all_below_sound (suc n) p x h l = elim (ℕ_discrete x n) [
  | yes e ↦ ground (arith, ap p e)
  | no ne ↦ ground (arith, all_below_sound n p x)
]

-- `round_down` to a power of two is the largest multiple that is not above the number.
pub round_down_lem :
    (n num : ℕ) → n < 64 → num < 2 ^ 64 → round_down num (2 ^ n) ≡ num / 2 ^ n * 2 ^ n
unfolding round_down
round_down_lem n num hn h = rw less_one (and_high_mask n num (omega arith) h)
  where
    small : 2 ^ n < 2 ^ 64
    small = omega (arith, pow-le-pow_right {n = 2} (omega arith) {i = n} {j = 63} (omega arith))

    less_one : (2 ^ n + 2 ^ 64 - 1) % 2 ^ 64 ≡ 2 ^ n - 1
    less_one = omega (arith, pow-pos n, small)

-- `round_up` to a power of two, where the sum does not wrap.
pub round_up_lem :
    (n num : ℕ)
    → n < 64
    → num + (2 ^ n - 1) < 2 ^ 64
    → round_up num (2 ^ n) ≡ (num + (2 ^ n - 1)) / 2 ^ n * 2 ^ n
unfolding round_up
round_up_lem n num hn h = rw (less_one, sum) (and_high_mask n (num + (2 ^ n - 1)) (omega arith) h)
  where
    small : 2 ^ n < 2 ^ 64
    small = omega (arith, pow-le-pow_right {n = 2} (omega arith) {i = n} {j = 63} (omega arith))

    less_one : (2 ^ n + 2 ^ 64 - 1) % 2 ^ 64 ≡ 2 ^ n - 1
    less_one = omega (arith, pow-pos n, small)

    sum : ((num + 2 ^ n) % 2 ^ 64 + 2 ^ 64 - 1) % 2 ^ 64 ≡ num + (2 ^ n - 1)
    sum = omega (arith, pow-pos n)
