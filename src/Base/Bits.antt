-- ===== src/Base/Bits.antt =====
-- The binary digits of a number, and the bitwise operations digit by digit: two numbers below
-- `2 ^ w` with the same digits are equal, which turns a law of masks into a law of digits.
use Prim.Native.Nat.{ℕ, zero, suc, ◌+◌, ◌-◌, ◌*◌, ◌/◌, ◌%◌, ◌^◌, ◌≤◌, ◌<◌, min, max}
use Prim.Native.Nat.{bit_and, bit_or, digits, bit_and-bitwise, bit_or-bitwise}
use mathlib.Core.Path.{◌≡◌, refl, sym, ap, ap₂, ◌∙◌}
use mathlib.Core.Logic.{◌≢◌}
use native.Mathlib.Nat.{pow-suc, one-le-pow, div-div-eq-div-mul, mod-lt, div-add-mod}
use native.Mathlib.Omega.{arith}

-- The digit of weight `2 ^ k`.
unfoldable pub bit : ℕ → ℕ → ℕ
bit x zero = x % 2
bit x (suc k) = bit (x / 2) k

pub bit-le : (x k : ℕ) → bit x k ≤ 1
unfolding bit
bit-le x zero = omega arith
bit-le x (suc k) = bit-le (x / 2) k

pub bit-eq : (x k : ℕ) → bit x k ≡ x / 2 ^ k % 2
unfolding bit
bit-eq x zero = omega arith
bit-eq x (suc k) =
    bit-eq (x / 2) k
    ∙ ap (λ (t : ℕ). t % 2)
        (div-div-eq-div-mul x 2 (2 ^ k) ∙ ap (λ (t : ℕ). x / t) (omega (arith, pow-suc 2 k)))

pub zero-bit : (k : ℕ) → bit 0 k ≡ 0
unfolding bit
zero-bit zero = refl
zero-bit (suc k) = zero-bit k

-- A number below `2 ^ w` has no digit from `w` on.
pub bit_of_lt : (w x k : ℕ) → x < 2 ^ w → w ≤ k → bit x k ≡ 0
unfolding bit
bit_of_lt zero x k h g = let e : x ≡ 0 = omega arith in rw e (zero-bit k)
bit_of_lt (suc w) x zero h g = absurd (omega arith)
bit_of_lt (suc w) x (suc k) h g = bit_of_lt w (x / 2) k (omega (arith, pow-suc 2 w)) (omega arith)

pub bits_ext : (w x y : ℕ) → x < 2 ^ w → y < 2 ^ w → ((k : ℕ) → k < w → bit x k ≡ bit y k) → x ≡ y
unfolding bit
bits_ext zero x y hx hy e = omega arith
bits_ext (suc w) x y hx hy e =
    let low : x % 2 ≡ y % 2 = e 0 (omega arith) in
    let high : x / 2 ≡ y / 2 =
      bits_ext w (x / 2) (y / 2) (omega (arith, pow-suc 2 w)) (omega (arith, pow-suc 2 w))
        (λ k h. e (suc k) (omega arith)) in
    omega arith

module _ (z : ℕ → ℕ) (f : ℕ → ℕ → ℕ) where
  -- `digits` needs no more fuel than its first number.
  digits_enough : (m n x y : ℕ) → x ≤ m → x ≤ n → digits z f m x y ≡ digits z f n x y
  digits_enough zero zero x y p q = refl
  digits_enough zero (suc n) zero y p q = refl
  digits_enough zero (suc n) (suc x) y p q = absurd (omega arith)
  digits_enough (suc m) zero zero y p q = refl
  digits_enough (suc m) zero (suc x) y p q = absurd (omega arith)
  digits_enough (suc m) (suc n) zero y p q = refl
  digits_enough (suc m) (suc n) (suc x) y p q =
      omega (arith, digits_enough m n (suc x / 2) (y / 2) (omega arith) (omega arith))

or_halves : (x y : ℕ) → bit_or x y ≡ 2 * bit_or (x / 2) (y / 2) + max (x % 2) (y % 2)
or_halves zero y = omega (arith, bit_or-bitwise 0 y, bit_or-bitwise 0 (y / 2))
or_halves (suc x) y = omega (
  arith,
  bit_or-bitwise (suc x) y,
  bit_or-bitwise (suc x / 2) (y / 2),
  digits_enough (λ b. b) max x (suc x / 2) (suc x / 2) (y / 2) (omega arith) (omega arith),
)

and_halves : (x y : ℕ) → bit_and x y ≡ 2 * bit_and (x / 2) (y / 2) + min (x % 2) (y % 2)
and_halves zero y = omega (arith, bit_and-bitwise 0 y, bit_and-bitwise 0 (y / 2))
and_halves (suc x) y = omega (
  arith,
  bit_and-bitwise (suc x) y,
  bit_and-bitwise (suc x / 2) (y / 2),
  digits_enough (λ b. 0) min x (suc x / 2) (suc x / 2) (y / 2) (omega arith) (omega arith),
)

pub bit-bit_or : (x y k : ℕ) → bit (bit_or x y) k ≡ max (bit x k) (bit y k)
unfolding bit
bit-bit_or x y zero = omega (arith, or_halves x y)
bit-bit_or x y (suc k) =
    let e : bit_or x y / 2 ≡ bit_or (x / 2) (y / 2) = omega (arith, or_halves x y) in
    rw e (bit-bit_or (x / 2) (y / 2) k)

pub bit-bit_and : (x y k : ℕ) → bit (bit_and x y) k ≡ min (bit x k) (bit y k)
unfolding bit
bit-bit_and x y zero = omega (arith, and_halves x y)
bit-bit_and x y (suc k) =
    let e : bit_and x y / 2 ≡ bit_and (x / 2) (y / 2) = omega (arith, and_halves x y) in
    rw e (bit-bit_and (x / 2) (y / 2) k)

-- `2 ^ j` has one digit.
pub bit-pow_self : (j : ℕ) → bit (2 ^ j) j ≡ 1
unfolding bit
bit-pow_self zero = refl
bit-pow_self (suc j) =
    let e : 2 ^ suc j / 2 ≡ 2 ^ j = omega (arith, pow-suc 2 j) in rw e (bit-pow_self j)

pub bit-pow_ne : (j k : ℕ) → j ≢ k → bit (2 ^ j) k ≡ 0
unfolding bit
bit-pow_ne zero zero h = absurd (h refl)
bit-pow_ne zero (suc k) h = zero-bit k
bit-pow_ne (suc j) zero h = omega (arith, pow-suc 2 j)
bit-pow_ne (suc j) (suc k) h =
    let e : 2 ^ suc j / 2 ≡ 2 ^ j = omega (arith, pow-suc 2 j) in
    rw e (bit-pow_ne j k (λ p. h (ap suc p)))

-- The complement on `w` digits.
pub bit-compl : (w x k : ℕ) → x < 2 ^ w → k < w → bit (2 ^ w - 1 - x) k ≡ 1 - bit x k
unfolding bit
bit-compl zero x k h g = absurd (omega arith)
bit-compl (suc w) x zero h g = omega (arith, pow-suc 2 w)
bit-compl (suc w) x (suc k) h g =
    let e : (2 ^ suc w - 1 - x) / 2 ≡ 2 ^ w - 1 - x / 2 = omega (arith, pow-suc 2 w) in
    rw e (bit-compl w (x / 2) k (omega (arith, pow-suc 2 w)) (omega arith))

pub bit-ones : (w k : ℕ) → k < w → bit (2 ^ w - 1) k ≡ 1
unfolding bit
bit-ones zero k h = absurd (omega arith)
bit-ones (suc w) zero h = omega (arith, pow-suc 2 w, one-le-pow w 2)
bit-ones (suc w) (suc k) h =
    let e : (2 ^ suc w - 1) / 2 ≡ 2 ^ w - 1 = omega (arith, pow-suc 2 w, one-le-pow w 2) in
    rw e (bit-ones w k (omega arith))

pub bit_or-lt : (w x y : ℕ) → x < 2 ^ w → y < 2 ^ w → bit_or x y < 2 ^ w
bit_or-lt zero x y hx hy =
    let ex : x ≡ 0 = omega arith in let ey : y ≡ 0 = omega arith in rw (ex, ey) (omega arith)
bit_or-lt (suc w) x y hx hy = omega (
  arith,
  or_halves x y,
  pow-suc 2 w,
  bit_or-lt w (x / 2) (y / 2) (omega (arith, pow-suc 2 w)) (omega (arith, pow-suc 2 w)),
)

pub bit_and-le_left : (w x y : ℕ) → x < 2 ^ w → bit_and x y ≤ x
bit_and-le_left zero x y h =
    let e : x ≡ 0 = omega arith in rw e (omega (arith, bit_and-bitwise 0 y))
bit_and-le_left (suc w) x y h =
    omega (arith, and_halves x y, bit_and-le_left w (x / 2) (y / 2) (omega (arith, pow-suc 2 w)))

bit_and-zero : (n x : ℕ) → x ≤ n → bit_and x 0 ≡ 0
bit_and-zero zero x h = let e : x ≡ 0 = omega arith in rw e (bit_and-bitwise 0 0)
bit_and-zero (suc n) x h = omega (arith, and_halves x 0, bit_and-zero n (x / 2) (omega arith))

pub bit_and-le_right : (w x y : ℕ) → y < 2 ^ w → bit_and x y ≤ y
bit_and-le_right zero x y h =
    let e : y ≡ 0 = omega arith in rw e (omega (arith, bit_and-zero x x (omega arith)))
bit_and-le_right (suc w) x y h =
    omega (arith, and_halves x y, bit_and-le_right w (x / 2) (y / 2) (omega (arith, pow-suc 2 w)))

pub bit_and_comm : (w x y : ℕ) → x < 2 ^ w → y < 2 ^ w → bit_and x y ≡ bit_and y x
bit_and_comm w x y hx hy =
    bits_ext w (bit_and x y) (bit_and y x) (omega (arith, bit_and-le_left w x y hx))
      (omega (arith, bit_and-le_left w y x hy))
      (λ k h. omega (arith, bit-bit_and x y k, bit-bit_and y x k))

-- The digits of `q * 2 ^ n + r`: those of `r`, and above them those of `q`.
join_halves : (n q r : ℕ) → (q * 2 ^ suc n + r) / 2 ≡ q * 2 ^ n + r / 2
join_halves n q r = omega (arith, ap (λ (t : ℕ). q * t) (pow-suc 2 n))

pub bit-join_low : (n q r k : ℕ) → r < 2 ^ n → k < n → bit (q * 2 ^ n + r) k ≡ bit r k
unfolding bit
bit-join_low zero q r k h g = absurd (omega arith)
bit-join_low (suc n) q r zero h g = omega (arith, ap (λ (t : ℕ). q * t) (pow-suc 2 n))
bit-join_low (suc n) q r (suc k) h g =
    rw (join_halves n q r) (bit-join_low n q (r / 2) k (omega (arith, pow-suc 2 n)) (omega arith))

pub bit-join_high : (n q r k : ℕ) → r < 2 ^ n → n ≤ k → bit (q * 2 ^ n + r) k ≡ bit q (k - n)
unfolding bit
bit-join_high zero q r k h g =
    ap₂ bit (let e : q * 1 + r ≡ q = omega arith in e) (let e : k ≡ k - 0 = omega arith in e)
bit-join_high (suc n) q r zero h g = absurd (omega arith)
bit-join_high (suc n) q r (suc k) h g = rw (join_halves n q r) (
    bit-join_high n q (r / 2) k (omega (arith, pow-suc 2 n)) (omega arith)
    ∙ ap (bit q) (let e : k - n ≡ suc k - suc n = omega arith in e))

-- The digits of the remainder and of the quotient by `2 ^ n`.
pub bit-mod_low : (n x k : ℕ) → k < n → bit (x % 2 ^ n) k ≡ bit x k
bit-mod_low n x k h =
    sym (bit-join_low n (x / 2 ^ n) (x % 2 ^ n) k (mod-lt x (one-le-pow n 2 (omega arith))) h)
    ∙ ap (λ (t : ℕ). bit t k) (omega (arith, div-add-mod x (2 ^ n)))

pub bit-mod_high : (n x k : ℕ) → n ≤ k → bit (x % 2 ^ n) k ≡ 0
bit-mod_high n x k h = bit_of_lt n (x % 2 ^ n) k (mod-lt x (one-le-pow n 2 (omega arith))) h
