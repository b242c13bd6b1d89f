-- ===== src/Base/Word.antt =====
-- Casts to the fixed widths, shifts, complement, and the rounding helpers of types.hpp.
use Prim.Native.Nat.{ℕ, ◌+◌, ◌-◌, ◌*◌, ◌/◌, ◌%◌, ◌^◌, bit_and}

abbrev pub to_u8 : ℕ → ℕ
to_u8 n = n % 2 ^ 8

abbrev pub to_u16 : ℕ → ℕ
to_u16 n = n % 2 ^ 16

abbrev pub to_u32 : ℕ → ℕ
to_u32 n = n % 2 ^ 32

abbrev pub to_u64 : ℕ → ℕ
to_u64 n = n % 2 ^ 64

-- `x >> k`, and `x << k` before the cut to a width.
abbrev pub shr : ℕ → ℕ → ℕ
shr x k = x / 2 ^ k

abbrev pub shl : ℕ → ℕ → ℕ
shl x k = x * 2 ^ k

-- `a + b`, `a - b` and `a * b` on u64.
abbrev pub add64 : ℕ → ℕ → ℕ
add64 a b = (a + b) % 2 ^ 64

abbrev pub sub64 : ℕ → ℕ → ℕ
sub64 a b = (a + 2 ^ 64 - b) % 2 ^ 64

abbrev pub mul64 : ℕ → ℕ → ℕ
mul64 a b = (a * b) % 2 ^ 64

abbrev pub u64_max : ℕ
u64_max = 2 ^ 64 - 1

-- `~x` on u64.
abbrev pub not64 : ℕ → ℕ
not64 x = 2 ^ 64 - 1 - x

-- `round_up` and `round_down` of types.hpp; the mask is `~(size - 1)`.
unfoldable pub round_up : ℕ → ℕ → ℕ
round_up num size = bit_and (sub64 (add64 num size) 1) (not64 (sub64 size 1))

unfoldable pub round_down : ℕ → ℕ → ℕ
round_down num size = bit_and num (not64 (sub64 size 1))
