-- ===== src/Arch/Symbols/Digits.antt =====
-- Reading the addresses of kernel/src/arch/ksyms.cpp.
use epsilon_os.Base.{
  ℕ, ◌+◌, ◌*◌, ◌%◌, ◌^◌, ◌<◌, ◌≡◌, ◌∙◌, ap, arith, ok, List, [], ◌∷◌, length, bit_or, ltb,
  if◌then◌else◌,
}
use epsilon_os.Base.Masks.{or_fields}
use epsilon_os.CString.{Memory}
use epsilon_os.Arch.Symbols.{hex2num, read_hex}

-- The character of a hexadecimal digit.
abbrev pub hex_digit : ℕ → ℕ
hex_digit d = if ltb d 10 then 48 + d else 87 + d

hex2num-hex_digit : (d : ℕ) → d < 16 → hex2num (hex_digit d) ≡ ok d
unfolding hex2num
hex2num-hex_digit d h = ground arith

-- The number that digits make up behind another one.
abbrev pub number : ℕ → List ℕ → ℕ
number acc [] = acc
number acc (d ∷ ds) = number (acc * 16 + d) ds

abbrev pub AreDigits : List ℕ → Type 0
AreDigits [] = Unit
AreDigits (d ∷ ds) = (d < 16) × AreDigits ds

-- The characters of the digits stand from `ptr` on.
abbrev pub AreWritten : Memory → ℕ → List ℕ → Type 0
AreWritten m ptr [] = Unit
AreWritten m ptr (d ∷ ds) = (m ptr ≡ hex_digit d) × AreWritten m (ptr + 1) ds

number-mod :
    (ds : List ℕ) (a b : ℕ) → a % 2 ^ 64 ≡ b % 2 ^ 64 → number a ds % 2 ^ 64 ≡ number b ds % 2 ^ 64
number-mod [] a b h = h
number-mod (d ∷ ds) a b h = number-mod ds (a * 16 + d) (b * 16 + d) (omega arith)

push_digit : (acc d : ℕ) → d < 16 → bit_or (acc * 16 % 2 ^ 64) d ≡ (acc * 16 + d) % 2 ^ 64
push_digit acc d h =
    let shifted : acc * 16 % 2 ^ 64 ≡ acc % 2 ^ 60 * 2 ^ 4 = omega arith in
    ap (λ (t : ℕ). bit_or t d) shifted
    ∙ or_fields 64 4 (acc % 2 ^ 60) d (omega arith) (omega arith)
    ∙ omega arith

-- Reading digits gives the number that they make up behind what was read before, modulo 2 ^ 64.
pub read_hex_lem :
    (ds : List ℕ) (acc ptr : ℕ) (m : Memory)
    → AreDigits ds
    → AreWritten m ptr ds
    → acc < 2 ^ 64
    → read_hex (length ds) acc ptr m ≡ ok (number acc ds % 2 ^ 64)
unfolding read_hex
read_hex_lem [] acc ptr m digits written fits =
    let small : acc ≡ acc % 2 ^ 64 = omega arith in ap ok small
read_hex_lem (d ∷ ds) acc ptr m digits written fits =
    rw (written.0, hex2num-hex_digit d (digits.0), push_digit acc d (digits.0))
      (read_hex_lem ds ((acc * 16 + d) % 2 ^ 64) (ptr + 1) m (digits.1) (written.1) (omega arith)
        ∙ ap ok (number-mod ds ((acc * 16 + d) % 2 ^ 64) (acc * 16 + d) (omega arith)))
