-- ===== src/Memory/Address.antt =====
-- kernel/include/mem/address.hpp: an address with its null flag, and the higher-half mapping.
--
-- `hhdm` is the offset that the bootloader answers in `hhdm_request`.
use epsilon_os.Base.{
  ℕ, Bool, true, false, add64, sub64, bit_and, ltb, leb, ◌==◌, not, round_up, round_down,
}

abbrev pub page_size : ℕ
page_size = 4096

pub record Address : Type 0 where
  pub addr : ℕ
  pub is_null : Bool

-- `Address()` and `Address(addr)`: only the first is null.
abbrev pub null_address : Address
null_address = record { addr = 0; is_null = true }

abbrev pub address : ℕ → Address
address a = record { addr = a; is_null = false }

unfoldable pub is_page_aligned : Address → Bool
is_page_aligned a = bit_and a.addr (sub64 page_size 1) == 0

unfoldable pub page_round_up : Address → ℕ
page_round_up a = round_up a.addr page_size

unfoldable pub page_round_down : Address → ℕ
page_round_down a = round_down a.addr page_size

-- `operator+=`, `==`, `!=`, `<` and `<=`: they read the numbers alone.
unfoldable pub advance : Address → ℕ → Address
advance a n = record a { addr = add64 a.addr n }

unfoldable pub same : Address → Address → Bool
same a b = a.addr == b.addr

unfoldable pub differs : Address → Address → Bool
differs a b = not (a.addr == b.addr)

unfoldable pub below : Address → Address → Bool
below a b = ltb a.addr b.addr

unfoldable pub at_most : Address → Address → Bool
at_most a b = leb a.addr b.addr

-- `tohh` and `fromhh`.
abbrev pub tohh : ℕ → ℕ → ℕ
tohh hhdm a = add64 a hhdm

abbrev pub fromhh : ℕ → ℕ → ℕ
fromhh hhdm a = sub64 a hhdm
