-- ===== src/Arch/Gdt.antt =====
-- kernel/src/arch/gdt.cpp: the global descriptor table.
use epsilon_os.Base.{
  ℕ, ◌+◌, ◌*◌, ◌/◌, ◌%◌, ◌^◌, ◌<◌, ◌≡◌, ◌∙◌, arith, List, set, bit_and, bit_or, to_u8, to_u16, shr,
  ◌-◌, refl, ==_iff, ◌==◌, true,
}
use epsilon_os.Base.Masks.{and_low_mask, or_fields, or_comm, all_below, all_below_sound}

pub record GdtEntry : Type 0 where
  pub limit_low : ℕ
  pub base_low : ℕ
  pub base_middle : ℕ
  pub access : ℕ
  pub granularity : ℕ
  pub base_high : ℕ

-- `TableDescriptor` of kernel/include/arch/cpu.hpp.
pub record TableDescriptor : Type 0 where
  pub size : ℕ
  pub base : ℕ

abbrev pub kernel_code_segment : ℕ
kernel_code_segment = 0b10011010

abbrev pub kernel_data_segment : ℕ
kernel_data_segment = 0b10010010

abbrev pub user_code_segment : ℕ
user_code_segment = 0b11111010

abbrev pub user_data_segment : ℕ
user_data_segment = 0b11110010

-- The entry that `set_entry` writes.
unfoldable pub gdt_entry : ℕ → ℕ → ℕ → ℕ → GdtEntry
gdt_entry base limit access granularity = record {
  limit_low = to_u16 limit;
  base_low = to_u16 base;
  base_middle = to_u8 (shr base 16);
  access = access;
  granularity = to_u8 (bit_or (bit_and (shr limit 16) 0x0F) (bit_and granularity 0xF0));
  base_high = to_u8 (shr base 24);
}

unfoldable pub set_entry : ℕ → ℕ → ℕ → ℕ → ℕ → List GdtEntry → List GdtEntry
unfolding gdt_entry
set_entry index base limit access granularity entries =
    set entries index (gdt_entry base limit access granularity)

-- `gdt_init` on the table `entries` at the address `at`.
unfoldable pub gdt_init : ℕ → List GdtEntry → List GdtEntry × TableDescriptor
unfolding set_entry
gdt_init at entries = (
  set_entry 4 0 0xFFFFF user_data_segment 0xAF (
      set_entry 3 0 0xFFFFF user_code_segment 0xAF (
        set_entry 2 0 0xFFFFF kernel_data_segment 0xAF
          (set_entry 1 0 0xFFFFF kernel_code_segment 0xAF (set_entry 0 0 0 0 0 entries)))),
  record { size = 6 * 8 - 1; base = at },
)

-- What the processor reads from an entry.
abbrev pub base_of : GdtEntry → ℕ
base_of e = e.base_low + 2 ^ 16 * e.base_middle + 2 ^ 24 * e.base_high

abbrev pub limit_of : GdtEntry → ℕ
limit_of e = e.limit_low + 2 ^ 16 * (e.granularity % 16)

nibbles : all_below 256 (λ g. bit_and g 0xF0 == g / 16 * 16) ≡ true
unfolding all_below
nibbles = refl

high_nibble : (g : ℕ) → g < 256 → bit_and g 0xF0 ≡ g / 16 * 16
high_nibble g h =
    (==_iff _ _).0 (all_below_sound 256 (λ x. bit_and x 0xF0 == x / 16 * 16) g nibbles h)

-- The processor reads from an entry the base, the 20-bit limit, the access byte and the flag
-- nibble that it was set to.
pub gdt_entry_lem :
    (base limit access granularity : ℕ)
    → base < 2 ^ 32
    → limit < 2 ^ 20
    → granularity < 256
    → (base_of (gdt_entry base limit access granularity) ≡ base)
      × (limit_of (gdt_entry base limit access granularity) ≡ limit)
      × ((gdt_entry base limit access granularity).access ≡ access)
      × ((gdt_entry base limit access granularity).granularity / 16 ≡ granularity / 16)
unfolding gdt_entry
gdt_entry_lem base limit access granularity hb hl hg =
    let low : bit_and (limit / 2 ^ 16) 0x0F ≡ limit / 2 ^ 16 % 16 =
      and_low_mask 64 4 (limit / 2 ^ 16) (omega arith) (omega arith) in
    let joined : bit_or (limit / 2 ^ 16 % 16) (granularity / 16 * 16)
        ≡ granularity / 16 * 16 + limit / 2 ^ 16 % 16 =
      or_comm 8 (limit / 2 ^ 16 % 16) (granularity / 16 * 16) (omega arith) (omega arith)
      ∙ or_fields 8 4 (granularity / 16) (limit / 2 ^ 16 % 16) (omega arith) (omega arith) in
    (
      omega arith,
      rw (low, high_nibble granularity hg, joined) (omega arith),
      refl,
      rw (low, high_nibble granularity hg, joined) (omega arith),
    )
