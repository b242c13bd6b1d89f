-- ===== src/Arch/Registers.antt =====
-- kernel/src/arch/register.cpp and kernel/include/arch/register.hpp: the control registers.
--
-- A register holds the value that was written last. `xgetbv` and `xsetbv` move a value in the two
-- halves EDX and EAX.
use epsilon_os.Base.{
  ℕ, ◌*◌, ◌/◌, ◌%◌, ◌^◌, ◌<◌, ◌≡◌, ◌≢◌, ◌∙◌, refl, ap, arith, Result, ok, stop, panic, bit_or, shl,
  shr, to_u32, to_u64,
}
use epsilon_os.Base.Masks.{or_fields}

-- `RegisterName`; `unnamed` is a number that is none of them.
pub data RegisterName : Type 0 where
  cr0 : RegisterName
  cr2 : RegisterName
  cr3 : RegisterName
  cr4 : RegisterName
  xcr0 : RegisterName
  unnamed : RegisterName

-- The two halves that `xgetbv` and `xsetbv` move.
pub record Halves : Type 0 where
  pub low : ℕ
  pub high : ℕ

pub record Registers : Type 0 where
  pub in_cr0 : ℕ
  pub in_cr2 : ℕ
  pub in_cr3 : ℕ
  pub in_cr4 : ℕ
  pub in_xcr0 : Halves

unfoldable pub read : RegisterName → Registers → Result ℕ
read cr0 r = ok r.in_cr0
read cr2 r = ok r.in_cr2
read cr3 r = ok r.in_cr3
read cr4 r = ok r.in_cr4
read xcr0 r = ok (bit_or (to_u64 (shl r.in_xcr0.high 32)) r.in_xcr0.low)
read unnamed r = stop panic

unfoldable pub write : RegisterName → ℕ → Registers → Result Registers
write cr0 v r = ok (record r { in_cr0 = v })
write cr2 v r = ok (record r { in_cr2 = v })
write cr3 v r = ok (record r { in_cr3 = v })
write cr4 v r = ok (record r { in_cr4 = v })
write xcr0 v r = ok (record r { in_xcr0 = record { low = to_u32 v; high = to_u32 (shr v 32) } })
write unnamed v r = stop panic

halves_join : (v : ℕ) → v < 2 ^ 64 → bit_or (to_u64 (shl (to_u32 (shr v 32)) 32)) (to_u32 v) ≡ v
halves_join v h =
    let high : to_u64 (shl (to_u32 (shr v 32)) 32) ≡ v / 2 ^ 32 * 2 ^ 32 = omega arith in
    ap (λ (x : ℕ). bit_or x (to_u32 v)) high
    ∙ or_fields 64 32 (v / 2 ^ 32) (v % 2 ^ 32) (omega arith) (omega arith)
    ∙ omega arith

-- A u64 that is written to a register is read back as it was written, also where the instructions
-- move it in two halves, and a second write replaces it; a number that names no register panics.
pub read-write :
    (name : RegisterName) (v w : ℕ) (r : Registers)
    → v < 2 ^ 64
    → name ≢ unnamed
    → (r' : Registers) × (write name v r ≡ ok r')
      × (read name r' ≡ ok v)
      × (write name w r' ≡ write name w r)
      × (read unnamed r ≡ stop panic)
      × (write unnamed w r ≡ stop panic)
unfolding read write
read-write cr0 v w r h known = (record r { in_cr0 = v }, refl, refl, refl, refl, refl)
read-write cr2 v w r h known = (record r { in_cr2 = v }, refl, refl, refl, refl, refl)
read-write cr3 v w r h known = (record r { in_cr3 = v }, refl, refl, refl, refl, refl)
read-write cr4 v w r h known = (record r { in_cr4 = v }, refl, refl, refl, refl, refl)
read-write xcr0 v w r h known = (
  record r { in_xcr0 = record { low = to_u32 v; high = to_u32 (shr v 32) } },
  refl,
  ap ok (halves_join v h),
  refl,
  refl,
  refl,
)
read-write unnamed v w r h known = absurd (known refl)
