-- ===== src/Device/LocalApic.antt =====
-- kernel/src/arch/lapic.cpp and kernel/include/arch/lapic.hpp: the local interrupt controller.
--
-- `Apic` holds the static fields of the class. The build without `__PHYSICAL_MEMORY_EXTENSION__` is
-- modelled, and log lines are left out. That the spurious interrupt's handler is registered is part
-- of what `init` returns.
pub mod Programs
use epsilon_os.Base.{
  ℕ, zero, suc, ◌+◌, ◌*◌, ◌/◌, ◌%◌, ◌^◌, Bool, true, false, not, Option, none, some, Result, ok,
  stop, leb, ◌==◌, if◌then◌else◌, bit_and, bit_or, shr, to_u8, to_u32,
}
use epsilon_os.Arch.Cpu.{has}
use epsilon_os.Device.Bus.{
  Place, memory, Access, Bus, Io, ◌>>=◌, ◌>>◌, give, check, fetch, put, msr_write_halves, poll,
}

pub record Apic : Type 0 where
  pub lapic : ℕ
  pub enabled : Bool

-- The offsets of the registers.
abbrev pub lapic_id : ℕ
lapic_id = 0x20

abbrev pub lapic_ver : ℕ
lapic_ver = 0x30

abbrev pub lapic_tpr : ℕ
lapic_tpr = 0x80

abbrev pub lapic_eoi : ℕ
lapic_eoi = 0xB0

abbrev pub lapic_svr : ℕ
lapic_svr = 0xF0

abbrev pub lapic_esr : ℕ
lapic_esr = 0x280

abbrev pub lapic_icrlo : ℕ
lapic_icrlo = 0x300

abbrev pub lapic_icrhi : ℕ
lapic_icrhi = 0x310

abbrev pub lapic_timer : ℕ
lapic_timer = 0x320

abbrev pub lapic_perf : ℕ
lapic_perf = 0x340

abbrev pub lapic_lint0 : ℕ
lapic_lint0 = 0x350

abbrev pub lapic_lint1 : ℕ
lapic_lint1 = 0x360

abbrev pub lapic_ticr : ℕ
lapic_ticr = 0x380

abbrev pub lapic_tccr : ℕ
lapic_tccr = 0x390

abbrev pub lapic_tdcr : ℕ
lapic_tdcr = 0x3E0

-- `LAPIC_MASKED`, `LAPIC_DELIVS` (bit 12), and `LAPIC_BCAST | LAPIC_INIT | LAPIC_LEVEL`.
abbrev pub lapic_masked : ℕ
lapic_masked = 2 ^ 16

abbrev pub delivery_bit : ℕ
delivery_bit = 12

abbrev pub init_deassert : ℕ
init_deassert = 2 * 2 ^ 18 + 5 * 2 ^ 8 + 2 ^ 15

-- `ApicSpurious`, and `MSR_IA32_APIC` of kernel/include/arch/msr.hpp.
abbrev pub apic_spurious : ℕ
apic_spurious = 0xFF

abbrev pub msr_ia32_apic : ℕ
msr_ia32_apic = 0x1B

-- `read`, `write`, `eoi` and `id`: the registers are 32 bits wide.
unfoldable pub read : Apic → ℕ → Io ℕ
unfolding fetch
read s offset = do v ← fetch (memory (s.lapic + offset)); give (to_u32 v)

unfoldable pub write : Apic → ℕ → ℕ → Io (Unit {0})
unfolding put
write s offset value b = put (memory (s.lapic + offset)) (to_u32 value) b

unfoldable pub eoi : Apic → Io (Unit {0})
unfolding write
eoi s b = write s lapic_eoi 0 b

unfoldable pub apic_id : Apic → Io ℕ
unfolding read
apic_id s = do v ← read s lapic_id; give (to_u8 (shr v 24))

-- `enable`: the mask has nine digits, and the result is cut to 32 bits.
unfoldable pub enable : Apic → Io (Unit {0})
unfolding msr_write_halves
enable s b =
    msr_write_halves msr_ia32_apic (to_u32 (bit_or (bit_and s.lapic 0xFFFFF0000) (2 ^ 11))) 0 b

-- `!(read(LAPIC_ICRLO) & LAPIC_DELIVS)`.
unfoldable pub delivered : ℕ → Bool
unfolding has
delivered v = not (has (to_u32 v) delivery_bit)

unfoldable pub mask_lines : Apic → Io (Unit {0})
unfolding write
mask_lines s = do write s lapic_lint0 lapic_masked; write s lapic_lint1 lapic_masked

unfoldable pub mask_counters : Apic → ℕ → Io (Unit {0})
unfolding write
mask_counters s version =
    if leb 4 (bit_and (shr version 16) 0xFF) then write s lapic_perf lapic_masked else give tt

-- The writes that clear the errors and send the initialisation, up to the wait.
unfoldable pub synchronize : Apic → Io (Unit {0})
unfolding write eoi
synchronize s = do
  write s lapic_esr 0
  write s lapic_esr 0
  eoi s
  write s lapic_icrhi 0
  write s lapic_icrlo init_deassert

-- The parts of `init` that drive the controller: up to the choice by its version, and from there
-- to the controller's id.
unfoldable pub configure : Apic → Io (Unit {0})
unfolding enable write mask_lines mask_counters read
configure a = do
  enable a
  write a lapic_svr (bit_or apic_spurious (2 ^ 8))
  mask_lines a
  version ← read a lapic_ver
  mask_counters a version

unfoldable pub settle : ℕ → Apic → Io ℕ
unfolding write synchronize apic_id delivered
settle fuel a = do
  synchronize a
  poll fuel delivered (memory (a.lapic + lapic_icrlo)) >>= λ _. write a lapic_tpr 0
  apic_id a

-- `init`, on a processor whose `cpuid` leaf 1 answers `edx` in EDX: the fields it leaves, the id
-- for the processor's structure, and whether the spurious interrupt's handler is registered.
unfoldable pub init : ℕ → ℕ → ℕ → Apic → Io (Apic × ℕ × Bool)
unfolding has configure settle
init fuel edx madt_lapic s =
    let lapic : ℕ = if s.enabled then s.lapic else madt_lapic in
    do
      check (has edx 9)
      configure (record s { lapic = lapic })
      id ← settle fuel (record s { lapic = lapic })
      give (record { lapic = lapic; enabled = true }, id, not s.enabled)
