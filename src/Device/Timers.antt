-- ===== src/Device/Timers.antt =====
-- kernel/src/dev/timer/hpet.cpp, kernel/src/dev/timer/apic.cpp and kernel/src/dev/hal.cpp.
--
-- The offsets are those of the packed structures: `address` 44 of `HpetTable`; `capabilities` 0,
-- `general_config` 16 and `counter_value` 240 of `HpetRegs`. `version` and `ident` are what the I/O
-- controllers answer, as in Arch/IoApic.antt. Log lines are left out.
pub mod Sleeps
use epsilon_os.Base.{
  ℕ, zero, suc, ◌+◌, ◌-◌, ◌*◌, ◌/◌, ◌%◌, ◌^◌, Bool, true, false, not, Option, none, some, List, [],
  ◌∷◌, Result, ok, stop, panic, fault, ltb, ◌==◌, if◌then◌else◌, bit_or, shr, to_u32, to_u64, add64,
  mul64,
}
use epsilon_os.CString.{Memory}
use epsilon_os.Memory.Address.{tohh}
use epsilon_os.Acpi.Bytes.{le64}
use epsilon_os.Acpi.Madt.{IoApic}
use epsilon_os.Arch.IoApic.{RegisterWrite, map_irq}
use epsilon_os.Device.Bus.{Place, memory, Bus, Io, ◌>>=◌, ◌>>◌, give, halt_with, fetch, put, poll}
use epsilon_os.Device.LocalApic.{
  Apic, read, write, apic_id, lapic_timer, lapic_ticr, lapic_tccr, lapic_tdcr, lapic_masked,
}
use epsilon_os.Device.Interrupts.{Handlers, register_interrupt, timer, timer_vector, toirq}

pub record Hpet : Type 0 where
  pub regs : ℕ
  pub frequency : ℕ

abbrev pub counter_value : Hpet → Place
counter_value h = memory (h.regs + 240)

-- `HPET::init` behind the search for the table: ticks in a millisecond, from a period in
-- femtoseconds. A period of 0 is a division by 0.
unfoldable pub start_hpet : ℕ → Io Hpet
unfolding fetch put
start_hpet regs = do
  put (memory (regs + 240)) 0
  put (memory (regs + 16)) 1
  capabilities ← fetch (memory regs)
  (if shr capabilities 32 == 0
      then halt_with (stop fault)
      else give (record { regs = regs; frequency = 1000000000000 / shr capabilities 32 }))

unfoldable pub hpet_init : ℕ → Memory → Option ℕ → Io Hpet
unfolding start_hpet
hpet_init hhdm m none b = stop panic
hpet_init hhdm m (some table) b = start_hpet (tohh hhdm (le64 m (table + 44))) b

unfoldable pub hpet_msleep : ℕ → ℕ → Hpet → Io (Unit {0})
unfolding fetch
hpet_msleep fuel ms h = do
  start ← fetch (counter_value h)
  poll fuel (λ v. not (ltb v (add64 start (mul64 ms h.frequency)))) (counter_value h) >>= λ _.
      give tt

-- `DIVIDER`, `CALIBRATION_MS` and `MOD_PERIODIC`; `MODE_ONESHOT` is 0.
abbrev pub divider : ℕ
divider = 3

abbrev pub calibration_ms : ℕ
calibration_ms = 10

abbrev pub mod_periodic : ℕ
mod_periodic = 2 ^ 17

abbrev pub uint32_max : ℕ
uint32_max = 2 ^ 32 - 1

-- The register writes of an I/O controller: the selector and the window.
unfoldable pub write_all : List RegisterWrite → Io (Unit {0})
unfolding put
write_all [] b = give tt b
write_all (w ∷ ws) b =
    (put (memory w.base) w.register >> (put (memory (w.base + 0x10)) w.value >> write_all ws)) b

-- `APICTimer::init`: the ticks in a millisecond.
unfoldable pub apic_timer_init : ℕ → Apic → Hpet → (ℕ → ℕ) → (ℕ → ℕ) → List IoApic → Io ℕ
unfolding read write apic_id hpet_msleep write_all toirq
apic_timer_init fuel s h version ident controllers = do
  apicid ← apic_id s
  write s lapic_tdcr divider
  write s lapic_ticr uint32_max
  hpet_msleep fuel calibration_ms h
  write s lapic_timer lapic_masked
  ticks ← read s lapic_tccr
  writes ← halt_with (map_irq version ident (toirq timer_vector) apicid controllers)
  write_all writes
  give ((uint32_max - ticks) / calibration_ms)

unfoldable pub set_counter : ℕ → ℕ → Apic → Io (Unit {0})
unfolding write
set_counter ticks_per_ms ms s b = write s lapic_ticr (mul64 ticks_per_ms ms) b

-- `APICTimer::msleep`, `oneshot` and `periodic`, which `HAL` passes on.
unfoldable pub msleep : ℕ → ℕ → ℕ → Apic → Io (Unit {0})
unfolding write set_counter
msleep fuel ticks_per_ms ms s = do
  write s lapic_timer (bit_or timer_vector lapic_masked)
  set_counter ticks_per_ms ms s
  poll fuel (λ v. to_u32 v == 0) (memory (s.lapic + lapic_tccr)) >>= λ _. give tt

unfoldable pub oneshot : ℕ → ℕ → Apic → Io (Unit {0})
unfolding write set_counter
oneshot ticks_per_ms ms s = do write s lapic_timer timer_vector; set_counter ticks_per_ms ms s

unfoldable pub periodic : ℕ → ℕ → Apic → Io (Unit {0})
unfolding write set_counter
periodic ticks_per_ms ms s = do
  write s lapic_timer (bit_or mod_periodic timer_vector)
  set_counter ticks_per_ms ms s

-- `HAL::init`: the HPET, the ticks in a millisecond, and the handlers.
unfoldable pub hal_init :
    ℕ
    → ℕ
    → Memory
    → Option ℕ
    → Apic
    → (ℕ → ℕ)
    → (ℕ → ℕ)
    → List IoApic
    → Handlers
    → Io (Hpet × ℕ × Handlers)
unfolding hpet_init apic_timer_init
hal_init fuel hhdm m table s version ident controllers handlers = do
  h ← hpet_init hhdm m table
  ticks_per_ms ← apic_timer_init fuel s h version ident controllers
  give (h, ticks_per_ms, register_interrupt timer timer_vector handlers)
