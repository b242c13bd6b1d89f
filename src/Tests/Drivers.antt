-- ===== src/Tests/Drivers.antt =====
-- The drivers of kernel/src/dev and kernel/src/arch/lapic.cpp, and a panic, on devices with simple
-- answers.
use epsilon_os.Base.{
  ℕ, suc, ◌+◌, ◌≤◌, ◌≡◌, refl, arith, true, false, List, [], ◌∷◌, ok, stop, halted,
}
use epsilon_os.Arch.Cpu.{has}
use epsilon_os.Device.Bus.{Bus}
use epsilon_os.Device.LocalApic
use epsilon_os.Device.LocalApic.{Apic, delivered}
use epsilon_os.Device.LocalApic.Programs.{IsProgrammed, Delivers, init-IsProgrammed}
use epsilon_os.Device.Interrupts.{timer, no_handlers, register_interrupt, isr_interrupt_handler}
use epsilon_os.Device.Interrupts.Dispatch.{outcome, register_interrupt-isr_interrupt_handler}
use epsilon_os.Device.Timers.{Hpet, counter_value, hpet_msleep}
use epsilon_os.Device.Timers.Sleeps.{behind_reads, hpet_msleep-waits}
use epsilon_os.Device.Serial.{can_send, write_text}
use epsilon_os.Device.Serial.Output.{GetsReady, bytes_sent, behind, write_text-in_order}
use epsilon_os.Panic.{Tracing, panic_report, panic_with}
use epsilon_os.Panic.Report.{text_of, panic_with-halts}
use epsilon_os.Arch.Symbols.Backtrace.{TraceLine, symbolized, bare, AreLines}
use epsilon_os.Tests.Names.{two_symbols, two_symbols-IsSpanned, two_symbols-IsAscending}
use epsilon_os.Tests.Traces.{stack, rips, stack-IsChain, rips-AllTraceable}

-- Devices that always answer the same, and one that counts.
abbrev constant_bus : ℕ → Bus
constant_bus v = record { answers = λ t p. v; time = 0; log = [] }

abbrev counting_bus : Bus
counting_bus = record { answers = λ t p. t; time = 0; log = [] }

abbrev apic : Apic
apic = record { lapic = 0xFEE00000; enabled = false }

always_delivered : Delivers 1 0xFEE00000 (constant_bus 0)
unfolding delivered
always_delivered t = (0, omega arith, refl)

init-IsProgrammed_example :
    (id : ℕ) × (b' : Bus) × (LocalApic.init 1 512 0xFEE00000 apic (constant_bus 0)
      ≡ ok ((record { lapic = 0xFEE00000; enabled = true }, id, true), b'))
    × IsProgrammed 0xFEE00000 b'.log
unfolding has
init-IsProgrammed_example =
    init-IsProgrammed 1 512 0xFEE00000 apic (constant_bus 0) refl always_delivered

register_interrupt-isr_interrupt_handler_example :
    (isr_interrupt_handler apic (register_interrupt timer 32 no_handlers) 32 (constant_bus 0)
      ≡ outcome timer apic (constant_bus 0))
    × (isr_interrupt_handler apic (register_interrupt timer 32 no_handlers) 254 (constant_bus 0)
        ≡ isr_interrupt_handler apic no_handlers 254 (constant_bus 0))
register_interrupt-isr_interrupt_handler_example =
    register_interrupt-isr_interrupt_handler apic timer 32 254 no_handlers (constant_bus 0)
      (omega arith) (omega arith) (λ e. omega (arith, e))

abbrev hpet : Hpet
hpet = record { regs = 0x1000; frequency = 2 }

-- A wait of 3 ms is one of 6 ticks.
hpet_msleep-waits_example :
    (n : ℕ) × (n ≤ 5)
    × (6 ≤ 0 + 1 + n)
    × (hpet_msleep 10 3 hpet counting_bus
        ≡ ok (tt, behind_reads (suc n) (counter_value hpet) counting_bus))
hpet_msleep-waits_example =
    hpet_msleep-waits 10 5 3 hpet counting_bus (omega arith) (omega arith) (omega arith)

always_ready : GetsReady 1 (constant_bus 0x20).answers
unfolding can_send
always_ready t = (0, omega arith, refl)

abbrev text : List ℕ
text = 72 ∷ 105 ∷ []

write_text-in_order_example :
    (b' : Bus) × (write_text 1 true text (constant_bus 0x20) ≡ ok (tt, b'))
    × (bytes_sent b'.log ≡ 105 ∷ 72 ∷ [])
    × (b'.answers ≡ (constant_bus 0x20).answers)
write_text-in_order_example = write_text-in_order 1 text (constant_bus 0x20) always_ready

-- The text of a line: its first character only.
abbrev short_line : TraceLine → List ℕ
short_line (symbolized a name offset) = 43 ∷ []
short_line (bare a) = 45 ∷ []

abbrev tracing : Tracing
tracing = record {
  loaded = true;
  rbp = 16;
  stack = stack;
  symbols = two_symbols;
  format = short_line;
}

panic_with-halts_example :
    (lines : List TraceLine) × AreLines two_symbols (0x1234 ∷ 0x3000 ∷ []) lines
    × ((b' : Bus) × (panic_report 1 apic true text (33 ∷ []) tracing (constant_bus 0x20)
          ≡ ok (tt, b'))
        × (bytes_sent b'.log ≡ behind (text_of short_line lines) (33 ∷ 105 ∷ 72 ∷ []))
        × (panic_with 1 apic true text (33 ∷ []) tracing (constant_bus 0x20) ≡ stop halted))
panic_with-halts_example =
    panic_with-halts 1 apic text (33 ∷ []) tracing rips (constant_bus 0x20) always_ready refl
      two_symbols-IsSpanned two_symbols-IsAscending stack-IsChain rips-AllTraceable
