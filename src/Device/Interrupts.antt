-- ===== src/Device/Interrupts.antt =====
-- kernel/src/arch/isr.cpp and kernel/include/arch/isr.hpp, with the handlers of kernel/src/panic.cpp,
-- kernel/src/mem/page_fault.cpp, kernel/src/arch/lapic.cpp and kernel/src/dev/timer/interrupt.cpp.
--
-- The classes of handlers are the constructors of `Handler`. That `new` finds memory for a handler is
-- assumed, and what handlers print is left out.
pub mod Dispatch
use epsilon_os.Base.{
  ℕ, ◌+◌, ◌-◌, ◌%◌, ◌^◌, Bool, true, false, Option, none, some, Result, stop, panic, halted, ◌==◌,
  if◌then◌else◌, to_u8,
}
use epsilon_os.Device.Bus.{Io, ◌>>=◌, ◌>>◌, give, halt_with}
use epsilon_os.Device.LocalApic.{Apic, eoi}

-- `ApicSpuriousInterruptHandler`, `TimerInterruptHandler`, `PageFaultHandler`, `AbortIPIHandler`.
pub data Handler : Type 0 where
  spurious : Handler
  timer : Handler
  page_fault : Handler
  abort_ipi : Handler

-- `PageFault`, `Timer`, `IPIAbort`, and `IRQ0` of kernel/include/kernel.hpp.
abbrev pub page_fault_vector : ℕ
page_fault_vector = 14

abbrev pub timer_vector : ℕ
timer_vector = 0x20

abbrev pub ipi_abort_vector : ℕ
ipi_abort_vector = 0xFE

-- `toirq`, on `u8`.
unfoldable pub toirq : ℕ → ℕ
toirq num = to_u8 (num + 2 ^ 8 - 0x20)

-- `m_interrupts`: a null pointer is `none`.
abbrev pub Handlers : Type 0
Handlers = ℕ → Option Handler

abbrev pub no_handlers : Handlers
no_handlers num = none

unfoldable pub register_interrupt : Handler → ℕ → Handlers → Handlers
register_interrupt h num handlers n = if n == num then some h else handlers n

-- The virtual methods `handle` and `eoi`.
unfoldable pub handle : Handler → Io (Unit {0})
handle spurious b = give tt b
handle timer b = give tt b
handle page_fault b = stop panic
handle abort_ipi b = stop halted

unfoldable pub end_of_interrupt : Apic → Handler → Io (Unit {0})
end_of_interrupt s spurious b = eoi s b
end_of_interrupt s timer b = eoi s b
end_of_interrupt s page_fault b = give tt b
end_of_interrupt s abort_ipi b = give tt b

unfoldable pub run_handler : Apic → Option Handler → Io (Unit {0})
unfolding handle end_of_interrupt
run_handler s none b = stop panic
run_handler s (some h) b = (handle h >> end_of_interrupt s h) b

-- `isr_interrupt_handler`: `at` takes the number of the frame as a `u8`.
unfoldable pub isr_interrupt_handler : Apic → Handlers → ℕ → Io (Unit {0})
unfolding run_handler
isr_interrupt_handler s handlers num b = run_handler s (handlers (to_u8 num)) b
