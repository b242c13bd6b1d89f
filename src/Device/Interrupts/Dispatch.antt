-- ===== src/Device/Interrupts/Dispatch.antt =====
-- Which handler an interrupt reaches, and the acknowledgements that it sends.
use epsilon_os.Base.{
  ℕ, ◌+◌, ◌%◌, ◌^◌, ◌<◌, ◌≡◌, ◌≢◌, refl, arith, some, ◌∷◌, Result, ok, stop, panic, halted, ==_self,
  ne→==,
}
use epsilon_os.Device.Bus.{Place, memory, Access, stored, Bus}
use epsilon_os.Device.LocalApic.{Apic, lapic_eoi, eoi}
use epsilon_os.Device.Bus
use epsilon_os.Device.Interrupts.{
  Handler, spurious, timer, page_fault, abort_ipi, Handlers, register_interrupt,
  isr_interrupt_handler, run_handler,
}

-- What a handler does: one for a hardware interrupt acknowledges it, once; one for a page fault
-- panics; one for an abort halts the processor.
abbrev pub acknowledged : Apic → Bus → Bus
acknowledged s b = record b {
  time = b.time + 1;
  log = stored (memory (s.lapic + lapic_eoi)) 0 ∷ b.log;
}

abbrev pub outcome : Handler → Apic → Bus → Result (Unit {0} × Bus)
outcome spurious s b = ok (tt, acknowledged s b)
outcome timer s b = ok (tt, acknowledged s b)
outcome page_fault s b = stop panic
outcome abort_ipi s b = stop halted

run_handler_lem : (s : Apic) (h : Handler) (b : Bus) → run_handler s (some h) b ≡ outcome h s b
unfolding run_handler eoi Bus.put
run_handler_lem s spurious b = refl
run_handler_lem s timer b = refl
run_handler_lem s page_fault b = refl
run_handler_lem s abort_ipi b = refl

-- After a handler is registered for a vector, an interrupt of that vector runs it, whatever was
-- registered before: a hardware interrupt is acknowledged exactly once, a page fault panics, and an
-- abort halts. An interrupt of another vector runs what it did before.
pub register_interrupt-isr_interrupt_handler :
    (s : Apic) (h : Handler) (num other : ℕ) (handlers : Handlers) (b : Bus)
    → num < 256
    → other < 256
    → other ≢ num
    → (isr_interrupt_handler s (register_interrupt h num handlers) num b ≡ outcome h s b)
      × (isr_interrupt_handler s (register_interrupt h num handlers) other b
          ≡ isr_interrupt_handler s handlers other b)
unfolding isr_interrupt_handler register_interrupt
register_interrupt-isr_interrupt_handler s h num other handlers b lt lt' ne =
    let here : num % 2 ^ 8 ≡ num = omega arith in
    let there : other % 2 ^ 8 ≡ other = omega arith in
    (rw (here, ==_self num) (run_handler_lem s h b), rw (there, ne→== other num ne) refl)
