-- ===== src/Panic.antt =====
-- kernel/src/panic.cpp: what a panic does before it halts the processor.
--
-- Texts are made by the library in kernel/src/lib/printf.cpp: the header and the message are arguments
-- here, and `format` gives the text of a line of the stack trace. Interrupts are disabled by an
-- instruction, which is left out.
pub mod Report
use epsilon_os.Base.{ℕ, ◌+◌, ◌*◌, Bool, true, false, List, [], ◌∷◌, Result, ok, stop, halted}
use epsilon_os.CString.{Memory}
use epsilon_os.Arch.Symbols.{SymbolTable}
use epsilon_os.Arch.Symbols.Backtrace.{TraceLine, backtrace}
use epsilon_os.Arch.Ipi.{broadcast, send_interrupt}
use epsilon_os.Device.Bus.{Place, memory, Bus, Io, ◌>>=◌, ◌>>◌, give, halt_with, put}
use epsilon_os.Device.LocalApic.{Apic, write}
use epsilon_os.Device.Interrupts.{ipi_abort_vector}
use epsilon_os.Device.Serial.{write_char}

-- `fctprintf(panic_write_out, …)`: a text, character by character.
unfoldable pub print_out : ℕ → Bool → List ℕ → Io (Unit {0})
unfolding write_char
print_out fuel initialized [] b = give tt b
print_out fuel initialized (c ∷ cs) b =
    (write_char fuel initialized c >> print_out fuel initialized cs) b

-- The register writes of an interrupt command.
unfoldable pub write_registers : Apic → List (ℕ × ℕ) → Io (Unit {0})
unfolding write
write_registers s [] b = give tt b
write_registers s ((r, v) ∷ rs) b = (write s r v >> write_registers s rs) b

-- What `SymbolTable::backtrace` reads: whether the symbols are loaded, RBP, the stack, the symbols and
-- the texts of lines.
pub record Tracing : Type 0 where
  pub loaded : Bool
  pub rbp : ℕ
  pub stack : Memory
  pub symbols : SymbolTable
  pub format : TraceLine → List ℕ

unfoldable pub print_lines : ℕ → Bool → (TraceLine → List ℕ) → List TraceLine → Io (Unit {0})
unfolding print_out
print_lines fuel initialized format [] b = give tt b
print_lines fuel initialized format (line ∷ lines) b =
    (print_out fuel initialized (format line) >> print_lines fuel initialized format lines) b

-- `SymbolTable::backtrace` on the serial port.
unfoldable pub print_trace : ℕ → Bool → Tracing → Io (Unit {0})
unfolding print_lines
print_trace fuel initialized tracing = do
  lines ← halt_with (backtrace tracing.loaded tracing.rbp tracing.stack tracing.symbols)
  print_lines fuel initialized tracing.format lines

-- `__panic` up to the halt: the header, the message and the trace are written behind the interrupt.
unfoldable pub panic_report : ℕ → Apic → Bool → List ℕ → List ℕ → Tracing → Io (Unit {0})
unfolding print_out write_registers print_trace
panic_report fuel s initialized header message trace = do
  commands ← halt_with (send_interrupt s.enabled 0 broadcast ipi_abort_vector)
  write_registers s commands
  print_out fuel initialized header
  print_out fuel initialized message
  print_trace fuel initialized trace

-- `CPU::hnr` behind it.
unfoldable pub panic_with : ℕ → Apic → Bool → List ℕ → List ℕ → Tracing → Io (Unit {0})
unfolding panic_report
panic_with fuel s initialized header message trace =
    panic_report fuel s initialized header message trace >> halt_with (stop halted)
