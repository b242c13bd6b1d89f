-- ===== src/Device/Serial.antt =====
-- kernel/src/dev/uart.cpp, built with `SERIAL_OUT`, and the ports of kernel/src/io/io.cpp.
--
-- The flag is the static `m_initialized`. A text is a list of its characters before the terminator.
pub mod Output
use epsilon_os.Base.{
  ℕ, zero, suc, ◌+◌, Bool, true, false, not, List, [], ◌∷◌, Result, ok, ◌==◌, if◌then◌else◌,
  bit_and, to_u8,
}
use epsilon_os.Device.Bus.{Place, port, Bus, Io, ◌>>=◌, ◌>>◌, give, in8, out8, poll}

-- `PORT`.
abbrev pub uart_port : ℕ
uart_port = 0x3F8

-- The writes of `init` up to the test of the chip.
unfoldable pub set_up : Io (Unit {0})
unfolding out8
set_up = do
  out8 (uart_port + 1) 0
  out8 (uart_port + 3) 0x80
  out8 (uart_port + 0) 3
  out8 (uart_port + 1) 0
  out8 (uart_port + 3) 3
  out8 (uart_port + 2) 0xC7
  out8 (uart_port + 4) 0xB
  out8 (uart_port + 4) 0x1E
  out8 (uart_port + 0) 0xAE

-- `init`: whether the port is initialized, where it was not before.
unfoldable pub uart_init : Io Bool
unfolding set_up in8 out8
uart_init = do
  set_up
  answer ← in8 (uart_port + 0)
  if not (to_u8 answer == 0xAE) then give false else (out8 (uart_port + 4) 0xF >> give true)

-- `(in8(PORT + 5) & 0x20) != 0`.
unfoldable pub can_send : ℕ → Bool
can_send v = not (bit_and (to_u8 v) 0x20 == 0)

unfoldable pub write_char : ℕ → Bool → ℕ → Io (Unit {0})
unfolding out8 can_send
write_char fuel initialized c =
    if not initialized
    then give tt
    else (poll fuel can_send (port (uart_port + 5)) >>= λ _. out8 uart_port (to_u8 c))

unfoldable pub write_text : ℕ → Bool → List ℕ → Io (Unit {0})
unfolding write_char
write_text fuel initialized [] b = give tt b
write_text fuel initialized (c ∷ cs) b =
    (if not initialized
        then give tt
        else (write_char fuel initialized c >> write_text fuel initialized cs))
      b
