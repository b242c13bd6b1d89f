-- ===== src/Arch/IoApic.antt =====
-- kernel/src/arch/ioapic.cpp and kernel/include/arch/ioapic.hpp: the I/O interrupt controllers.
--
-- A call returns the register writes that it makes, in their order, as the controller's base, the
-- register and the value; each is a write of the selector and one of the window. What a controller
-- answers to a read of its version and of its id are the functions `version` and `ident` of its
-- base. Log lines are left out.
pub mod Routes
use epsilon_os.Base.{
  ℕ, zero, suc, ◌+◌, ◌*◌, ◌/◌, ◌%◌, ◌^◌, Bool, true, false, ◌&&◌, Option, none, some, List, [], ◌∷◌,
  ◌++◌, Result, ok, stop, panic, ◌>>=◌, assert, leb, ◌==◌, if◌then◌else◌, bit_and, bit_or, shr,
  to_u32, to_u64, to_u8,
}
use epsilon_os.Acpi.Madt.{IoApic}

abbrev pub irq0 : ℕ
irq0 = 0x20

-- `IOREDTBL0` and `IOAPIC_MASKED`.
abbrev pub redirection0 : ℕ
redirection0 = 0x10

abbrev pub masked : ℕ
masked = 2 ^ 16

pub record RegisterWrite : Type 0 where
  pub base : ℕ
  pub register : ℕ
  pub value : ℕ

-- `map_entry`: the low and the high half of one entry of the redirection table.
unfoldable pub map_entry : ℕ → ℕ → ℕ → List RegisterWrite
map_entry base index val =
    record { base = base; register = redirection0 + index * 2; value = to_u32 val }
    ∷ record { base = base; register = redirection0 + index * 2 + 1; value = to_u32 (shr val 32) }
    ∷ []

module _ (version ident : ℕ → ℕ) where
  unfoldable pub get_max_interrupts : IoApic → ℕ
  get_max_interrupts c = to_u8 (shr (version c.address) 16) + 1

  unfoldable pub get_id : IoApic → ℕ
  get_id c = bit_and (shr (ident c.address) 24) 0xF

  -- The loop of `init` from controller `i` on. The loop over the entries has an empty body, and
  -- the call behind it takes the controller's own number for the entry.
  unfoldable pub init_from : ℕ → List IoApic → Result (List RegisterWrite)
  init_from i [] = ok []
  init_from i (c ∷ cs) = assert (get_id c == c.id) >>= λ _. init_from (i + 1) cs >>= λ writes.
      ok (map_entry c.address (to_u8 i) (bit_or (irq0 + i) masked) ++ writes)

  unfoldable pub init : List IoApic → Result (List RegisterWrite)
  init cs = init_from 0 cs

  unfoldable pub find_ioapic : ℕ → List IoApic → Option IoApic
  find_ioapic irq [] = none
  find_ioapic irq (c ∷ cs) =
      let rest : Option IoApic = find_ioapic irq cs in
      if leb c.gsib irq && leb irq (to_u32 (c.gsib + get_max_interrupts c)) then some c else rest

  -- `map`, with the controller that `find_ioapic` found.
  unfoldable pub route : ℕ → ℕ → Option IoApic → Result (List RegisterWrite)
  route irq apicid none = stop panic
  route irq apicid (some c) =
      ok (map_entry c.address irq (bit_or (irq0 + irq) (to_u64 (apicid * 2 ^ 56))))

  unfoldable pub map_irq : ℕ → ℕ → List IoApic → Result (List RegisterWrite)
  map_irq irq apicid cs = route irq apicid (find_ioapic irq cs)
