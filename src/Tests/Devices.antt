-- ===== src/Tests/Devices.antt =====
-- kernel/src/arch: descriptors, interrupt controllers and processor features.
use epsilon_os.Base.{
  ℕ, zero, suc, ◌+◌, ◌*◌, ◌^◌, ◌≡◌, refl, arith, List, [], ◌∷◌, ok, stop, panic, ◌⊎◌, get_or,
}
use epsilon_os.Arch.Idt.{IdtEntry, idt_init, offset_of, idt_init_lem}
use epsilon_os.Acpi.Madt.{IoApic}
use epsilon_os.Arch.IoApic.{RegisterWrite, map_irq, get_max_interrupts, get_id}
use epsilon_os.Arch.IoApic.Routes.{IsRoute, IsFirst, NoneTakes, map_irq-IsRoute}

abbrev empty_entry : IdtEntry
empty_entry = record {
  offset_low = 0;
  segment = 0;
  ist = 0;
  reserved0 = 0;
  flags = 0;
  offset_mid = 0;
  offset_high = 0;
  reserved1 = 0;
}

abbrev copies : ℕ → List IdtEntry
copies zero = []
copies (suc n) = empty_entry ∷ copies n

-- Stubs of 16 bytes each.
abbrev stubs : ℕ → ℕ
stubs k = 0xFFFFFFFF80000000 + 16 * k

idt_init_lem_example :
    let e = get_or ((idt_init 0 stubs (copies 256)).0) 14 empty_entry in
    (offset_of e ≡ stubs 14) × (e.segment ≡ 8) × (e.flags ≡ 0x8F) × (e.ist ≡ 0)
idt_init_lem_example =
    idt_init_lem 0 stubs (copies 256) empty_entry 14 refl (omega arith) (omega arith)

-- A controller with 24 entries and the id 2.
abbrev version_of : ℕ → ℕ
version_of base = 23 * 2 ^ 16 + 0x20

abbrev ident_of : ℕ → ℕ
ident_of base = 2 * 2 ^ 24

abbrev first_ioapic : IoApic
first_ioapic = record { id = 2; gsib = 0; address = 0xFEC00000 }

map_irq-IsRoute_example :
    ((c : IoApic) × (ws : List RegisterWrite) × IsFirst version_of ident_of 1 (first_ioapic ∷ []) c
      × (map_irq version_of ident_of 1 0 (first_ioapic ∷ []) ≡ ok ws)
      × IsRoute c.address 1 0 ws)
    ⊎ (NoneTakes version_of ident_of 1 (first_ioapic ∷ [])
        × (map_irq version_of ident_of 1 0 (first_ioapic ∷ []) ≡ stop panic))
map_irq-IsRoute_example =
    map_irq-IsRoute version_of ident_of 1 0 (first_ioapic ∷ []) (omega arith) (omega arith)

max-first : get_max_interrupts version_of ident_of first_ioapic ≡ 24
unfolding get_max_interrupts
max-first = refl

id-first : get_id version_of ident_of first_ioapic ≡ 2
unfolding get_id
id-first = refl
