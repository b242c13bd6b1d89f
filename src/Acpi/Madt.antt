-- ===== src/Acpi/Madt.antt =====
-- kernel/src/acpi/madt.cpp: the interrupt controllers that the MADT lists.
--
-- The offsets are those of the packed structures: `lapic_address` 36 and the end 44 of
-- `MADTInternal`; in a record `type` 0, `length` 1, and behind the record's head of 2 bytes `id` 0,
-- `address` 2 and `gsib` 6 of `IOAPICInternal`, `address` 2 of `LAPICInternal`. The walk over the
-- records takes fuel; `none` means that it ran out.
pub mod Walk
use epsilon_os.Base.{
  ℕ, zero, suc, ◌+◌, Bool, true, false, Option, none, some, List, [], ◌∷◌, ◌++◌, Result, ok, stop,
  panic, assert, ◌>>=◌, ltb, ◌==◌, if◌then◌else◌, length,
}
use epsilon_os.CString.{Memory}
use epsilon_os.Memory.Address.{tohh}
use epsilon_os.Acpi.Bytes.{le32, le64}
use epsilon_os.Acpi.Rsdt.{Rsdt, find_table, table_length}

-- `IOAPIC`.
pub record IoApic : Type 0 where
  pub id : ℕ
  pub gsib : ℕ
  pub address : ℕ

-- The static fields of `MADT`; `m_ioapic_count` is the length of the list.
pub record Madt : Type 0 where
  pub lapic : ℕ
  pub ioapics : List IoApic

abbrev pub max_ioapic : ℕ
max_ioapic = 16

-- `IO_APIC` and `LAPIC_OVERRIDE`.
abbrev pub io_apic : ℕ
io_apic = 1

abbrev pub lapic_override : ℕ
lapic_override = 5

module _ (hhdm : ℕ) (m : Memory) where
  abbrev pub ioapic_at : ℕ → IoApic
  ioapic_at internal = record {
    id = m internal;
    gsib = le32 m (internal + 6);
    address = tohh hhdm (le32 m (internal + 2));
  }

  -- The `switch` on the record at `ptr`.
  unfoldable pub read_record : ℕ → Madt → Result Madt
  read_record ptr s =
      if m ptr == io_apic
      then (assert (ltb (length s.ioapics) max_ioapic) >>= λ _.
          ok (record s { ioapics = s.ioapics ++ (ioapic_at (ptr + 2) ∷ []) }))
      else if m ptr == lapic_override
      then ok (record s { lapic = tohh hhdm (le64 m (ptr + 4)) })
      else ok s

  -- The loop over the records from `ptr` up to `end`.
  unfoldable pub walk : ℕ → ℕ → ℕ → Madt → Option (Result Madt)
  walk zero ptr end s = none
  walk (suc fuel) ptr end s =
      let next : Option (Result Madt) = elim (read_record ptr s) [
        | stop p ↦ some (stop p)
        | ok s' ↦ walk fuel (ptr + m (ptr + 1)) end s'
      ] in
      if ltb ptr end then next else some (ok s)

  -- `init` with the table that `find_table` found; the list of controllers is empty before.
  unfoldable pub load : ℕ → Option ℕ → Option (Result Madt)
  load fuel none = some (stop panic)
  load fuel (some madt) =
      walk fuel (madt + 44) (madt + table_length m madt)
        (record { lapic = tohh hhdm (le32 m (madt + 36)); ioapics = [] })

  unfoldable pub init : ℕ → ℕ → Rsdt → Option (Result Madt)
  init fuel name r = load fuel (find_table hhdm m name r)
