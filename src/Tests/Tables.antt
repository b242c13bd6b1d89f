-- ===== src/Tests/Tables.antt =====
-- kernel/src/acpi on a root pointer at 200, a root table at 0 and one table at 64.
use epsilon_os.Base.{
  ℕ, ◌+◌, ◌%◌, ◌<◌, ◌≡◌, inl, inr, subst, refl, arith, true, [], none, ok, if◌then◌else◌, ◌==◌,
}
use epsilon_os.CString.{Memory}
use epsilon_os.Acpi.Rsdt.{Rsdt, validate_table, count_tables, find_table, table_length}
use epsilon_os.Acpi.Rsdt
use epsilon_os.Acpi.Rsdt.Checksum.{IsLoaded, byte_sum, root_of, init-IsLoaded}
use epsilon_os.Acpi.Rsdt.Search.{FindsTable, find_table-FindsTable}
use epsilon_os.Acpi.Madt.{Madt, walk}
use epsilon_os.Acpi.Madt.Walk.{
  Bounded, RecordAt, RecordAt-cases, RecordAt-le, walk-Bounded, walk-never_ends,
}

-- The lengths 40 and 36, the checksums, the address of the one table and its name "APIC", which
-- also stands at 300.
abbrev tables : Memory
tables a =
    if a == 4
    then 40
    else if a == 8
    then 152
    else if a == 36
    then 64
    else if a == 64
    then 65
    else if a == 65
    then 80
    else if a == 66
    then 73
    else if a == 67
    then 67
    else if a == 68
    then 36
    else if a == 72
    then 191
    else if a == 300
    then 65
    else if a == 301
    then 80
    else if a == 302
    then 73
    else if a == 303
    then 67
    else 0

abbrev loaded : Rsdt
loaded = record { rsdt = 0; table_count = 1; v1 = true }

init-tables : Rsdt.init 0 tables 200 ≡ ok loaded
unfolding Rsdt.init Rsdt.rsdt_init Rsdt.validate_from validate_table count_tables Rsdt.table_address
init-tables = refl

root-valid : validate_table 0 40 tables ≡ true
unfolding validate_table
root-valid = refl

init-IsLoaded_example :
    (byte_sum 200 20 tables % 256 ≡ 0) × IsLoaded 0 tables (root_of 0 tables 200) true loaded
init-IsLoaded_example = init-IsLoaded 0 tables 200 loaded init-tables

find_table-FindsTable_example : FindsTable 0 tables loaded 300 0 1 (find_table 0 tables 300 loaded)
find_table-FindsTable_example = find_table-FindsTable 0 tables 300 loaded

-- Two records of 12 bytes, the first an I/O APIC, with zeros in them.
abbrev records : Memory
records a = if a == 0 then 1 else if a == 1 then 12 else if a == 13 then 12 else 0

no_ioapics : Madt
no_ioapics = record { lapic = 0; ioapics = [] }

records-move : (a : ℕ) → RecordAt records a 0 → a < 24 → 0 < records (a + 1)
records-move a r g = elim (RecordAt-cases r) [
  | inl e ↦ subst (λ x. 0 < records (x + 1)) e (omega arith)
  | inr r' ↦ elim (RecordAt-cases r') [
    | inl e ↦ subst (λ x. 0 < records (x + 1)) e (omega arith)
    | inr r'' ↦ absurd (omega (arith, RecordAt-le r''))
  ]
]

walk-Bounded_example :
    Bounded 0 records (walk 0 records 25 0 24 (record { lapic = 0; ioapics = [] }))
walk-Bounded_example =
    walk-Bounded 0 records 25 0 24 (record { lapic = 0; ioapics = [] }) (omega arith) records-move
      (omega arith)

-- Address 1 holds the length 0 of a record of type 0.
walk-never_ends_example : walk 0 tables 100 0 24 (record { lapic = 0; ioapics = [] }) ≡ none
walk-never_ends_example =
    walk-never_ends 0 tables 100 0 24 (record { lapic = 0; ioapics = [] }) (omega arith) refl
      (omega arith)
