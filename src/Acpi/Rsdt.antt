-- ===== src/Acpi/Rsdt.antt =====
-- kernel/src/acpi/rsdt.cpp: the root table, its checksums and the search for a table.
--
-- The offsets are those of the packed structures: `revision` 15, `rsdt_address` 16 and the end 20 of
-- `Rsdp`; `length` 20, `xsdt_address` 24 and the end 36 of `Xsdp`; `length` 4 and the end 36 of
-- `RsdtHeader`. Log lines are left out.
pub mod Checksum
pub mod Search
use epsilon_os.Base.{
  ℕ, zero, suc, ◌+◌, ◌*◌, ◌/◌, ◌%◌, Bool, true, false, not, Option, none, some, Result, ok, assert,
  ◌>>=◌, ◌>>◌, ◌==◌, if◌then◌else◌, sub64, add64, ℤ, pos,
}
use epsilon_os.CString.{Memory, memcmp}
use epsilon_os.Memory.Address.{tohh}
use epsilon_os.Acpi.Bytes.{le32, le64}

pub record Rsdt : Type 0 where
  pub rsdt : ℕ
  pub table_count : ℕ
  pub v1 : Bool

-- The sum of `left` bytes from index `i` on, in a `u8`.
unfoldable pub sum_from : ℕ → ℕ → ℕ → ℕ → Memory → ℕ
sum_from zero i ptr sum m = sum
sum_from (suc left) i ptr sum m = sum_from left (i + 1) ptr ((sum + m (ptr + i)) % 256) m

unfoldable pub validate_table : ℕ → ℕ → Memory → Bool
unfolding sum_from
validate_table ptr count m = sum_from count 0 ptr 0 m == 0

abbrev pub header_size : ℕ
header_size = 36

abbrev pub table_length : Memory → ℕ → ℕ
table_length m header = le32 m (header + 4)

-- `tables[i]` of the RSDT, or of the XSDT.
unfoldable pub table_address : Memory → Rsdt → ℕ → ℕ
table_address m r i =
    if r.v1 then le32 m (r.rsdt + header_size + 4 * i) else le64 m (r.rsdt + header_size + 8 * i)

unfoldable pub count_tables : Memory → ℕ → Bool → ℕ
count_tables m rsdt v1 =
    let count : ℕ = sub64 (table_length m rsdt) header_size / 4 in if v1 then count else count / 2

module _ (hhdm : ℕ) (m : Memory) where
  -- The loop of `rsdt_init`: `left` tables are to be validated, from table `i` on.
  unfoldable pub validate_from : ℕ → ℕ → Rsdt → Result (Unit {0})
  validate_from zero i r = ok tt
  validate_from (suc left) i r =
      let header : ℕ = tohh hhdm (table_address m r i) in
      assert (validate_table header (table_length m header) m) >>= λ _. validate_from left (i + 1) r

  unfoldable pub rsdt_init : ℕ → Bool → Result Rsdt
  rsdt_init rsdt v1 = do
    assert (validate_table rsdt (table_length m rsdt) m)
    let r : Rsdt = record { rsdt = rsdt; table_count = count_tables m rsdt v1; v1 = v1 }
    validate_from r.table_count 0 r
    ok r

  -- `init` on the root pointer that the bootloader hands over.
  unfoldable pub init : ℕ → Result Rsdt
  init rsdp = do
    let v1 : Bool = m (rsdp + 15) == 0
    assert (validate_table rsdp 20 m)
    (if v1 then ok tt else assert (validate_table (rsdp + 20) 16 m))
    rsdt_init (tohh hhdm (if v1 then le32 m (rsdp + 16) else le64 m (rsdp + 24))) v1

  -- `find_table`: the header of the first table whose signature is the name at `name`.
  unfoldable pub find_from : ℕ → ℕ → ℕ → Rsdt → Option ℕ
  find_from zero i name r = none
  find_from (suc left) i name r =
      let header : ℕ = tohh hhdm (table_address m r i) in
      let rest : Option ℕ = find_from left (i + 1) name r in
      elim (memcmp header name 4 m) [ pos zero ↦ some header | _ ↦ rest ]

  unfoldable pub find_table : ℕ → Rsdt → Option ℕ
  unfolding find_from
  find_table name r = find_from r.table_count 0 name r
