-- ===== src/Acpi/Rsdt/Checksum.antt =====
-- The checksums of kernel/src/acpi/rsdt.cpp.
use epsilon_os.Base.{
  ℕ, zero, suc, ◌+◌, ◌-◌, ◌/◌, ◌%◌, ◌^◌, ◌≤◌, ◌<◌, ◌≡◌, ◌↔◌, refl, ap, arith, Bool, true, false,
  Result, ok, assert, >>=-eq-ok, ◌==◌, if◌then◌else◌, subst,
}
use native.Mathlib.Decide.{ℕ_discrete}
use epsilon_os.CString.{Memory}
use epsilon_os.Memory.Address.{tohh}
use epsilon_os.Acpi.Bytes.{le32, le64}
use epsilon_os.Acpi.Rsdt.{
  Rsdt, sum_from, validate_table, table_address, table_length, validate_from, rsdt_init, init,
  count_tables,
}

-- The sum of the bytes of a table, without a width.
abbrev pub byte_sum : ℕ → ℕ → Memory → ℕ
byte_sum ptr zero m = 0
byte_sum ptr (suc n) m = m ptr + byte_sum (ptr + 1) n m

sum_from_lem :
    (left i ptr sum : ℕ) (m : Memory)
    → sum < 256
    → sum_from left i ptr sum m ≡ (sum + byte_sum (ptr + i) left m) % 256
unfolding sum_from
sum_from_lem zero i ptr sum m h = omega arith
sum_from_lem (suc left) i ptr sum m h =
    let e : ptr + (i + 1) ≡ ptr + i + 1 = omega arith in
    omega (
      arith,
      sum_from_lem left (i + 1) ptr ((sum + m (ptr + i)) % 256) m (omega arith),
      ap (λ (t : ℕ). byte_sum t left m) e,
    )

byte_sum-add :
    (ptr a b : ℕ) (m : Memory) → byte_sum ptr (a + b) m ≡ byte_sum ptr a m + byte_sum (ptr + a) b m
byte_sum-add ptr zero b m =
    let e : 0 + b ≡ b = omega arith in
    let f : ptr + 0 ≡ ptr = omega arith in rw (e, f) (omega arith)
byte_sum-add ptr (suc a) b m =
    let e : suc a + b ≡ suc (a + b) = omega arith in
    let f : ptr + suc a ≡ ptr + 1 + a = omega arith in
    rw (e, f) (omega (arith, byte_sum-add (ptr + 1) a b m))

-- `validate_table` accepts a table exactly when its bytes add up to 0 modulo 256.
pub validate_table_iff :
    (ptr n : ℕ) (m : Memory) → (validate_table ptr n m ≡ true) ↔ (byte_sum ptr n m % 256 ≡ 0)
unfolding validate_table
validate_table_iff ptr n m =
    let e : ptr + 0 ≡ ptr = omega arith in
    ground (arith, sum_from_lem n 0 ptr 0 m (omega arith), ap (λ (t : ℕ). byte_sum t n m) e)

-- Behind a part that was accepted, the rest is accepted exactly when the whole is: validating the
-- 16 bytes behind the old root pointer does what the extended checksum over all 36 asks for.
pub validate_table-split :
    (ptr a b : ℕ) (m : Memory)
    → validate_table ptr a m ≡ true
    → (validate_table (ptr + a) b m ≡ true) ↔ (validate_table ptr (a + b) m ≡ true)
validate_table-split ptr a b m h =
    let p = validate_table_iff ptr a m in
    let q = validate_table_iff (ptr + a) b m in
    let r = validate_table_iff ptr (a + b) m in
    (
      λ x. r.1 (omega (arith, p.0 h, q.0 x, byte_sum-add ptr a b m)),
      λ x. q.1 (omega (arith, p.0 h, r.0 x, byte_sum-add ptr a b m)),
    )

-- The number of entries of a root table: 4 bytes each in the RSDT, 8 in the XSDT.
pub count_tables_lem :
    (m : Memory) (rsdt : ℕ) (v1 : Bool)
    → 36 ≤ table_length m rsdt
    → table_length m rsdt < 2 ^ 32
    → count_tables m rsdt v1 ≡ (table_length m rsdt - 36) / (if v1 then 4 else 8)
unfolding count_tables
count_tables_lem m rsdt true h g = omega arith
count_tables_lem m rsdt false h g = omega arith

assert-true : (b : Bool) → assert b ≡ ok tt → b ≡ true
assert-true true h = refl
assert-true false h = cc

module _ (hhdm : ℕ) (m : Memory) where
  -- The bytes of table `i` of the root table add up to 0 modulo 256.
  abbrev pub TableValid : Rsdt → ℕ → Type 0
  TableValid r i =
      let header = tohh hhdm (table_address m r i) in
      byte_sum header (table_length m header) m % 256 ≡ 0

  validate_from_sound :
      (left i : ℕ) (r : Rsdt)
      → validate_from hhdm m left i r ≡ ok tt
      → (k : ℕ) → i ≤ k
      → k < i + left
      → TableValid r k
  unfolding validate_from
  validate_from_sound zero i r h k p q = absurd (omega arith)
  validate_from_sound (suc left) i r h k p q =
      let (_, first, rest) = >>=-eq-ok _ _ h in
      elim (ℕ_discrete k i) [
        | yes e ↦ rw e ((validate_table_iff _ _ m).0 (assert-true _ first))
        | no ne ↦ validate_from_sound left (i + 1) r rest k (omega arith) (omega arith)
      ]

  -- What a root table is once it is accepted.
  pub record IsLoaded (rsdt : ℕ) (v1 : Bool) (r : Rsdt) : Type 0 where
    pub at : r.rsdt ≡ rsdt
    pub version : r.v1 ≡ v1
    pub count : r.table_count ≡ count_tables m rsdt v1
    pub own_checksum : byte_sum rsdt (table_length m rsdt) m % 256 ≡ 0
    pub checksums : (k : ℕ) → k < r.table_count → TableValid r k

  rsdt_init-IsLoaded :
      (rsdt : ℕ) (v1 : Bool) (r : Rsdt) → rsdt_init hhdm m rsdt v1 ≡ ok r → IsLoaded rsdt v1 r
  unfolding rsdt_init
  rsdt_init-IsLoaded rsdt v1 r h =
      let (_, own, h') = >>=-eq-ok _ _ h in
      let (_, all, h'') = >>=-eq-ok _ _ h' in
      let root : Rsdt = record { rsdt = rsdt; table_count = count_tables m rsdt v1; v1 = v1 } in
      let done : ◌≡◌ {A = Result Rsdt} (ok root) (ok r) = h'' in
      let e : root ≡ r = cc in
      subst (IsLoaded rsdt v1) e (record {
        at = refl;
        version = refl;
        count = refl;
        own_checksum = (validate_table_iff rsdt (table_length m rsdt) m).0 (assert-true _ own);
        checksums = λ k p.
            validate_from_sound (count_tables m rsdt v1) 0 root all k (omega arith) (omega arith);
      })

  -- The root table that the root pointer names.
  abbrev pub root_of : ℕ → ℕ
  root_of rsdp = tohh hhdm (if m (rsdp + 15) == 0 then le32 m (rsdp + 16) else le64 m (rsdp + 24))

  -- When `init` returns, the bytes of the root pointer add up to 0 modulo 256 (its 20 bytes for
  -- revision 0, all 36 for a later one), the root table that it names is loaded, and the bytes of that
  -- table and of every table that it lists add up to 0 modulo 256.
  pub init-IsLoaded :
      (rsdp : ℕ) (r : Rsdt)
      → init hhdm m rsdp ≡ ok r
      → (byte_sum rsdp (if m (rsdp + 15) == 0 then 20 else 36) m % 256 ≡ 0)
        × IsLoaded (root_of rsdp) (m (rsdp + 15) == 0) r
  unfolding init
  init-IsLoaded rsdp r h =
      let (_, first, h') = >>=-eq-ok _ _ h in
      let (_, second, h'') = >>=-eq-ok _ _ h' in
      (
        (validate_table_iff rsdp (if m (rsdp + 15) == 0 then 20 else 36) m).0
            (whole (m (rsdp + 15) == 0) (assert-true _ first) second),
        rsdt_init-IsLoaded (root_of rsdp) (m (rsdp + 15) == 0) r h'',
      )
    where
      whole :
          (v1 : Bool)
          → validate_table rsdp 20 m ≡ true
          → (if v1 then ok tt else assert (validate_table (rsdp + 20) 16 m)) ≡ ok tt
          → validate_table rsdp (if v1 then 20 else 36) m ≡ true
      whole true p q = p
      whole false p q = (validate_table-split rsdp 20 16 m p).0 (assert-true _ q)
