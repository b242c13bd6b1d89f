-- ===== src/Acpi/Madt/Walk.antt =====
-- The walk over the records of kernel/src/acpi/madt.cpp: when it ends, and what it keeps.
use epsilon_os.Base.{
  ℕ, zero, suc, ◌+◌, ◌-◌, ◌≤◌, ◌<◌, ◌≡◌, ◌≢◌, ◌⊎◌, inl, inr, refl, arith, true, false, Option, none,
  some, [], ◌∷◌, Result, ok, stop, panic, ltb, ◌==◌, length, length-append, Bool-cases,
}
use native.Mathlib.Decide.{ℕ_discrete, dec_lt}
use epsilon_os.CString.{Memory}
use epsilon_os.Acpi.Madt.{Madt, read_record, walk, max_ioapic, io_apic, lapic_override, ioapic_at}
use epsilon_os.Acpi.Bytes.{le64}
use epsilon_os.Memory.Address.{tohh}

-- A record starts at `a`: the records from `ptr` on follow each other by their lengths.
pub data RecordAt (m : Memory) (a : ℕ) : ℕ → Type 0 where
  here : RecordAt m a a
  later : {ptr : ℕ} → RecordAt m a (ptr + m (ptr + 1)) → RecordAt m a ptr

pub RecordAt-cases :
    {m : Memory} {a ptr : ℕ} → RecordAt m a ptr → (ptr ≡ a) ⊎ RecordAt m a (ptr + m (ptr + 1))
RecordAt-cases here = inl refl
RecordAt-cases (later r) = inr r

pub RecordAt-le : {m : Memory} {a ptr : ℕ} → RecordAt m a ptr → ptr ≤ a
RecordAt-le here = omega arith
RecordAt-le (later r) = omega (arith, RecordAt-le r)

module _ (hhdm : ℕ) (m : Memory) where
  -- What a walk returns: a list of at most 16 controllers, or the panic of the assertion.
  abbrev pub Bounded : Option (Result Madt) → Type 0
  Bounded none = ⊥
  Bounded (some (ok s)) = length s.ioapics ≤ max_ioapic
  Bounded (some (stop p)) = p ≡ panic

  -- One record keeps the bound, or the assertion stops the walk.
  abbrev Step : Result Madt → Type 0
  Step (ok s) = length s.ioapics ≤ max_ioapic
  Step (stop p) = p ≡ panic

  read_record-Step :
      (ptr : ℕ) (s : Madt) → length s.ioapics ≤ max_ioapic → Step (read_record hhdm m ptr s)
  unfolding read_record
  read_record-Step ptr s h = elim (ℕ_discrete (m ptr) io_apic) [
    | yes e ↦
        let t : (m ptr == io_apic) ≡ true = ground arith in
        elim (dec_lt (length s.ioapics) max_ioapic) [
          | yes l ↦
              let u : ltb (length s.ioapics) max_ioapic ≡ true = ground arith in
              rw (t, u) (omega (arith, length-append s.ioapics (ioapic_at hhdm m (ptr + 2) ∷ [])))
          | no g ↦ let u : ltb (length s.ioapics) max_ioapic ≡ false = ground arith in rw (t, u)
        ]
    | no ne ↦
        let t : (m ptr == io_apic) ≡ false = ground arith in
        elim (Bool-cases (m ptr == lapic_override)) [ inl u ↦ rw (t, u) h | inr u ↦ rw (t, u) h ]
  ]

  abbrev after : ℕ → ℕ → ℕ → Result Madt → Option (Result Madt)
  after fuel ptr end r = elim r [
    | stop p ↦ some (stop p)
    | ok s' ↦ walk hhdm m fuel (ptr + m (ptr + 1)) end s'
  ]

  after-Bounded :
      (fuel ptr end : ℕ) (r : Result Madt)
      → Step r
      → ((s : Madt)
          → length s.ioapics ≤ max_ioapic
          → Bounded (walk hhdm m fuel (ptr + m (ptr + 1)) end s))
      → Bounded (after fuel ptr end r)
  after-Bounded fuel ptr end (ok s) b rest = rest s b
  after-Bounded fuel ptr end (stop p) b rest = b

  -- If no record that starts before the end has length 0, the walk ends: fuel beyond the number of
  -- bytes is enough. Where at most 16 controllers were known before, it returns with at most 16, or it
  -- panics.
  pub walk-Bounded :
      (fuel ptr end : ℕ) (s : Madt)
      → end - ptr < fuel
      → ((a : ℕ) → RecordAt m a ptr → a < end → 0 < m (a + 1))
      → length s.ioapics ≤ max_ioapic
      → Bounded (walk hhdm m fuel ptr end s)
  unfolding walk
  walk-Bounded zero ptr end s f h b = absurd (omega arith)
  walk-Bounded (suc fuel) ptr end s f h b = elim (dec_lt ptr end) [
    | yes l ↦
        let t : ltb ptr end ≡ true = ground arith in
        rw t (
          after-Bounded fuel ptr end (read_record hhdm m ptr s) (read_record-Step ptr s b) (λ s' b'.
            walk-Bounded fuel (ptr + m (ptr + 1)) end s' (omega (arith, h ptr here l))
              (λ a p q. h a (later p) q) b'))
    | no g ↦ let t : ltb ptr end ≡ false = ground arith in rw t b
  ]

  reads_on :
      (ptr : ℕ) (s : Madt) → m ptr ≢ io_apic → (s' : Madt) × (read_record hhdm m ptr s ≡ ok s')
  unfolding read_record
  reads_on ptr s ne =
      let t : (m ptr == io_apic) ≡ false = ground arith in
      elim (Bool-cases (m ptr == lapic_override)) [
        | inl u ↦ (record s { lapic = tohh hhdm (le64 m (ptr + 4)) }, rw (t, u))
        | inr u ↦ (s, rw (t, u))
      ]

  -- A record of length 0 that is no I/O APIC is read for ever: no fuel is enough.
  pub walk-never_ends :
      (fuel ptr end : ℕ) (s : Madt)
      → ptr < end
      → m (ptr + 1) ≡ 0
      → m ptr ≢ io_apic
      → walk hhdm m fuel ptr end s ≡ none
  unfolding walk
  walk-never_ends zero ptr end s l z ne = refl
  walk-never_ends (suc fuel) ptr end s l z ne =
      let t : ltb ptr end ≡ true = ground arith in
      let (s', read) = reads_on ptr s ne in
      let stays : ptr + m (ptr + 1) ≡ ptr = omega arith in
      rw (t, read, stays) (walk-never_ends fuel ptr end s' l z ne)
