-- ===== src/Device/LocalApic/Programs.antt =====
-- How `init` of kernel/src/arch/lapic.cpp leaves the controller.
use epsilon_os.Base.{
  ℕ, zero, suc, ◌+◌, ◌<◌, ◌≡◌, ◌∙◌, refl, ap, arith, true, not, Option, none, some, List, [], ◌∷◌,
  ok, if◌then◌else◌, ◌==◌, Bool-cases, inl, inr, leb, bit_and, shr, to_u8, to_u32, bit_or, ◌*◌, ◌^◌,
  ◌-◌, ◌%◌, ◌≤◌, max, min,
}
use epsilon_os.Base.Bits.{
  bit, bit-le, bit-bit_or, bit-bit_and, bit-pow_self, bit-pow_ne, bit-ones, bit-join_high,
  bit-mod_low,
}
use epsilon_os.Arch.Cpu.{has}
use epsilon_os.Device.Bus.{Place, memory, msr, Access, fetched, stored, Bus, put, fetch}
use epsilon_os.Device.Bus.Polling.{repeated, waited, poll-returns}
use epsilon_os.Device.LocalApic.{
  Apic, init, configure, settle, mask_counters, delivered, lapic_svr, lapic_lint0, lapic_lint1,
  lapic_tpr, lapic_icrlo, lapic_ver, lapic_masked, init_deassert, lapic_perf, lapic_icrhi,
  lapic_eoi, lapic_esr, lapic_id, msr_ia32_apic,
}

-- What was stored last at an address of memory.
abbrev pub last_stored : ℕ → List Access → Option ℕ
last_stored a [] = none
last_stored a (stored (memory x) v ∷ log) = if x == a then some v else last_stored a log
last_stored a (_ ∷ log) = last_stored a log

last_stored-repeated :
    (a n x : ℕ) (log : List Access)
    → last_stored a (repeated n (fetched (memory x)) log) ≡ last_stored a log
last_stored-repeated a zero x log = refl
last_stored-repeated a (suc n) x log = last_stored-repeated a n x (fetched (memory x) ∷ log)

-- What was stored last in a model-specific register.
abbrev pub last_msr : ℕ → List Access → Option ℕ
last_msr m [] = none
last_msr m (stored (msr x) v ∷ log) = if x == m then some v else last_msr m log
last_msr m (_ ∷ log) = last_msr m log

last_msr-repeated :
    (m n x : ℕ) (log : List Access)
    → last_msr m (repeated n (fetched (memory x)) log) ≡ last_msr m log
last_msr-repeated m zero x log = refl
last_msr-repeated m (suc n) x log = last_msr-repeated m n x (fetched (memory x) ∷ log)

-- A word that turns a controller on: its bit 11 is set, and the bits 16 to 31 are those of the
-- controller's address.
abbrev pub Enables : ℕ → ℕ → Type 0
Enables l v = (bit v 11 ≡ 1) × ((k : ℕ) → 16 ≤ k → k < 32 → bit v k ≡ bit l k)

-- What `enable` writes.
abbrev enabling : ℕ → ℕ
enabling l = to_u32 (to_u32 (bit_or (bit_and l 0xFFFFF0000) (2 ^ 11))) + 2 ^ 32 * 0

bit-enabling :
    (l k : ℕ)
    → k < 32
    → bit (enabling l) k ≡ max (min (bit l k) (bit 0xFFFFF0000 k)) (bit (2 ^ 11) k)
bit-enabling l k h =
    let word : ℕ = bit_or (bit_and l 0xFFFFF0000) (2 ^ 11) in
    let cut : enabling l ≡ word % 2 ^ 32 % 2 ^ 32 = omega arith in
    ap (λ (x : ℕ). bit x k) cut
    ∙ bit-mod_low 32 (word % 2 ^ 32) k h
    ∙ bit-mod_low 32 word k h
    ∙ bit-bit_or (bit_and l 0xFFFFF0000) (2 ^ 11) k
    ∙ ap (λ (x : ℕ). max x (bit (2 ^ 11) k)) (bit-bit_and l 0xFFFFF0000 k)

enabling-Enables : (l : ℕ) → Enables l (enabling l)
enabling-Enables l = (
  bit-enabling l 11 (omega arith)
      ∙ ap (max (min (bit l 11) (bit 0xFFFFF0000 11))) (bit-pow_self 11)
      ∙ omega (arith, bit-le l 11, bit-le 0xFFFFF0000 11),
  λ k lo hi.
      let mask : bit 0xFFFFF0000 k ≡ 1 =
        bit-join_high 16 (2 ^ 20 - 1) 0 k (omega arith) lo ∙ bit-ones 20 (k - 16) (omega arith) in
      bit-enabling l k hi ∙ omega (arith, mask, bit-pow_ne 11 k (λ e. omega arith), bit-le l k),
)

-- The controller is enabled in its register, and for the spurious interrupt, its lines are masked, it takes interrupts of
-- every priority, and the last command is the initialisation.
abbrev pub IsProgrammed : ℕ → List Access → Type 0
IsProgrammed l log =
    ((v : ℕ) × (last_msr msr_ia32_apic log ≡ some v) × Enables l v)
    × (last_stored (l + lapic_svr) log ≡ some 0x1FF)
    × (last_stored (l + lapic_lint0) log ≡ some lapic_masked)
    × (last_stored (l + lapic_lint1) log ≡ some lapic_masked)
    × (last_stored (l + lapic_tpr) log ≡ some 0)
    × (last_stored (l + lapic_icrlo) log ≡ some init_deassert)

-- Every command is delivered within `fuel` reads.
abbrev pub Delivers : ℕ → ℕ → Bus → Type 0
Delivers fuel l b =
    (t : ℕ)
    → (j : ℕ) × (j < fuel) × (delivered (b.answers (t + j) (memory (l + lapic_icrlo))) ≡ true)

-- What `configure` stores.
abbrev IsConfigured : ℕ → List Access → Type 0
IsConfigured l log =
    ((v : ℕ) × (last_msr msr_ia32_apic log ≡ some v) × Enables l v)
    × (last_stored (l + lapic_svr) log ≡ some 0x1FF)
    × (last_stored (l + lapic_lint0) log ≡ some lapic_masked)
    × (last_stored (l + lapic_lint1) log ≡ some lapic_masked)

-- The bus after the accesses of `configure` up to its choice, and after those of `synchronize`.
abbrev configured : Apic → Bus → Bus
configured a b = record b {
  time = b.time + 1 + 1 + 1 + 1 + 1;
  log =
      fetched (memory (a.lapic + lapic_ver))
      ∷ stored (memory (a.lapic + lapic_lint1)) lapic_masked
      ∷ stored (memory (a.lapic + lapic_lint0)) lapic_masked
      ∷ stored (memory (a.lapic + lapic_svr)) 0x1FF
      ∷ stored (msr msr_ia32_apic) (enabling a.lapic)
      ∷ b.log;
}

abbrev synced : Apic → Bus → Bus
synced a b = record b {
  time = b.time + 1 + 1 + 1 + 1 + 1;
  log =
      stored (memory (a.lapic + lapic_icrlo)) init_deassert
      ∷ stored (memory (a.lapic + lapic_icrhi)) 0
      ∷ stored (memory (a.lapic + lapic_eoi)) 0
      ∷ stored (memory (a.lapic + lapic_esr)) 0
      ∷ stored (memory (a.lapic + lapic_esr)) 0
      ∷ b.log;
}

abbrev version_of : Apic → Bus → ℕ
version_of a b = to_u32 (b.answers (b.time + 1 + 1 + 1 + 1) (memory (a.lapic + lapic_ver)))

configure-IsConfigured :
    (a : Apic) (b : Bus)
    → (b' : Bus) × (configure a b ≡ ok (tt, b'))
      × (b'.answers ≡ b.answers)
      × IsConfigured a.lapic b'.log
unfolding configure fetch put mask_counters
configure-IsConfigured a b = elim (Bool-cases (leb 4 (bit_and (shr (version_of a b) 16) 0xFF))) [
  | inl counters ↦ (
    record b {
      time = b.time + 1 + 1 + 1 + 1 + 1 + 1;
      log = stored (memory (a.lapic + lapic_perf)) lapic_masked ∷ (configured a b).log;
    },
    rw counters refl,
    refl,
    ((enabling a.lapic, refl, enabling-Enables a.lapic), ground arith, ground arith, ground arith),
  )
  | inr plain ↦ (
    configured a b,
    rw plain refl,
    refl,
    ((enabling a.lapic, refl, enabling-Enables a.lapic), ground arith, ground arith, ground arith),
  )
]

settle-IsProgrammed :
    (fuel : ℕ) (a : Apic) (b : Bus)
    → Delivers fuel a.lapic b
    → IsConfigured a.lapic b.log
    → (id : ℕ) × (b' : Bus) × (settle fuel a b ≡ ok (id, b')) × IsProgrammed a.lapic b'.log
unfolding settle fetch put
settle-IsProgrammed fuel a b delivers c =
    let p : Place = memory (a.lapic + lapic_icrlo) in
    let s : Bus = synced a b in
    let (j, below, late) = delivers s.time in
    let (n, _, ends, polled) = poll-returns fuel j delivered p s below late in
    let w : Bus = waited (suc n) p s in
    let id : Place = memory (a.lapic + lapic_id) in
    let quiet : (x : ℕ) → last_stored x w.log ≡ last_stored x s.log =
      λ x. last_stored-repeated x n (a.lapic + lapic_icrlo) (fetched p ∷ s.log) in
    let still : last_msr msr_ia32_apic w.log ≡ last_msr msr_ia32_apic s.log =
      last_msr-repeated msr_ia32_apic n (a.lapic + lapic_icrlo) (fetched p ∷ s.log) in
    (
      to_u8 (shr (to_u32 (w.answers (w.time + 1) id)) 24),
      record w {
        time = w.time + 1 + 1;
        log = fetched id ∷ stored (memory (a.lapic + lapic_tpr)) 0 ∷ w.log;
      },
      rw polled refl,
      (
        (c.0.0, still ∙ c.0.1, c.0.2),
        ground (arith, quiet (a.lapic + lapic_svr), c.1),
        ground (arith, quiet (a.lapic + lapic_lint0), c.2),
        ground (arith, quiet (a.lapic + lapic_lint1), c.3),
        ground arith,
        ground (arith, quiet (a.lapic + lapic_icrlo)),
      ),
    )

-- On a processor with a local controller, where every command is delivered within `fuel` reads,
-- `init` returns: the controller is at the address that the MADT gave, or the one it had, the enable
-- bit and the bits 16 to 31 of that address are in its model-specific register, the spurious interrupt
-- is enabled, the local lines are masked, every priority is accepted, the last command is the
-- initialisation, and the spurious interrupt's handler is registered the first time only.
pub init-IsProgrammed :
    (fuel edx madt_lapic : ℕ) (s : Apic) (b : Bus)
    → has edx 9 ≡ true
    → Delivers fuel (if s.enabled then s.lapic else madt_lapic) b
    → (id : ℕ) × (b' : Bus) × (init fuel edx madt_lapic s b
        ≡ ok (
          (
            record { lapic = if s.enabled then s.lapic else madt_lapic; enabled = true },
            id,
            not s.enabled,
          ),
          b',
        ))
      × IsProgrammed (if s.enabled then s.lapic else madt_lapic) b'.log
unfolding init
init-IsProgrammed fuel edx madt_lapic s b supported delivers =
    let a : Apic = record s { lapic = if s.enabled then s.lapic else madt_lapic } in
    let (c, configured, same, done) = configure-IsConfigured a b in
    let delivers' : Delivers fuel a.lapic c = λ t.
      let (j, below, late) = delivers t in
      (
        j,
        below,
        ap (λ (f : ℕ → Place → ℕ). delivered (f (t + j) (memory (a.lapic + lapic_icrlo)))) same
            ∙ late,
      ) in
    let (id, b', settled, programmed) = settle-IsProgrammed fuel a c delivers' done in
    (id, b', rw (supported, configured, settled) refl, programmed)
