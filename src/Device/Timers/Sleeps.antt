-- ===== src/Device/Timers/Sleeps.antt =====
-- The waits of kernel/src/dev/timer/hpet.cpp and kernel/src/dev/timer/apic.cpp.
use epsilon_os.Base.{
  ℕ, suc, ◌+◌, ◌*◌, ◌%◌, ◌^◌, ◌<◌, ◌≤◌, ◌≡◌, ◌∙◌, refl, sym, ap, arith, Bool, true, not, ◌∷◌, ok,
  ltb, ◌==◌, add64, mul64, to_u32, bit_or, u64_max,
}
use epsilon_os.Device.Bus.{Place, memory, Bus, fetched, stored}
use epsilon_os.Device.Bus.Polling.{waited, poll-returns}
use epsilon_os.Device.LocalApic.{Apic, lapic_timer, lapic_ticr, lapic_tccr, lapic_masked}
use epsilon_os.Device.Interrupts.{timer_vector}
use epsilon_os.Device.Timers.{Hpet, counter_value, hpet_msleep, msleep}

not_below : (a b : ℕ) → b ≤ a → not (ltb a b) ≡ true
not_below a b h = ground arith

below_not : (a b : ℕ) → not (ltb a b) ≡ true → b ≤ a
below_not a b h = ground arith

small_% : (x : ℕ) → x ≤ u64_max → x % 2 ^ 64 ≡ x
small_% x h = omega arith

deadline :
    (start ms frequency : ℕ)
    → start + ms * frequency ≤ u64_max
    → add64 start (mul64 ms frequency) ≡ start + ms * frequency
deadline start ms frequency h =
    let product : mul64 ms frequency ≡ ms * frequency =
      small_% (ms * frequency) (omega (arith, h)) in
    ap (add64 start) product ∙ small_% (start + ms * frequency) (omega (arith, h))

-- The bus behind a first read of a place and `n` more.
abbrev pub behind_reads : ℕ → Place → Bus → Bus
behind_reads n p b = waited n p (record b { time = b.time + 1; log = fetched p ∷ b.log })

-- What the counter reads first, and the ticks of the wait.
abbrev pub goal : ℕ → Hpet → Bus → ℕ
goal ms h b = b.answers b.time (counter_value h) + ms * h.frequency

-- If the counter at some later read, within the fuel, has advanced by the ticks of the wait, and
-- this sum is a u64, `HPET::msleep` returns, at the latest with this read, at a read at which the
-- counter has advanced by at least that much; it only reads the counter.
pub hpet_msleep-waits :
    (fuel j ms : ℕ) (h : Hpet) (b : Bus)
    → j < fuel
    → goal ms h b ≤ u64_max
    → goal ms h b ≤ b.answers (b.time + 1 + j) (counter_value h)
    → (n : ℕ) × (n ≤ j)
      × (goal ms h b ≤ b.answers (b.time + 1 + n) (counter_value h))
      × (hpet_msleep fuel ms h b ≡ ok (tt, behind_reads (suc n) (counter_value h) b))
unfolding hpet_msleep
hpet_msleep-waits fuel j ms h b soon small late =
    let p : Place = counter_value h in
    let start : ℕ = b.answers b.time p in
    let done : ℕ → Bool = λ v. not (ltb v (add64 start (mul64 ms h.frequency))) in
    let same : add64 start (mul64 ms h.frequency) ≡ goal ms h b =
      deadline start ms h.frequency small in
    let b1 : Bus = record b { time = b.time + 1; log = fetched p ∷ b.log } in
    let (n, bound, ends, returns) =
      poll-returns fuel j done p b1 soon (not_below _ _ (rw same late)) in
    (n, bound, rw (sym same) (below_not _ _ ends), rw returns refl)

-- The bus behind the stores of `APICTimer::msleep`.
abbrev pub armed : ℕ → ℕ → Apic → Bus → Bus
armed ticks_per_ms ms s b = record b {
  time = b.time + 1 + 1;
  log =
      stored (memory (s.lapic + lapic_ticr)) (to_u32 (mul64 ticks_per_ms ms))
      ∷ stored (memory (s.lapic + lapic_timer)) (to_u32 (bit_or timer_vector lapic_masked))
      ∷ b.log;
}

zero_is : (v : ℕ) → v ≡ 0 → (v == 0) ≡ true
zero_is v h = ground arith

is_zero : (v : ℕ) → (v == 0) ≡ true → v ≡ 0
is_zero v h = ground arith

-- `APICTimer::msleep` stores a masked one-shot timer and then the ticks, cut to 32 bits. If the
-- counter reads 0 at some later read within the fuel, it returns, at the latest with this read, at
-- a read that gives 0.
pub msleep-waits :
    (fuel j ticks_per_ms ms : ℕ) (s : Apic) (b : Bus)
    → j < fuel
    → to_u32 (b.answers (b.time + 1 + 1 + j) (memory (s.lapic + lapic_tccr))) ≡ 0
    → (n : ℕ) × (n ≤ j)
      × (to_u32 (b.answers (b.time + 1 + 1 + n) (memory (s.lapic + lapic_tccr))) ≡ 0)
      × (msleep fuel ticks_per_ms ms s b
          ≡ ok (tt, waited (suc n) (memory (s.lapic + lapic_tccr)) (armed ticks_per_ms ms s b)))
unfolding msleep
msleep-waits fuel j ticks_per_ms ms s b soon late =
    let p : Place = memory (s.lapic + lapic_tccr) in
    let (n, bound, ends, returns) =
      poll-returns fuel j (λ v. to_u32 v == 0) p (armed ticks_per_ms ms s b) soon
        (zero_is _ late) in
    (n, bound, is_zero _ ends, rw returns refl)
