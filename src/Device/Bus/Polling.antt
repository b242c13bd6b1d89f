-- ===== src/Device/Bus/Polling.antt =====
-- Loops that wait for a device.
use epsilon_os.Base.{
  ℕ, zero, suc, ◌+◌, ◌<◌, ◌≤◌, ◌≡◌, ◌∙◌, refl, sym, ap, arith, Bool, true, false, List, ◌∷◌, ok,
  Bool-cases, inl, inr,
}
use native.Mathlib.Nat.{add-zero}
use epsilon_os.Device.Bus.{Place, Access, fetched, Bus, poll}

abbrev pub repeated : ℕ → Access → List Access → List Access
repeated zero a log = log
repeated (suc n) a log = repeated n a (a ∷ log)

-- The bus after `n` reads of one place.
abbrev pub waited : ℕ → Place → Bus → Bus
waited n p b = record b { time = b.time + n; log = repeated n (fetched p) b.log }

-- One read that the device did not answer as wanted, and the reads behind it.
poll_again :
    (fuel j : ℕ) (done : ℕ → Bool) (p : Place) (b : Bus)
    → ((j : ℕ) (done : ℕ → Bool) (p : Place) (b : Bus)
        → j < fuel
        → done (b.answers (b.time + j) p) ≡ true
        → (n : ℕ) × (n ≤ j)
          × (done (b.answers (b.time + n) p) ≡ true)
          × (poll fuel done p b ≡ ok (b.answers (b.time + n) p, waited (suc n) p b)))
    → j < suc fuel
    → done (b.answers (b.time + j) p) ≡ true
    → done (b.answers b.time p) ≡ false
    → (n : ℕ) × (n ≤ j)
      × (done (b.answers (b.time + n) p) ≡ true)
      × (poll (suc fuel) done p b ≡ ok (b.answers (b.time + n) p, waited (suc n) p b))
unfolding poll
poll_again fuel zero done p b again h late now =
    let also : done (b.answers b.time p) ≡ true =
      ap (λ (t : ℕ). done (b.answers t p)) (sym (add-zero b.time)) ∙ late in
    cc
poll_again fuel (suc k) done p b again h late now =
    let b' : Bus = record b { time = b.time + 1; log = fetched p ∷ b.log } in
    let shift : (i : ℕ) → b.time + 1 + i ≡ b.time + suc i = λ i. omega arith in
    let (n, bound, ends, rest) =
      again k done p b' (omega arith) (ap (λ (t : ℕ). done (b.answers t p)) (shift k) ∙ late) in
    (
      suc n,
      omega arith,
      ap (λ (t : ℕ). done (b.answers t p)) (sym (shift n)) ∙ ends,
      rw now (
          rest
          ∙ ap (λ (t : ℕ). ok (b.answers t p, waited (suc n) p b')) (shift n)
          ∙ ap
              (λ (t : ℕ). ok (
                b.answers (b.time + suc n) p,
                record b { time = t; log = repeated (suc (suc n)) (fetched p) b.log },
              ))
              (shift (suc n))),
    )

-- If the device answers as wanted at the `j`-th read, within the fuel, the loop ends at the latest
-- then, with an answer as wanted, having done nothing but reads.
pub poll-returns :
    (fuel j : ℕ) (done : ℕ → Bool) (p : Place) (b : Bus)
    → j < fuel
    → done (b.answers (b.time + j) p) ≡ true
    → (n : ℕ) × (n ≤ j)
      × (done (b.answers (b.time + n) p) ≡ true)
      × (poll fuel done p b ≡ ok (b.answers (b.time + n) p, waited (suc n) p b))
unfolding poll
poll-returns zero j done p b h late = absurd (omega arith)
poll-returns (suc fuel) j done p b h late = elim (Bool-cases (done (b.answers b.time p))) [
  | inl now ↦
      let now' : done (b.answers (b.time + 0) p) ≡ true =
        ap (λ (t : ℕ). done (b.answers t p)) (add-zero b.time) ∙ now in
      (0, omega arith, now', rw (now, add-zero b.time) refl)
  | inr now ↦ poll_again fuel j done p b (poll-returns fuel) h late now
]
