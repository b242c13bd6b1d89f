-- ===== src/CString/Scans.antt =====
-- What the scanning functions of kernel/src/lib/string.cpp find.
use epsilon_os.Base.{ℕ, zero, suc, ◌+◌, ◌-◌, ◌<◌, ◌≡◌, ◌≢◌, ◌∙◌, ap, arith, false, none, some, ◌==◌}
use epsilon_os.CString.{Memory, end_of, strlen, strchr}
use epsilon_os.CString.Copies.{IsText}

rest-IsText : (m : Memory) (s k : ℕ) → IsText m s (suc k) → IsText m (s + 1) k
rest-IsText m s k t = (
  λ j p. let f : s + 1 + j ≡ s + suc j = omega arith in rw f (t.0 (suc j) (omega arith)),
  let f : s + 1 + k ≡ s + suc k = omega arith in rw f (t.1),
)

first_live : (m : Memory) (s k : ℕ) → IsText m s (suc k) → (m s == 0) ≡ false
first_live m s k t = let q : s + 0 ≡ s = omega arith in ground (arith, t.0 0 (omega arith), ap m q)

end_of_lem : (k fuel s : ℕ) (m : Memory) → k < fuel → IsText m s k → end_of fuel s m ≡ some (s + k)
unfolding end_of
end_of_lem k zero s m p t = absurd (omega arith)
end_of_lem zero (suc fuel) s m p t = let q : s + 0 ≡ s = omega arith in ground (arith, ap m q, t.1)
end_of_lem (suc k) (suc fuel) s m p t =
    let f : s + 1 + k ≡ s + suc k = omega arith in
    rw (first_live m s k t)
      (end_of_lem k fuel (s + 1) m (omega arith) (rest-IsText m s k t) ∙ ap some f)

-- `strlen` of a text of `k` characters is `k`; fuel beyond `k` is enough.
pub strlen_lem : (k fuel s : ℕ) (m : Memory) → k < fuel → IsText m s k → strlen fuel s m ≡ some k
unfolding strlen
strlen_lem k fuel s m p t =
    let e : s + k - s ≡ k = omega arith in rw (end_of_lem k fuel s m p t, strlen) (ap some e)

-- The text from `s` on has no `c` and no terminator before index `k`.
abbrev pub LacksBelow : Memory → ℕ → ℕ → ℕ → Type 0
LacksBelow m s c k = (j : ℕ) → j < k → (m (s + j) ≢ c) × (m (s + j) ≢ 0)

-- `strchr` finds the first `c` of a text, which may be the terminator itself.
pub strchr-found :
    (k fuel s c : ℕ) (m : Memory)
    → k < fuel
    → LacksBelow m s c k
    → m (s + k) ≡ c
    → strchr fuel s c m ≡ some (some (s + k))
unfolding strchr
strchr-found k zero s c m p h e = absurd (omega arith)
strchr-found zero (suc fuel) s c m p h e = let q : s + 0 ≡ s = omega arith in ground (arith, ap m q)
strchr-found (suc k) (suc fuel) s c m p h e =
    let q : s + 0 ≡ s = omega arith in
    let f : s + 1 + k ≡ s + suc k = omega arith in
    ground (
      arith,
      h 0,
      ap m q,
      f,
      strchr-found k fuel (s + 1) c m (omega arith)
          (λ j g. let d : s + 1 + j ≡ s + suc j = omega arith in rw d (h (suc j) (omega arith)))
          (rw f e),
    )

-- `strchr` returns `nullptr` when the text ends before any `c`.
pub strchr-missing :
    (k fuel s c : ℕ) (m : Memory)
    → k < fuel
    → LacksBelow m s c k
    → m (s + k) ≡ 0
    → c ≢ 0
    → strchr fuel s c m ≡ some none
unfolding strchr
strchr-missing k zero s c m p h e n = absurd (omega arith)
strchr-missing zero (suc fuel) s c m p h e n =
    let q : s + 0 ≡ s = omega arith in ground (arith, ap m q)
strchr-missing (suc k) (suc fuel) s c m p h e n =
    let q : s + 0 ≡ s = omega arith in
    let f : s + 1 + k ≡ s + suc k = omega arith in
    ground (
      arith,
      h 0,
      ap m q,
      strchr-missing k fuel (s + 1) c m (omega arith)
          (λ j g. let d : s + 1 + j ≡ s + suc j = omega arith in rw d (h (suc j) (omega arith)))
          (rw f e) n,
    )
