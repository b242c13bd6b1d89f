-- ===== src/CString/Compares.antt =====
-- What the comparing functions of kernel/src/lib/string.cpp return.
use epsilon_os.Base.{
  ℕ, zero, suc, ◌+◌, ◌<◌, ◌≡◌, ◌≢◌, ◌∙◌, ◌⊎◌, sym, ap, arith, true, false, some, ltb, ◌==◌, ℤ, pos,
  negsuc, sub_ℕ,
}
use native.Mathlib.Decide.{ℕ_discrete, dec_lt}
use epsilon_os.CString.{Memory, compare_from, memcmp, strcmp, strncmp, char_diff}

-- The buffers agree below index `k`.
abbrev pub AgreeBelow : Memory → ℕ → ℕ → ℕ → Type 0
AgreeBelow m s1 s2 k = (j : ℕ) → j < k → m (s1 + j) ≡ m (s2 + j)

-- The order of two buffers of `n` bytes: by their first difference, as unsigned bytes.
abbrev pub Ordered : Memory → ℕ → ℕ → ℕ → ℤ → Type 0
Ordered m s1 s2 n (pos zero) = AgreeBelow m s1 s2 n
Ordered m s1 s2 n (pos (suc zero)) =
    (k : ℕ) × (k < n) × AgreeBelow m s1 s2 k × (m (s2 + k) < m (s1 + k))
Ordered m s1 s2 n (negsuc zero) =
    (k : ℕ) × (k < n) × AgreeBelow m s1 s2 k × (m (s1 + k) < m (s2 + k))
Ordered m s1 s2 n _ = ⊥

agree-suc :
    (m : Memory) (s1 s2 i : ℕ)
    → AgreeBelow m s1 s2 i
    → m (s1 + i) ≡ m (s2 + i)
    → AgreeBelow m s1 s2 (i + 1)
agree-suc m s1 s2 i h e j p = elim (ℕ_discrete j i) [ yes q ↦ rw q e | no ne ↦ h j (omega arith) ]

compare_from-Ordered :
    (left i n s1 s2 : ℕ) (m : Memory)
    → i + left ≡ n
    → AgreeBelow m s1 s2 i
    → Ordered m s1 s2 n (compare_from left i s1 s2 m)
unfolding compare_from
compare_from-Ordered zero i n s1 s2 m e h = λ j p. h j (omega arith)
compare_from-Ordered (suc left) i n s1 s2 m e h = elim (ℕ_discrete (m (s1 + i)) (m (s2 + i))) [
  | yes same ↦
      let t : (m (s1 + i) == m (s2 + i)) ≡ true = ground arith in
      rw t (compare_from-Ordered left (i + 1) n s1 s2 m (omega arith) (agree-suc m s1 s2 i h same))
  | no differ ↦
      let t : (m (s1 + i) == m (s2 + i)) ≡ false = ground arith in
      elim (dec_lt (m (s1 + i)) (m (s2 + i))) [
        | yes l ↦
            let u : ltb (m (s1 + i)) (m (s2 + i)) ≡ true = ground arith in
            rw (t, u) (i, omega arith, h, l)
        | no g ↦
            let u : ltb (m (s1 + i)) (m (s2 + i)) ≡ false = ground arith in
            rw (t, u) (i, omega arith, h, omega arith)
      ]
]

-- `memcmp` returns 0 exactly for equal buffers, and else 1 or -1 by the first byte that differs,
-- compared unsigned.
pub memcmp-Ordered : (s1 s2 n : ℕ) (m : Memory) → Ordered m s1 s2 n (memcmp s1 s2 n m)
unfolding memcmp
memcmp-Ordered s1 s2 n m =
    compare_from-Ordered n 0 n s1 s2 m (omega arith) (λ j p. absurd (omega arith))

plus_zero : (s : ℕ) → s + 0 ≡ s
plus_zero s = omega arith

shift : (m : Memory) (s j : ℕ) → m (s + 1 + j) ≡ m (s + suc j)
shift m s j = ap m (omega arith)

-- `strcmp` returns the difference of the first bytes that differ or end the first text, as
-- unsigned bytes; fuel beyond their index is enough.
pub strcmp_lem :
    (k fuel s1 s2 : ℕ) (m : Memory)
    → k < fuel
    → ((j : ℕ) → j < k → (m (s1 + j) ≡ m (s2 + j)) × (m (s1 + j) ≢ 0))
    → (m (s1 + k) ≡ 0) ⊎ (m (s1 + k) ≢ m (s2 + k))
    → strcmp fuel s1 s2 m ≡ some (sub_ℕ (m (s1 + k)) (m (s2 + k)))
unfolding strcmp
strcmp_lem k zero s1 s2 m p h e = absurd (omega arith)
strcmp_lem zero (suc fuel) s1 s2 m p h e = ground (arith, ap m (plus_zero s1), ap m (plus_zero s2))
strcmp_lem (suc k) (suc fuel) s1 s2 m p h e = ground (
  arith,
  h 0,
  ap m (plus_zero s1),
  ap m (plus_zero s2),
  shift m s1 k,
  shift m s2 k,
  strcmp_lem k fuel (s1 + 1) (s2 + 1) m (omega arith)
      (λ j q. (
        shift m s1 j ∙ (h (suc j) (omega arith)).0 ∙ sym (shift m s2 j),
        λ z. (h (suc j) (omega arith)).1 (sym (shift m s1 j) ∙ z),
      ))
      (rw (shift m s1 k, shift m s2 k) e),
)

-- `strncmp` returns the difference, as signed characters, of the first bytes among `n` that
-- differ, whether or not a terminator stands before them.
pub strncmp_lem :
    (k n s1 s2 : ℕ) (m : Memory)
    → k < n
    → AgreeBelow m s1 s2 k
    → m (s1 + k) ≢ m (s2 + k)
    → strncmp s1 s2 n m ≡ char_diff (m (s1 + k)) (m (s2 + k))
unfolding strncmp
strncmp_lem k zero s1 s2 m p h e = absurd (omega arith)
strncmp_lem zero (suc n) s1 s2 m p h e = ground (arith, ap m (plus_zero s1), ap m (plus_zero s2))
strncmp_lem (suc k) (suc n) s1 s2 m p h e = ground (
  arith,
  h 0,
  ap m (plus_zero s1),
  ap m (plus_zero s2),
  shift m s1 k,
  shift m s2 k,
  strncmp_lem k n (s1 + 1) (s2 + 1) m (omega arith)
      (λ j q. shift m s1 j ∙ h (suc j) (omega arith) ∙ sym (shift m s2 j))
      (rw (shift m s1 k, shift m s2 k) e),
)
