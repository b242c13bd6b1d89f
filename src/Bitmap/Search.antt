-- ===== src/Bitmap/Search.antt =====
-- `find_set` of kernel/include/lib/bitmap.hpp against its contract: the lowest unused number.
use epsilon_os.Base.{
  ℕ, zero, suc, ◌+◌, ◌*◌, ◌/◌, ◌%◌, ◌≤◌, ◌<◌, ◌≡◌, ◌∙◌, inl, inr, refl, ap, arith, true, Result, ok,
  stop, Option, none, some, get_or, get_elem?-eq-get_or, Bool-cases, ◌==◌, ==_iff, ◌>>=◌, subst,
}
use epsilon_os.Base.Bits.{bit, bit-ones}
use native.Mathlib.Decide.{dec_lt}
use epsilon_os.Bitmap.{
  entry_size, Bitmap, first_unused, find_from, find_set, set_bit, put_cell, cell_set,
}
use epsilon_os.Bitmap.Digits.{FirstUnused, first_unused-FirstUnused}
use epsilon_os.Bitmap.Laws.{used, IsValid, IsUpdated, set-IsUpdated}

-- The numbers from `lo` up to below `hi` are in use.
abbrev pub AllUsed : Bitmap → ℕ → ℕ → Type 0
AllUsed b lo hi = (m : ℕ) → lo ≤ m → m < hi → used b m ≡ 1

-- A search of the numbers from `lo` on: it takes the lowest unused number, or finds all of them
-- in use and changes nothing. It never stops.
abbrev pub Finds : Bitmap → ℕ → Result (Option ℕ × Bitmap) → Type 0
Finds b lo (ok (none, b')) = (b' ≡ b) × AllUsed b lo b.bitsize
Finds b lo (ok (some n, b')) =
    (lo ≤ n) × (n < b.bitsize) × (used b n ≡ 0) × AllUsed b lo n × IsUpdated b n 1 b'
Finds b lo (stop _) = ⊥

AllUsed-join : (b : Bitmap) (lo mid hi : ℕ) → AllUsed b lo mid → AllUsed b mid hi → AllUsed b lo hi
AllUsed-join b lo mid hi p q m h g = elim (dec_lt m mid) [
  | yes l ↦ p m h l
  | no l ↦ q m (omega arith) g
]

Finds-later :
    (b : Bitmap) (lo mid : ℕ) (r : Result (Option ℕ × Bitmap))
    → lo ≤ mid
    → AllUsed b lo mid
    → Finds b mid r
    → Finds b lo r
Finds-later b lo mid (ok (none, b')) h all f = (f.0, AllUsed-join b lo mid b.bitsize all f.1)
Finds-later b lo mid (ok (some n, b')) h all f =
    (omega arith, f.1, f.2, AllUsed-join b lo mid n all f.3, f.4)
Finds-later b lo mid (stop s) h all f = absurd f

module _ (b : Bitmap) (v : IsValid b) where
  abbrev entry : ℕ → ℕ
  entry i = get_or b.cells i 0

  -- The digits of one entry are the numbers of that entry.
  AllUsed-entry :
      (i hi : ℕ)
      → hi ≤ 64
      → ((k : ℕ) → 0 ≤ k → k < hi → bit (entry i) k ≡ 1)
      → AllUsed b (i * 64) (i * 64 + hi)
  AllUsed-entry i hi h all m p q =
      let e : m / 64 ≡ i = omega arith in rw e (all (m % 64) (omega arith) (omega arith))

  AllUsed-full : (i : ℕ) → entry i ≡ b.max_value → AllUsed b (i * 64) (i * 64 + 64)
  AllUsed-full i e =
      AllUsed-entry i 64 (omega arith)
        (λ k p q. ap (λ (t : ℕ). bit t k) (e ∙ v.full) ∙ bit-ones 64 k q)

  set_bit_lem : (i j : ℕ) → i < b.entries → set_bit b i j ≡ ok (put_cell b i (cell_set (entry i) j))
  unfolding set_bit
  set_bit_lem i j h = rw (get_elem?-eq-get_or b.cells i 0 (omega (arith, v.whole)))

  -- What is done with an entry that is not full, by the result of the inner loop.
  abbrev after_scan : ℕ → Option ℕ → Result (Option ℕ × Bitmap) → Result (Option ℕ × Bitmap)
  after_scan i r rest = elim r [
    | none ↦ rest
    | some j ↦ set_bit b i j >>= λ b'. ok (some (i * entry_size + j), b')
  ]

  Finds-after_scan :
      (i : ℕ) (r : Option ℕ) (rest : Result (Option ℕ × Bitmap))
      → i < b.entries
      → FirstUnused (entry i) 0 64 r
      → Finds b (i * 64 + 64) rest
      → Finds b (i * 64) (after_scan i r rest)
  Finds-after_scan i none rest h f later =
      Finds-later b (i * 64) (i * 64 + 64) rest (omega arith) (AllUsed-entry i 64 (omega arith) f)
        later
  Finds-after_scan i (some j) rest h f later =
      let q : (i * 64 + j) / 64 ≡ i = omega arith in
      let r : (i * 64 + j) % 64 ≡ j = omega arith in
      let below : i * 64 + j < b.bitsize = omega (arith, v.sized) in
      rw (set_bit_lem i j h) (
        omega arith,
        below,
        rw (q, r) f.2,
        AllUsed-entry i j (omega arith) (λ k p g. f.3 k p g),
        let u = set-IsUpdated b (i * 64 + j) true v below in rw (q, r) at u,
      )

  find_from-Finds : (left i : ℕ) → i + left ≡ b.entries → Finds b (i * 64) (find_from left i b)
  unfolding find_from
  find_from-Finds zero i h = (refl, λ m p q. absurd (omega (arith, v.sized)))
  find_from-Finds (suc left) i h =
      let rest : Finds b (i * 64 + 64) (find_from left (i + 1) b) =
        subst (λ t. Finds b t (find_from left (i + 1) b)) (omega arith)
          (find_from-Finds left (i + 1) (omega arith)) in
      rw (get_elem?-eq-get_or b.cells i 0 (omega (arith, v.whole)))
        (elim (Bool-cases (entry i == b.max_value)) [
          | inl full ↦ rw full (
              Finds-later b (i * 64) (i * 64 + 64) (find_from left (i + 1) b) (omega arith)
                (AllUsed-full i ((==_iff _ _).0 full)) rest)
          | inr part ↦ rw part (
              Finds-after_scan i (first_unused 64 0 (entry i)) (find_from left (i + 1) b)
                (omega arith) (first_unused-FirstUnused 64 0 (entry i) (v.words i)) rest)
        ])

  -- On a valid bitmap `find_set` returns the lowest number whose bit is clear, having set that
  -- bit and no other; it returns -1 exactly when all bits are set, and then changes nothing. It
  -- neither panics nor reads outside the array.
  pub find_set-Finds : Finds b 0 (find_set b)
  unfolding find_set
  find_set-Finds = find_from-Finds b.entries 0 (omega arith)
