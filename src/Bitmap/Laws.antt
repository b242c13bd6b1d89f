-- ===== src/Bitmap/Laws.antt =====
-- `set` and `clear` of kernel/include/lib/bitmap.hpp over the numbered bits of the whole array.
use epsilon_os.Base.{
  ℕ, ◌*◌, ◌/◌, ◌%◌, ◌^◌, ◌≤◌, ◌<◌, ◌≡◌, ◌≢◌, ◌∙◌, ◌⊎◌, ◌↔◌, refl, sym, arith, Bool, true, false,
  List, ok, stop, panic, get_or, set, length, length-set, get_or-set_self, get_or-set_ne,
  get_elem?-eq-get_or, u64_max, get_or-beyond,
}
use native.Mathlib.Decide.{ℕ_discrete, dec_lt}
use epsilon_os.Base.Bits.{bit, bit-le}
use epsilon_os.Bitmap.{Bitmap, put_cell, cell_set, cell_clear, set_num, clear}
use epsilon_os.Bitmap.Digits.{
  cell_bit-eq, cell_set-lt, cell_clear-lt, bit-cell_set_self, bit-cell_set_ne,
}
use epsilon_os.Bitmap.Digits.{bit-cell_clear_self, bit-cell_clear_ne}

-- Whether the number `n` is in use: its bit.
abbrev pub used : Bitmap → ℕ → ℕ
used b n = bit (get_or b.cells (n / 64) 0) (n % 64)

pub record IsValid (b : Bitmap) : Type 0 where
  pub whole : length b.cells ≡ b.entries
  pub sized : b.bitsize ≡ 64 * b.entries
  pub full : b.max_value ≡ u64_max
  pub words : (i : ℕ) → get_or b.cells i 0 < 2 ^ 64

-- `b'` is `b` with the bit `n` now `v`, and no other bit changed.
pub record IsUpdated (b : Bitmap) (n v : ℕ) (b' : Bitmap) : Type 0 where
  pub valid : IsValid b'
  pub here : used b' n ≡ v
  pub others : (m : ℕ) → m ≢ n → used b' m ≡ used b m
  pub same_bits : b'.bitsize ≡ b.bitsize
  pub same_bytes : b'.bsize ≡ b.bsize

words-set :
    (xs : List ℕ) (i c : ℕ)
    → c < 2 ^ 64
    → ((k : ℕ) → get_or xs k 0 < 2 ^ 64)
    → (k : ℕ) → get_or (set xs i c) k 0 < 2 ^ 64
words-set xs i c h all k = elim (ℕ_discrete i k) [
  | no ne ↦ rw (get_or-set_ne xs i k c 0 ne) (all k)
  | yes e ↦ elim (dec_lt k (length xs)) [
    | yes p ↦ rw (e, get_or-set_self xs k c 0 p) h
    | no p ↦ omega (arith, get_or-beyond (set xs i c) k 0, length-set xs i c)
  ]
]

put_cell-IsValid : {b : Bitmap} (i c : ℕ) → IsValid b → c < 2 ^ 64 → IsValid (put_cell b i c)
unfolding put_cell
put_cell-IsValid {b} i c v h = record {
  whole = length-set b.cells i c ∙ v.whole;
  sized = v.sized;
  full = v.full;
  words = words-set b.cells i c h v.words;
}

-- A cell that differs from the old one in the bit `n % 64` alone updates the bit `n`.
pub put_cell-IsUpdated :
    {b : Bitmap} (n v c : ℕ)
    → IsValid b
    → n < b.bitsize
    → c < 2 ^ 64
    → bit c (n % 64) ≡ v
    → ((k : ℕ) → k < 64 → k ≢ n % 64 → bit c k ≡ bit (get_or b.cells (n / 64) 0) k)
    → IsUpdated b n v (put_cell b (n / 64) c)
unfolding put_cell
put_cell-IsUpdated {b} n v c w h small this that = record {
  valid = unfold put_cell in put_cell-IsValid (n / 64) c w small;
  here = rw (get_or-set_self b.cells (n / 64) c 0 (omega (arith, w.whole, w.sized))) this;
  others = λ m ne. elim (ℕ_discrete (n / 64) (m / 64)) [
    | yes e ↦
        rw (← e, get_or-set_self b.cells (n / 64) c 0 (omega (arith, w.whole, w.sized)))
          (that (m % 64) (omega arith) (λ p. ne (omega arith)))
    | no p ↦ rw (get_or-set_ne b.cells (n / 64) (m / 64) c 0 p)
  ];
  same_bits = refl;
  same_bytes = refl;
}

module _ (b : Bitmap) (n : ℕ) (check : Bool) (v : IsValid b) where
  abbrev pub cell : ℕ
  cell = get_or b.cells (n / 64) 0

  -- `set`, without the assertions.
  pub set-IsUpdated : n < b.bitsize → IsUpdated b n 1 (put_cell b (n / 64) (cell_set cell (n % 64)))
  set-IsUpdated h =
      put_cell-IsUpdated n 1 (cell_set cell (n % 64)) v h
        (cell_set-lt cell (n % 64) (v.words (n / 64)) (omega arith))
        (bit-cell_set_self cell (n % 64))
        (λ k hk ne. bit-cell_set_ne cell (n % 64) k (λ e. ne (sym e)))

  clear-IsUpdated : n < b.bitsize → IsUpdated b n 0 (put_cell b (n / 64) (cell_clear cell (n % 64)))
  clear-IsUpdated h =
      put_cell-IsUpdated n 0 (cell_clear cell (n % 64)) v h
        (cell_clear-lt cell (n % 64) (v.words (n / 64)))
        (bit-cell_clear_self cell (n % 64) (omega arith))
        (λ k hk ne. bit-cell_clear_ne cell (n % 64) k (omega arith) hk (λ e. ne (sym e)))

  in_cells : n < b.bitsize → n / 64 < length b.cells
  in_cells h = omega (arith, v.whole, v.sized)

  -- What the calls return, in one equation each.
  pub set_num_lem :
      n < b.bitsize
      → (check ≡ false) ⊎ (used b n ≡ 0)
      → set_num b n check ≡ ok (put_cell b (n / 64) (cell_set cell (n % 64)))
  unfolding set_num
  set_num_lem h free = ground (
    arith,
    get_elem?-eq-get_or b.cells (n / 64) 0 (in_cells h),
    cell_bit-eq cell (n % 64) (v.words (n / 64)),
  )

  pub clear_lem :
      n < b.bitsize
      → (check ≡ false) ⊎ (used b n ≡ 1)
      → clear b n check ≡ ok (put_cell b (n / 64) (cell_clear cell (n % 64)))
  unfolding clear
  clear_lem h taken = ground (
    arith,
    get_elem?-eq-get_or b.cells (n / 64) 0 (in_cells h),
    cell_bit-eq cell (n % 64) (v.words (n / 64)),
  )

  -- `set(num, check)` on a valid bitmap, for a number in range that is unused or not checked,
  -- returns a valid bitmap in which the bit of `num` is 1 and every other bit is as before.
  pub set_num-IsUpdated :
      n < b.bitsize
      → (check ≡ false) ⊎ (used b n ≡ 0)
      → (b' : Bitmap) × (set_num b n check ≡ ok b') × IsUpdated b n 1 b'
  set_num-IsUpdated h free =
      (put_cell b (n / 64) (cell_set cell (n % 64)), set_num_lem h free, set-IsUpdated h)

  -- `clear(num, check)` on a valid bitmap, for a number in range that is used or not checked,
  -- returns a valid bitmap in which the bit of `num` is 0 and every other bit is as before.
  pub clear-IsUpdated_lem :
      n < b.bitsize
      → (check ≡ false) ⊎ (used b n ≡ 1)
      → (b' : Bitmap) × (clear b n check ≡ ok b') × IsUpdated b n 0 b'
  clear-IsUpdated_lem h taken =
      (put_cell b (n / 64) (cell_clear cell (n % 64)), clear_lem h taken, clear-IsUpdated h)

  -- On a valid bitmap `set(num, check)` panics exactly when `num` is out of range, or when
  -- `check` is set and the bit is in use already.
  pub set_num-panic_iff :
      (set_num b n check ≡ stop panic) ↔ ((b.bitsize ≤ n) ⊎ ((check ≡ true) × (used b n ≡ 1)))
  unfolding set_num
  set_num-panic_iff = ground (
    arith,
    get_elem?-eq-get_or b.cells (n / 64) 0,
    in_cells,
    bit-le cell (n % 64),
    cell_bit-eq cell (n % 64) (v.words (n / 64)),
  )

  -- On a valid bitmap `clear(num, check)` panics exactly when `num` is out of range, or when
  -- `check` is set and the bit is not in use.
  pub clear-panic_iff :
      (clear b n check ≡ stop panic) ↔ ((b.bitsize ≤ n) ⊎ ((check ≡ true) × (used b n ≡ 0)))
  unfolding clear
  clear-panic_iff = ground (
    arith,
    get_elem?-eq-get_or b.cells (n / 64) 0,
    in_cells,
    bit-le cell (n % 64),
    cell_bit-eq cell (n % 64) (v.words (n / 64)),
  )
