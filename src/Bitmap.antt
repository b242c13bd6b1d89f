-- ===== src/Bitmap.antt =====
-- kernel/include/lib/bitmap.hpp: `Bitmap<T>` at `T = u64`, the only instance that the kernel makes
-- (the frame bitmap of kernel/include/mem/pmm.hpp).
--
-- `cells` is the array at `m_addr`, and `m_entry_size` is the constant `entry_size`. An index
-- outside the array is a `fault`. The `s64` result -1 of `find_set` is `none`.
pub mod Digits
pub mod Laws
pub mod Search
pub mod Canonical
use epsilon_os.Base.{
  ℕ, zero, suc, ◌+◌, ◌*◌, ◌/◌, ◌%◌, ◌^◌, Bool, true, false, ◌||◌, not, Option, none, some, List,
  Result, ok, stop, fault, assert, in_range, ◌>>=◌, ◌>>◌, ltb, ◌==◌, if◌then◌else◌, get_elem?, set,
  bit_and, bit_or, not64, shr, u64_max, mul64,
}

pub record Bitmap : Type 0 where
  pub cells : List ℕ
  pub max_value : ℕ
  pub bsize : ℕ
  pub bitsize : ℕ
  pub entries : ℕ

-- `sizeof(T)` and `sizeof(T) * 8`.
abbrev pub type_size : ℕ
type_size = 8

abbrev pub entry_size : ℕ
entry_size = 64

-- `init`: the array `cells` stands for the memory that `addr` points to.
unfoldable pub init : List ℕ → ℕ → ℕ → Bitmap
init cells max_value bsize = record {
  cells = cells;
  max_value = max_value;
  bsize = bsize;
  bitsize = mul64 bsize 8;
  entries = bsize / type_size;
}

-- The bit `j` of a cell, and the cell with that bit set or cleared.
unfoldable pub cell_bit : ℕ → ℕ → ℕ
cell_bit cell j = bit_and (shr cell j) 1

unfoldable pub cell_set : ℕ → ℕ → ℕ
cell_set cell j = bit_or cell (2 ^ j)

unfoldable pub cell_clear : ℕ → ℕ → ℕ
cell_clear cell j = bit_and cell (not64 (2 ^ j))

-- `get_offset`: the entry and the bit of a number.
unfoldable pub get_offset : Bitmap → ℕ → Result (ℕ × ℕ)
get_offset b num = do assert (ltb num b.bitsize); ok (num / entry_size, num % entry_size)

unfoldable pub get_bit : Bitmap → ℕ → ℕ → Result ℕ
unfolding cell_bit
get_bit b i j = do cell ← in_range (get_elem? b.cells i); ok (cell_bit cell j)

-- What the writes leave in entry `i`.
unfoldable pub put_cell : Bitmap → ℕ → ℕ → Bitmap
put_cell b i cell = record b { cells = set b.cells i cell }

unfoldable pub set_bit : Bitmap → ℕ → ℕ → Result Bitmap
unfolding cell_set put_cell
set_bit b i j = do cell ← in_range (get_elem? b.cells i); ok (put_cell b i (cell_set cell j))

-- The inner loop of `find_set` on one entry: `left` bits are to be tried, from bit `j` on.
unfoldable pub first_unused : ℕ → ℕ → ℕ → Option ℕ
unfolding cell_bit
first_unused zero j cell = none
first_unused (suc left) j cell =
    let rest = first_unused left (j + 1) cell in if cell_bit cell j == 0 then some j else rest

-- The outer loop: `left` entries are to be tried, from entry `i` on.
unfoldable pub find_from : ℕ → ℕ → Bitmap → Result (Option ℕ × Bitmap)
unfolding first_unused set_bit
find_from zero i b = ok (none, b)
find_from (suc left) i b =
    let rest : Result (Option ℕ × Bitmap) = find_from left (i + 1) b in
    in_range (get_elem? b.cells i) >>= λ cell.
    if cell == b.max_value then rest else elim (first_unused entry_size 0 cell) [
      | none ↦ rest
      | some j ↦ set_bit b i j >>= λ b'. ok (some (i * entry_size + j), b')
    ]

unfoldable pub find_set : Bitmap → Result (Option ℕ × Bitmap)
unfolding find_from
find_set b = find_from b.entries 0 b

unfoldable pub set_num : Bitmap → ℕ → Bool → Result Bitmap
unfolding get_offset get_bit set_bit
set_num b num check = do
  (i, j) ← get_offset b num
  old ← get_bit b i j
  assert (old == 0 || not check)
  set_bit b i j

unfoldable pub clear : Bitmap → ℕ → Bool → Result Bitmap
unfolding get_offset get_bit cell_clear put_cell
clear b num check = do
  (i, j) ← get_offset b num
  old ← get_bit b i j
  assert (old == 1 || not check)
  cell ← in_range (get_elem? b.cells i)
  ok (put_cell b i (cell_clear cell j))
