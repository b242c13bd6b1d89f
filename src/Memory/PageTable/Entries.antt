-- ===== src/Memory/PageTable/Entries.antt =====
-- The page table entries of kernel/include/mem/page_table.hpp: what `set` packs, the readers get.
use epsilon_os.Base.{
  ℕ, ◌-◌, ◌%◌, ◌^◌, ◌≤◌, ◌<◌, ◌≡◌, ◌∙◌, refl, sym, ap, arith, not, bit_and, not64, ◌==◌, min, max,
}
use native.Mathlib.Decide.{dec_lt}
use epsilon_os.Base.Bits.{
  bit, bit-le, bit_of_lt, bits_ext, bit-bit_and, bit-bit_or, bit-compl, bit-join_low, bit-mod_low,
  zero-bit, bit_and-le_left, bit_and-le_right, bit_or-lt,
}
use epsilon_os.Base.Masks.{and_low_mask}
use epsilon_os.Memory.Address.{address}
use epsilon_os.Memory.PageTable.{flags_mask, is_present, get_frame, entry_of}

-- The digits of the mask and of its complement: the frame takes the digits from 12 up to 51.
mask_frame : (k : ℕ) → 12 ≤ k → k < 52 → bit flags_mask k ≡ 0
mask_frame k lo hi =
    bit-join_low 52 0xFFF 0xFFF k (omega arith) hi ∙ bit_of_lt 12 0xFFF k (omega arith) lo

unmask : (k : ℕ) → k < 64 → bit (not64 flags_mask) k ≡ 1 - bit flags_mask k
unmask k h = bit-compl 64 flags_mask k (omega arith) h

-- A page-aligned address below 2 ^ 52 has its digits in the frame's field.
frame_digit :
    (f k : ℕ) → f < 2 ^ 52 → f % 4096 ≡ 0 → k < 64 → min (bit f k) (1 - bit flags_mask k) ≡ bit f k
frame_digit f k small aligned h = elim (dec_lt k 12) [
  | yes p ↦
      let e : bit f k ≡ 0 =
        sym (bit-mod_low 12 f k p) ∙ ap (λ (t : ℕ). bit t k) aligned ∙ zero-bit k in
      omega arith
  | no p ↦ elim (dec_lt k 52) [
    | yes q ↦ omega (arith, mask_frame k (omega arith) q, bit-le f k)
    | no q ↦ omega (arith, bit_of_lt 52 f k small (omega arith))
  ]
]

entry_of-lt : (f flags : ℕ) → f < 2 ^ 64 → flags < 2 ^ 64 → entry_of (address f) flags < 2 ^ 64
unfolding entry_of
entry_of-lt f flags h g =
    bit_or-lt 64 (bit_and flags flags_mask) (bit_and f (not64 flags_mask))
      (omega (arith, bit_and-le_left 64 flags flags_mask g))
      (omega (arith, bit_and-le_left 64 f (not64 flags_mask) h))

entry_digit :
    (f flags k : ℕ)
    → k < 64
    → bit (entry_of (address f) flags) k
      ≡ max (min (bit flags k) (bit flags_mask k)) (min (bit f k) (1 - bit flags_mask k))
unfolding entry_of
entry_digit f flags k h = omega (
  arith,
  bit-bit_or (bit_and flags flags_mask) (bit_and f (not64 flags_mask)) k,
  bit-bit_and flags flags_mask k,
  bit-bit_and f (not64 flags_mask) k,
  unmask k h,
)

-- The frame that was set is the frame that is read, for a page-aligned physical address below
-- 2 ^ 52 and any flags.
pub get_frame-entry_of :
    (f flags : ℕ)
    → f < 2 ^ 52
    → f % 4096 ≡ 0
    → flags < 2 ^ 64
    → get_frame (entry_of (address f) flags) ≡ address f
unfolding get_frame
get_frame-entry_of f flags small aligned g =
    let raw : ℕ = entry_of (address f) flags in
    let raw-lt : raw < 2 ^ 64 = entry_of-lt f flags (omega arith) g in
    ap address (
      bits_ext 64 (bit_and raw (not64 flags_mask)) f
        (omega (arith, bit_and-le_left 64 raw (not64 flags_mask) raw-lt)) (omega arith)
        λ k h. omega (
          arith,
          bit-bit_and raw (not64 flags_mask) k,
          unmask k h,
          entry_digit f flags k h,
          frame_digit f k small aligned h,
          bit-le flags k,
          bit-le f k,
          bit-le flags_mask k,
        ))

-- Setting an entry keeps exactly the flag bits of the flags, whatever the frame.
pub flags-entry_of :
    (f flags : ℕ)
    → f < 2 ^ 64
    → flags < 2 ^ 64
    → bit_and (entry_of (address f) flags) flags_mask ≡ bit_and flags flags_mask
flags-entry_of f flags h g =
    let raw : ℕ = entry_of (address f) flags in
    bits_ext 64 (bit_and raw flags_mask) (bit_and flags flags_mask)
      (omega (
        arith,
        bit_and-le_left 64 raw flags_mask (entry_of-lt f flags h g),
        entry_of-lt f flags h g,
      ))
      (omega (arith, bit_and-le_left 64 flags flags_mask g))
      λ k kh. omega (
        arith,
        bit-bit_and raw flags_mask k,
        bit-bit_and flags flags_mask k,
        entry_digit f flags k kh,
        bit-le flags k,
        bit-le f k,
        bit-le flags_mask k,
      )

pub is_present_lem : (raw : ℕ) → raw < 2 ^ 64 → is_present raw ≡ not (raw % 2 == 0)
unfolding is_present
is_present_lem raw h = rw (and_low_mask 64 1 raw (omega arith) h)

-- An entry that was set is present exactly when its flags have the `Present` bit.
pub is_present-entry_of :
    (f flags : ℕ)
    → f < 2 ^ 64
    → flags < 2 ^ 64
    → is_present (entry_of (address f) flags) ≡ is_present flags
is_present-entry_of f flags h g =
    let raw : ℕ = entry_of (address f) flags in
    is_present_lem raw (entry_of-lt f flags h g)
    ∙ ap (λ (t : ℕ). not (t == 0)) (low_digit ∙ refl)
    ∙ sym (is_present_lem flags g)
  where
    low_digit : entry_of (address f) flags % 2 ≡ flags % 2
    low_digit =
        unfold bit in omega (arith, entry_digit f flags 0 (omega arith), bit-le f 0, bit-le flags 0)

-- For any address and any flags, the frame that is read is not above the one that was set.
pub get_frame-entry_of_le :
    (f flags : ℕ) → f < 2 ^ 52 → (get_frame (entry_of (address f) flags)).addr ≤ f
unfolding get_frame
get_frame-entry_of_le f flags small =
    let raw : ℕ = entry_of (address f) flags in
    let cut : ℕ = bit_and f (not64 flags_mask) in
    let same : bit_and raw (not64 flags_mask) ≡ cut =
      bits_ext 64 (bit_and raw (not64 flags_mask)) cut
        (omega (arith, bit_and-le_right 64 raw (not64 flags_mask) (omega arith)))
        (omega (arith, bit_and-le_left 64 f (not64 flags_mask) (omega arith)))
        λ k h. omega (
          arith,
          bit-bit_and raw (not64 flags_mask) k,
          bit-bit_and f (not64 flags_mask) k,
          unmask k h,
          entry_digit f flags k h,
          bit-le flags k,
          bit-le f k,
          bit-le flags_mask k,
        ) in
    omega (arith, same, bit_and-le_left 64 f (not64 flags_mask) (omega arith))

-- A frame that is read is page-aligned.
pub get_frame_aligned : (raw : ℕ) → (get_frame raw).addr % 4096 ≡ 0
unfolding get_frame
get_frame_aligned raw =
    let y : ℕ = bit_and raw (not64 flags_mask) in
    bits_ext 12 (y % 2 ^ 12) 0 (omega arith) (omega arith) λ k h.
      let low : bit (not64 flags_mask) k ≡ 0 =
        bit-join_low 12 (2 ^ 40 - 1) 0 k (omega arith) h ∙ zero-bit k in
      omega (arith, bit-mod_low 12 y k h, bit-bit_and raw (not64 flags_mask) k, low, zero-bit k)
