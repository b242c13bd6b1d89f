-- ===== src/Bitmap/Canonical.antt =====
-- A valid bitmap is determined by its size and its numbered bits: the array holds nothing else.
use epsilon_os.Base.{
  ℕ, suc, ◌+◌, ◌*◌, ◌/◌, ◌%◌, ◌≡◌, ◌∙◌, refl, sym, ap₂, arith, List, [], ◌∷◌, length, get_or,
}
use epsilon_os.Base.Bits.{bits_ext}
use epsilon_os.Bitmap.{Bitmap}
use epsilon_os.Bitmap.Laws.{used, IsValid}

cells_ext :
    (xs ys : List ℕ) → length xs ≡ length ys → ((i : ℕ) → get_or xs i 0 ≡ get_or ys i 0) → xs ≡ ys
cells_ext [] [] e h = refl
cells_ext [] (y ∷ ys) e h = absurd (omega arith)
cells_ext (x ∷ xs) [] e h = absurd (omega arith)
cells_ext (x ∷ xs) (y ∷ ys) e h = ap₂ ◌∷◌ (h 0) (cells_ext xs ys (omega arith) (λ i. h (suc i)))

module _ {a b : Bitmap} (v : IsValid a) (w : IsValid b) where
  same_cell : ((m : ℕ) → used a m ≡ used b m) → (i : ℕ) → get_or a.cells i 0 ≡ get_or b.cells i 0
  same_cell h i =
      bits_ext 64 (get_or a.cells i 0) (get_or b.cells i 0) (v.words i) (w.words i) λ k hk.
        let q : (i * 64 + k) / 64 ≡ i = omega arith in
        let r : (i * 64 + k) % 64 ≡ k = omega arith in let e = h (i * 64 + k) in rw (q, r) at e

  -- Two valid bitmaps of one size with the same bits are equal.
  pub Bitmap_ext :
      a.bitsize ≡ b.bitsize → a.bsize ≡ b.bsize → ((m : ℕ) → used a m ≡ used b m) → a ≡ b
  Bitmap_ext bits bytes h =
      let entries : a.entries ≡ b.entries = omega (arith, v.sized, w.sized) in
      let cells : a.cells ≡ b.cells =
        cells_ext a.cells b.cells (v.whole ∙ entries ∙ sym w.whole) (same_cell h) in
      let full : a.max_value ≡ b.max_value = v.full ∙ sym w.full in
      λ i. record {
        cells = cells i;
        max_value = full i;
        bsize = bytes i;
        bitsize = bits i;
        entries = entries i;
      }
