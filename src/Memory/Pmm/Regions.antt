-- ===== src/Memory/Pmm/Regions.antt =====
-- `free_region` of kernel/src/mem/pmm.cpp and the loop over the memory map that calls it.
use epsilon_os.Base.{
  ℕ, zero, suc, ◌+◌, ◌≤◌, ◌≡◌, ◌∙◌, ◌&&◌, ◌||◌, inr, refl, ap, arith, Bool, true, false, List, [],
  ◌∷◌, ok, ltb, leb, if◌then◌else◌, ◌==◌,
}
use native.Mathlib.Decide.{ℕ_discrete}
use epsilon_os.Bitmap.{Bitmap}
use epsilon_os.Bitmap.Laws.{used, IsValid, clear-IsUpdated_lem}
use epsilon_os.Bitmap.Search.{AllUsed}
use epsilon_os.Memory.Pmm.{
  Region, usable, free_frames, free_region, free_usable, frame_count, start_frame,
}

-- `b'` is `b` with the numbers that pass the test freed, and the others as they were.
pub record IsFreed (b : Bitmap) (freed : ℕ → Bool) (b' : Bitmap) : Type 0 where
  pub valid : IsValid b'
  pub bits : (m : ℕ) → used b' m ≡ (if freed m then 0 else used b m)
  pub same_bits : b'.bitsize ≡ b.bitsize
  pub same_bytes : b'.bsize ≡ b.bsize

abbrev pub between : ℕ → ℕ → ℕ → Bool
between lo hi m = leb lo m && ltb m hi

free_frames-IsFreed :
    (left frame : ℕ) (b : Bitmap)
    → IsValid b
    → frame + left ≤ b.bitsize
    → AllUsed b frame (frame + left)
    → (b' : Bitmap) × (free_frames left frame b ≡ ok b')
      × IsFreed b (between frame (frame + left)) b'
unfolding free_frames
free_frames-IsFreed zero frame b v h all =
    (b, refl, record { valid = v; bits = λ m. ground arith; same_bits = refl; same_bytes = refl })
free_frames-IsFreed (suc left) frame b v h all =
    let (c, first, u) =
      clear-IsUpdated_lem b frame true v (omega arith)
        (inr (all frame (omega arith) (omega arith))) in
    let (d, rest, w) =
      free_frames-IsFreed left (frame + 1) c u.valid (omega (arith, u.same_bits))
        (λ m p q. u.others m (omega arith) ∙ all m (omega arith) (omega arith)) in
    (
      d,
      rw first rest,
      record {
        valid = w.valid;
        bits = λ m. elim (ℕ_discrete m frame) [
          | yes e ↦ ground (arith, w.bits m, u.here, ap (used c) e)
          | no ne ↦ ground (arith, w.bits m, u.others m ne)
        ];
        same_bits = w.same_bits ∙ u.same_bits;
        same_bytes = w.same_bytes ∙ u.same_bytes;
      },
    )

-- The frames that `free_region` frees for one entry of the map, and for all.
abbrev pub in_region : Region → ℕ → Bool
in_region r m = r.kind == usable && between (start_frame r) (start_frame r + frame_count r) m

abbrev pub covers : List Region → ℕ → Bool
covers [] m = false
covers (r ∷ rs) m = in_region r m || covers rs m

-- No frame lies in two usable entries.
abbrev pub IsApart : List Region → Type 0
IsApart [] = Unit
IsApart (r ∷ rs) = ((m : ℕ) → in_region r m ≡ true → covers rs m ≡ false) × IsApart rs

-- The usable entries end within the bitmap.
abbrev pub IsWithin : ℕ → List Region → Type 0
IsWithin bits [] = Unit
IsWithin bits (r ∷ rs) = (r.kind ≡ usable → start_frame r + frame_count r ≤ bits) × IsWithin bits rs

free_one :
    (r : Region) (b : Bitmap)
    → IsValid b
    → (r.kind ≡ usable → start_frame r + frame_count r ≤ b.bitsize)
    → ((m : ℕ) → in_region r m ≡ true → used b m ≡ 1)
    → (b' : Bitmap) × ((if r.kind == usable then free_region r b else ok b) ≡ ok b')
      × IsFreed b (in_region r) b'
unfolding free_region
free_one r b v h all = elim (ℕ_discrete r.kind usable) [
  | yes e ↦
      let (c, returns, w) =
        free_frames-IsFreed (frame_count r) (start_frame r) b v (h e)
          (λ m p q. all m (ground arith)) in
      (
        c,
        ground arith,
        record {
          valid = w.valid;
          bits = λ m. ground (arith, w.bits m);
          same_bits = w.same_bits;
          same_bytes = w.same_bytes;
        },
      )
  | no ne ↦ (
    b,
    ground arith,
    record { valid = v; bits = λ m. ground arith; same_bits = refl; same_bytes = refl },
  )
]

pub free_usable-IsFreed :
    (rs : List Region) (b : Bitmap)
    → IsValid b
    → IsApart rs
    → IsWithin b.bitsize rs
    → ((m : ℕ) → covers rs m ≡ true → used b m ≡ 1)
    → (b' : Bitmap) × (free_usable rs b ≡ ok b') × IsFreed b (covers rs) b'
unfolding free_usable
free_usable-IsFreed [] b v apart within all =
    (b, refl, record { valid = v; bits = λ m. refl; same_bits = refl; same_bytes = refl })
free_usable-IsFreed (r ∷ rs) b v apart within all =
    let (c, first, u) = free_one r b v within.0 (λ m p. all m (ground arith)) in
    let (d, rest, w) =
      free_usable-IsFreed rs c u.valid apart.1 (rw u.same_bits within.1)
        (λ m p. ground (arith, u.bits m, all m, apart.0 m)) in
    (
      d,
      rw first rest,
      record {
        valid = w.valid;
        bits = λ m. ground (arith, w.bits m, u.bits m);
        same_bits = w.same_bits ∙ u.same_bits;
        same_bytes = w.same_bytes ∙ u.same_bytes;
      },
    )
