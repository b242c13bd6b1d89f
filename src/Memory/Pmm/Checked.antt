-- ===== src/Memory/Pmm/Checked.antt =====
-- The callers of `allocate_frame` of kernel/src/mem/pmm.cpp that panic when they get no frame.
use epsilon_os.Base.{
  ℕ, zero, suc, ◌+◌, ◌-◌, ◌*◌, ◌≤◌, ◌<◌, ◌≡◌, ◌∙◌, refl, sym, ap, arith, inl, inr, true, false, not,
  ◌||◌, Result, ok, stop, panic, ◌>>=◌, PanicsIf, >>=-PanicsIf, ltb, if◌then◌else◌, subst,
}
use native.Mathlib.Decide.{ℕ_discrete}
use epsilon_os.Bitmap.Search.{AllUsed}
use epsilon_os.Memory.Address.{Address, address, is_page_aligned}
use epsilon_os.Memory.Pmm.{Pmm, allocate_frame}
use epsilon_os.Memory.Pmm.Frames.{
  IsReady, IsMarked, in_use, Allocates, allocate_frame-Allocates, is_page_aligned_lem,
}

-- The number of frames below `n` that are free.
abbrev pub free_below : Pmm → ℕ → ℕ
free_below p zero = 0
free_below p (suc n) = free_below p n + (1 - in_use p n)

abbrev pub free_count : Pmm → ℕ
free_count p = free_below p p.bitmap.bitsize

free_below-taken :
    (p p' : Pmm) (n k : ℕ)
    → in_use p n ≡ 0
    → IsMarked p n 1 p'
    → free_below p k ≡ free_below p' k + (if ltb n k then 1 else 0)
free_below-taken p p' n zero free m = ground arith
free_below-taken p p' n (suc k) free m =
    let rest = free_below-taken p p' n k free m in
    elim (ℕ_discrete k n) [
      | yes e ↦ ground (arith, rest, ap (in_use p) e, ap (in_use p') e, m.frame)
      | no ne ↦ ground (arith, rest, m.others k ne)
    ]

-- A frame that is taken was one of the free ones.
pub free_count-taken :
    (p p' : Pmm) (n : ℕ)
    → n < p.bitmap.bitsize
    → in_use p n ≡ 0
    → IsMarked p n 1 p'
    → free_count p ≡ suc (free_count p')
free_count-taken p p' n below free m =
    let all : free_below p' p'.bitmap.bitsize ≡ free_below p' p.bitmap.bitsize =
      ap (free_below p') m.same_bits in
    ground (arith, free_below-taken p p' n p.bitmap.bitsize free m, all)

free_below-none :
    (p : Pmm) (k : ℕ)
    → k ≤ p.bitmap.bitsize
    → AllUsed p.bitmap 0 p.bitmap.bitsize
    → free_below p k ≡ 0
free_below-none p zero h all = refl
free_below-none p (suc k) h all =
    omega (arith, free_below-none p k (omega arith) all, all k (omega arith) (omega arith))

allocated :
    (p : Pmm) (r : Result (Address × Pmm)) → Allocates p r → PanicsIf ⊥ (λ r. Allocates p (ok r)) r
allocated p (ok r) h = h
allocated p (stop _) h = elim h [ ]

-- What follows is run with a frame that was free; a panic before means that no frame is free.
pub allocate_frame-checked :
    {B : Type 0} (N : Type 0) (P : B → Type 0) (p : Pmm) (next : Address × Pmm → Result B)
    → IsReady p
    → (free_count p ≡ 0 → N)
    → ((n : ℕ) (p' : Pmm)
        → n < p.bitmap.bitsize
        → in_use p n ≡ 0
        → IsMarked p n 1 p'
        → PanicsIf N P (next (address (n * 4096), p')))
    → PanicsIf N P (
        allocate_frame p >>= λ r.
        if r.0.is_null || not (is_page_aligned (r.0)) then stop panic else next r)
allocate_frame-checked N P p next ready panics then_ =
    >>=-PanicsIf ⊥ N (λ r. Allocates p (ok r)) P (allocate_frame p) _
      (allocated p (allocate_frame p) (allocate_frame-Allocates p ready)) (λ h. elim h [ ])
      λ r took. elim took [
        | inl (null, _, all) ↦
            let bad : (r.0.is_null || not (is_page_aligned (r.0))) ≡ true =
              ap (λ (a : Address). a.is_null || not (is_page_aligned a)) null in
            rw bad (panics (free_below-none p p.bitmap.bitsize (omega arith) all))
        | inr (n, inside, at, free, _, m) ↦
            let good : (r.0.is_null || not (is_page_aligned (r.0))) ≡ false =
              ap (λ (a : Address). a.is_null || not (is_page_aligned a)) at
              ∙ ap not
                  ((is_page_aligned_lem (n * 4096) (omega (arith, ready.fits))).1 (omega arith)) in
            rw good (
              subst (λ (a : Address). PanicsIf N P (next (a, r.1))) (sym at)
                (then_ n (r.1) inside free m))
      ]

some_taken :
    (p : Pmm) (r : Result (Address × Pmm))
    → allocate_frame p ≡ r
    → Allocates p r
    → 0 < free_count p
    → (n : ℕ) × (p' : Pmm) × (allocate_frame p ≡ ok (address (n * 4096), p'))
      × (n < p.bitmap.bitsize)
      × (in_use p n ≡ 0)
      × IsMarked p n 1 p'
some_taken p (ok (a, p')) e (inl (null, _, all)) few =
    absurd (omega (arith, free_below-none p p.bitmap.bitsize (omega arith) all))
some_taken p (ok (a, p')) e (inr (n, inside, at, free, _, m)) few =
    (n, p', e ∙ ap (λ (b : Address). ok (b, p')) at, inside, free, m)
some_taken p (stop _) e h few = elim h [ ]

-- Where a frame is free, `allocate_frame` gives one.
pub allocate_frame-some :
    (p : Pmm)
    → IsReady p
    → 0 < free_count p
    → (n : ℕ) × (p' : Pmm) × (allocate_frame p ≡ ok (address (n * 4096), p'))
      × (n < p.bitmap.bitsize)
      × (in_use p n ≡ 0)
      × IsMarked p n 1 p'
allocate_frame-some p ready =
    some_taken p (allocate_frame p) refl (allocate_frame-Allocates p ready)
