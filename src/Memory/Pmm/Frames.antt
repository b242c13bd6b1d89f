-- ===== src/Memory/Pmm/Frames.antt =====
-- `allocate_frame` and `release_frame` of kernel/src/mem/pmm.cpp.
use epsilon_os.Base.{
  ℕ, ◌*◌, ◌/◌, ◌%◌, ◌^◌, ◌≤◌, ◌<◌, ◌≡◌, ◌≢◌, ◌∙◌, ◌⊎◌, ◌↔◌, inl, inr, refl, sym, ap, arith, true,
  false, Result, ok, stop, panic, Option, none, some, ◌>>=◌, subst,
}
use epsilon_os.Base.Bits.{bit-le}
use epsilon_os.Base.Masks.{and_low_mask}
use epsilon_os.Bitmap.{Bitmap, find_set}
use epsilon_os.Bitmap.Laws.{used, IsValid, clear-IsUpdated_lem, clear-panic_iff}
use native.Mathlib.Decide.{ℕ_discrete}
use epsilon_os.Bitmap.Canonical.{Bitmap_ext}
use epsilon_os.Bitmap.Search.{AllUsed, Finds, find_set-Finds}
use epsilon_os.Memory.Address.{Address, address, null_address, is_page_aligned}
use epsilon_os.Memory.Pmm.{Pmm, allocate_frame, release_frame}

-- A manager whose bitmap is valid and whose frames have 64-bit addresses.
pub record IsReady (p : Pmm) : Type 0 where
  pub bitmap : IsValid p.bitmap
  pub fits : p.bitmap.bitsize ≤ 2 ^ 52

-- Whether a frame is in use.
abbrev pub in_use : Pmm → ℕ → ℕ
in_use p n = used p.bitmap n

pub in_use-le : (p : Pmm) (n : ℕ) → in_use p n ≤ 1
in_use-le p n = bit-le _ _

-- `p'` is `p` with the frame `n` now in use (`v = 1`) or free (`v = 0`), and nothing else changed.
pub record IsMarked (p : Pmm) (n v : ℕ) (p' : Pmm) : Type 0 where
  pub ready : IsReady p'
  pub frame : in_use p' n ≡ v
  pub others : (m : ℕ) → m ≢ n → in_use p' m ≡ in_use p m
  pub same_memmap : p'.memmap ≡ p.memmap
  pub same_bits : p'.bitmap.bitsize ≡ p.bitmap.bitsize
  pub same_bytes : p'.bitmap.bsize ≡ p.bitmap.bsize

-- An allocation takes the lowest free frame, or finds none free and changes nothing.
abbrev pub Allocates : Pmm → Result (Address × Pmm) → Type 0
Allocates p (ok (a, p')) =
    ((a ≡ null_address) × (p' ≡ p) × AllUsed p.bitmap 0 p.bitmap.bitsize)
    ⊎ ((n : ℕ) × (n < p.bitmap.bitsize)
        × (a ≡ address (n * 4096))
        × (in_use p n ≡ 0)
        × AllUsed p.bitmap 0 n
        × IsMarked p n 1 p')
Allocates p (stop _) = ⊥

allocated : Pmm → Result (Option ℕ × Bitmap) → Result (Address × Pmm)
allocated p m = m >>= λ r. elim (r.0) [
  | none ↦ ok (null_address, record p { bitmap = r.1 })
  | some num ↦ ok (address ((num * 4096) % 2 ^ 64), record p { bitmap = r.1 })
]

allocated-Allocates :
    (p : Pmm) (r : Result (Option ℕ × Bitmap))
    → IsReady p
    → Finds p.bitmap 0 r
    → Allocates p (allocated p r)
unfolding allocated
allocated-Allocates p (ok (none, b)) v f = inl (refl, ap (λ t. record p { bitmap = t }) f.0, f.1)
allocated-Allocates p (ok (some n, b)) v f =
    let e : (n * 4096) % 2 ^ 64 ≡ n * 4096 = omega (arith, v.fits) in
    inr (
      n,
      f.1,
      ap address e,
      f.2,
      f.3,
      record {
        ready = record { bitmap = f.4.valid; fits = omega (arith, v.fits, f.4.same_bits) };
        frame = f.4.here;
        others = f.4.others;
        same_memmap = refl;
        same_bits = f.4.same_bits;
        same_bytes = f.4.same_bytes;
      },
    )
allocated-Allocates p (stop s) v f = absurd f

-- `allocate_frame` on a ready manager returns the page-aligned address of the lowest free frame,
-- which is now in use while every other frame is as before; when no frame is free it returns the
-- null address and changes nothing. It never panics.
pub allocate_frame-Allocates : (p : Pmm) → IsReady p → Allocates p (allocate_frame p)
unfolding allocate_frame allocated
allocate_frame-Allocates p v =
    allocated-Allocates p (find_set p.bitmap) v (find_set-Finds p.bitmap v.bitmap)

pub is_page_aligned_lem : (a : ℕ) → a < 2 ^ 64 → is_page_aligned (address a) ≡ true ↔ (a % 4096 ≡ 0)
unfolding is_page_aligned
is_page_aligned_lem a h = ground (arith, and_low_mask 64 12 a (omega arith) h)

-- `release_frame` on a ready manager, for the address of a frame in use, frees that frame and
-- leaves every other frame as it was.
pub release_frame-IsMarked :
    (p : Pmm) (n : ℕ)
    → IsReady p
    → n < p.bitmap.bitsize
    → in_use p n ≡ 1
    → (p' : Pmm) × (release_frame p (address (n * 4096)) ≡ ok p') × IsMarked p n 0 p'
unfolding release_frame
release_frame-IsMarked p n v h taken =
    let (b, returns, u) = clear-IsUpdated_lem p.bitmap n true v.bitmap h (inr taken) in
    let aligned = (is_page_aligned_lem (n * 4096) (omega (arith, v.fits))).1 (omega arith) in
    let q : n * 4096 / 4096 ≡ n = omega arith in
    (
      record p { bitmap = b },
      rw (aligned, q, returns) refl,
      record {
        ready = record { bitmap = u.valid; fits = omega (arith, v.fits, u.same_bits) };
        frame = u.here;
        others = u.others;
        same_memmap = refl;
        same_bits = u.same_bits;
        same_bytes = u.same_bytes;
      },
    )

-- `release_frame` panics exactly on an address that is not page-aligned, on one beyond the
-- bitmap, and on one whose frame is free already.
pub release_frame-panic_iff :
    (p : Pmm) (a : ℕ)
    → IsReady p
    → a < 2 ^ 64
    → (release_frame p (address a) ≡ stop panic)
      ↔ ((a % 4096 ≢ 0) ⊎ ((p.bitmap.bitsize ≤ a / 4096) ⊎ (in_use p (a / 4096) ≡ 0)))
unfolding release_frame
release_frame-panic_iff p a v h =
    ground (arith, is_page_aligned_lem a h, clear-panic_iff p.bitmap (a / 4096) true v.bitmap)

restored :
    {p p' q : Pmm} (n : ℕ)
    → IsReady p
    → in_use p n ≡ 0
    → IsMarked p n 1 p'
    → IsMarked p' n 0 q
    → q ≡ p
restored {p} {p'} {q} n v free m k =
    let bits : (i : ℕ) → in_use q i ≡ in_use p i = λ i. elim (ℕ_discrete i n) [
      | yes e ↦ rw e (k.frame ∙ sym free)
      | no ne ↦ k.others i ne ∙ m.others i ne
    ] in
    let bitmap : q.bitmap ≡ p.bitmap =
      Bitmap_ext k.ready.bitmap v.bitmap (k.same_bits ∙ m.same_bits) (k.same_bytes ∙ m.same_bytes)
        bits in
    let memmap : q.memmap ≡ p.memmap = k.same_memmap ∙ m.same_memmap in
    λ i. record { bitmap = bitmap i; memmap = memmap i }

-- Releasing the frame just allocated gives the manager back as it was before.
pub release_frame-allocate_frame :
    (p p' : Pmm) (a : Address)
    → IsReady p
    → allocate_frame p ≡ ok (a, p')
    → a.is_null ≡ false
    → release_frame p' a ≡ ok p
release_frame-allocate_frame p p' a v e live =
    elim (subst (Allocates p) e (allocate_frame-Allocates p v)) [
      | inl (null, _, _) ↦ cc
      | inr (n, below, at, free, _, m) ↦
          let (q, returns, k) =
            release_frame-IsMarked p' n m.ready (omega (arith, m.same_bits)) m.frame in
          rw (at, returns) (ap ok (restored n v free m k))
    ]
