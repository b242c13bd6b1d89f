-- ===== src/Memory/Pmm/Start.antt =====
-- `init` of kernel/src/mem/pmm.cpp: what is free, and what is in use, when the manager starts.
use epsilon_os.Base.{
  ℕ, zero, suc, ◌+◌, ◌-◌, ◌*◌, ◌/◌, ◌%◌, ◌^◌, ◌≤◌, ◌<◌, ◌≡◌, ◌∙◌, ◌↔◌, ◌&&◌, inl, inr, refl, sym,
  arith, true, List, [], ◌∷◌, ok, stop, panic, Option, none, some, get_elem?, set, subst, leb,
  if◌then◌else◌, ◌==◌, length-replicate, get_or-replicate, get_or-beyond, replicate, u64_max,
  Option-cases,
}
use native.Mathlib.Decide.{dec_lt}
use epsilon_os.Base.Bits.{bit-ones}
use epsilon_os.Bitmap
use epsilon_os.Bitmap.{Bitmap}
use epsilon_os.Bitmap.Laws.{used, IsValid}
use epsilon_os.Memory.Pmm.{
  Pmm, Region, usable, find_physical_entry, carve, bitmap_bytes, highest_end, all_used, free_usable,
}
use epsilon_os.Memory.Pmm
use epsilon_os.Memory.Pmm.Frames.{IsReady, in_use}
use epsilon_os.Memory.Pmm.Regions.{IsFreed, covers, free_usable-IsFreed}
use epsilon_os.Memory.Pmm.Maps.{
  IsMap, IsTidy, All, EndsBy, Shrinks, has_frame, covers_lem, IsMap-IsApart, highest_end-EndsBy,
  highest_end-bound, bitmap_bytes_lem, find_physical_entry_lem, IsMap-shrink, EndsBy-shrink,
  IsWithin-EndsBy,
}

-- The bytes that the bitmap of a map takes, and the entry that gives it its storage.
abbrev pub storage_bytes : List Region → ℕ
storage_bytes rs = bitmap_bytes (highest_end 0 rs)

abbrev pub storage_entry : List Region → Option (ℕ × Region)
storage_entry rs = find_physical_entry (λ r. r.kind == usable && leb (storage_bytes rs) r.size) 0 rs

all_used-IsValid : (w : ℕ) → w < 2 ^ 50 → IsValid (all_used (8 * w))
unfolding all_used Bitmap.init
all_used-IsValid w h =
    let q : 8 * w / 8 ≡ w = omega arith in
    record {
      whole = rw q (length-replicate w u64_max);
      sized = omega arith;
      full = refl;
      words = λ i. rw q (elim (dec_lt i w) [
        | yes p ↦ rw (get_or-replicate w i u64_max 0 p) (omega arith)
        | no p ↦
            rw (get_or-beyond (replicate w u64_max) i 0 (omega (arith, length-replicate w u64_max)))
              (omega arith)
      ]);
    }

bitsize-all_used : (w : ℕ) → w < 2 ^ 50 → (all_used (8 * w)).bitsize ≡ 64 * w
unfolding all_used Bitmap.init
bitsize-all_used w h = omega arith

used-all_used : (w m : ℕ) → m < 64 * w → used (all_used (8 * w)) m ≡ 1
unfolding all_used Bitmap.init
used-all_used w m h =
    let q : 8 * w / 8 ≡ w = omega arith in
    rw (q, get_or-replicate w (m / 64) u64_max 0 (omega arith)) (bit-ones 64 (m % 64) (omega arith))

carve-Shrinks :
    (n : ℕ) (r : Region)
    → n ≤ r.size
    → r.base + r.size ≤ 2 ^ 52
    → Shrinks r (carve n r) × ((carve n r).base ≡ r.base + n)
unfolding carve
carve-Shrinks n r h b = ((refl, omega arith, omega arith), omega arith)

pub All-get {ℓ} :
    (P : Region → Type ℓ) (rs : List Region) (i : ℕ) (r : Region)
    → get_elem? rs i ≡ some r
    → All P rs
    → P r
All-get P [] i r e a = absurd (cc)
All-get P (t ∷ rs) zero r e a = let f : t ≡ r = cc in subst P f a.0
All-get P (t ∷ rs) (suc i) r e a = All-get P rs i r e a.1

IsMap-get : (rs : List Region) (i : ℕ) (r : Region) → get_elem? rs i ≡ some r → IsMap rs → IsTidy r
IsMap-get [] i r e m = absurd (cc)
IsMap-get (t ∷ rs) zero r e m = let f : t ≡ r = cc in subst IsTidy f m.0
IsMap-get (t ∷ rs) (suc i) r e m = IsMap-get rs i r e m.2

has_frame-EndsBy :
    (rs : List Region) (e m : ℕ) → All (EndsBy e) rs → has_frame rs m ≡ true → m * 4096 + 4096 ≤ e
has_frame-EndsBy [] e m a h = absurd (cc)
has_frame-EndsBy (r ∷ rs) e m a h = ground (arith, a.0, has_frame-EndsBy rs e m a.1)

-- The usable entries end within `bits` frames.
abbrev pub EndsWithin : ℕ → Region → Type 0
EndsWithin bits s = s.kind ≡ usable → s.base + s.size ≤ bits * 4096

ends_within :
    (rs : List Region) (e bits : ℕ)
    → IsMap rs
    → All (EndsBy e) rs
    → e / 4096 ≤ bits
    → All (EndsWithin bits) rs
ends_within [] e bits m a h = tt
ends_within (r ∷ rs) e bits m a h =
    ((λ u. omega (arith, a.0 u, m.0 u)), ends_within rs e bits m.2 a.1 h)

-- The state that `init` leaves: the map with the bitmap's entry shrunk, and of the frames that the
-- bitmap counts, free are those that lie whole in a usable entry of that map.
pub record IsStarted (rs : List Region) (i : ℕ) (r : Region) (p : Pmm) : Type 0 where
  pub ready : IsReady p
  pub memmap : p.memmap ≡ set rs i (carve (storage_bytes rs) r)
  pub frames : (m : ℕ) → m < p.bitmap.bitsize → in_use p m ≡ (if has_frame p.memmap m then 0 else 1)
  pub reaches : All (EndsWithin p.bitmap.bitsize) rs
  pub bits : p.bitmap.bitsize ≡ 64 * ((highest_end 0 rs / 4096 + 63) / 64)

-- The number of entries that the bitmap gets.
abbrev words : List Region → ℕ
words rs = (highest_end 0 rs / 4096 + 63) / 64

init_ok :
    (rs : List Region) (i : ℕ) (r : Region) (b : Bitmap)
    → storage_entry rs ≡ some (i, r)
    → free_usable (set rs i (carve (storage_bytes rs) r)) (all_used (storage_bytes rs)) ≡ ok b
    → Pmm.init rs ≡ ok (record { bitmap = b; memmap = set rs i (carve (storage_bytes rs) r) })
unfolding Pmm.init
init_ok rs i r b found freed = rw (found, freed)

module _ (rs : List Region) (i : ℕ) (r : Region) (m : IsMap rs)
    (found : storage_entry rs ≡ some (i, r)) where
  end_bound : highest_end 0 rs ≤ 2 ^ 52
  end_bound = highest_end-bound 0 rs m (omega arith)

  bytes : storage_bytes rs ≡ 8 * words rs
  bytes = bitmap_bytes_lem (highest_end 0 rs) end_bound

  pub at_index : (get_elem? rs i ≡ some r) × (r.kind ≡ usable) × (storage_bytes rs ≤ r.size)
  at_index =
      let f =
        find_physical_entry_lem (λ s. s.kind == usable && leb (storage_bytes rs) s.size) 0 rs i r
          found in
      let z : i - 0 ≡ i = omega arith in (rw z at (f.1), ground (arith, f.2), ground (arith, f.2))

  pub shrinks :
      Shrinks r (carve (storage_bytes rs) r)
      × ((carve (storage_bytes rs) r).base ≡ r.base + storage_bytes rs)
  shrinks =
      carve-Shrinks (storage_bytes rs) r at_index.2 (IsMap-get rs i r at_index.0 m at_index.1).0

  abbrev carved : List Region
  carved = set rs i (carve (storage_bytes rs) r)

  pub carved-IsMap : IsMap carved
  carved-IsMap = IsMap-shrink rs i r (carve (storage_bytes rs) r) at_index.0 shrinks.0 m

  ends : All (EndsBy (highest_end 0 rs)) carved
  ends =
      EndsBy-shrink rs i (highest_end 0 rs) r (carve (storage_bytes rs) r) at_index.0 shrinks.0
        (highest_end-EndsBy 0 rs m)

  bits : (all_used (storage_bytes rs)).bitsize ≡ 64 * words rs
  bits = rw bytes (bitsize-all_used (words rs) (omega (arith, end_bound)))

  used-start : (k : ℕ) → k < 64 * words rs → used (all_used (storage_bytes rs)) k ≡ 1
  used-start k h = rw bytes (used-all_used (words rs) k h)

  frees :
      (b : Bitmap) × (free_usable carved (all_used (storage_bytes rs)) ≡ ok b)
      × IsFreed (all_used (storage_bytes rs)) (covers carved) b
  frees =
      free_usable-IsFreed carved (all_used (storage_bytes rs))
        (rw bytes (all_used-IsValid (words rs) (omega (arith, end_bound))))
        (IsMap-IsApart carved carved-IsMap)
        (IsWithin-EndsBy carved (highest_end 0 rs) (all_used (storage_bytes rs)).bitsize end_bound
          (omega (arith, bits)) carved-IsMap ends)
        (λ k p. used-start k (
          omega (
            arith,
            has_frame-EndsBy carved (highest_end 0 rs) k ends
                (sym (covers_lem carved k carved-IsMap) ∙ p),
          )))

  -- With a memory map as the boot protocol promises it and room for the bitmap in some usable
  -- entry, `init` returns a ready manager whose bitmap reaches the end of every usable entry and
  -- has as many bits as it has to, in whole words, and in which a frame is free exactly when it lies whole in a usable entry of the map left.
  pub init-IsStarted : (p : Pmm) × (Pmm.init rs ≡ ok p) × IsStarted rs i r p
  init-IsStarted =
      let (b, returns, f) = frees in
      (
        record { bitmap = b; memmap = carved },
        init_ok rs i r b found returns,
        record {
          ready = record { bitmap = f.valid; fits = omega (arith, f.same_bits, bits, end_bound) };
          memmap = refl;
          frames = λ k h. ground (
            arith,
            f.bits k,
            covers_lem carved k carved-IsMap,
            used-start k (omega (arith, f.same_bits, bits)),
          );
          reaches =
              ends_within rs (highest_end 0 rs) b.bitsize m (highest_end-EndsBy 0 rs m)
                (omega (arith, f.same_bits, bits));
          bits = omega (arith, f.same_bits, bits);
        },
      )

-- `init` panics when no usable entry has room for the bitmap.
init-panic : (rs : List Region) → storage_entry rs ≡ none → Pmm.init rs ≡ stop panic
unfolding Pmm.init
init-panic rs e = rw e

pub init-panic_iff :
    (rs : List Region) → IsMap rs → (Pmm.init rs ≡ stop panic) ↔ (storage_entry rs ≡ none)
init-panic_iff rs m = (
  λ h. elim (Option-cases (storage_entry rs)) [
    | inl e ↦ e
    | inr ((i, r), e) ↦ let (p, returns, _) = init-IsStarted rs i r m e in cc
  ],
  init-panic rs,
)
