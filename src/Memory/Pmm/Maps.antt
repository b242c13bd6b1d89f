-- ===== src/Memory/Pmm/Maps.antt =====
-- The memory map that the bootloader hands over, as kernel/src/mem/pmm.cpp reads it: its usable
-- entries in frames, and what carving the bitmap out of one of them leaves.
use epsilon_os.Base.{
  ℕ, zero, suc, ◌+◌, ◌-◌, ◌*◌, ◌/◌, ◌%◌, ◌^◌, ◌≤◌, ◌≡◌, ◌∙◌, ◌⊎◌, ◌&&◌, ◌||◌, inl, inr, refl, sym,
  ap, ap₂, arith, Bool, true, false, List, [], ◌∷◌, Option, some, get_elem?, set, round_down, ltb,
  leb, if◌then◌else◌, ◌==◌, Bool-cases,
}
use native.Mathlib.Decide.{ℕ_discrete}
use epsilon_os.Base.Masks.{round_down_lem, round_up_lem}
use epsilon_os.Memory.Pmm.{
  Region, usable, frame_count, start_frame, highest_end, find_physical_entry, bitmap_bytes,
}
use epsilon_os.Memory.Pmm.Regions.{in_region, covers, IsApart, IsWithin}

-- A usable entry ends on a page boundary, and within the 52 bits of a physical address.
-- (The bootloader aligns both ends; the code needs no more than this.)
abbrev pub IsTidy : Region → Type 0
IsTidy r = r.kind ≡ usable → (r.base + r.size ≤ 2 ^ 52) × ((r.base + r.size) % 4096 ≡ 0)

-- Two usable entries have no byte in common.
abbrev pub IsDisjoint : Region → Region → Type 0
IsDisjoint r s =
    r.kind ≡ usable → s.kind ≡ usable → (r.base + r.size ≤ s.base) ⊎ (s.base + s.size ≤ r.base)

abbrev pub All {ℓ} : (Region → Type ℓ) → List Region → Type ℓ
All P [] = Unit
All P (r ∷ rs) = P r × All P rs

-- What the boot protocol promises of the map.
abbrev pub IsMap : List Region → Type 0
IsMap [] = Unit
IsMap (r ∷ rs) = IsTidy r × All (IsDisjoint r) rs × IsMap rs

-- The frame `m` lies whole in a usable entry.
abbrev pub holds_frame : Region → ℕ → Bool
holds_frame r m =
    r.kind == usable && leb r.base (m * 4096) && leb (m * 4096 + 4096) (r.base + r.size)

abbrev pub has_frame : List Region → ℕ → Bool
has_frame [] m = false
has_frame (r ∷ rs) m = holds_frame r m || has_frame rs m

start_frame_lem : (r : Region) → r.base ≤ 2 ^ 52 → start_frame r ≡ (r.base + 4095) / 4096
unfolding start_frame
start_frame_lem r h = omega (arith, round_up_lem 12 r.base (omega arith) (omega arith))

frame_count_lem : (r : Region) → r.size ≤ 2 ^ 52 → frame_count r ≡ r.size / 4096
unfolding frame_count
frame_count_lem r h = omega (arith, round_down_lem 12 r.size (omega arith) (omega arith))

in_region_lem : (r : Region) (m : ℕ) → IsTidy r → in_region r m ≡ holds_frame r m
in_region_lem r m t = elim (ℕ_discrete r.kind usable) [
  | yes e ↦
      ground
        (arith, t e, start_frame_lem r (omega (arith, t e)), frame_count_lem r (omega (arith, t e)))
  | no ne ↦ ground arith
]

pub covers_lem : (rs : List Region) (m : ℕ) → IsMap rs → covers rs m ≡ has_frame rs m
covers_lem [] m h = refl
covers_lem (r ∷ rs) m h = ap₂ ◌||◌ (in_region_lem r m h.0) (covers_lem rs m h.2)

apart_frames :
    (r : Region) (rs : List Region) (m : ℕ)
    → All (IsDisjoint r) rs
    → holds_frame r m ≡ true
    → has_frame rs m ≡ false
apart_frames r [] m d h = refl
apart_frames r (s ∷ rs) m d h = ground (arith, d.0, apart_frames r rs m d.1)

pub IsMap-IsApart : (rs : List Region) → IsMap rs → IsApart rs
IsMap-IsApart [] h = tt
IsMap-IsApart (r ∷ rs) h = (
  λ m p. covers_lem rs m h.2 ∙ apart_frames r rs m h.1 (sym (in_region_lem r m h.0) ∙ p),
  IsMap-IsApart rs h.2,
)

-- `highest_end` is an upper bound of the usable ends.
abbrev pub EndsBy : ℕ → Region → Type 0
EndsBy e r = r.kind ≡ usable → r.base + r.size ≤ e

highest_end-le : (e : ℕ) (rs : List Region) → e ≤ highest_end e rs
unfolding highest_end
highest_end-le e [] = omega arith
highest_end-le e (r ∷ rs) = ground (
  arith,
  highest_end-le
      (if r.kind == usable && ltb e ((r.base + r.size) % 2 ^ 64)
        then (r.base + r.size) % 2 ^ 64
        else e)
      rs,
)

pub highest_end-EndsBy : (e : ℕ) (rs : List Region) → IsMap rs → All (EndsBy (highest_end e rs)) rs
unfolding highest_end
highest_end-EndsBy e [] h = tt
highest_end-EndsBy e (r ∷ rs) h =
    let e' : ℕ =
      if r.kind == usable && ltb e ((r.base + r.size) % 2 ^ 64)
      then (r.base + r.size) % 2 ^ 64
      else e in
    (λ u. ground (arith, highest_end-le e' rs, h.0 u), highest_end-EndsBy e' rs h.2)

pub highest_end-bound :
    (e : ℕ) (rs : List Region) → IsMap rs → e ≤ 2 ^ 52 → highest_end e rs ≤ 2 ^ 52
unfolding highest_end
highest_end-bound e [] h b = b
highest_end-bound e (r ∷ rs) h b =
    highest_end-bound
      (if r.kind == usable && ltb e ((r.base + r.size) % 2 ^ 64)
        then (r.base + r.size) % 2 ^ 64
        else e)
      rs h.2
      (elim (ℕ_discrete r.kind usable) [ yes u ↦ ground (arith, h.0 u) | no n ↦ ground arith ])

pub bitmap_bytes_lem : (e : ℕ) → e ≤ 2 ^ 52 → bitmap_bytes e ≡ 8 * ((e / 4096 + 63) / 64)
unfolding bitmap_bytes
bitmap_bytes_lem e h =
    let down : round_down e 4096 / 4096 ≡ e / 4096 =
      omega (arith, round_down_lem 12 e (omega arith) (omega arith)) in
    rw down (omega (arith, round_up_lem 6 (e / 4096) (omega arith) (omega arith)))

-- `find_physical_entry` finds an entry of the list that passes the test.
pub find_physical_entry_lem :
    (test : Region → Bool) (k : ℕ) (rs : List Region) (i : ℕ) (r : Region)
    → find_physical_entry test k rs ≡ some (i, r)
    → (k ≤ i) × (get_elem? rs (i - k) ≡ some r) × (test r ≡ true)
unfolding find_physical_entry
find_physical_entry_lem test k [] i r h = absurd (cc)
find_physical_entry_lem test k (s ∷ rs) i r h = elim (Bool-cases (test s)) [
  | inl t ↦
      let h' : ◌≡◌ {A = Option (ℕ × Region)} (some (k, s)) (some (i, r)) = rw t at h in
      let same_index : k ≡ i = cc in
      let same_entry : s ≡ r = cc in
      let z : i - k ≡ 0 = omega arith in
      (omega arith, rw z (ap some same_entry), rw (← same_entry) t)
  | inr f ↦
      let rest = find_physical_entry_lem test (k + 1) rs i r (rw f at h) in
      let e : i - k ≡ suc (i - (k + 1)) = omega (arith, rest.0) in
      (omega (arith, rest.0), rw e rest.1, rest.2)
]

-- An entry that shrinks from below keeps what the map promises.
abbrev pub Shrinks : Region → Region → Type 0
Shrinks r s = (s.kind ≡ r.kind) × (r.base ≤ s.base) × (s.base + s.size ≡ r.base + r.size)

IsDisjoint-shrink : (q r s : Region) → Shrinks r s → IsDisjoint q r → IsDisjoint q s
IsDisjoint-shrink q r s h d u w = ground (arith, d u)

All-shrink :
    (q : Region) (rs : List Region) (i : ℕ) (r s : Region)
    → get_elem? rs i ≡ some r
    → Shrinks r s
    → All (IsDisjoint q) rs
    → All (IsDisjoint q) (set rs i s)
All-shrink q [] i r s e h d = tt
All-shrink q (t ∷ rs) zero r s e h d =
    (IsDisjoint-shrink q t s (let f : t ≡ r = cc in rw f h) d.0, d.1)
All-shrink q (t ∷ rs) (suc i) r s e h d = (d.0, All-shrink q rs i r s e h d.1)

All-shrink_self :
    (r s : Region) (rs : List Region) → Shrinks r s → All (IsDisjoint r) rs → All (IsDisjoint s) rs
All-shrink_self r s [] h d = tt
All-shrink_self r s (t ∷ rs) h d = ((λ u w. ground (arith, d.0)), All-shrink_self r s rs h d.1)

pub IsMap-shrink :
    (rs : List Region) (i : ℕ) (r s : Region)
    → get_elem? rs i ≡ some r
    → Shrinks r s
    → IsMap rs
    → IsMap (set rs i s)
IsMap-shrink [] i r s e h m = tt
IsMap-shrink (t ∷ rs) zero r s e h m =
    let f : t ≡ r = cc in
    let h' : Shrinks t s = rw f h in
    ((λ u. ground (arith, m.0)), All-shrink_self t s rs h' m.1, m.2)
IsMap-shrink (t ∷ rs) (suc i) r s e h m =
    (m.0, All-shrink t rs i r s e h m.1, IsMap-shrink rs i r s e h m.2)

pub EndsBy-shrink :
    (rs : List Region) (i e : ℕ) (r s : Region)
    → get_elem? rs i ≡ some r
    → Shrinks r s
    → All (EndsBy e) rs
    → All (EndsBy e) (set rs i s)
EndsBy-shrink [] i e r s p h m = tt
EndsBy-shrink (t ∷ rs) zero e r s p h m =
    let f : t ≡ r = cc in let h' : Shrinks t s = rw f h in ((λ u. ground (arith, m.0)), m.1)
EndsBy-shrink (t ∷ rs) (suc i) e r s p h m = (m.0, EndsBy-shrink rs i e r s p h m.1)

-- Entries that end by `e` lie within the bitmap for memory that ends at `e`.
pub IsWithin-EndsBy :
    (rs : List Region) (e bits : ℕ)
    → e ≤ 2 ^ 52
    → e / 4096 ≤ bits
    → IsMap rs
    → All (EndsBy e) rs
    → IsWithin bits rs
IsWithin-EndsBy [] e bits b h m a = tt
IsWithin-EndsBy (r ∷ rs) e bits b h m a = (
  λ u. omega (
    arith,
    a.0 u,
    m.0 u,
    start_frame_lem r (omega (arith, m.0 u)),
    frame_count_lem r (omega (arith, m.0 u)),
  ),
  IsWithin-EndsBy rs e bits b h m.2 a.1,
)
