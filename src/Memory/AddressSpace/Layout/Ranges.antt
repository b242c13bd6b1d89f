-- ===== src/Memory/AddressSpace/Layout/Ranges.antt =====
-- `map` of a range in kernel/src/mem/address_space.cpp on an address space that is seen as the frames of
-- its pages.
use epsilon_os.Base.{
  ℕ, zero, suc, ◌+◌, ◌-◌, ◌*◌, ◌/◌, ◌%◌, ◌^◌, ◌≤◌, ◌<◌, ◌≡◌, ◌≢◌, ◌∙◌, ◌⊎◌, sym, ap, arith, inl,
  inr, true, false, ◌&&◌, Option, none, some, ltb, leb, ◌==◌, if◌then◌else◌, subst, add64,
}
use native.Mathlib.Decide.{ℕ_discrete}
use epsilon_os.Memory.Address.{address}
use epsilon_os.Memory.AddressSpace.{Space, range_fuel, map_page, map_range_from, map_range}
use epsilon_os.Memory.AddressSpace.Indices.{page_number}
use epsilon_os.Memory.AddressSpace.Tree.Leaves.{with_page}
use epsilon_os.Memory.AddressSpace.Layout.Mapping.{Shows, Runs, Suffices, map_page-Follows}
use epsilon_os.Memory.AddressSpace.Layout.Following.{Follows-refl, >>=-Follows}
use epsilon_os.Memory.AddressSpace.Tree.{upper_indices}

-- The frames of the pages with `count` pages from `p` on in the frames from `n` on.
abbrev pub with_range : (ℕ → Option ℕ) → ℕ → ℕ → ℕ → ℕ → Option ℕ
with_range pages p n count q = if leb p q && ltb q (p + count) then some (n + (q - p)) else pages q

-- The pages of the range get its frames, the others keep theirs.
pub with_range-inside :
    (pages : ℕ → Option ℕ) (p n count j : ℕ)
    → j < count
    → with_range pages p n count (p + j) ≡ some (n + j)
with_range-inside pages p n count j h =
    let at : p + j - p ≡ j = omega arith in ground (arith, ap (λ (k : ℕ). some (n + k)) at)

pub with_range-outside :
    (pages : ℕ → Option ℕ) (p n count q : ℕ)
    → (q < p) ⊎ (p + count ≤ q)
    → with_range pages p n count q ≡ pages q
with_range-outside pages p n count q (inl h) = ground arith
with_range-outside pages p n count q (inr h) = ground arith

with_range-suc :
    (pages : ℕ → Option ℕ) (p n k : ℕ)
    → with_page (with_range pages p n k) (p + k) (some (n + k)) ≡ with_range pages p n (suc k)
with_range-suc pages p n k = λ i q. step q i
  where
    step :
        (q : ℕ)
        → with_page (with_range pages p n k) (p + k) (some (n + k)) q
          ≡ with_range pages p n (suc k) q
    step q = ground arith

with_range-zero : (pages : ℕ → Option ℕ) (p n : ℕ) → with_range pages p n 0 ≡ pages
with_range-zero pages p n = λ i q. step q i
  where
    step : (q : ℕ) → with_range pages p n 0 q ≡ pages q
    step q = ground arith

with_range-next :
    (pages : ℕ → Option ℕ) (p n k : ℕ) → with_range pages p n k (p + k) ≡ pages (p + k)
with_range-next pages p n k = ground arith

-- The number of pages that a range of `size` bytes takes.
abbrev pub page_count : ℕ → ℕ
page_count size = (size + 4095) / 4096

-- A range that does not cross the end of the 48-bit space, for frames from `n` on.
pub record IsPlaced (virt n size flags : ℕ) : Type 0 where
  pub ends : virt + size ≤ 2 ^ 64
  pub inside : virt % 2 ^ 48 + size ≤ 2 ^ 48
  pub frames : n + page_count size ≤ 2 ^ 40
  pub wide : flags < 2 ^ 64

-- The pages of a range have no frame, or have the wanted one already.
abbrev pub Agrees : (ℕ → Option ℕ) → ℕ → ℕ → ℕ → Type 0
Agrees pages p n count =
    (j : ℕ) → j < count → (pages (p + j) ≡ none) ⊎ (pages (p + j) ≡ some (n + j))

-- Frames that are enough for the tables of the `left` pages from page `k` of a range on that starts at
-- page `p`: three for its first page, and three for each page that is the first one of a table.
abbrev pub range_need : ℕ → ℕ → ℕ → ℕ
range_need p k left =
    (if k == 0 then 3 else 0) + 3 * ((p + k + left + 511) / 512 - (p + k + 511) / 512)

abbrev pub table_need : ℕ → ℕ → ℕ
table_need virt size = range_need (page_number virt) 0 (page_count size)

neighbours : (p : ℕ) → (p + 1) % 512 ≢ 0 → upper_indices p ≡ upper_indices (p + 1)
neighbours p ne =
    let first : p / 2 ^ 27 % 512 ≡ (p + 1) / 2 ^ 27 % 512 = omega arith in
    let second : p / 2 ^ 18 % 512 ≡ (p + 1) / 2 ^ 18 % 512 = omega arith in
    let third : p / 2 ^ 9 % 512 ≡ (p + 1) / 2 ^ 9 % 512 = omega arith in cc

-- What the next page of a range needs.
page_need :
    (pages : ℕ → Option ℕ) (p n k left : ℕ)
    → p + k < 2 ^ 36
    → (c : ℕ) × Suffices c (with_range pages p n k) (p + k)
      × (c + range_need p (suc k) left ≤ range_need p k (suc left))
page_need pages p n zero left small = (3, inl (omega arith), ground arith)
page_need pages p n (suc k) left small = elim (ℕ_discrete ((p + suc k) % 512) 0) [
  | yes e ↦ (3, inl (omega arith), ground arith)
  | no ne ↦
      let at : p + k + 1 ≡ p + suc k = omega arith in
      let same : upper_indices (p + k) ≡ upper_indices (p + suc k) =
        neighbours (p + k) (λ z. ne (omega arith)) ∙ ap upper_indices at in
      (
        0,
        inr (p + k, n + k, omega arith, same, with_range-inside pages p n (suc k) k (omega arith)),
        ground arith,
      )
]

module _ (hhdm : ℕ) (low : 0 < hhdm) (high : hhdm + 2 ^ 47 ≤ 2 ^ 64) (virt n size flags : ℕ)
    (v : IsPlaced virt n size flags) (pages : ℕ → Option ℕ)
    (agrees : Agrees pages (page_number virt) n (page_count size)) where
  -- Page `k` of the range.
  one_page :
      (k : ℕ) (level : ℕ → ℕ) (s : Space)
      → k < page_count size
      → Shows hhdm level (with_range pages (page_number virt) n k) s
      → (c : ℕ) → Suffices c (with_range pages (page_number virt) n k) (page_number virt + k)
      → Runs hhdm level c s
          (with_range pages (page_number virt) n (suc k))
          (map_page hhdm (add64 virt (k * 4096)) (address (add64 (n * 4096) (k * 4096))) flags s)
  one_page k level s below shows c suffices =
      let p : ℕ = page_number virt in
      let x : ℕ = add64 virt (k * 4096) in
      let at : page_number x ≡ p + k = omega (arith, v.ends, v.inside) in
      let frame : add64 (n * 4096) (k * 4096) ≡ (n + k) * 4096 = omega (arith, v.frames) in
      let old : ℕ → Option ℕ = with_range pages p n k in
      let given : old (page_number x) ≡ pages (p + k) = ap old at ∙ with_range-next pages p n k in
      let same : with_page old (page_number x) (some (n + k)) ≡ with_range pages p n (suc k) =
        ap (λ (q : ℕ). with_page old q (some (n + k))) at ∙ with_range-suc pages p n k in
      rw frame (
        subst
          (λ (f : ℕ → Option ℕ).
            Runs hhdm level c s f (map_page hhdm x (address ((n + k) * 4096)) flags s))
          same
          (map_page-Follows hhdm low high level old s c x (n + k) flags shows (omega arith)
            (omega (arith, v.frames)) v.wide
            (subst (λ (o : Option ℕ). (o ≡ none) ⊎ (o ≡ some (n + k))) (sym given) (agrees k below))
            (subst (Suffices c old) (sym at) suffices)))

  map_range_from-Follows :
      (fuel left k : ℕ) (level : ℕ → ℕ) (s : Space)
      → left < fuel
      → k + left ≡ page_count size
      → Shows hhdm level (with_range pages (page_number virt) n k) s
      → Runs hhdm level
          (range_need (page_number virt) k left)
          s
          (with_range pages (page_number virt) n (page_count size))
          (map_range_from hhdm fuel (k * 4096) virt (n * 4096) size flags s)
  unfolding map_range_from
  map_range_from-Follows zero left k level s enough sum shows = absurd (omega arith)
  map_range_from-Follows (suc fuel) zero k level s enough sum shows =
      let past : ltb (k * 4096) size ≡ false = ground arith in
      let all : k ≡ page_count size = omega arith in
      rw past (
        Follows-refl (range_need (page_number virt) k 0) (
          subst (λ (c : ℕ). Shows hhdm level (with_range pages (page_number virt) n c) s) all
            shows))
  map_range_from-Follows (suc fuel) (suc left) k level s enough sum shows =
      let p : ℕ = page_number virt in
      let all : ℕ → Option ℕ = with_range pages p n (page_count size) in
      let before : ltb (k * 4096) size ≡ true = ground arith in
      let next : add64 (k * 4096) 4096 ≡ suc k * 4096 = omega (arith, v.inside) in
      let (c, suffices, small) = page_need pages p n k left (omega (arith, v.inside)) in
      rw before (
        >>=-Follows level c (range_need p (suc k) left) (range_need p k (suc left)) s
          (with_range pages p n (suc k)) all small
          (map_page hhdm (add64 virt (k * 4096)) (address (add64 (n * 4096) (k * 4096))) flags s) _
          (one_page k level s (omega arith) shows c suffices)
          λ t f.
            subst
              (λ (o : ℕ).
                Runs hhdm f.level' (range_need p (suc k) left) t all
                  (map_range_from hhdm fuel o virt (n * 4096) size flags t))
              (sym next)
              (map_range_from-Follows fuel left (suc k) f.level' t (omega arith) (omega arith)
                f.shows))

  -- Where the higher half starts above 0 and has room for 2^47 bytes, in a space whose tables lie
  -- in memory as a tree and whose pages have the given frames, `map` of a range that does not cross
  -- the end of the 48-bit space to the frames from `n` on, all below 2^40, with 64-bit flags, where
  -- no page of it has another frame: it returns with a space of the same kind, in which the pages
  -- of the range have these frames and every other page the one it had. It takes at most three
  -- frames for the first page and three for each page that is the first one of a table, and it
  -- panics only if fewer frames than that are free.
  pub map_range-Follows :
      (level : ℕ → ℕ) (s : Space)
      → Shows hhdm level pages s
      → Runs hhdm level
          (table_need virt size)
          s
          (with_range pages (page_number virt) n (page_count size))
          (map_range hhdm virt (n * 4096) size flags s)
  unfolding map_range
  map_range-Follows level s shows =
      map_range_from-Follows (range_fuel size) (page_count size) 0 level s (omega arith)
        (omega arith)
        (subst (λ (f : ℕ → Option ℕ). Shows hhdm level f s)
          (sym (with_range-zero pages (page_number virt) n)) shows)
