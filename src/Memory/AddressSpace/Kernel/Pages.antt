-- ===== src/Memory/AddressSpace/Kernel/Pages.antt =====
-- Ranges that `init_kernel` of kernel/src/mem/address_space.cpp maps, and what they need.
use epsilon_os.Base.{
  ℕ, ◌+◌, ◌*◌, ◌/◌, ◌%◌, ◌^◌, ◌≤◌, ◌<◌, ◌≡◌, refl, arith, Option, List, [], ◌∷◌, ◌++◌, subst,
}
use epsilon_os.Memory.AddressSpace.{Space, map_range}
use epsilon_os.Memory.AddressSpace.Indices.{page_number}
use epsilon_os.Memory.AddressSpace.Kernel.{Mapping, map_all}
use epsilon_os.Memory.AddressSpace.Layout.Mapping.{Shows, Runs}
use epsilon_os.Memory.AddressSpace.Layout.Following.{Follows-refl, >>=-Follows}
use epsilon_os.Memory.AddressSpace.Layout.Ranges.{
  with_range, page_count, IsPlaced, Agrees, table_need, map_range-Follows,
}

-- The frames of the pages after ranges were mapped.
abbrev pub pages_after : (ℕ → Option ℕ) → List Mapping → ℕ → Option ℕ
pages_after pages [] = pages
pages_after pages (m ∷ ms) =
    pages_after (with_range pages (page_number m.virt) (m.phys / 4096) (page_count m.size)) ms

-- A range that can be mapped: its frames are page-aligned, and its pages have no other frame yet.
pub record IsMappable (pages : ℕ → Option ℕ) (m : Mapping) : Type 0 where
  pub placed : IsPlaced m.virt (m.phys / 4096) m.size m.flags
  pub aligned : m.phys % 4096 ≡ 0
  pub agrees : Agrees pages (page_number m.virt) (m.phys / 4096) (page_count m.size)

abbrev pub AllMappable : (ℕ → Option ℕ) → List Mapping → Type 0
AllMappable pages [] = Unit
AllMappable pages (m ∷ ms) =
    IsMappable pages m
    × AllMappable (with_range pages (page_number m.virt) (m.phys / 4096) (page_count m.size)) ms

-- Frames that are enough for the tables of ranges.
abbrev pub needs : List Mapping → ℕ
needs [] = 0
needs (m ∷ ms) = table_need m.virt m.size + needs ms

pub needs-++ : (ms ns : List Mapping) → needs (ms ++ ns) ≡ needs ms + needs ns
needs-++ [] ns = omega arith
needs-++ (m ∷ ms) ns = omega (arith, needs-++ ms ns)

pub pages_after-++ :
    (ms ns : List Mapping) (pages : ℕ → Option ℕ)
    → pages_after pages (ms ++ ns) ≡ pages_after (pages_after pages ms) ns
pages_after-++ [] ns pages = refl
pages_after-++ (m ∷ ms) ns pages = pages_after-++ ms ns _

pub AllMappable-++ :
    (ms ns : List Mapping) (pages : ℕ → Option ℕ)
    → AllMappable pages (ms ++ ns)
    → AllMappable pages ms × AllMappable (pages_after pages ms) ns
AllMappable-++ [] ns pages v = (tt, v)
AllMappable-++ (m ∷ ms) ns pages v =
    let rest = AllMappable-++ ms ns _ (v.1) in ((v.0, rest.0), rest.1)

module _ (hhdm : ℕ) (low : 0 < hhdm) (high : hhdm + 2 ^ 47 ≤ 2 ^ 64) where
  pub mapping-Follows :
      (level : ℕ → ℕ) (pages : ℕ → Option ℕ) (m : Mapping) (s : Space)
      → IsMappable pages m
      → Shows hhdm level pages s
      → Runs hhdm level
          (table_need m.virt m.size)
          s
          (with_range pages (page_number m.virt) (m.phys / 4096) (page_count m.size))
          (map_range hhdm m.virt m.phys m.size m.flags s)
  mapping-Follows level pages m s v shows =
      let whole : m.phys / 4096 * 4096 ≡ m.phys = omega (arith, v.aligned) in
      subst
        (λ (f : ℕ).
          Runs hhdm level (table_need m.virt m.size) s
            (with_range pages (page_number m.virt) (m.phys / 4096) (page_count m.size))
            (map_range hhdm m.virt f m.size m.flags s))
        whole
        (map_range-Follows hhdm low high m.virt (m.phys / 4096) m.size m.flags v.placed pages
          v.agrees level s shows)

  pub map_all-Follows :
      (ms : List Mapping) (level : ℕ → ℕ) (pages : ℕ → Option ℕ) (s : Space)
      → AllMappable pages ms
      → Shows hhdm level pages s
      → Runs hhdm level (needs ms) s (pages_after pages ms) (map_all hhdm ms s)
  unfolding map_all
  map_all-Follows [] level pages s v shows = Follows-refl 0 shows
  map_all-Follows (m ∷ ms) level pages s v shows =
      let pages' : ℕ → Option ℕ =
        with_range pages (page_number m.virt) (m.phys / 4096) (page_count m.size) in
      >>=-Follows level (table_need m.virt m.size) (needs ms) (needs (m ∷ ms)) s pages'
        (pages_after pages' ms) (omega arith) (map_range hhdm m.virt m.phys m.size m.flags s)
        (map_all hhdm ms) (mapping-Follows level pages m s (v.0) shows)
        λ t f. map_all-Follows ms f.level' pages' t (v.1) f.shows
