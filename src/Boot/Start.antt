-- ===== src/Boot/Start.antt =====
-- The start of kernel/src/main.cpp: from the boot answers to the kernel's address space.
use epsilon_os.Base.{
  ℕ, zero, suc, ◌+◌, ◌^◌, ◌<◌, ◌≤◌, ◌≡◌, ◌∙◌, ◌⊎◌, inl, inr, refl, sym, ap, arith, false, Option,
  some, List, [], ◌∷◌, stop, panic, PanicsOr, get_elem?, set, ◌==◌, Option-cases,
}
use epsilon_os.Memory.Pmm.{Region, framebuffer, find_physical_entry, carve, highest_end}
use epsilon_os.Memory.Pmm.Maps.{IsMap}
use epsilon_os.Memory.Pmm.Start.{
  storage_entry, storage_bytes, init-IsStarted, init-panic_iff, at_index,
}
use epsilon_os.Memory.PageTable.{Store}
use epsilon_os.Memory.AddressSpace.Outcomes.{IsUsable, NoNull}
use epsilon_os.Memory.AddressSpace.Kernel.{Image, image_mappings}
use epsilon_os.Memory.AddressSpace.Kernel.Loading.{
  AllFit, ScreenFits, IsInitialized, init_kernel-IsInitialized,
}
use epsilon_os.Device.Interrupts.{no_handlers}
use epsilon_os.Boot.{blank_space, init_memory}

-- The framebuffer's entry in a memory map.
abbrev pub framebuffer_entry : List Region → Option (ℕ × Region)
framebuffer_entry rs = find_physical_entry (λ r. r.kind == framebuffer) 0 rs

framebuffer_entry-set :
    (rs : List Region) (j i : ℕ) (r t : Region)
    → get_elem? rs i ≡ some r
    → (r.kind == framebuffer) ≡ false
    → (t.kind == framebuffer) ≡ false
    → find_physical_entry (λ r. r.kind == framebuffer) j (set rs i t)
      ≡ find_physical_entry (λ r. r.kind == framebuffer) j rs
unfolding find_physical_entry
framebuffer_entry-set [] j i r t at not_r not_t = refl
framebuffer_entry-set (x ∷ rs) j zero r t at not_r not_t =
    let e : x ≡ r = cc in
    let not_x : (x.kind == framebuffer) ≡ false =
      ap (λ (y : Region). y.kind == framebuffer) e ∙ not_r in
    rw (not_t, not_x) refl
framebuffer_entry-set (x ∷ rs) j (suc i) r t at not_r not_t =
    rw (framebuffer_entry-set rs (j + 1) i r t at not_r not_t) refl

-- The memory map that the manager leaves, the storage of its bitmap cut off.
abbrev pub left_map : List Region → ℕ → Region → List Region
left_map rs i r = set rs i (carve (storage_bytes rs) r)

pub left_map-framebuffer :
    (rs : List Region) (i : ℕ) (r : Region)
    → IsMap rs
    → storage_entry rs ≡ some (i, r)
    → framebuffer_entry (left_map rs i r) ≡ framebuffer_entry rs
unfolding carve
left_map-framebuffer rs i r m found =
    let (at, kind, _) = at_index rs i r m found in
    let not_r : (r.kind == framebuffer) ≡ false = ap (λ (k : ℕ). k == framebuffer) kind in
    framebuffer_entry-set rs 0 i r (carve (storage_bytes rs) r) at not_r not_r

-- Booted with a memory map that keeps what the boot protocol promises, all below 2^47 like the image
-- and the first entry for a framebuffer, if there is one, with a higher half that starts above 0 and
-- has room for 2^47 bytes, and memory without a word that reads as an entry for null, the kernel
-- panics, or it has a ready frame manager over the rest of the map, and CR3 holds the address of its
-- first page table, and page faults have their handler.
pub init_memory-IsInitialized :
    (hhdm : ℕ) (i : Image) (rs : List Region) (store : Store)
    → 0 < hhdm
    → hhdm + 2 ^ 47 ≤ 2 ^ 64
    → IsMap rs
    → highest_end 0 rs ≤ 2 ^ 47
    → ScreenFits rs i
    → AllFit (image_mappings i)
    → NoNull hhdm store
    → (init_memory hhdm i rs store ≡ stop panic)
      ⊎ ((k : ℕ) × (r : Region) × (storage_entry rs ≡ some (k, r))
          × PanicsOr (IsInitialized (left_map rs k r) hhdm) (init_memory hhdm i rs store))
unfolding init_memory
init_memory-IsInitialized hhdm i rs store low high m below screen fits clean =
    elim (Option-cases (storage_entry rs)) [
      | inl none_ ↦ inl (rw ((init-panic_iff rs m).1 none_) refl)
      | inr ((k, r), found) ↦
          let (p, returns, started) = init-IsStarted rs k r m found in
          let usable_ : IsUsable (left_map rs k r) p = record {
            ready = started.ready;
            physical = omega (arith, started.bits, below);
            memmap = started.memmap;
          } in
          inr (
            k,
            r,
            found,
            rw returns (
                init_kernel-IsInitialized (left_map rs k r) hhdm low high i no_handlers
                  (blank_space store p)
                  (λ n fb has. screen n fb (sym (left_map-framebuffer rs k r m found) ∙ has)) fits
                  (usable_, clean)),
          )
    ]
