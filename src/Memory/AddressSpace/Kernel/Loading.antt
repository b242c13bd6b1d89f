-- ===== src/Memory/AddressSpace/Kernel/Loading.antt =====
-- The outcome of `init_kernel` of kernel/src/mem/address_space.cpp.
use epsilon_os.Base.{
  ℕ, ◌+◌, ◌^◌, ◌<◌, ◌≤◌, ◌≡◌, ◌∙◌, refl, ap, arith, inl, inr, false, not, ◌||◌, some, List, [], ◌∷◌,
  >>=-PanicsOr, if-PanicsOr, PanicsOr, ◌==◌, Bool-cases, Option-cases,
}
use epsilon_os.Memory.Address.{address, tohh, is_page_aligned}
use epsilon_os.Memory.Flags.{execute_disable}
use epsilon_os.Memory.Pmm.{Region, framebuffer, find_physical_entry, allocate_frame}
use epsilon_os.Device.Interrupts.{Handlers, page_fault, page_fault_vector, register_interrupt}
use epsilon_os.Memory.AddressSpace.{Space, map_page, map_range, range_fuel, load}
use epsilon_os.Memory.AddressSpace.Outcomes.{
  Good, Given, tohh-nonnull, reset-NoNull, allocate_frame-Given,
}
use epsilon_os.Memory.AddressSpace.Operations.{Usable, map_page-Usable, map_range_from-Usable}
use epsilon_os.Memory.AddressSpace.Kernel.{
  Image, Mapping, lower_mapping, image_mappings, framebuffer_mapping, map_all, map_framebuffer,
  map_kernel, with_pml4, init_space, init_kernel,
}

-- A mapping of physical memory below 2 ^ 47.
abbrev pub Fits : Mapping → Type 0
Fits m = m.phys + m.size ≤ 2 ^ 47

abbrev pub AllFit : List Mapping → Type 0
AllFit [] = Unit
AllFit (m ∷ ms) = Fits m × AllFit ms

-- What the memory map lists first for a framebuffer, if anything, fits.
abbrev pub ScreenFits : List Region → Image → Type 0
ScreenFits regions i =
    (n : ℕ) (r : Region)
    → find_physical_entry (λ r. r.kind == framebuffer) 0 regions ≡ some (n, r)
    → Fits (framebuffer_mapping i r)

-- A space that the processor uses: the register holds the address of its first table.
abbrev pub IsLoaded : List Region → ℕ → Space → Type 0
IsLoaded regions hhdm s =
    Usable regions hhdm s × (s.phys_pml4.is_null ≡ false) × (s.cr3 ≡ s.phys_pml4.addr)

-- A loaded space, and the handler of page faults.
abbrev pub IsInitialized : List Region → ℕ → Space × Handlers → Type 0
IsInitialized regions hhdm (s, handlers) =
    IsLoaded regions hhdm s × (handlers page_fault_vector ≡ some page_fault)

module _ (regions : List Region) (hhdm : ℕ) (low : 0 < hhdm) (high : hhdm + 2 ^ 47 ≤ 2 ^ 64) where
  map_range-Usable :
      (virt phys size flags : ℕ) (s : Space)
      → Usable regions hhdm s
      → phys + size ≤ 2 ^ 47
      → PanicsOr (Usable regions hhdm) (map_range hhdm virt phys size flags s)
  unfolding map_range
  map_range-Usable virt phys size flags s v fits =
      map_range_from-Usable regions hhdm low high (range_fuel size) 0 virt phys size flags s v fits
        (omega arith) (omega arith)

  map_all-Usable :
      (ms : List Mapping) (s : Space)
      → Usable regions hhdm s
      → AllFit ms
      → PanicsOr (Usable regions hhdm) (map_all hhdm ms s)
  unfolding map_all
  map_all-Usable [] s v fit = v
  map_all-Usable (m ∷ ms) s v fit =
      >>=-PanicsOr (Usable regions hhdm) (Usable regions hhdm)
        (map_range hhdm m.virt m.phys m.size m.flags s) _
        (map_range-Usable m.virt m.phys m.size m.flags s v (fit.0))
        (λ t g. map_all-Usable ms t g (fit.1))

  map_framebuffer-Usable :
      (i : Image) (s : Space)
      → ScreenFits regions i
      → Usable regions hhdm s
      → PanicsOr (Usable regions hhdm) (
          map_framebuffer hhdm i
            (find_physical_entry (λ r. r.kind == framebuffer) 0 s.vm.pmm.memmap)
            s)
  unfolding map_framebuffer framebuffer_mapping
  map_framebuffer-Usable i s screen v =
      let same = ap (find_physical_entry (λ r. r.kind == framebuffer) 0) (v.0.0).memmap in
      elim (Option-cases (find_physical_entry (λ r. r.kind == framebuffer) 0 regions)) [
        | inl none_ ↦ rw (same ∙ none_) tt
        | inr ((n, r), found) ↦ rw (same ∙ found) (map_range-Usable _ _ _ _ s v (screen n r found))
      ]

  load-IsLoaded : (s : Space) → Usable regions hhdm s → PanicsOr (IsLoaded regions hhdm) (load s)
  unfolding load
  load-IsLoaded s v = elim (Bool-cases s.phys_pml4.is_null) [
    | inl e ↦ rw e tt
    | inr e ↦ rw e (v, refl, refl)
  ]

  map_kernel-IsLoaded :
      (i : Image) (s : Space)
      → ScreenFits regions i
      → AllFit (image_mappings i)
      → Usable regions hhdm s
      → PanicsOr (IsLoaded regions hhdm) (map_kernel hhdm i s)
  unfolding map_kernel lower_mapping image_mappings
  map_kernel-IsLoaded i s screen fits v =
      >>=-PanicsOr (Usable regions hhdm) (IsLoaded regions hhdm)
        (map_all hhdm (lower_mapping hhdm ∷ []) s) _
        (map_all-Usable (lower_mapping hhdm ∷ []) s v (omega arith, tt))
        (λ s1 v1.
          >>=-PanicsOr (Usable regions hhdm) (IsLoaded regions hhdm)
            (map_page hhdm (tohh hhdm 0) (address 0) execute_disable s1) _
            (map_page-Usable regions hhdm low high (tohh hhdm 0) (address 0) execute_disable s1
              (omega arith) v1)
            (λ s2 v2.
              >>=-PanicsOr (Usable regions hhdm) (IsLoaded regions hhdm)
                (map_all hhdm (image_mappings i) s2) _
                (map_all-Usable (image_mappings i) s2 v2 fits)
                (λ s3 v3.
                  >>=-PanicsOr (Usable regions hhdm) (IsLoaded regions hhdm)
                    (map_framebuffer hhdm i
                      (find_physical_entry (λ r. r.kind == framebuffer) 0 s3.vm.pmm.memmap) s3)
                    load (map_framebuffer-Usable i s3 screen v3) load-IsLoaded)))

  init_space-IsLoaded :
      (i : Image) (s : Space)
      → ScreenFits regions i
      → AllFit (image_mappings i)
      → Good regions hhdm s.vm
      → PanicsOr (IsLoaded regions hhdm) (init_space hhdm i s)
  unfolding init_space
  init_space-IsLoaded i s screen fits v =
      >>=-PanicsOr (Given regions) (IsLoaded regions hhdm) (allocate_frame s.vm.pmm) _
        (allocate_frame-Given s.vm.pmm (v.0))
        (λ g h.
          if-PanicsOr (IsLoaded regions hhdm) (g.0.is_null || not (is_page_aligned (g.0))) _ _ tt (
            map_kernel-IsLoaded i (with_pml4 hhdm (g.0) (g.1) s) screen fits (
              (h.0, reset-NoNull regions hhdm low high s.vm.store (tohh hhdm g.0.addr) (v.1)),
              tohh-nonnull regions hhdm low high (g.0.addr) (h.1),
            )))

  -- `init_kernel` from a usable manager, where no word reads as an
  -- entry for null and what is mapped lies below 2^47: it panics, or it returns with a space whose
  -- first table is not null and has its address in CR3, with a usable manager, and with the handler of
  -- page faults registered.
  pub init_kernel-IsInitialized :
      (i : Image) (handlers : Handlers) (s : Space)
      → ScreenFits regions i
      → AllFit (image_mappings i)
      → Good regions hhdm s.vm
      → PanicsOr (IsInitialized regions hhdm) (init_kernel hhdm i handlers s)
  unfolding init_kernel register_interrupt
  init_kernel-IsInitialized i handlers s screen fits v =
      >>=-PanicsOr (IsLoaded regions hhdm) (IsInitialized regions hhdm) (init_space hhdm i s) _
        (init_space-IsLoaded i s screen fits v) (λ s' h. (h, refl))
