-- ===== src/Tests/Boots.antt =====
-- The start of kernel/src/main.cpp on 32 MiB of usable memory.
use epsilon_os.Base.{
  ℕ, ◌+◌, ◌-◌, ◌<◌, ◌≤◌, ◌≡◌, refl, ap, ◌∙◌, arith, true, some, List, [], ◌∷◌, ok, stop, panic,
  PanicsOr, ◌⊎◌, round_up, round_down,
}
use epsilon_os.Memory.Address.{address}
use epsilon_os.Memory.Pmm.{Region, highest_end, find_physical_entry, carve, bitmap_bytes}
use epsilon_os.Memory.Pmm.Maps.{IsMap, has_frame}
use epsilon_os.Memory.Pmm.Start.{storage_entry}
use epsilon_os.Device.Interrupts.{Handlers}
use epsilon_os.Memory.AddressSpace.{Space, virt2phys}
use epsilon_os.Memory.AddressSpace.Kernel.{
  framebuffer_mapping, lower_mapping, image_mappings, section_mapping,
}
use epsilon_os.Memory.AddressSpace.Kernel.Pages.{needs}
use epsilon_os.Memory.AddressSpace.Kernel.Mapped.{kernel_mappings}
use epsilon_os.Memory.PageTable.{get_frame}
use epsilon_os.Memory.AddressSpace.Outcomes.{NoNull}
use epsilon_os.Memory.AddressSpace.Kernel.Loading.{IsInitialized, AllFit, ScreenFits}
use epsilon_os.Boot.{init_memory}
use epsilon_os.Boot.Start.{framebuffer_entry, left_map, init_memory-IsInitialized}
use epsilon_os.Boot.Mapped.{init_memory-virt2phys}
use epsilon_os.Tests.Kernels.{half, screen, image, mappable, screen_listed}

abbrev ram : Region
ram = record { base = 4096; size = 0x2000000; kind = 0 }

abbrev memory_map : List Region
memory_map = ram ∷ screen ∷ []

memory_map-IsMap : IsMap memory_map
memory_map-IsMap = grind arith

map_end : highest_end 0 memory_map ≡ 0x2001000
unfolding highest_end
map_end = refl

ram_found : storage_entry memory_map ≡ some (0, ram)
unfolding find_physical_entry bitmap_bytes highest_end round_up round_down
ram_found = refl

screen_found : framebuffer_entry memory_map ≡ some (1, screen)
unfolding find_physical_entry
screen_found = refl

abbrev map_left : List Region
map_left = record { base = 5128; size = 0x2000000 - 1032; kind = 0 } ∷ screen ∷ []

left_map-ram : left_map memory_map 0 ram ≡ map_left
unfolding carve bitmap_bytes highest_end round_up round_down
left_map-ram = refl

frames_left : (f : ℕ) → 10 ≤ f → f < 10 + 7000 → has_frame (left_map memory_map 0 ram) f ≡ true
frames_left f from until =
    let there : has_frame map_left f ≡ true = ground arith in
    ap (λ (l : List Region). has_frame l f) left_map-ram ∙ there

enough : needs (kernel_mappings half image screen) < 7000
unfolding lower_mapping image_mappings framebuffer_mapping section_mapping
enough = omega arith

init_memory-virt2phys_example :
    (t : Space × Handlers) × (init_memory half image memory_map (λ a. 0) ≡ ok t)
    × (virt2phys half 0xFFFF8000E0001234 (t.0)
        ≡ ok (
          address (
              (framebuffer_mapping image screen).phys
              + (0xFFFF8000E0001234 - (framebuffer_mapping image screen).virt)),
          t.0,
        ))
unfolding framebuffer_mapping
init_memory-virt2phys_example =
    init_memory-virt2phys half image memory_map (λ a. 0) 1 screen 0 ram 10 7000
      (framebuffer_mapping image screen) 0xFFFF8000E0001234 (omega arith) (omega arith)
      memory_map-IsMap (omega (arith, map_end)) ram_found screen_found mappable frames_left
      (omega (arith, map_end)) enough screen_listed (omega arith) (omega arith) (omega arith)

screen_fits : ScreenFits memory_map image
unfolding framebuffer_mapping find_physical_entry
screen_fits n r found =
    let e : screen ≡ r = cc in omega (arith, ap (λ (x : Region). x.base + x.size) e)

image_fits : AllFit (image_mappings image)
unfolding image_mappings section_mapping
image_fits =
    (omega arith, (omega arith, (omega arith, (omega arith, (omega arith, (omega arith, tt))))))

no_null : NoNull half (λ a. 0)
unfolding get_frame
no_null q e = omega (arith, e)

init_memory-IsInitialized_example :
    (init_memory half image memory_map (λ a. 0) ≡ stop panic)
    ⊎ ((k : ℕ) × (r : Region) × (storage_entry memory_map ≡ some (k, r))
        × PanicsOr
            (IsInitialized (left_map memory_map k r) half)
            (init_memory half image memory_map (λ a. 0)))
init_memory-IsInitialized_example =
    init_memory-IsInitialized half image memory_map (λ a. 0) (omega arith) (omega arith)
      memory_map-IsMap (omega (arith, map_end)) screen_fits image_fits no_null
