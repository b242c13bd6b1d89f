-- ===== src/Memory/AddressSpace/Kernel.antt =====
-- `init_kernel` of kernel/src/mem/address_space.cpp: the kernel's address space.
--
-- `Image` holds what the bootloader answers and the addresses that the linker script defines, both
-- built outside of the kernel's code.
pub mod Protection
pub mod Loading
pub mod Pages
pub mod Mapped
pub mod Translations
use epsilon_os.Base.{
  ℕ, ◌+◌, ◌*◌, ◌^◌, Bool, true, false, not, ◌||◌, Option, none, some, List, [], ◌∷◌, ◌++◌, Result,
  ok, stop, panic, ◌>>=◌, ◌==◌, if◌then◌else◌, add64, sub64, bit_or,
}
use epsilon_os.Memory.Address.{Address, address, tohh, is_page_aligned}
use epsilon_os.Memory.Flags.{writable, execute_disable, pat}
use epsilon_os.Memory.Pmm.{Pmm, Region, framebuffer, find_physical_entry, allocate_frame}
use epsilon_os.Memory.PageTable.{Vm, reset}
use epsilon_os.Device.Interrupts.{Handlers, page_fault, page_fault_vector, register_interrupt}
use epsilon_os.Memory.AddressSpace.{Space, map_page, map_range, load}

-- A section of the kernel's image, from `first` to `past`.
pub record Section : Type 0 where
  pub first : ℕ
  pub past : ℕ

pub record Image : Type 0 where
  pub physical_base : ℕ
  pub virtual_base : ℕ
  pub requests : Section
  pub text : Section
  pub rodata : Section
  pub ctor : Section
  pub ksyms : Section
  pub data_area : Section
  pub framebuffer_address : ℕ

-- A range that is to be mapped, and its flags.
pub record Mapping : Type 0 where
  pub virt : ℕ
  pub phys : ℕ
  pub size : ℕ
  pub flags : ℕ

-- A range of the image: `kernel_phys_start + start - kernel_virt_start`.
unfoldable pub section_mapping : Image → Section → ℕ → Mapping
section_mapping i s flags = record {
  virt = s.first;
  phys = sub64 (add64 i.physical_base s.first) i.virtual_base;
  size = sub64 s.past s.first;
  flags = flags;
}

-- The ranges of the image in the order in which they are mapped.
unfoldable pub image_mappings : Image → List Mapping
unfolding section_mapping
image_mappings i =
    section_mapping i i.requests (bit_or writable execute_disable)
    ∷ section_mapping i i.text 0
    ∷ section_mapping i i.rodata execute_disable
    ∷ section_mapping i i.ctor 0
    ∷ section_mapping i i.ksyms (bit_or writable execute_disable)
    ∷ section_mapping i i.data_area (bit_or writable execute_disable)
    ∷ []

-- `Writable | ExecuteDisable | WC_CACHE`, for the framebuffer.
unfoldable pub framebuffer_mapping : Image → Region → Mapping
framebuffer_mapping i r = record {
  virt = i.framebuffer_address;
  phys = r.base;
  size = r.size;
  flags = bit_or (bit_or writable execute_disable) pat;
}

-- The lower 4 GiB of physical memory.
unfoldable pub lower_mapping : ℕ → Mapping
lower_mapping hhdm = record {
  virt = tohh hhdm 0;
  phys = 0;
  size = 4 * 2 ^ 30;
  flags = bit_or writable execute_disable;
}

module _ (hhdm : ℕ) where
  unfoldable pub map_all : List Mapping → Space → Result Space
  map_all [] s = ok s
  map_all (m ∷ ms) s = map_range hhdm m.virt m.phys m.size m.flags s >>= map_all ms

  -- `find_physical_entry` panics where the memory map has no entry for a framebuffer.
  unfoldable pub map_framebuffer : Image → Option (ℕ × Region) → Space → Result Space
  unfolding framebuffer_mapping
  map_framebuffer i none s = stop panic
  map_framebuffer i (some (n, r)) s =
      let m = framebuffer_mapping i r in map_range hhdm m.virt m.phys m.size m.flags s

  -- What is mapped once the space has its first table.
  unfoldable pub map_kernel : Image → Space → Result Space
  unfolding lower_mapping image_mappings map_all map_framebuffer
  map_kernel i s = map_all (lower_mapping hhdm ∷ []) s >>= λ s1.
      map_page hhdm (tohh hhdm 0) (address 0) execute_disable s1 >>= λ s2.
      map_all (image_mappings i) s2 >>= λ s3.
      map_framebuffer i (find_physical_entry (λ r. r.kind == framebuffer) 0 s3.vm.pmm.memmap) s3
      >>= load

  -- The space with its first table, on the frame that was allocated for it.
  abbrev pub with_pml4 : Address → Pmm → Space → Space
  with_pml4 frame p s =
      let table : ℕ = tohh hhdm frame.addr in
      record s {
        vm = record { store = reset s.vm.store table; pmm = p };
        phys_pml4 = frame;
        pml4 = table;
      }

  -- `init_kernel` up to the load of the space.
  unfoldable pub init_space : Image → Space → Result Space
  unfolding map_kernel
  init_space i s = allocate_frame s.vm.pmm >>= λ r.
      if r.0.is_null || not (is_page_aligned (r.0))
      then stop panic
      else map_kernel i (with_pml4 (r.0) (r.1) s)

  unfoldable pub init_kernel : Image → Handlers → Space → Result (Space × Handlers)
  unfolding init_space
  init_kernel i handlers s =
      init_space i s >>= λ s'. ok (s', register_interrupt page_fault page_fault_vector handlers)
