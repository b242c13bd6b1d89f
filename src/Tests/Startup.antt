-- ===== src/Tests/Startup.antt =====
-- The start of the memory managers, kernel/src/main.cpp and kernel/src/mem/address_space.cpp, on a
-- small memory map.
use epsilon_os.Base.{ℕ, ◌+◌, [], ◌∷◌, u64_max}
use epsilon_os.Bitmap.{Bitmap}
use epsilon_os.Memory.Address.{address}
use epsilon_os.Memory.AddressSpace.{Space}
use epsilon_os.Boot.{blank_space}

abbrev higher_half : ℕ
higher_half = 0xFFFF800000000000

-- Of the frames 0 to 63, those but 0 and 2 are free.
abbrev frames : Bitmap
frames = record { cells = 5 ∷ []; max_value = u64_max; bsize = 8; bitsize = 64; entries = 1 }

abbrev empty_space : Space
empty_space = record (blank_space (λ a. 0) (record { bitmap = frames; memmap = [] })) {
  phys_pml4 = address 0x2000;
  pml4 = higher_half + 0x2000;
}
