-- ===== src/Tests/Frames.antt =====
-- kernel/include/lib/bitmap.hpp and kernel/src/mem/pmm.cpp on a bitmap of one word and on a map of
-- three entries.
use epsilon_os.Base.{
  ℕ, zero, suc, ◌+◌, ◌-◌, ◌*◌, ◌^◌, ◌<◌, ◌≡◌, ◌↔◌, ◌⊎◌, ◌≤◌, ◌%◌, ◌/◌, ◌≢◌, refl, arith, some, List,
  [], ◌∷◌, ok, stop, panic, get_or, round_up, round_down, u64_max,
}
use epsilon_os.Bitmap
use epsilon_os.Bitmap.{Bitmap, find_set, set_num, clear}
use epsilon_os.Bitmap.Laws.{IsValid}
use epsilon_os.Bitmap.Search.{Finds, find_set-Finds}
use epsilon_os.Memory.Address.{address}
use epsilon_os.Memory.Pmm
use epsilon_os.Memory.Pmm.{Pmm, Region, allocate_frame, release_frame}
use epsilon_os.Memory.Pmm.Frames.{
  IsReady, in_use, release_frame-panic_iff, release_frame-allocate_frame,
}
use epsilon_os.Memory.Pmm.Maps.{IsMap}
use epsilon_os.Memory.Pmm.Start.{IsStarted, storage_entry, init-IsStarted}
use epsilon_os.Memory.Pmm.Storage.{init-storage_in_use}

-- The numbers 0 and 2 are in use.
abbrev sparse : Bitmap
sparse = record { cells = 5 ∷ []; max_value = u64_max; bsize = 8; bitsize = 64; entries = 1 }

sparse-words : (i : ℕ) → get_or sparse.cells i 0 < 2 ^ 64
sparse-words zero = omega arith
sparse-words (suc i) = omega arith

sparse-IsValid : IsValid sparse
sparse-IsValid = record { whole = refl; sized = refl; full = refl; words = sparse-words }

find_set-sparse : find_set sparse ≡ ok (some 1, record sparse { cells = 7 ∷ [] })
unfolding find_set
find_set-sparse = refl

find_set-Finds_example : Finds sparse 0 (find_set sparse)
find_set-Finds_example = find_set-Finds sparse sparse-IsValid

abbrev small : Pmm
small = record { bitmap = sparse; memmap = [] }

small-IsReady : IsReady small
small-IsReady = record { bitmap = sparse-IsValid; fits = omega arith }

release_frame-panic_example :
    (release_frame small (address 4097) ≡ stop panic)
    ↔ ((4097 % 4096 ≢ 0) ⊎ ((64 ≤ 4097 / 4096) ⊎ (in_use small (4097 / 4096) ≡ 0)))
release_frame-panic_example = release_frame-panic_iff small 4097 small-IsReady (omega arith)

release_frame-allocate_frame_example :
    release_frame (record small { bitmap = record sparse { cells = 7 ∷ [] } }) (address 4096)
    ≡ ok small
unfolding allocate_frame find_set
release_frame-allocate_frame_example =
    release_frame-allocate_frame small (record small { bitmap = record sparse { cells = 7 ∷ [] } })
      (address 4096) small-IsReady refl refl

abbrev low : Region
low = record { base = 4096; size = 16384; kind = 0 }

abbrev boot_map : List Region
boot_map =
    low
    ∷ record { base = 20480; size = 4096; kind = 1 }
    ∷ record { base = 24576; size = 8192; kind = 0 }
    ∷ []

boot_map-IsMap : IsMap boot_map
boot_map-IsMap = grind arith

storage-boot_map : storage_entry boot_map ≡ some (0, low)
unfolding Pmm.find_physical_entry Pmm.highest_end Pmm.bitmap_bytes round_up round_down
storage-boot_map = refl

-- Frames 2, 3, 4, 6 and 7 are free: the bitmap takes the start of frame 1.
abbrev booted : Pmm
booted = record {
  bitmap = record {
    cells = (2 ^ 64 - 1 - 4 - 8 - 16 - 64 - 128) ∷ [];
    max_value = u64_max;
    bsize = 8;
    bitsize = 64;
    entries = 1;
  };
  memmap =
      record { base = 4104; size = 16376; kind = 0 }
      ∷ record { base = 20480; size = 4096; kind = 1 }
      ∷ record { base = 24576; size = 8192; kind = 0 }
      ∷ [];
}

init-boot_map : Pmm.init boot_map ≡ ok booted
unfolding Pmm.init Pmm.find_physical_entry Pmm.highest_end Pmm.bitmap_bytes Pmm.carve Pmm.all_used
    Pmm.free_usable round_up round_down Bitmap.init clear
init-boot_map = refl

init-IsStarted_example : (p : Pmm) × (Pmm.init boot_map ≡ ok p) × IsStarted boot_map 0 low p
init-IsStarted_example = init-IsStarted boot_map 0 low boot_map-IsMap storage-boot_map

storage_lo : 4096 < 1 * 4096 + 4096
storage_lo = omega arith

init-storage_in_use_example : in_use booted 1 ≡ 1
unfolding Pmm.highest_end Pmm.bitmap_bytes round_up round_down
init-storage_in_use_example =
    init-storage_in_use boot_map 0 low booted 1 boot_map-IsMap storage-boot_map init-boot_map
      (omega arith) storage_lo (omega arith)
