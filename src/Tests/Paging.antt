-- ===== src/Tests/Paging.antt =====
-- kernel/src/mem/page_table.cpp and kernel/src/mem/address_space.cpp on a writable, not executable
-- page.
use epsilon_os.Base.{ℕ, ◌+◌, ◌^◌, ◌≡◌, refl, arith}
use epsilon_os.Memory.Address.{address}
use epsilon_os.Memory.PageTable.{get_frame, entry_of}
use epsilon_os.Memory.PageTable.Entries.{get_frame-entry_of}

-- `Writable`, `PAT` and `ExecuteDisable`.
abbrev device_flags : ℕ
device_flags = 2 ^ 63 + 128 + 2

get_frame-entry_of_example :
    get_frame (entry_of (address 0xFEE00000) device_flags) ≡ address 0xFEE00000
get_frame-entry_of_example =
    get_frame-entry_of 0xFEE00000 device_flags (omega arith) refl (omega arith)
