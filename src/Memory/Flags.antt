-- ===== src/Memory/Flags.antt =====
-- `PagingFlags` of kernel/include/mem/page_table.hpp.
use epsilon_os.Base.{ℕ, ◌^◌}

abbrev pub present : ℕ
present = 1

abbrev pub writable : ℕ
writable = 2

abbrev pub user_accessible : ℕ
user_accessible = 4

abbrev pub write_through : ℕ
write_through = 8

abbrev pub cache_disable : ℕ
cache_disable = 16

abbrev pub pat : ℕ
pat = 128

abbrev pub execute_disable : ℕ
execute_disable = 2 ^ 63
