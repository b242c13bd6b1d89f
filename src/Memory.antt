-- ===== src/Memory.antt =====
-- The memory managers of kernel/src/mem and kernel/include/mem.
pub mod Address
pub mod Pmm
pub mod Flags
pub mod PageTable
pub mod AddressSpace
pub mod Heap
