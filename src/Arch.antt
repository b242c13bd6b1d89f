-- ===== src/Arch.antt =====
-- kernel/src/arch and kernel/include/arch: descriptor tables, interrupt controllers, processor
-- features and kernel symbols.
pub mod Gdt
pub mod Idt
pub mod Ipi
pub mod IoApic
pub mod Cpu
pub mod Symbols
pub mod CxxAbi
pub mod Registers
pub mod Ubsan
