-- ===== src/Acpi.antt =====
-- kernel/src/acpi: the tables that the firmware leaves in memory.
pub mod Bytes
pub mod Rsdt
pub mod Madt
