-- ===== src/Device.antt =====
-- kernel/src/dev and the devices that kernel/src/arch drives by register accesses.
pub mod Bus
pub mod LocalApic
pub mod Interrupts
pub mod Timers
pub mod Serial
