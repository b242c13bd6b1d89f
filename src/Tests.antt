-- ===== src/Tests.antt =====
-- The theorems at concrete inputs, and the test data.
mod Frames
mod Paging
mod Text
mod Tables
mod Devices
mod Names
mod Sharing
mod Drivers
mod Startup
mod Spaces
mod Kernels
mod Boots
mod Traces
