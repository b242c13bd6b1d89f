-- ===== src/Lib.antt =====
-- The EpsilonOS kernel: memory management, string functions, ACPI tables, the interrupt hardware,
-- timers, the serial port, panics and the start of the kernel.
--
-- The parts and how they interact:
-- * Bitmap.antt models kernel/include/lib/bitmap.hpp at 64-bit entries: `Bitmap` holds the words as
--   a list, and `find_set`, `set_num` (`set`) and `clear` return the bitmap they leave.
-- * Memory/Pmm.antt models kernel/src/mem/pmm.cpp: `init` places a bitmap in the bootloader's memory
--   map, and `allocate_frame` and `release_frame` are calls of the bitmap.
-- * Memory/Address.antt models kernel/include/mem/address.hpp; `round_up` and `round_down` of
--   kernel/include/types.hpp are in Base/Word.antt.
-- * Memory/PageTable.antt and Memory/AddressSpace.antt model kernel/src/mem/page_table.cpp and
--   kernel/src/mem/address_space.cpp. Tables are words in a store; new ones come from the frame
--   manager. `map` and `unmap` are `map_page`, `map_range`, `unmap_page` and `unmap_range`.
--   `init_kernel` is in Memory/AddressSpace/Kernel.antt, and the hooks at the end of
--   kernel/src/mem/heap.cpp are in Memory/Heap.antt. Memory/AddressSpace/Tree.antt has the tree of the
--   tables apart from memory, Memory/AddressSpace/Layout.antt how it lies in memory, with the map
--   from pages to frames that it stands for (`Shows` in Layout/Mapping.antt), and
--   Memory/AddressSpace/Kernel/Pages.antt the ranges that `init_kernel` maps. Memory/Pmm/Clients.antt has the users of the
--   frame manager as steps, and Memory/Pmm/FreeFrames.antt the set of free frames that they see.
-- * CString.antt models kernel/src/lib/string.cpp on a memory of bytes.
-- * Acpi/Rsdt.antt and Acpi/Madt.antt model kernel/src/acpi: they read that memory, and the
--   MADT is found by `find_table`.
-- * Arch/Gdt.antt, Idt.antt, Ipi.antt, IoApic.antt and Cpu.antt model the files of the same name in
--   kernel/src/arch. A device call returns the register writes that it makes, in order.
-- * Arch/Symbols.antt models ksyms.cpp there, with `backtrace` in Arch/Symbols/Backtrace.antt,
--   Arch/CxxAbi.antt models icxxabi.cpp, Arch/Registers.antt register.cpp, and Arch/Ubsan.antt
--   ubsan.cpp.
-- * Device/Bus.antt has the accesses to registers and ports, of kernel/src/io/io.cpp and
--   kernel/include/arch/msr.hpp, as a log; what a device answers is a function of the number of
--   accesses so far. On it, Device/LocalApic.antt models kernel/src/arch/lapic.cpp,
--   Device/Timers.antt kernel/src/dev/timer and hal.cpp, and Device/Serial.antt
--   kernel/src/dev/uart.cpp. Device/Interrupts.antt models kernel/src/arch/isr.cpp and the handlers.
-- * Panic.antt models kernel/src/panic.cpp, which uses the interrupts to processors, the serial port
--   and the stack trace, and Boot.antt models kernel/src/main.cpp: the frame manager's `init`, then `init_kernel`.
-- The child modules hold the proofs; Tests and its children hold the concrete inputs.
--
-- Conventions: an operation that may panic returns a `Result`; `stop panic` is a failed assertion or
-- a call of `panic`, `stop fault` an access outside an array or through a null pointer,
-- `stop halted` a processor that is halted for good, and `stop spent` fuel that ran out. 64-bit
-- and smaller integers are natural numbers with their wrap-around written out. The offset of the
-- higher half, what devices answer and where the linker places the stubs are parameters.
--
-- Fuel: loops that end by a count are recursion on that count. The loops over texts take fuel, and
-- more than the length of the text is enough. The walk over the MADT takes fuel, and more than its
-- number of bytes is enough if no record has length 0. The range loops of an address space get
-- `range_fuel`, two more than the pages of the range, which is enough. A loop that waits for a device
-- takes fuel, and more than the number of reads until the device answers as wanted is enough.
--
-- Not modelled: log output, the loads of descriptor tables by assembly, and in kernel/src/main.cpp
-- the composition of the parts behind the memory. kernel/src/lib/printf.cpp, the allocator in
-- kernel/src/mem/heap.cpp, kernel/src/cc-runtime.c and kernel/include/limine.h are copies of other
-- projects; the texts that the first one makes are parameters.
pub mod Base
pub mod Bitmap
pub mod Memory
mod Tests
pub mod CString
pub mod Acpi
pub mod Arch
pub mod Device
pub mod Panic
pub mod Boot
