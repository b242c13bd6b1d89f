-- ===== src/Memory/Heap.antt =====
-- The hooks of kernel/src/mem/heap.cpp that give the allocator its pages. The allocator itself, in the
-- same file, is a library.
use epsilon_os.Base.{ℕ, ℤ, pos, Result, ok, ◌>>=◌}
use epsilon_os.Memory.Address.{address}
use epsilon_os.Memory.Flags.{writable}
use epsilon_os.Memory.AddressSpace.{Space, allocate, release}

-- There is one processor that allocates: the lock does nothing.
unfoldable pub liballoc_lock : ℤ
liballoc_lock = pos 0

unfoldable pub liballoc_unlock : ℤ
liballoc_unlock = pos 0

-- The pages, or the null pointer.
unfoldable pub liballoc_alloc : ℕ → ℕ → Space → Result (ℕ × Space)
liballoc_alloc hhdm pages s = allocate hhdm pages writable s >>= λ r. ok (r.0.addr, r.1)

unfoldable pub liballoc_free : ℕ → ℕ → ℕ → Space → Result (ℤ × Space)
liballoc_free hhdm ptr pages s = release hhdm (address ptr) pages s >>= λ s'. ok (pos 0, s')
