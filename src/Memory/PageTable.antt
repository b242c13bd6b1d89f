-- ===== src/Memory/PageTable.antt =====
-- kernel/src/mem/page_table.cpp and kernel/include/mem/page_table.hpp: entries and tables.
--
-- The tables lie in a word-addressed store, a function from virtual addresses to `u64` words: entry
-- `i` of the table at `t` is the word at `t + 8 * i`. Pointers are numbers, and 0 is `nullptr`.
pub mod Entries
use epsilon_os.Base.{
  ℕ, ◌+◌, ◌*◌, ◌^◌, Bool, true, false, ◌&&◌, ◌||◌, not, Result, ok, stop, panic, ◌>>=◌, ltb, leb,
  ◌==◌, if◌then◌else◌, bit_and, bit_or, not64,
}
use epsilon_os.Memory.Address.{Address, address, tohh, is_page_aligned, page_size}
use epsilon_os.Memory.Pmm.{Pmm, allocate_frame}
use epsilon_os.Memory.Flags

-- `FLAGS_MASK`.
abbrev pub flags_mask : ℕ
flags_mask = 0xFFF0000000000FFF

unfoldable pub is_present : ℕ → Bool
is_present raw = not (bit_and raw Flags.present == 0)

unfoldable pub get_frame : ℕ → Address
get_frame raw = address (bit_and raw (not64 flags_mask))

-- `PageTableEntry::set`: the entry that it leaves.
unfoldable pub entry_of : Address → ℕ → ℕ
entry_of frame flags = bit_or (bit_and flags flags_mask) (bit_and frame.addr (not64 flags_mask))

abbrev pub Store : Type 0
Store = ℕ → ℕ

abbrev pub write : Store → ℕ → ℕ → Store
write store p v q = if p == q then v else store q

-- `at`.
abbrev pub entry_at : ℕ → ℕ → ℕ
entry_at table i = table + 8 * i

-- `reset`: the words of the page are 0.
unfoldable pub reset : Store → ℕ → Store
reset store table q = if leb table q && ltb q (table + page_size) then 0 else store q

-- What the memory operations read and write: the tables and the frame manager.
pub record Vm : Type 0 where
  pub store : Store
  pub pmm : Pmm

module _ (hhdm : ℕ) where
  -- `create_table`.
  unfoldable pub create_table : ℕ → ℕ → Vm → Result (ℕ × Vm)
  create_table entry flags vm = allocate_frame vm.pmm >>= λ r.
      let frame : Address = r.0 in
      if frame.is_null || not (is_page_aligned frame)
      then stop panic
      else let table : ℕ = tohh hhdm frame.addr in
        ok (
          table,
          record { store = write (reset vm.store table) entry (entry_of frame flags); pmm = r.1 },
        )

  -- `get_next_table`.
  unfoldable pub get_next_table : ℕ → ℕ → ℕ → Bool → Vm → Result (ℕ × Vm)
  get_next_table table index flags allocate vm =
      let raw : ℕ = vm.store (entry_at table index) in
      if is_present raw
      then ok (tohh hhdm (get_frame raw).addr, vm)
      else if allocate
      then create_table (entry_at table index) flags vm
      else ok (0, vm)
