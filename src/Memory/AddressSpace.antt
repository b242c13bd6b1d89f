-- ===== src/Memory/AddressSpace.antt =====
-- kernel/src/mem/address_space.cpp: the four-level walk, and mapping, unmapping, allocating and
-- translating virtual pages.
--
-- Pointers are numbers, and 0 is `nullptr`. `flush_tlb` adds an address to the list of those that
-- `invlpg` was run for. A `nullptr` that is read or written through, that of a space without a table
-- included, is a `fault`. Log lines are left out.
pub mod Indices
pub mod Walks
pub mod Translate
pub mod Unmaps
pub mod Tree
pub mod Layout
pub mod Outcomes
pub mod Operations
pub mod Kernel
use epsilon_os.Base.{
  ℕ, zero, suc, ◌+◌, ◌-◌, ◌*◌, ◌/◌, ◌^◌, Bool, true, false, ◌&&◌, ◌||◌, not, List, [], ◌∷◌, Option,
  Result, ok, stop, panic, fault, spent, ◌>>=◌, assert, ◌>>◌, ltb, leb, ◌==◌, if◌then◌else◌,
  bit_and, bit_or, not64, shr, add64, sub64, mul64,
}
use epsilon_os.Memory.Address.{
  Address, address, null_address, tohh, is_page_aligned, page_size, differs, page_round_down, below,
  advance,
}
use epsilon_os.Memory.Flags.{present, pat, execute_disable}
use epsilon_os.Memory.Pmm.{Pmm, allocate_frame, release_frame}
use epsilon_os.Memory.PageTable.{
  Vm, Store, write, reset, is_present, get_frame, entry_of, entry_at, get_next_table,
}

-- An address space with what its operations reach.
pub record Space : Type 0 where
  pub vm : Vm
  pub phys_pml4 : Address
  pub pml4 : ℕ
  pub flushed : List ℕ
  pub cr3 : ℕ

unfoldable pub pml4_index : ℕ → ℕ
pml4_index x = bit_and (shr x 39) 0x1FF

unfoldable pub pdp_index : ℕ → ℕ
pdp_index x = bit_and (shr x 30) 0x1FF

unfoldable pub pd_index : ℕ → ℕ
pd_index x = bit_and (shr x 21) 0x1FF

unfoldable pub pt_index : ℕ → ℕ
pt_index x = bit_and (shr x 12) 0x1FF

-- `fix_flags`: the directory flags and the page flags.
unfoldable pub fix_flags : ℕ → ℕ × ℕ
fix_flags flags =
    let pte_flags = bit_or flags present in
    let no_pat = if bit_and pte_flags pat == 0 then pte_flags else bit_and pte_flags (not64 pat) in
    let pd_flags =
      if bit_and no_pat execute_disable == 0
      then no_pat
      else bit_and no_pat (not64 execute_disable) in
    (pd_flags, pte_flags)

abbrev set_vm : Space → Vm → Space
set_vm s vm = record s { vm = vm }

abbrev set_pmm : Space → Pmm → Space
set_pmm s p = record s { vm = record { store = s.vm.store; pmm = p } }

-- `flush_tlb`.
unfoldable pub flush_tlb : ℕ → Space → Space
flush_tlb virt s = record s { flushed = virt ∷ s.flushed }

-- `pte2frame`: the null address for no entry and for one that is not present.
unfoldable pub pte2frame : ℕ → Store → Address
pte2frame entry store =
    if entry == 0 || not (is_present (store entry)) then null_address else get_frame (store entry)

-- The fuel for a range of `size` bytes.
abbrev pub range_fuel : ℕ → ℕ
range_fuel size = size / page_size + 2

module _ (hhdm : ℕ) where
  -- `virt2pte`: the address of the page table entry. A space without a table is not walked.
  unfoldable pub virt2pte : ℕ → ℕ → ℕ → Bool → Vm → Result (ℕ × Vm)
  virt2pte pml4 vaddr flags allocate vm =
      if pml4 == 0
      then stop fault
      else get_next_table hhdm pml4 (pml4_index vaddr) flags allocate vm >>= λ r.
          if r.0 == 0
          then ok (0, r.1)
          else get_next_table hhdm (r.0) (pdp_index vaddr) flags allocate (r.1) >>= λ q.
              if q.0 == 0
              then ok (0, q.1)
              else get_next_table hhdm (q.0) (pd_index vaddr) flags allocate (q.1) >>= λ p.
                  if p.0 == 0 then ok (0, p.1) else ok (entry_at (p.0) (pt_index vaddr), p.1)

  -- `map` of one page.
  unfoldable pub map_page : ℕ → Address → ℕ → Space → Result Space
  map_page virt phys unfixed_flags s =
      let flags = fix_flags unfixed_flags in
      virt2pte s.pml4 virt (flags.0) true s.vm >>= λ r.
      let entry : ℕ = r.0 in
      let frame = pte2frame entry (r.1.store) in
      (if not frame.is_null && differs frame phys
        then release_frame (r.1.pmm) frame
        else ok (r.1.pmm))
      >>= λ pmm.
          if entry == 0
          then stop fault
          else ok (
              set_vm s
                (record { store = write (r.1.store) entry (entry_of phys (flags.1)); pmm = pmm }))

  -- `unmap` of one page.
  unfoldable pub unmap_page : ℕ → Space → Result Space
  unmap_page virt s = virt2pte s.pml4 virt 0 false s.vm >>= λ r.
      let entry : ℕ = r.0 in
      let frame = pte2frame entry (r.1.store) in
      if frame.is_null
      then ok (set_vm s (r.1))
      else release_frame (r.1.pmm) frame >>= λ pmm.
          ok (set_vm s (record { store = write (r.1.store) entry 0; pmm = pmm }))

  -- `virt2phys`.
  unfoldable pub virt2phys : ℕ → Space → Result (Address × Space)
  virt2phys vaddr s = virt2pte s.pml4 vaddr 0 false s.vm >>= λ r.
      let frame = pte2frame (r.0) (r.1.store) in
      if frame.is_null
      then ok (null_address, set_vm s (r.1))
      else ok (address (bit_or frame.addr (bit_and vaddr (sub64 page_size 1))), set_vm s (r.1))

  -- `map` and `unmap` of a range: an `AddressRange` gives the offsets 0, 4096, … below its size.
  unfoldable pub map_range_from : ℕ → ℕ → ℕ → ℕ → ℕ → ℕ → Space → Result Space
  map_range_from zero offset virt phys size flags s = stop spent
  map_range_from (suc fuel) offset virt phys size flags s =
      let more : Result Space =
        map_page (add64 virt offset) (address (add64 phys offset)) flags s
        >>= map_range_from fuel (add64 offset page_size) virt phys size flags in
      if ltb offset size then more else ok s

  unfoldable pub map_range : ℕ → ℕ → ℕ → ℕ → Space → Result Space
  unfolding map_range_from
  map_range virt phys size flags s = map_range_from (range_fuel size) 0 virt phys size flags s

  unfoldable pub unmap_range_from : ℕ → ℕ → ℕ → ℕ → Space → Result Space
  unmap_range_from zero offset virt size s = stop spent
  unmap_range_from (suc fuel) offset virt size s =
      let more : Result Space =
        unmap_page (add64 virt offset) s
        >>= unmap_range_from fuel (add64 offset page_size) virt size in
      if ltb offset size then more else ok s

  unfoldable pub unmap_range : ℕ → ℕ → Space → Result Space
  unfolding unmap_range_from
  unmap_range virt size s = unmap_range_from (range_fuel size) 0 virt size s

  -- The loop of `release`: `left` pages from page `i` on.
  unfoldable pub release_from : ℕ → ℕ → ℕ → Space → Result Space
  release_from zero i vbase s = ok s
  release_from (suc left) i vbase s =
      let vaddr = add64 vbase (mul64 i page_size) in
      unmap_page vaddr s >>= λ s'. release_from left (i + 1) vbase (flush_tlb vaddr s')

  unfoldable pub release : Address → ℕ → Space → Result Space
  release virt page_count s = release_from page_count 0 (page_round_down virt) s

  -- The loop of `allocate` over the pages after the first: `left` of them from page `i` on.
  unfoldable pub allocate_from : ℕ → ℕ → Address → ℕ → Space → Result (Address × Space)
  allocate_from zero i first flags s = ok (first, s)
  allocate_from (suc left) i first flags s = allocate_frame s.vm.pmm >>= λ r.
      let s' = set_pmm s (r.1) in
      let vaddr = add64 first.addr (mul64 i page_size) in
      let mapped = map_page vaddr (r.0) flags s' >>= λ t.
      allocate_from left (i + 1) first flags (flush_tlb vaddr t) in
      if r.0.is_null then (release first i s' >>= λ t. ok (null_address, t)) else mapped

  unfoldable pub allocate : ℕ → ℕ → Space → Result (Address × Space)
  allocate zero flags s = ok (null_address, s)
  allocate (suc more) flags s = allocate_frame s.vm.pmm >>= λ r.
      let s' = set_pmm s (r.1) in
      if r.0.is_null
      then ok (null_address, s')
      else let first = address (tohh hhdm (r.0.addr)) in
        map_page first.addr (r.0) flags s' >>= λ t.
        allocate_from more 1 first flags (flush_tlb first.addr t)

-- `load`.
unfoldable pub load : Space → Result Space
load s = do assert (not s.phys_pml4.is_null); ok (record s { cr3 = s.phys_pml4.addr })
