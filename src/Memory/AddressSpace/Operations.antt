-- ===== src/Memory/AddressSpace/Operations.antt =====
-- The outcomes of the operations of kernel/src/mem/address_space.cpp: what they leave of the frame
-- manager, and that they end.
use epsilon_os.Base.{
  ℕ, zero, suc, ◌+◌, ◌*◌, ◌^◌, ◌<◌, ◌≤◌, ◌≢◌, inl, inr, refl, arith, true, not, ◌&&◌, List, ok,
  >>=-PanicsOr, PanicsOr, if-PanicsOr, ltb, if◌then◌else◌, Bool-cases, ne→==, ltb→lt, add64,
}
use epsilon_os.Memory.Address.{Address, address, differs}
use epsilon_os.Memory.Pmm.{Region, release_frame}
use epsilon_os.Memory.PageTable.{entry_of}
use epsilon_os.Memory.AddressSpace.{Space, fix_flags, pte2frame, virt2pte, map_page, map_range_from}
use epsilon_os.Memory.AddressSpace.Outcomes.{
  IsUsable, Good, write-NoNull, entry-nonnull, Next, release_frame-IsUsable, virt2pte-Next,
}

-- A usable manager, tables without an entry for null, and a first table.
abbrev pub Usable : List Region → ℕ → Space → Type 0
Usable regions hhdm s = Good regions hhdm s.vm × (s.pml4 ≢ 0)

abbrev pub UsableWith : List Region → ℕ → Address × Space → Type 0
UsableWith regions hhdm (a, s) = Usable regions hhdm s

-- The higher half starts above 0 and has room for 2 ^ 47 bytes.
module _ (regions : List Region) (hhdm : ℕ) (low : 0 < hhdm) (high : hhdm + 2 ^ 47 ≤ 2 ^ 64) where
  pub map_page-Usable :
      (virt : ℕ) (phys : Address) (flags : ℕ) (s : Space)
      → phys.addr < 2 ^ 47
      → Usable regions hhdm s
      → PanicsOr (Usable regions hhdm) (map_page hhdm virt phys flags s)
  unfolding map_page
  map_page-Usable virt phys flags s small v =
      >>=-PanicsOr (Next regions hhdm true) (Usable regions hhdm)
        (virt2pte hhdm s.pml4 virt ((fix_flags flags).0) true s.vm) _
        (virt2pte-Next regions hhdm low high s.pml4 virt ((fix_flags flags).0) true s.vm (v.1)
          (v.0))
        (λ r h.
          >>=-PanicsOr (IsUsable regions) (Usable regions hhdm)
            (if not (pte2frame (r.0) (r.1.store)).is_null
                && differs (pte2frame (r.0) (r.1.store)) phys
              then release_frame (r.1.pmm) (pte2frame (r.0) (r.1.store))
              else ok (r.1.pmm))
            _
            (if-PanicsOr (IsUsable regions)
              (not (pte2frame (r.0) (r.1.store)).is_null
                && differs (pte2frame (r.0) (r.1.store)) phys)
              _ _ (release_frame-IsUsable (r.1.pmm) _ (h.0.0)) (h.0.0))
            (λ pmm g. rw (ne→== (r.0) 0 (h.1 refl)) (
              (
                g,
                write-NoNull regions hhdm low high (r.1.store) (r.0)
                    (entry_of phys ((fix_flags flags).1)) (h.0.1)
                    (entry-nonnull regions hhdm low high phys ((fix_flags flags).1) small),
              ),
              v.1,
            )))

  -- The pages of a range that are left at an offset take less than the fuel.
  pub map_range_from-Usable :
      (fuel offset virt phys size flags : ℕ) (s : Space)
      → Usable regions hhdm s
      → phys + size ≤ 2 ^ 47
      → size + 4096 ≤ offset + 4096 * fuel
      → offset < size + 4096
      → PanicsOr (Usable regions hhdm) (map_range_from hhdm fuel offset virt phys size flags s)
  unfolding map_range_from
  map_range_from-Usable zero offset virt phys size flags s v fits enough near = absurd (omega arith)
  map_range_from-Usable (suc fuel) offset virt phys size flags s v fits enough near =
      elim (Bool-cases (ltb offset size)) [
        | inr e ↦ rw e v
        | inl e ↦ rw e (
            >>=-PanicsOr (Usable regions hhdm) (Usable regions hhdm)
              (map_page hhdm (add64 virt offset) (address (add64 phys offset)) flags s) _
              (map_page-Usable (add64 virt offset) (address (add64 phys offset)) flags s
                (omega (arith, ltb→lt _ _ e)) v)
              (λ t g.
                map_range_from-Usable fuel (add64 offset 4096) virt phys size flags t g fits
                  (omega (arith, ltb→lt _ _ e)) (omega (arith, ltb→lt _ _ e))))
      ]
