-- ===== src/Memory/AddressSpace/Walks.antt =====
-- The walk of kernel/src/mem/address_space.cpp through tables that are there already.
use epsilon_os.Base.{ℕ, ◌≡◌, ◌≢◌, ◌∙◌, refl, ap, Bool, true, ok, ne→==, ==_self}
use epsilon_os.Memory.Address.{tohh}
use epsilon_os.Memory.PageTable.{Store, Vm, write, entry_at, is_present, get_frame, get_next_table}
use epsilon_os.Memory.AddressSpace.{pml4_index, pdp_index, pd_index, pt_index, virt2pte}
use epsilon_os.Memory.AddressSpace.Indices.{SameIndices}

-- The three tables below `pml4` that the walk of an address goes through, all of them there.
pub record IsWalk (hhdm : ℕ) (store : Store) (pml4 virt t1 t2 t3 : ℕ) : Type 0 where
  pub nonnull0 : pml4 ≢ 0
  pub present1 : is_present (store (entry_at pml4 (pml4_index virt))) ≡ true
  pub present2 : is_present (store (entry_at t1 (pdp_index virt))) ≡ true
  pub present3 : is_present (store (entry_at t2 (pd_index virt))) ≡ true
  pub next1 : tohh hhdm (get_frame (store (entry_at pml4 (pml4_index virt)))).addr ≡ t1
  pub next2 : tohh hhdm (get_frame (store (entry_at t1 (pdp_index virt)))).addr ≡ t2
  pub next3 : tohh hhdm (get_frame (store (entry_at t2 (pd_index virt)))).addr ≡ t3
  pub nonnull1 : t1 ≢ 0
  pub nonnull2 : t2 ≢ 0
  pub nonnull3 : t3 ≢ 0

-- The walk does not read the word at `p`.
pub record IsOff (pml4 virt t1 t2 p : ℕ) : Type 0 where
  pub off1 : p ≢ entry_at pml4 (pml4_index virt)
  pub off2 : p ≢ entry_at t1 (pdp_index virt)
  pub off3 : p ≢ entry_at t2 (pd_index virt)

pub write_ne : (store : Store) (p v q : ℕ) → p ≢ q → write store p v q ≡ store q
write_ne store p v q ne = rw (ne→== p q ne) refl

pub write_self : (store : Store) (p v : ℕ) → write store p v p ≡ v
write_self store p v = rw (==_self p) refl

module _ (hhdm : ℕ) where
  pub write-IsWalk :
      (store : Store) (pml4 virt t1 t2 t3 p v : ℕ)
      → IsWalk hhdm store pml4 virt t1 t2 t3
      → IsOff pml4 virt t1 t2 p
      → IsWalk hhdm (write store p v) pml4 virt t1 t2 t3
  write-IsWalk store pml4 virt t1 t2 t3 p v w off =
      let same1 = write_ne store p v _ (off.off1) in
      let same2 = write_ne store p v _ (off.off2) in
      let same3 = write_ne store p v _ (off.off3) in
      record {
        nonnull0 = w.nonnull0;
        present1 = ap is_present same1 ∙ w.present1;
        present2 = ap is_present same2 ∙ w.present2;
        present3 = ap is_present same3 ∙ w.present3;
        next1 = ap (λ (raw : ℕ). tohh hhdm (get_frame raw).addr) same1 ∙ w.next1;
        next2 = ap (λ (raw : ℕ). tohh hhdm (get_frame raw).addr) same2 ∙ w.next2;
        next3 = ap (λ (raw : ℕ). tohh hhdm (get_frame raw).addr) same3 ∙ w.next3;
        nonnull1 = w.nonnull1;
        nonnull2 = w.nonnull2;
        nonnull3 = w.nonnull3;
      }

  get_next_table-present :
      (table index flags t : ℕ) (allocate : Bool) (vm : Vm)
      → is_present (vm.store (entry_at table index)) ≡ true
      → tohh hhdm (get_frame (vm.store (entry_at table index))).addr ≡ t
      → get_next_table hhdm table index flags allocate vm ≡ ok (t, vm)
  unfolding get_next_table
  get_next_table-present table index flags t allocate vm there next =
      rw there (ap (λ (u : ℕ). ok (u, vm)) next)

  -- The walk of an address with the same indices ends at the same entry and changes nothing.
  pub virt2pte-IsWalk :
      (pml4 virt t1 t2 t3 other flags : ℕ) (allocate : Bool) (vm : Vm)
      → IsWalk hhdm vm.store pml4 virt t1 t2 t3
      → SameIndices other virt
      → virt2pte hhdm pml4 other flags allocate vm ≡ ok (entry_at t3 (pt_index virt), vm)
  unfolding virt2pte
  virt2pte-IsWalk pml4 virt t1 t2 t3 other flags allocate vm w same =
      rw
        (
          ne→== pml4 0 w.nonnull0,
          same.0,
          same.1,
          same.2,
          same.3,
          get_next_table-present pml4 (pml4_index virt) flags t1 allocate vm w.present1 w.next1,
          ne→== t1 0 w.nonnull1,
          get_next_table-present t1 (pdp_index virt) flags t2 allocate vm w.present2 w.next2,
          ne→== t2 0 w.nonnull2,
          get_next_table-present t2 (pd_index virt) flags t3 allocate vm w.present3 w.next3,
          ne→== t3 0 w.nonnull3,
        )
        refl
