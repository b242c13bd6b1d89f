-- ===== src/Memory/AddressSpace/Unmaps.antt =====
-- Unmapping a page in kernel/src/mem/address_space.cpp: the frame that it gives back.
use epsilon_os.Base.{ℕ, ◌*◌, ◌<◌, ◌≡◌, ◌≢◌, ◌∙◌, refl, ap, arith, true, false, ok}
use epsilon_os.Memory.Address.{Address, address, null_address}
use epsilon_os.Memory.Pmm.{Pmm}
use epsilon_os.Memory.Pmm.Frames.{IsReady, IsMarked, in_use, release_frame-IsMarked}
use epsilon_os.Memory.PageTable.{Store, write, entry_at, is_present, get_frame}
use epsilon_os.Memory.AddressSpace.{Space, pt_index, pte2frame, unmap_page, virt2phys}
use epsilon_os.Memory.AddressSpace.Indices.{SameIndices}
use epsilon_os.Memory.AddressSpace.Walks.{IsWalk, IsOff, write_self, write-IsWalk, virt2pte-IsWalk}
use epsilon_os.Memory.AddressSpace.Translate.{pte2frame-present, translated, virt2phys-IsWalk}

-- The space after a page was unmapped: its entry is 0, and its frame is given back.
abbrev pub unmapped : ℕ → Pmm → Space → Space
unmapped entry p s = record s { vm = record { store = write s.vm.store entry 0; pmm = p } }

pte2frame-zero :
    (entry : ℕ) (store : Store) → store entry ≡ 0 → pte2frame entry store ≡ null_address
unfolding pte2frame is_present
pte2frame-zero entry store empty = rw empty (ground arith)

-- Where the three tables are there, the entry is none of the words that the walk reads, and the page
-- is mapped to a frame in use: `unmap` returns, that frame is free and no other frame has changed,
-- and no address of the page is translated any more.
pub unmap_page-virt2phys :
    (hhdm : ℕ) (s : Space) (virt other n t1 t2 t3 : ℕ)
    → IsWalk hhdm s.vm.store s.pml4 virt t1 t2 t3
    → IsOff s.pml4 virt t1 t2 (entry_at t3 (pt_index virt))
    → is_present (s.vm.store (entry_at t3 (pt_index virt))) ≡ true
    → get_frame (s.vm.store (entry_at t3 (pt_index virt))) ≡ address (n * 4096)
    → IsReady s.vm.pmm
    → n < s.vm.pmm.bitmap.bitsize
    → in_use s.vm.pmm n ≡ 1
    → SameIndices other virt
    → (s' : Space) × (unmap_page hhdm virt s ≡ ok s')
      × IsMarked s.vm.pmm n 0 s'.vm.pmm
      × (virt2phys hhdm other s' ≡ ok (null_address, s'))
unfolding unmap_page
unmap_page-virt2phys hhdm s virt other n t1 t2 t3 w off there holds ready below taken same =
    let e : ℕ = entry_at t3 (pt_index virt) in
    let nonnull : e ≢ 0 = λ z. w.nonnull3 (omega arith) in
    let (p, releases, marked) = release_frame-IsMarked s.vm.pmm n ready below taken in
    let s' : Space = unmapped e p s in
    let frame : pte2frame e s.vm.store ≡ address (n * 4096) =
      pte2frame-present e (s.vm.store e) s.vm.store nonnull refl there ∙ holds in
    let gone : pte2frame e s'.vm.store ≡ null_address =
      pte2frame-zero e s'.vm.store (write_self s.vm.store e 0) in
    (
      s',
      rw
          (
            virt2pte-IsWalk hhdm s.pml4 virt t1 t2 t3 virt 0 false s.vm w (refl, refl, refl, refl),
            frame,
            releases,
          )
          refl,
      marked,
      virt2phys-IsWalk hhdm s' virt other t1 t2 t3
            (write-IsWalk hhdm s.vm.store s.pml4 virt t1 t2 t3 e 0 w off) same
          ∙ ap (λ (f : Address). ok (translated hhdm f other, s')) gone,
    )
