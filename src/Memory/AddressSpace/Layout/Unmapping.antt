-- ===== src/Memory/AddressSpace/Layout/Unmapping.antt =====
-- `unmap` of kernel/src/mem/address_space.cpp on an address space that is seen as the frames of its
-- pages.
use epsilon_os.Base.{
  ℕ, ◌+◌, ◌%◌, ◌^◌, ◌≤◌, ◌<◌, ◌≡◌, ◌∙◌, refl, sym, ap, arith, false, Option, none, some, ok,
}
use epsilon_os.Memory.Pmm.{Pmm}
use epsilon_os.Memory.Pmm.Frames.{in_use, IsMarked, release_frame-IsMarked}
use epsilon_os.Memory.PageTable.{Vm, entry_at, write}
use epsilon_os.Memory.AddressSpace.{Space, virt2pte, pte2frame, unmap_page}
use epsilon_os.Memory.AddressSpace.Indices.{page_number}
use epsilon_os.Memory.AddressSpace.Tree.{
  Entries, walk, and_then-some, upper_indices, upper_indices-Below, walk-level,
}
use epsilon_os.Memory.AddressSpace.Tree.Leaves.{with_page}
use epsilon_os.Memory.AddressSpace.Layout.{table_at, entries, IsLaid}
use epsilon_os.Memory.AddressSpace.Layout.Writes.{entry_frame-zero}
use epsilon_os.Memory.AddressSpace.Layout.Finding.{
  entry_behind, frame_address, pte2frame-find, virt2pte-find,
}
use epsilon_os.Memory.AddressSpace.Layout.Mapping.{Shows, write-Shows}

-- A frame in use that holds no table.
abbrev pub IsPlain : (ℕ → ℕ) → Pmm → ℕ → Type 0
IsPlain level p n = (level n ≡ 0) × (n < p.bitmap.bitsize) × (in_use p n ≡ 1)

pub release-IsLaid :
    {hhdm root : ℕ} {level : ℕ → ℕ} {vm : Vm} (n : ℕ) (p' : Pmm)
    → IsLaid hhdm root level vm
    → level n ≡ 0
    → IsMarked vm.pmm n 0 p'
    → IsLaid hhdm root level (record { store = vm.store; pmm = p' })
release-IsLaid {level = level} n p' v plain m = record {
  ready = m.ready;
  physical = omega (arith, m.same_bits, v.physical);
  tree = v.tree;
  inside = λ f deep. omega (arith, m.same_bits, v.inside f deep);
  taken = λ f deep. m.others f (λ e. omega (arith, ap level e)) ∙ v.taken f deep;
}

module _ (hhdm : ℕ) (low : 0 < hhdm) (high : hhdm + 2 ^ 47 ≤ 2 ^ 64) (level : ℕ → ℕ)
    (pages : ℕ → Option ℕ) (s : Space) (x : ℕ) (v : Shows hhdm level pages s)
    (hx : x < 2 ^ 64) where
  -- What `unmap` reads.
  found :
      (w : Option ℕ)
      → walk (entries hhdm s.vm.store) v.root (upper_indices (page_number x)) ≡ w
      → (virt2pte hhdm s.pml4 x 0 false s.vm ≡ ok (entry_behind hhdm w (page_number x % 512), s.vm))
        × (pte2frame (entry_behind hhdm w (page_number x % 512)) s.vm.store
            ≡ frame_address (pages (page_number x)))
  found w walks =
      let p : ℕ = page_number x in
      let d : Entries = entries hhdm s.vm.store in
      let deep : (g : ℕ) → walk d v.root (upper_indices p) ≡ some g → 0 < level g = λ g e. omega (
        arith,
        v.laid.tree.top,
        walk-level d v.root level v.laid.tree (upper_indices p) v.root g
            (omega (arith, v.laid.tree.top)) (upper_indices-Below p) e,
      ) in
      (
        ap (λ (t : ℕ). virt2pte hhdm t x 0 false s.vm) v.at
            ∙ virt2pte-find hhdm low high v.root level s.vm x 0 v.laid hx
            ∙ ap (λ (o : Option ℕ). ok (entry_behind hhdm o (p % 512), s.vm)) walks,
        ap (λ (o : Option ℕ). pte2frame (entry_behind hhdm o (p % 512)) s.vm.store) (sym walks)
            ∙ pte2frame-find hhdm low high v.root level s.vm (walk d v.root (upper_indices p))
                (p % 512) v.laid deep
            ∙ ap frame_address (v.shown p (omega arith)),
      )

  -- A page that has no frame: nothing changes.
  pub unmap_page-none : pages (page_number x) ≡ none → unmap_page hhdm x s ≡ ok s
  unfolding unmap_page
  unmap_page-none lost =
      let w : Option ℕ = walk (entries hhdm s.vm.store) v.root (upper_indices (page_number x)) in
      let (reads, frame) = found w refl in rw (reads, frame, lost) refl

  -- Where the higher half starts above 0 and has room for 2^47 bytes, in a space whose tables lie
  -- in memory as a tree and whose pages have the given frames, `unmap` of the page of a 64-bit
  -- address that has a frame in use which holds no table: it returns with a space of the same kind,
  -- in which this page has no frame and every other page the one it had; the frame is free, and
  -- every other frame is as before.
  pub unmap_page-some :
      (n : ℕ)
      → pages (page_number x) ≡ some n
      → IsPlain level s.vm.pmm n
      → (s' : Space) × (unmap_page hhdm x s ≡ ok s')
        × Shows hhdm level (with_page pages (page_number x) none) s'
        × IsMarked s.vm.pmm n 0 s'.vm.pmm
  unfolding unmap_page
  unmap_page-some n maps (plain, inside, taken) =
      let p : ℕ = page_number x in
      let d : Entries = entries hhdm s.vm.store in
      let (f, arrives, _) =
        and_then-some (walk d v.root (upper_indices p)) (λ g. d g (p % 512)) n
          (v.shown p (omega arith) ∙ maps) in
      let (reads, frame) = found (some f) arrives in
      let (pmm, returns, m) = release_frame-IsMarked s.vm.pmm n v.laid.ready inside taken in
      let last : 3 + level f ≡ 4 =
        walk-level d v.root level v.laid.tree (upper_indices p) v.root f
          (omega (arith, v.laid.tree.top)) (upper_indices-Below p) arrives
        ∙ v.laid.tree.top in
      (
        record s {
          vm = record {
            store = write s.vm.store (entry_at (table_at hhdm f) (p % 512)) 0;
            pmm = pmm;
          };
        },
        rw (reads, frame, maps, returns) refl,
        write-Shows hhdm low high level pages s v.root f p (entry_at (table_at hhdm f) (p % 512)) 0
            none pmm (release-IsLaid n pmm v.laid plain m) v.at v.shown (omega arith) (omega arith)
            arrives refl entry_frame-zero,
        m,
      )
