-- ===== src/Memory/AddressSpace/Layout/Flagging.antt =====
-- The entry of a page behind `map` of kernel/src/mem/address_space.cpp: its frame and its flags.
use epsilon_os.Base.{
  ℕ, ◌+◌, ◌*◌, ◌%◌, ◌^◌, ◌≤◌, ◌<◌, ◌≡◌, ◌≢◌, ◌∙◌, ◌⊎◌, refl, sym, ap, ap₂, arith, true, false,
  Option, none, some, length, Result, ok, stop, panic, fault, halted, spent, PanicsIf, >>=-PanicsIf,
  bit_and, bit_or, ==→ne,
}
use epsilon_os.Memory.Address.{address}
use epsilon_os.Memory.Flags.{present}
use epsilon_os.Memory.Pmm.Checked.{free_count}
use epsilon_os.Memory.PageTable.{
  Store, Vm, write, is_present, get_frame, flags_mask, entry_of, entry_at,
}
use epsilon_os.Memory.PageTable.Entries.{get_frame-entry_of, is_present-entry_of, flags-entry_of}
use epsilon_os.Memory.AddressSpace.{Space, virt2pte, fix_flags, map_page}
use epsilon_os.Memory.AddressSpace.Walks.{write_self}
use epsilon_os.Memory.AddressSpace.Indices.{page_number, fix_flags-directory}
use epsilon_os.Memory.AddressSpace.Translate.{fix_flags-is_present, fix_flags-lt}
use epsilon_os.Memory.AddressSpace.Tree.{
  Entries, walk, upper_indices, upper_indices-Below, walk-agrees,
}
use epsilon_os.Memory.AddressSpace.Tree.Leaves.{with_page, kept, set-IsTree}
use epsilon_os.Memory.AddressSpace.Layout.{table_at, entry_frame, entries, IsLaid}
use epsilon_os.Memory.AddressSpace.Layout.Walking.{LacksTables, Arrives, virt2pte-Arrives}
use epsilon_os.Memory.AddressSpace.Layout.Finding.{entry_behind, virt2pte-find}
use epsilon_os.Memory.AddressSpace.Layout.Mapping.{
  Shows, Follows, Suffices, write-updated, no_release, Arrives-frame, map_page-Follows,
}

-- The walk for the address arrives at a present entry with this frame and with the flags and Present,
-- those of them that an entry keeps.
pub record IsFlagged (hhdm x n flags : ℕ) (s : Space) : Type 0 where
  pub entry : ℕ
  pub found : virt2pte hhdm s.pml4 x 0 false s.vm ≡ ok (entry, s.vm)
  pub nonnull : entry ≢ 0
  pub there : is_present (s.vm.store entry) ≡ true
  pub frame : get_frame (s.vm.store entry) ≡ address (n * 4096)
  pub kept_flags : bit_and (s.vm.store entry) flags_mask ≡ bit_and (bit_or flags present) flags_mask

-- A bound of panics from one theorem, the result from another.
PanicsIf-swap :
    (N : Type 0) (P Q : Space → Type 0) (r : Result Space)
    → PanicsIf N P r
    → PanicsIf Unit Q r
    → PanicsIf N Q r
PanicsIf-swap N P Q (ok s) h g = g
PanicsIf-swap N P Q (stop panic) h g = h
PanicsIf-swap N P Q (stop fault) h g = elim h [ ]
PanicsIf-swap N P Q (stop halted) h g = elim h [ ]
PanicsIf-swap N P Q (stop spent) h g = elim h [ ]

page_flags : (flags : ℕ) → (fix_flags flags).1 ≡ bit_or flags present
unfolding fix_flags
page_flags flags = refl

module _ (hhdm : ℕ) (low : 0 < hhdm) (high : hhdm + 2 ^ 47 ≤ 2 ^ 64) where
  -- The walk behind the write of an entry that it arrived at.
  write-found :
      (root x raw : ℕ) (level : ℕ → ℕ) (vm : Vm) (r : ℕ × Vm)
      (a : Arrives hhdm root level vm (page_number x) r)
      → x < 2 ^ 64
      → let vm' : Vm = record { store = write (r.1.store) (r.0) raw; pmm = r.1.pmm } in
        virt2pte hhdm (table_at hhdm root) x 0 false vm' ≡ ok (r.0, vm')
  write-found root x raw level vm r a hx =
      let p : ℕ = page_number x in
      let i : ℕ = p % 512 in
      let store : Store = write (r.1.store) (entry_at (table_at hhdm a.frame) i) raw in
      let vm' : Vm = record { store = write (r.1.store) (r.0) raw; pmm = r.1.pmm } in
      let same : vm' ≡ record { store = store; pmm = r.1.pmm } =
        ap (λ (e : ℕ). record { store = write (r.1.store) e raw; pmm = r.1.pmm }) a.at in
      let d : Entries = entries hhdm (r.1.store) in
      let d' : Entries = entries hhdm store in
      let updated =
        write-updated hhdm low high a.level' (r.1) root a.frame i raw (r.1.pmm) a.laid a.last
          (omega arith) in
      let laid : IsLaid hhdm root a.level' (record { store = store; pmm = r.1.pmm }) = record {
        ready = a.laid.ready;
        physical = a.laid.physical;
        tree = set-IsTree d d' root a.level' a.laid.tree a.frame i (entry_frame raw) a.last updated;
        inside = a.laid.inside;
        taken = a.laid.taken;
      } in
      let three : length (upper_indices p) < a.level' root = omega (arith, a.laid.tree.top) in
      let walks : walk d' root (upper_indices p) ≡ some a.frame =
        walk-agrees d root a.level' a.laid.tree d' (upper_indices p) root
          (kept d d' root a.level' a.laid.tree a.frame i (entry_frame raw) a.last updated) three
          (upper_indices-Below p)
        ∙ a.arrives in
      let vm'' : Vm = record { store = store; pmm = r.1.pmm } in
      ap (λ (w : Vm). virt2pte hhdm (table_at hhdm root) x 0 false w) same
      ∙ virt2pte-find hhdm low high root a.level' vm'' x 0 laid hx
      ∙ ap (λ (o : Option ℕ). ok (entry_behind hhdm o i, vm'')) walks
      ∙ ap₂ (λ (e : ℕ) (w : Vm). ok (e, w)) (sym a.at) (sym same)

  returned-IsFlagged :
      (level : ℕ → ℕ) (pages : ℕ → Option ℕ) (s : Space) (x n flags : ℕ)
      → Shows hhdm level pages s
      → x < 2 ^ 64
      → n < 2 ^ 40
      → flags < 2 ^ 64
      → (pages (page_number x) ≡ none) ⊎ (pages (page_number x) ≡ some n)
      → PanicsIf Unit (IsFlagged hhdm x n flags) (map_page hhdm x (address (n * 4096)) flags s)
  unfolding map_page
  returned-IsFlagged level pages s x n flags v hx hn hf accepts =
      let p : ℕ = page_number x in
      let (wide, set) = fix_flags-directory flags hf in
      >>=-PanicsIf (LacksTables hhdm v.root s.vm p) Unit (Arrives hhdm v.root level s.vm p)
        (IsFlagged hhdm x n flags) (virt2pte hhdm s.pml4 x ((fix_flags flags).0) true s.vm) _
        (rw v.at (
          virt2pte-Arrives hhdm low high v.root level s.vm x ((fix_flags flags).0) v.laid hx wide
            set))
        (λ lost. tt)
        λ r a.
          let hp : p < 2 ^ 36 = omega arith in
          let (nonnull, frame) =
            Arrives-frame hhdm low high v.root level s.vm p (pages p) r a (v.shown p hp) in
          let unchanged = no_release hhdm low high (pages p) n accepts in
          rw (frame, unchanged, nonnull) (written-IsFlagged r a (==→ne _ _ nonnull))
    where
      word : ℕ
      word = entry_of (address (n * 4096)) ((fix_flags flags).1)

      written-IsFlagged :
          (r : ℕ × Vm)
          → Arrives hhdm v.root level s.vm (page_number x) r
          → r.0 ≢ 0
          → IsFlagged hhdm x n flags
              (record s { vm = record { store = write (r.1.store) (r.0) word; pmm = r.1.pmm } })
      written-IsFlagged r a nonnull =
          let at : write (r.1.store) (r.0) word (r.0) ≡ word = write_self (r.1.store) (r.0) word in
          let vm' : Vm = record { store = write (r.1.store) (r.0) word; pmm = r.1.pmm } in
          record {
            entry = r.0;
            found =
                ap (λ (t : ℕ). virt2pte hhdm t x 0 false vm') v.at
                ∙ write-found v.root x word level s.vm r a hx;
            nonnull = nonnull;
            there =
                ap is_present at
                ∙ is_present-entry_of (n * 4096) ((fix_flags flags).1) (omega arith)
                    (fix_flags-lt flags hf)
                ∙ fix_flags-is_present flags hf;
            frame =
                ap get_frame at
                ∙ get_frame-entry_of (n * 4096) ((fix_flags flags).1) (omega arith) (omega arith)
                    (fix_flags-lt flags hf);
            kept_flags =
                ap (λ (w : ℕ). bit_and w flags_mask) at
                ∙ flags-entry_of (n * 4096) ((fix_flags flags).1) (omega arith)
                    (fix_flags-lt flags hf)
                ∙ ap (λ (w : ℕ). bit_and w flags_mask) (page_flags flags);
          }

  -- Where the higher half starts above 0 and has room for 2^47 bytes, in a space whose tables lie in
  -- memory as a tree and whose pages have the given frames, `map` of the page of a 64-bit address, with
  -- 64-bit flags, to a page-aligned address below 2^52, where the page has no frame or has that one
  -- already: it panics only if fewer than `k` frames are free, or it returns, and then the walk for the
  -- address that creates no table arrives at an entry that is present, holds that frame, and has
  -- exactly the requested flags and Present, as far as an entry keeps flags. Here `k` is three or more,
  -- or any number if a page with the same tables has a frame.
  pub map_page-IsFlagged :
      (level : ℕ → ℕ) (pages : ℕ → Option ℕ) (s : Space) (k x n flags : ℕ)
      → Shows hhdm level pages s
      → x < 2 ^ 64
      → n < 2 ^ 40
      → flags < 2 ^ 64
      → (pages (page_number x) ≡ none) ⊎ (pages (page_number x) ≡ some n)
      → Suffices k pages (page_number x)
      → PanicsIf
          (free_count s.vm.pmm < k)
          (IsFlagged hhdm x n flags)
          (map_page hhdm x (address (n * 4096)) flags s)
  map_page-IsFlagged level pages s k x n flags v hx hn hf accepts enough =
      PanicsIf-swap (free_count s.vm.pmm < k)
        (Follows hhdm level k s (with_page pages (page_number x) (some n)))
        (IsFlagged hhdm x n flags) (map_page hhdm x (address (n * 4096)) flags s)
        (map_page-Follows hhdm low high level pages s k x n flags v hx hn hf accepts enough)
        (returned-IsFlagged level pages s x n flags v hx hn hf accepts)
