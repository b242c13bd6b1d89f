-- ===== src/Memory/AddressSpace/Layout/Mapping.antt =====
-- `map` of kernel/src/mem/address_space.cpp on an address space that is seen as the frames of its pages.
use epsilon_os.Base.{
  ℕ, ◌+◌, ◌*◌, ◌%◌, ◌^◌, ◌≤◌, ◌<◌, ◌≡◌, ◌≢◌, ◌∙◌, ◌⊎◌, refl, sym, ap, arith, inl, inr, true, false,
  not, ◌&&◌, Option, none, some, Result, ok, PanicsIf, >>=-PanicsIf, ◌==◌, if◌then◌else◌, ne→==,
  ==_self, ==→ne,
}
use epsilon_os.Memory.Address.{address, differs}
use epsilon_os.Memory.Pmm.{Pmm}
use epsilon_os.Memory.Pmm.Frames.{in_use}
use epsilon_os.Memory.Pmm.Checked.{free_count}
use epsilon_os.Memory.PageTable.{Store, Vm, write, entry_of, entry_at}
use epsilon_os.Memory.AddressSpace.{Space, virt2pte, fix_flags, pte2frame, map_page, virt2phys}
use epsilon_os.Memory.AddressSpace.Indices.{page_number, fix_flags-directory}
use epsilon_os.Memory.AddressSpace.Translate.{fix_flags-is_present, fix_flags-lt}
use epsilon_os.Memory.AddressSpace.Tree.{Entries, walk, upper_indices, frame_of_page, and_then-some}
use epsilon_os.Memory.AddressSpace.Tree.Leaves.{
  with_entry, with_page, set-IsTree, frame_of_page-set,
}
use epsilon_os.Memory.AddressSpace.Layout.{table_at, entry_frame, entries, IsLaid}
use epsilon_os.Memory.AddressSpace.Layout.Writes.{entries-write, entry_frame-entry_of}
use epsilon_os.Memory.AddressSpace.Layout.Walking.{
  LacksTables, Arrives, virt2pte-Arrives, table_at-nonnull,
}
use epsilon_os.Memory.AddressSpace.Layout.Finding.{
  frame_address, translation, pte2frame-find, virt2phys-translation,
}

-- An address space whose tables lie in memory, in frames that are in use, and whose pages have the
-- given frames. `level` tells the frames of tables from the others.
pub record Shows (hhdm : ℕ) (level : ℕ → ℕ) (pages : ℕ → Option ℕ) (s : Space) : Type 0 where
  pub root : ℕ
  pub laid : IsLaid hhdm root level s.vm
  pub at : s.pml4 ≡ table_at hhdm root
  pub shown : (p : ℕ) → p < 2 ^ 36 → frame_of_page (entries hhdm s.vm.store) root p ≡ pages p

-- The address space after an operation, which took at most `k` frames. Frames that were in use still
-- are, and no table is added in one of them.
pub record Follows (hhdm : ℕ) (level : ℕ → ℕ) (k : ℕ) (s : Space) (pages' : ℕ → Option ℕ)
    (s' : Space) : Type 0 where
  pub level' : ℕ → ℕ
  pub shows : Shows hhdm level' pages' s'
  pub same_bits : s'.vm.pmm.bitmap.bitsize ≡ s.vm.pmm.bitmap.bitsize
  pub same_memmap : s'.vm.pmm.memmap ≡ s.vm.pmm.memmap
  pub same_pml4 : s'.phys_pml4 ≡ s.phys_pml4
  pub uses : (f : ℕ) → in_use s.vm.pmm f ≡ 1 → (in_use s'.vm.pmm f ≡ 1) × (level' f ≡ level f)
  pub spends : free_count s.vm.pmm ≤ k + free_count s'.vm.pmm

-- A run that takes at most `k` frames, and panics only if fewer than `k` are free.
abbrev pub Runs : ℕ → (ℕ → ℕ) → ℕ → Space → (ℕ → Option ℕ) → Result Space → Type 0
Runs hhdm level k s pages' = PanicsIf (free_count s.vm.pmm < k) (Follows hhdm level k s pages')

-- At most `k` frames are needed for the tables of page `p`: three are enough, and none is needed
-- where a page with the same tables has a frame.
abbrev pub Suffices : ℕ → (ℕ → Option ℕ) → ℕ → Type 0
Suffices k pages p =
    (3 ≤ k) ⊎ ((q n : ℕ) × (q < 2 ^ 36) × (upper_indices q ≡ upper_indices p) × (pages q ≡ some n))

module _ (hhdm : ℕ) (low : 0 < hhdm) (high : hhdm + 2 ^ 47 ≤ 2 ^ 64) where
  -- The entries behind a write to entry `i` of the table at `f`.
  pub write-updated :
      (level : ℕ → ℕ) (vm : Vm) (root f i raw : ℕ) (pmm : Pmm)
      → IsLaid hhdm root level (record { store = vm.store; pmm = pmm })
      → level f ≡ 1
      → i < 512
      → (h j : ℕ) → 0 < level h
      → j < 512
      → entries hhdm (write vm.store (entry_at (table_at hhdm f) i) raw) h j
        ≡ with_entry (entries hhdm vm.store) f i (entry_frame raw) h j
  write-updated level vm root f i raw pmm v last small h j deep hj =
      entries-write hhdm low high vm.store f i raw h j (omega (arith, v.inside f, v.physical))
        (omega (arith, v.inside h deep, v.physical)) small hj

  -- The entry of page `p` in the table at `f` is set.
  pub write-Shows :
      (level : ℕ → ℕ) (pages : ℕ → Option ℕ) (s : Space) (root f p entry raw : ℕ) (value : Option ℕ)
      (pmm : Pmm)
      → IsLaid hhdm root level (record { store = s.vm.store; pmm = pmm })
      → s.pml4 ≡ table_at hhdm root
      → ((q : ℕ) → q < 2 ^ 36 → frame_of_page (entries hhdm s.vm.store) root q ≡ pages q)
      → level f ≡ 1
      → p < 2 ^ 36
      → walk (entries hhdm s.vm.store) root (upper_indices p) ≡ some f
      → entry ≡ entry_at (table_at hhdm f) (p % 512)
      → entry_frame raw ≡ value
      → Shows hhdm level
          (with_page pages p value)
          (record s { vm = record { store = write s.vm.store entry raw; pmm = pmm } })
  write-Shows level pages s root f p entry raw value pmm v at shown last hp arrives here leads =
      let store' : Store = write s.vm.store entry raw in
      let d : Entries = entries hhdm s.vm.store in
      let d' : Entries = entries hhdm store' in
      let updated : (h j : ℕ)
          → 0 < level h
          → j < 512
          → d' h j ≡ with_entry d f (p % 512) value h j =
        λ h j deep hj.
          ap (λ (e : ℕ). entries hhdm (write s.vm.store e raw) h j) here
          ∙ write-updated level s.vm root f (p % 512) raw pmm v last (omega arith) h j deep hj
          ∙ ap (λ (o : Option ℕ). with_entry d f (p % 512) o h j) leads in
      record {
        root = root;
        laid = record {
          ready = v.ready;
          physical = v.physical;
          tree = set-IsTree d d' root level v.tree f (p % 512) value last updated;
          inside = v.inside;
          taken = v.taken;
        };
        at = at;
        shown = λ q hq.
            frame_of_page-set d d' root level v.tree f (p % 512) value last updated p q hp hq
              arrives refl
            ∙ ap (λ (o : Option ℕ). if q == p then value else o) (shown q hq);
      }

  -- Where the higher half starts above 0 and has room for 2^47 bytes, in a space whose tables lie
  -- in memory as a tree and whose pages have the given frames, `virt2phys` of a 64-bit address
  -- returns the address at its offset in the frame of its page, or the null address if the page has
  -- none, and changes nothing.
  pub virt2phys-Shows :
      (level : ℕ → ℕ) (pages : ℕ → Option ℕ) (s : Space) (x : ℕ)
      → Shows hhdm level pages s
      → x < 2 ^ 64
      → virt2phys hhdm x s ≡ ok (translation (pages (page_number x)) x, s)
  virt2phys-Shows level pages s x v hx =
      virt2phys-translation hhdm low high v.root level s x v.laid v.at hx
      ∙ ap (λ (o : Option ℕ). ok (translation o x, s)) (v.shown (page_number x) (omega arith))

  pub no_release :
      (o : Option ℕ) (n : ℕ)
      → (o ≡ none) ⊎ (o ≡ some n)
      → (not (frame_address o).is_null && differs (frame_address o) (address (n * 4096))) ≡ false
  unfolding differs
  no_release none n h = refl
  no_release (some k) n (inl e) = cc
  no_release (some k) n (inr e) = let same : k ≡ n = cc in rw (same, ==_self (n * 4096)) refl

  -- The entry that the walk arrives at says the frame of the page.
  pub Arrives-frame :
      (root : ℕ) (level : ℕ → ℕ) (vm : Vm) (p : ℕ) (o : Option ℕ) (r : ℕ × Vm)
      → Arrives hhdm root level vm p r
      → frame_of_page (entries hhdm vm.store) root p ≡ o
      → ((r.0 == 0) ≡ false) × (pte2frame (r.0) (r.1.store) ≡ frame_address o)
  Arrives-frame root level vm p o r a shown =
      let d' : Entries = entries hhdm (r.1.store) in
      let entry : ℕ = entry_at (table_at hhdm a.frame) (p % 512) in
      let there = table_at-nonnull hhdm low high root a.frame a.laid (omega (arith, a.last)) in
      let nonnull : r.0 ≢ 0 = λ z. ==→ne _ _ there (omega (arith, a.at)) in
      let found : frame_of_page d' root p ≡ d' a.frame (p % 512) = rw a.arrives refl in
      (
        ne→== (r.0) 0 nonnull,
        ap (λ (e : ℕ). pte2frame e (r.1.store)) a.at
            ∙ pte2frame-find hhdm low high root a.level' (r.1) (some a.frame) (p % 512) a.laid
                (λ g e. let same : a.frame ≡ g = cc in omega (arith, ap a.level' same, a.last))
            ∙ ap frame_address (sym found ∙ a.grows.pages p ∙ shown),
      )

  -- The tables of a page with the same tables as one that has a frame are there.
  pub shared_tables :
      (level : ℕ → ℕ) (pages : ℕ → Option ℕ) (s : Space) (p q n : ℕ) (v : Shows hhdm level pages s)
      → q < 2 ^ 36
      → upper_indices q ≡ upper_indices p
      → pages q ≡ some n
      → (f : ℕ) × (walk (entries hhdm s.vm.store) v.root (upper_indices p) ≡ some f)
  shared_tables level pages s p q n v hq same maps =
      let d : Entries = entries hhdm s.vm.store in
      let (f, arrives, _) =
        and_then-some (walk d v.root (upper_indices q)) (λ g. d g (q % 512)) n
          (v.shown q hq ∙ maps) in
      (f, ap (walk d v.root) (sym same) ∙ arrives)

  -- Where the higher half starts above 0 and has room for 2^47 bytes, in a space whose tables lie
  -- in memory as a tree and whose pages have the given frames, `map` of the page of a 64-bit
  -- address, with 64-bit flags, to a page-aligned address below 2^52, where the page has no frame
  -- or has that one already: it returns with a space of the same kind, in which this page has that
  -- frame and every other page the one it had; it takes at most `k` frames, and it panics only if
  -- fewer than `k` are free. Here `k` is three or more, or any number if a page with the same
  -- tables has a frame.
  pub map_page-Follows :
      (level : ℕ → ℕ) (pages : ℕ → Option ℕ) (s : Space) (k x n flags : ℕ)
      → Shows hhdm level pages s
      → x < 2 ^ 64
      → n < 2 ^ 40
      → flags < 2 ^ 64
      → (pages (page_number x) ≡ none) ⊎ (pages (page_number x) ≡ some n)
      → Suffices k pages (page_number x)
      → Runs hhdm level k s
          (with_page pages (page_number x) (some n))
          (map_page hhdm x (address (n * 4096)) flags s)
  unfolding map_page
  map_page-Follows level pages s k x n flags v hx hn hf accepts enough =
      let p : ℕ = page_number x in
      let (wide, set) = fix_flags-directory flags hf in
      >>=-PanicsIf (LacksTables hhdm v.root s.vm p) (free_count s.vm.pmm < k)
        (Arrives hhdm v.root level s.vm p) (Follows hhdm level k s (with_page pages p (some n)))
        (virt2pte hhdm s.pml4 x ((fix_flags flags).0) true s.vm) _
        (rw v.at (
          virt2pte-Arrives hhdm low high v.root level s.vm x ((fix_flags flags).0) v.laid hx wide
            set))
        panics
        λ r a.
          let hp : p < 2 ^ 36 = omega arith in
          let (nonnull, frame) = Arrives-frame v.root level s.vm p (pages p) r a (v.shown p hp) in
          let kept = no_release (pages p) n accepts in
          rw (frame, kept, nonnull)
            (record {
              level' = a.level';
              shows =
                  write-Shows a.level' pages (record s { vm = r.1 }) v.root a.frame p (r.0)
                    (entry_of (address (n * 4096)) ((fix_flags flags).1)) (some n) (r.1.pmm) a.laid
                    v.at (λ q hq. a.grows.pages q ∙ v.shown q hq) a.last hp a.arrives a.at
                    (entry_frame-entry_of n ((fix_flags flags).1) hn (fix_flags-lt flags hf)
                      (fix_flags-is_present flags hf));
              same_bits = a.grows.same_bits;
              same_memmap = a.grows.same_memmap;
              same_pml4 = refl;
              uses = a.grows.uses;
              spends = spends r a;
            })
    where
      panics : LacksTables hhdm v.root s.vm (page_number x) → free_count s.vm.pmm < k
      panics (few, lost) = elim enough [
        | inl three ↦ omega arith
        | inr (q, m, hq, same, maps) ↦
            let (f, there) = shared_tables level pages s (page_number x) q m v hq same maps in
            let gone : none ≡ some f = sym lost ∙ there in absurd (cc)
      ]

      spends :
          (r : ℕ × Vm)
          → Arrives hhdm v.root level s.vm (page_number x) r
          → free_count s.vm.pmm ≤ k + free_count r.1.pmm
      spends r a = elim enough [
        | inl three ↦ omega (arith, a.spends)
        | inr (q, m, hq, same, maps) ↦
            let (f, there) = shared_tables level pages s (page_number x) q m v hq same maps in
            omega (arith, a.saves f there)
      ]
