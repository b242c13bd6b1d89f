-- ===== src/Memory/AddressSpace/Layout/Replacing.antt =====
-- `map` of kernel/src/mem/address_space.cpp for a page that has another frame.
use epsilon_os.Base.{
  ℕ, ◌+◌, ◌*◌, ◌^◌, ◌≤◌, ◌<◌, ◌≡◌, ◌≢◌, ◌∙◌, refl, sym, arith, true, not, ◌&&◌, Option, none, some,
  ok, >>=-PanicsIf, PanicsIf-ok, ne→==,
}
use epsilon_os.Memory.Address.{address, differs}
use epsilon_os.Memory.Pmm.Frames.{in_use, release_frame-IsMarked}
use epsilon_os.Memory.PageTable.{entry_of}
use epsilon_os.Memory.AddressSpace.{Space, virt2pte, fix_flags, map_page}
use epsilon_os.Memory.AddressSpace.Indices.{page_number, fix_flags-directory}
use epsilon_os.Memory.AddressSpace.Translate.{fix_flags-is_present, fix_flags-lt}
use epsilon_os.Memory.AddressSpace.Tree.Leaves.{with_page}
use epsilon_os.Memory.AddressSpace.Layout.Writes.{entry_frame-entry_of}
use epsilon_os.Memory.AddressSpace.Layout.Walking.{Arrives, LacksTables, virt2pte-Arrives}
use epsilon_os.Memory.AddressSpace.Layout.Finding.{frame_address}
use epsilon_os.Memory.AddressSpace.Layout.Mapping.{Shows, write-Shows, Arrives-frame, shared_tables}
use epsilon_os.Memory.AddressSpace.Layout.Unmapping.{IsPlain, release-IsLaid}

-- The address space after the frame `m` of a page was replaced.
pub record Replaces (hhdm : ℕ) (level : ℕ → ℕ) (m : ℕ) (s : Space) (pages' : ℕ → Option ℕ)
    (s' : Space) : Type 0 where
  pub level' : ℕ → ℕ
  pub shows : Shows hhdm level' pages' s'
  pub freed : in_use s'.vm.pmm m ≡ 0
  pub same_bits : s'.vm.pmm.bitmap.bitsize ≡ s.vm.pmm.bitmap.bitsize
  pub others : (f : ℕ) → f ≢ m → in_use s.vm.pmm f ≡ 1 → in_use s'.vm.pmm f ≡ 1

releases :
    (m n : ℕ)
    → m ≢ n
    → (not (frame_address (some m)).is_null
        && differs (frame_address (some m)) (address (n * 4096)))
      ≡ true
unfolding differs
releases m n ne =
    let other : m * 4096 ≢ n * 4096 = λ e. ne (omega arith) in
    rw (ne→== (m * 4096) (n * 4096) other) refl

module _ (hhdm : ℕ) (low : 0 < hhdm) (high : hhdm + 2 ^ 47 ≤ 2 ^ 64) where
  -- Where the higher half starts above 0 and has room for 2^47 bytes, in a space whose tables lie
  -- in memory as a tree and whose pages have the given frames, `map` of the page of a 64-bit
  -- address, with 64-bit flags, to a page-aligned address below 2^52, where the page has another
  -- frame, which is in use and holds no table: it returns with a space of the same kind, in which
  -- this page has the new frame and every other page the one it had, and the old frame is free,
  -- whoever holds it. The other frames in use stay in use.
  pub map_page-Replaces :
      (level : ℕ → ℕ) (pages : ℕ → Option ℕ) (s : Space) (x m n flags : ℕ)
      → Shows hhdm level pages s
      → x < 2 ^ 64
      → n < 2 ^ 40
      → flags < 2 ^ 64
      → pages (page_number x) ≡ some m
      → m ≢ n
      → IsPlain level s.vm.pmm m
      → (s' : Space) × (map_page hhdm x (address (n * 4096)) flags s ≡ ok s')
        × Replaces hhdm level m s (with_page pages (page_number x) (some n)) s'
  unfolding map_page
  map_page-Replaces level pages s x m n flags v hx hn hf maps ne (plain, inside, taken) =
      let p : ℕ = page_number x in
      let (wide, set) = fix_flags-directory flags hf in
      PanicsIf-ok ⊥ (Replaces hhdm level m s (with_page pages p (some n)))
        (map_page hhdm x (address (n * 4096)) flags s)
        (>>=-PanicsIf (LacksTables hhdm v.root s.vm p) ⊥ (Arrives hhdm v.root level s.vm p)
          (Replaces hhdm level m s (with_page pages p (some n)))
          (virt2pte hhdm s.pml4 x ((fix_flags flags).0) true s.vm) _
          (rw v.at (
            virt2pte-Arrives hhdm low high v.root level s.vm x ((fix_flags flags).0) v.laid hx wide
              set))
          there
          λ r a.
            let hp : p < 2 ^ 36 = omega arith in
            let (nonnull, frame) =
              Arrives-frame hhdm low high v.root level s.vm p (some m) r a (v.shown p hp ∙ maps) in
            let (still, same) = a.grows.uses m taken in
            let (pmm, returns, marked) =
              release_frame-IsMarked (r.1.pmm) m a.laid.ready (omega (arith, a.grows.same_bits))
                still in
            rw (frame, releases m n ne, returns, nonnull)
              (record {
                level' = a.level';
                shows =
                    write-Shows hhdm low high a.level' pages (record s { vm = r.1 }) v.root a.frame
                      p (r.0) (entry_of (address (n * 4096)) ((fix_flags flags).1)) (some n) pmm
                      (release-IsLaid m pmm a.laid (same ∙ plain) marked) v.at
                      (λ q hq. a.grows.pages q ∙ v.shown q hq) a.last hp a.arrives a.at
                      (entry_frame-entry_of n ((fix_flags flags).1) hn (fix_flags-lt flags hf)
                        (fix_flags-is_present flags hf));
                freed = marked.frame;
                same_bits = marked.same_bits ∙ a.grows.same_bits;
                others = λ f other used. marked.others f other ∙ (a.grows.uses f used).0;
              }))
        (λ e. e)
    where
      there : LacksTables hhdm v.root s.vm (page_number x) → ⊥
      there (few, lost) =
          let (f, found) =
            shared_tables hhdm low high level pages s (page_number x) (page_number x) m v
              (omega arith) refl maps in
          let gone : none ≡ some f = sym lost ∙ found in cc
