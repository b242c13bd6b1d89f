-- ===== src/Memory/AddressSpace/Kernel/Mapped.antt =====
-- The pages that `init_kernel` of kernel/src/mem/address_space.cpp leaves mapped.
use epsilon_os.Base.{
  ==_iff, ℕ, suc, ◌+◌, ◌*◌, ◌/◌, ◌%◌, ◌^◌, ◌≤◌, ◌<◌, ◌≡◌, ◌∙◌, refl, sym, ap, arith, inr, false,
  Option, none, some, List, [], ◌∷◌, ◌++◌, PanicsIf, PanicsIf-map, ◌==◌, if◌then◌else◌, subst,
  ==_self, ne→==,
}
use native.Mathlib.Decide.{ℕ_discrete}
use epsilon_os.Memory.Flags.{execute_disable}
use epsilon_os.Memory.Address.{Address, address, tohh}
use epsilon_os.Memory.Pmm.{Pmm, Region, framebuffer, find_physical_entry}
use epsilon_os.Memory.Pmm.Frames.{IsReady, in_use, IsMarked}
use epsilon_os.Memory.Pmm.Checked.{free_count, free_count-taken, allocate_frame-checked}
use epsilon_os.Memory.PageTable.{Store, reset}
use epsilon_os.Memory.AddressSpace.{Space, map_page, map_range, load}
use epsilon_os.Memory.AddressSpace.Indices.{page_number}
use epsilon_os.Memory.AddressSpace.Kernel.{
  Image, Mapping, lower_mapping, image_mappings, framebuffer_mapping, map_all, map_framebuffer,
  map_kernel, with_pml4, init_space,
}
use epsilon_os.Memory.AddressSpace.Tree.{Entries}
use epsilon_os.Memory.AddressSpace.Tree.Leaves.{with_page}
use epsilon_os.Memory.AddressSpace.Layout.{table_at, entries}
use epsilon_os.Memory.AddressSpace.Layout.Writes.{entries-reset_self}
use epsilon_os.Memory.AddressSpace.Layout.Mapping.{Shows, Follows, Runs, map_page-Follows}
use epsilon_os.Memory.AddressSpace.Layout.Following.{>>=-Follows}
use epsilon_os.Memory.AddressSpace.Layout.Ranges.{with_range-inside, page_count, table_need}
use epsilon_os.Memory.AddressSpace.Kernel.Pages.{
  pages_after, AllMappable, needs, needs-++, pages_after-++, AllMappable-++, mapping-Follows,
  map_all-Follows,
}

with_page_same :
    (pages : ℕ → Option ℕ) (p n : ℕ) → pages p ≡ some n → with_page pages p (some n) ≡ pages
with_page_same pages p n there = λ i q. step q i
  where
    step : (q : ℕ) → with_page pages p (some n) q ≡ pages q
    step q = elim (ℕ_discrete q p) [
      | yes e ↦ ground (arith, ==_iff q p, ap pages e, there)
      | no ne ↦ rw (ne→== q p ne) refl
    ]

-- The ranges that `init_kernel` maps.
abbrev pub kernel_mappings : ℕ → Image → Region → List Mapping
kernel_mappings hhdm i r = lower_mapping hhdm ∷ (image_mappings i ++ (framebuffer_mapping i r ∷ []))

load-Shows :
    {hhdm : ℕ} {level : ℕ → ℕ} {s : Space} {pages : ℕ → Option ℕ}
    → Shows hhdm level pages s
    → s.phys_pml4.is_null ≡ false
    → Runs hhdm level 0 s pages (load s)
unfolding load
load-Shows {level = level} {s} v nonnull = rw nonnull (record {
  level' = level;
  shows = record { root = v.root; laid = v.laid; at = v.at; shown = v.shown };
  same_bits = refl;
  same_memmap = refl;
  same_pml4 = refl;
  uses = λ f u. (u, refl);
  spends = omega arith;
})

module _ (hhdm : ℕ) (low : 0 < hhdm) (high : hhdm + 2 ^ 47 ≤ 2 ^ 64) where
  -- The page of address 0 is mapped again, to the same frame.
  zero_page-Follows :
      (level : ℕ → ℕ) (pages : ℕ → Option ℕ) (s : Space)
      → Shows hhdm level pages s
      → pages (page_number (tohh hhdm 0)) ≡ some 0
      → Runs hhdm level 0 s pages (map_page hhdm (tohh hhdm 0) (address 0) execute_disable s)
  zero_page-Follows level pages s v there =
      subst
        (λ (f : ℕ → Option ℕ).
          Runs hhdm level 0 s f (map_page hhdm (tohh hhdm 0) (address 0) execute_disable s))
        (with_page_same pages (page_number (tohh hhdm 0)) 0 there)
        (map_page-Follows hhdm low high level pages s 0 (tohh hhdm 0) 0 execute_disable v
          (omega arith) (omega arith) (omega arith) (inr there)
          (inr (page_number (tohh hhdm 0), 0, omega arith, refl, there)))

  map_framebuffer-Follows :
      (i : Image) (k : ℕ) (r : Region) (level : ℕ → ℕ) (pages : ℕ → Option ℕ) (s : Space)
      → find_physical_entry (λ r. r.kind == framebuffer) 0 s.vm.pmm.memmap ≡ some (k, r)
      → AllMappable pages (framebuffer_mapping i r ∷ [])
      → Shows hhdm level pages s
      → Runs hhdm level
          (needs (framebuffer_mapping i r ∷ []))
          s
          (pages_after pages (framebuffer_mapping i r ∷ []))
          (map_framebuffer hhdm i
            (find_physical_entry (λ r. r.kind == framebuffer) 0 s.vm.pmm.memmap)
            s)
  unfolding map_framebuffer
  map_framebuffer-Follows i k r level pages s found v shows =
      let m : Mapping = framebuffer_mapping i r in
      let pages' : ℕ → Option ℕ = pages_after pages (m ∷ []) in
      let sum : table_need m.virt m.size ≡ needs (m ∷ []) = omega arith in
      rw found (
        subst
          (λ (n : ℕ). Runs hhdm level n s pages' (map_range hhdm m.virt m.phys m.size m.flags s))
          sum (mapping-Follows hhdm low high level pages m s (v.0) shows))

  map_kernel-Follows :
      (i : Image) (k : ℕ) (r : Region) (level : ℕ → ℕ) (pages : ℕ → Option ℕ) (s : Space)
      → find_physical_entry (λ r. r.kind == framebuffer) 0 s.vm.pmm.memmap ≡ some (k, r)
      → AllMappable pages (kernel_mappings hhdm i r)
      → Shows hhdm level pages s
      → s.phys_pml4.is_null ≡ false
      → Runs hhdm level
          (needs (kernel_mappings hhdm i r))
          s
          (pages_after pages (kernel_mappings hhdm i r))
          (map_kernel hhdm i s)
  unfolding map_kernel lower_mapping
  map_kernel-Follows i k r level pages s found v shows nonnull =
      let one : List Mapping = lower_mapping hhdm ∷ [] in
      let two : List Mapping = image_mappings i in
      let fb : List Mapping = framebuffer_mapping i r ∷ [] in
      let pages1 : ℕ → Option ℕ = pages_after pages one in
      let pages2 : ℕ → Option ℕ = pages_after pages1 two in
      let pages3 : ℕ → Option ℕ = pages_after pages (kernel_mappings hhdm i r) in
      let split = AllMappable-++ two fb pages1 (v.1) in
      let p : ℕ = page_number (tohh hhdm 0) in
      let first : p + 0 ≡ p = omega arith in
      let low_page : pages1 p ≡ some 0 =
        ap pages1 (sym first)
        ∙ with_range-inside pages p 0 (page_count (4 * 2 ^ 30)) 0 (omega arith) in
      let total : pages_after pages2 fb ≡ pages3 = sym (pages_after-++ two fb pages1) in
      let sum : needs (two ++ fb) ≡ needs two + needs fb = needs-++ two fb in
      >>=-Follows level (needs one) (needs two + needs fb) (needs (kernel_mappings hhdm i r)) s
        pages1 pages3 (omega arith) (map_all hhdm one s) _
        (map_all-Follows hhdm low high one level pages s (v.0, tt) shows)
        λ s1 f1.
          >>=-Follows f1.level' 0 (needs two + needs fb) (needs two + needs fb) s1 pages1 pages3
            (omega arith) (map_page hhdm (tohh hhdm 0) (address 0) execute_disable s1) _
            (zero_page-Follows f1.level' pages1 s1 f1.shows low_page)
            λ s2 f2.
              >>=-Follows f2.level' (needs two) (needs fb) (needs two + needs fb) s2 pages2 pages3
                (omega arith) (map_all hhdm two s2) _
                (map_all-Follows hhdm low high two f2.level' pages1 s2 (split.0) f2.shows)
                λ s3 f3.
                  >>=-Follows f3.level' (needs fb) 0 (needs fb) s3 (pages_after pages2 fb) pages3
                    (omega arith)
                    (map_framebuffer hhdm i
                      (find_physical_entry (λ r. r.kind == framebuffer) 0 s3.vm.pmm.memmap) s3)
                    load
                    (map_framebuffer-Follows i k r f3.level' pages2 s3
                      (ap (find_physical_entry (λ r. r.kind == framebuffer) 0)
                          (f3.same_memmap ∙ f2.same_memmap ∙ f1.same_memmap)
                        ∙ found)
                      (split.1) f3.shows)
                    λ s4 f4.
                      subst (λ (f : ℕ → Option ℕ). Runs hhdm f4.level' 0 s4 f (load s4)) total
                        (load-Shows f4.shows (
                          ap (λ (a : Address). a.is_null)
                            (f4.same_pml4 ∙ f3.same_pml4 ∙ f2.same_pml4 ∙ f1.same_pml4)
                          ∙ nonnull))

-- A space with a first table that was just reset shows no pages.
module _ (hhdm : ℕ) (low : 0 < hhdm) (high : hhdm + 2 ^ 47 ≤ 2 ^ 64) where
  abbrev pub root_level : ℕ → ℕ → ℕ
  root_level n h = if h == n then 4 else 0

  pub with_pml4-Shows :
      (n : ℕ) (p' : Pmm) (s : Space)
      → IsReady s.vm.pmm
      → s.vm.pmm.bitmap.bitsize ≤ 2 ^ 35
      → n < s.vm.pmm.bitmap.bitsize
      → IsMarked s.vm.pmm n 1 p'
      → Shows hhdm (root_level n) (λ p. none) (with_pml4 hhdm (address (n * 4096)) p' s)
  with_pml4-Shows n p' s ready physical inside m =
      let store' : Store = reset s.vm.store (table_at hhdm n) in
      let d : Entries = entries hhdm store' in
      let lone : (h : ℕ) → 0 < root_level n h → h ≡ n = λ h deep. ground arith in
      let empty : (h j : ℕ) → 0 < root_level n h → j < 512 → d h j ≡ none = λ h j deep hj.
        ap (λ (x : ℕ). d x j) (lone h deep)
        ∙ entries-reset_self hhdm low high s.vm.store n j (omega arith) hj in
      let top : root_level n n ≡ 4 = rw (==_self n) refl in
      record {
        root = n;
        laid = record {
          ready = m.ready;
          physical = omega (arith, m.same_bits);
          tree = record {
            top = top;
            leads = λ f i g deep hi there.
                let gone : none ≡ some g = sym (empty f i (omega arith) hi) ∙ there in cc;
            single = λ f i h j g deep deep' hi hj there there'.
                let gone : none ≡ some g = sym (empty f i (omega arith) hi) ∙ there in cc;
          };
          inside = λ f deep. omega (arith, lone f deep, m.same_bits);
          taken = λ f deep. ap (in_use p') (lone f deep) ∙ m.frame;
        };
        at = refl;
        shown = λ q hq. rw (empty n (q / 2 ^ 27 % 512) (omega (arith, top)) (omega arith)) refl;
      }

  -- A space that shows the pages of the ranges, and no others.
  abbrev pub ShowsRanges : List Mapping → Space → Type 0
  ShowsRanges ms s = (level : ℕ → ℕ) × Shows hhdm level (pages_after (λ p. none) ms) s

  pub init_space-ShowsRanges :
      (i : Image) (k : ℕ) (r : Region) (s : Space)
      → IsReady s.vm.pmm
      → s.vm.pmm.bitmap.bitsize ≤ 2 ^ 35
      → find_physical_entry (λ r. r.kind == framebuffer) 0 s.vm.pmm.memmap ≡ some (k, r)
      → AllMappable (λ p. none) (kernel_mappings hhdm i r)
      → PanicsIf
          (free_count s.vm.pmm < suc (needs (kernel_mappings hhdm i r)))
          (ShowsRanges (kernel_mappings hhdm i r))
          (init_space hhdm i s)
  unfolding init_space
  init_space-ShowsRanges i k r s ready physical found v =
      let ms : List Mapping = kernel_mappings hhdm i r in
      allocate_frame-checked (free_count s.vm.pmm < suc (needs ms)) (ShowsRanges ms) s.vm.pmm _
        ready (λ none_free. omega arith)
        λ n p' inside free m.
          let fresh : ℕ → Option ℕ = λ p. none in
          let s' : Space = with_pml4 hhdm (address (n * 4096)) p' s in
          PanicsIf-map (free_count p' < needs ms) (free_count s.vm.pmm < suc (needs ms))
            (Follows hhdm (root_level n) (needs ms) s' (pages_after fresh ms)) (ShowsRanges ms)
            (λ few. omega (arith, free_count-taken s.vm.pmm p' n inside free m))
            (λ t f. (f.level', f.shows)) (map_kernel hhdm i s')
            (map_kernel-Follows hhdm low high i k r (root_level n) fresh s'
              (ap (find_physical_entry (λ r. r.kind == framebuffer) 0) m.same_memmap ∙ found) v
              (with_pml4-Shows n p' s ready physical inside m) refl)
