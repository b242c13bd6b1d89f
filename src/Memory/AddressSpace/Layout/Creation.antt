-- ===== src/Memory/AddressSpace/Layout/Creation.antt =====
-- `create_table` and `get_next_table` of kernel/src/mem/page_table.cpp on tables that lie in memory.
use epsilon_os.Base.{
  ℕ, suc, ◌+◌, ◌*◌, ◌/◌, ◌%◌, ◌^◌, ◌≤◌, ◌<◌, ◌≡◌, ◌≢◌, ◌∙◌, refl, sym, ap, arith, true, none, some,
  [], ◌∷◌, PanicsIf, if-PanicsIf, ne→==, ==_self,
}
use native.Mathlib.Decide.{ℕ_discrete, dec_lt}
use epsilon_os.Memory.Address.{address, tohh}
use epsilon_os.Memory.Pmm.{Pmm}
use epsilon_os.Memory.Pmm.Frames.{IsMarked, in_use}
use epsilon_os.Memory.PageTable.{
  Store, Vm, write, reset, is_present, get_frame, entry_of, entry_at, create_table, get_next_table,
}
use epsilon_os.Memory.Pmm.Checked.{free_count, free_count-taken, allocate_frame-checked}
use epsilon_os.Memory.AddressSpace.Tree.{Entries, upper_indices, upper_indices-Below, and_then-some}
use epsilon_os.Memory.AddressSpace.Tree.Growth.{
  with_level, with_table, old_level, grown-IsTree, walk-grows, leaf-grows,
}
use epsilon_os.Memory.AddressSpace.Layout.{
  table_at, entry_frame, entries, IsLaid, Grows, Grows-refl, present_table,
}
use epsilon_os.Memory.AddressSpace.Layout.Writes.{entries-create, entry_frame-entry_of}

-- A next table: entry `i` of the table at `f` leads to it, after tables were added perhaps.
pub record Leads (hhdm root : ℕ) (level : ℕ → ℕ) (vm : Vm) (f i k : ℕ) (r : ℕ × Vm) : Type 0 where
  pub frame : ℕ
  pub level' : ℕ → ℕ
  pub at : r.0 ≡ table_at hhdm frame
  pub laid : IsLaid hhdm root level' (r.1)
  pub next_level : level' frame ≡ suc k
  pub entry : entries hhdm (r.1.store) f i ≡ some frame
  pub grows : Grows hhdm root level vm level' (r.1)
  pub spends : free_count vm.pmm ≤ suc (free_count r.1.pmm)
  pub saves : (g : ℕ) → entries hhdm vm.store f i ≡ some g → free_count vm.pmm ≡ free_count r.1.pmm

-- No frame is free for the table that is missing.
abbrev pub LacksTable : ℕ → Vm → ℕ → ℕ → Type 0
LacksTable hhdm vm f i = (free_count vm.pmm ≡ 0) × (entries hhdm vm.store f i ≡ none)

fresh_level :
    {hhdm root : ℕ} {level : ℕ → ℕ} {vm : Vm} (n : ℕ)
    → IsLaid hhdm root level vm
    → in_use vm.pmm n ≡ 0
    → level n ≡ 0
fresh_level {level = level} n v free = elim (dec_lt 0 (level n)) [
  | yes p ↦ absurd (omega (arith, v.taken n p))
  | no p ↦ omega arith
]

-- The table at frame `f` has level `k + 2`, its entry `i` is absent, and the free frame `n` is taken.
module _ (hhdm : ℕ) (low : 0 < hhdm) (high : hhdm + 2 ^ 47 ≤ 2 ^ 64) (root : ℕ) (level : ℕ → ℕ)
    (vm : Vm) (v : IsLaid hhdm root level vm) (f i k : ℕ) (above : level f ≡ suc (suc k))
    (small : i < 512) (absent : entries hhdm vm.store f i ≡ none) where
  created-Leads :
      (n raw : ℕ) (p' : Pmm)
      → n < vm.pmm.bitmap.bitsize
      → in_use vm.pmm n ≡ 0
      → IsMarked vm.pmm n 1 p'
      → entry_frame raw ≡ some n
      → Leads hhdm root level vm f i k (
        table_at hhdm n,
        record {
          store = write (reset vm.store (table_at hhdm n)) (entry_at (table_at hhdm f) i) raw;
          pmm = p';
        },
      )
  created-Leads n raw p' inside free m leads =
      let store' : Store =
        write (reset vm.store (table_at hhdm n)) (entry_at (table_at hhdm f) i) raw in
      let d : Entries = entries hhdm vm.store in
      let d' : Entries = entries hhdm store' in
      let fresh : level n ≡ 0 = fresh_level n v free in
      let other : f ≢ n = λ e. omega (arith, ap level e) in
      let new : ℕ → ℕ = with_level level n (suc k) in
      let held : (h : ℕ) → 0 < new h → (h < vm.pmm.bitmap.bitsize) × (in_use p' h ≡ 1) = λ h deep.
        elim (ℕ_discrete h n) [
          | yes e ↦ (omega arith, ap (in_use p') e ∙ m.frame)
          | no ne ↦
              let old : new h ≡ level h = rw (ne→== h n ne) refl in
              (v.inside h (omega arith), m.others h ne ∙ v.taken h (omega arith))
        ] in
      let updated : (h j : ℕ) → 0 < new h → j < 512 → d' h j ≡ with_table d f i n h j =
        λ h j deep hj.
          entries-create hhdm low high vm.store f i n raw h j
            (omega (arith, v.inside f, v.physical)) (omega (arith, v.physical))
            (omega (arith, (held h deep).0, v.physical)) small hj other leads in
      record {
        frame = n;
        level' = new;
        at = refl;
        laid = record {
          ready = m.ready;
          physical = omega (arith, m.same_bits, v.physical);
          tree = grown-IsTree d d' root level v.tree f i k n above absent fresh updated;
          inside = λ h deep. omega (arith, m.same_bits, (held h deep).0);
          taken = λ h deep. (held h deep).1;
        };
        next_level = rw (==_self n) refl;
        entry =
            updated f i (rw (ne→== f n other) (omega (arith, above))) small
            ∙ rw (ne→== f n other, ==_self f, ==_self i) refl;
        grows = record {
          levels = old_level d d' root level v.tree f i k n above absent fresh updated;
          keeps = λ h j g two hj there.
              let w =
                walk-grows d d' root level v.tree f i k n above absent fresh updated (j ∷ []) h g
                  (omega arith) (hj, tt) (rw there refl) in
              let (x, now, same) = and_then-some (d' h j) (λ g. some g) g w in now ∙ same;
          pages = λ p.
              leaf-grows d d' root level v.tree f i k n above absent fresh updated (upper_indices p)
                (p % 512) root (sym v.tree.top) (upper_indices-Below p) (omega arith);
          same_bits = m.same_bits;
          same_memmap = m.same_memmap;
          uses = λ h e.
              let ne : h ≢ n = λ same. omega (arith, ap (in_use vm.pmm) same) in
              (m.others h ne ∙ e, rw (ne→== h n ne) refl);
        };
        spends = omega (arith, free_count-taken vm.pmm p' n inside free m);
        saves = λ g e. let gone : none ≡ some g = sym absent ∙ e in cc;
      }

  create_table-Leads :
      (flags : ℕ)
      → flags < 2 ^ 64
      → is_present flags ≡ true
      → PanicsIf
          (LacksTable hhdm vm f i)
          (Leads hhdm root level vm f i k)
          (create_table hhdm (entry_at (table_at hhdm f) i) flags vm)
  unfolding create_table
  create_table-Leads flags wide there =
      allocate_frame-checked (LacksTable hhdm vm f i) (Leads hhdm root level vm f i k) vm.pmm _
        v.ready (λ e. (e, absent))
        λ n p' inside free m.
          created-Leads n (entry_of (address (n * 4096)) flags) p' inside free m
            (entry_frame-entry_of n flags (omega (arith, v.physical)) wide there)

-- A table above the last level: its entry `i` leads to a table one level below, after one was
-- created for it if there was none.
module _ (hhdm : ℕ) (low : 0 < hhdm) (high : hhdm + 2 ^ 47 ≤ 2 ^ 64) (root : ℕ) (level : ℕ → ℕ)
    (vm : Vm) (v : IsLaid hhdm root level vm) where
  present-Leads :
      (f i k : ℕ)
      → level f ≡ suc (suc k)
      → i < 512
      → is_present (vm.store (entry_at (table_at hhdm f) i)) ≡ true
      → Leads hhdm root level vm f i k
          (tohh hhdm (get_frame (vm.store (entry_at (table_at hhdm f) i))).addr, vm)
  present-Leads f i k above small there =
      let raw : ℕ = vm.store (entry_at (table_at hhdm f) i) in
      let leads : entries hhdm vm.store f i ≡ some ((get_frame raw).addr / 4096) = rw there refl in
      record {
        frame = (get_frame raw).addr / 4096;
        level' = level;
        at = sym (present_table hhdm raw);
        laid = v;
        next_level = omega (
          arith,
          v.tree.leads f i ((get_frame raw).addr / 4096) (omega arith) small leads,
          above,
        );
        entry = leads;
        grows = Grows-refl hhdm root level vm;
        spends = omega arith;
        saves = λ g e. refl;
      }

  pub get_next_table-Leads :
      (f i k flags : ℕ)
      → level f ≡ suc (suc k)
      → i < 512
      → flags < 2 ^ 64
      → is_present flags ≡ true
      → PanicsIf
          (LacksTable hhdm vm f i)
          (Leads hhdm root level vm f i k)
          (get_next_table hhdm (table_at hhdm f) i flags true vm)
  unfolding get_next_table
  get_next_table-Leads f i k flags above small wide set =
      let raw : ℕ = vm.store (entry_at (table_at hhdm f) i) in
      if-PanicsIf (LacksTable hhdm vm f i) (Leads hhdm root level vm f i k) (is_present raw) _ _
        (present-Leads f i k above small)
        λ absent.
          create_table-Leads hhdm low high root level vm v f i k above small (rw absent refl) flags
            wide set
