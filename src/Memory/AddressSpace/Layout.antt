-- ===== src/Memory/AddressSpace/Layout.antt =====
-- How the page tables of kernel/src/mem/address_space.cpp lie in memory: the table of a frame is at its
-- address in the higher half, and the tables form a tree in frames that are in use.
pub mod Writes
pub mod Creation
pub mod Walking
pub mod Finding
pub mod Mapping
pub mod Following
pub mod Unmapping
pub mod Replacing
pub mod Allocating
pub mod Ranges
pub mod Flagging
use epsilon_os.Base.{
  ℕ, zero, suc, ◌+◌, ◌*◌, ◌/◌, ◌%◌, ◌^◌, ◌≤◌, ◌<◌, ◌≡◌, ◌≢◌, ◌∙◌, refl, sym, ap, arith, Option,
  none, some, List, [], ◌∷◌, length, if◌then◌else◌,
}
use epsilon_os.Memory.Address.{tohh}
use epsilon_os.Memory.Pmm.Frames.{IsReady, in_use}
use epsilon_os.Memory.PageTable.{Store, Vm, is_present, get_frame, entry_at}
use epsilon_os.Memory.PageTable.Entries.{get_frame_aligned}
use epsilon_os.Memory.AddressSpace.Tree.{Entries, walk, Below, frame_of_page, IsTree, and_then-some}

-- The virtual address of the table at a frame.
abbrev pub table_at : ℕ → ℕ → ℕ
table_at hhdm f = tohh hhdm (f * 4096)

-- What a word of a table says.
abbrev pub entry_frame : ℕ → Option ℕ
entry_frame raw = if is_present raw then some ((get_frame raw).addr / 4096) else none

abbrev pub entries : ℕ → Store → Entries
entries hhdm store f i = entry_frame (store (entry_at (table_at hhdm f) i))

pub record IsLaid (hhdm root : ℕ) (level : ℕ → ℕ) (vm : Vm) : Type 0 where
  pub ready : IsReady vm.pmm
  pub physical : vm.pmm.bitmap.bitsize ≤ 2 ^ 35
  pub tree : IsTree (entries hhdm vm.store) root level
  pub inside : (f : ℕ) → 0 < level f → f < vm.pmm.bitmap.bitsize
  pub taken : (f : ℕ) → 0 < level f → in_use vm.pmm f ≡ 1

-- Tables were added, and no page got a frame or lost it.
pub record Grows (hhdm root : ℕ) (level : ℕ → ℕ) (vm : Vm) (level' : ℕ → ℕ) (vm' : Vm)
    : Type 0 where
  pub levels : (h : ℕ) → 0 < level h → level' h ≡ level h
  pub keeps :
      (h j g : ℕ)
      → 2 ≤ level h
      → j < 512
      → entries hhdm vm.store h j ≡ some g
      → entries hhdm vm'.store h j ≡ some g
  pub pages :
      (p : ℕ)
      → frame_of_page (entries hhdm vm'.store) root p ≡ frame_of_page (entries hhdm vm.store) root p
  pub same_bits : vm'.pmm.bitmap.bitsize ≡ vm.pmm.bitmap.bitsize
  pub same_memmap : vm'.pmm.memmap ≡ vm.pmm.memmap
  pub uses : (f : ℕ) → in_use vm.pmm f ≡ 1 → (in_use vm'.pmm f ≡ 1) × (level' f ≡ level f)

pub Grows-refl : (hhdm root : ℕ) (level : ℕ → ℕ) (vm : Vm) → Grows hhdm root level vm level vm
Grows-refl hhdm root level vm = record {
  levels = λ h p. refl;
  keeps = λ h j g p q e. e;
  pages = λ p. refl;
  same_bits = refl;
  same_memmap = refl;
  uses = λ f e. (e, refl);
}

pub Grows-trans :
    (hhdm root : ℕ) (level level' level'' : ℕ → ℕ) (vm vm' vm'' : Vm)
    → Grows hhdm root level vm level' vm'
    → Grows hhdm root level' vm' level'' vm''
    → Grows hhdm root level vm level'' vm''
Grows-trans hhdm root level level' level'' vm vm' vm'' a b = record {
  levels = λ h p. b.levels h (omega (arith, a.levels h p)) ∙ a.levels h p;
  keeps = λ h j g p q e.
      b.keeps h j g (omega (arith, a.levels h (omega arith))) q (a.keeps h j g p q e);
  pages = λ p. b.pages p ∙ a.pages p;
  same_bits = b.same_bits ∙ a.same_bits;
  same_memmap = b.same_memmap ∙ a.same_memmap;
  uses = λ f e. let u = a.uses f e in let w = b.uses f (u.0) in (w.0, w.1 ∙ u.1);
}

-- A walk that arrived still does.
pub walk-keeps :
    {hhdm root : ℕ} {level level' : ℕ → ℕ} {vm vm' : Vm}
    → IsLaid hhdm root level vm
    → Grows hhdm root level vm level' vm'
    → (is : List ℕ) (h x : ℕ) → length is < level h
    → Below is
    → walk (entries hhdm vm.store) h is ≡ some x
    → walk (entries hhdm vm'.store) h is ≡ some x
walk-keeps v g [] h x deep b arrives = arrives
walk-keeps {hhdm} {level = level} {vm = vm} {vm'} v g (j ∷ is) h x deep b arrives =
    let d : Entries = entries hhdm vm.store in
    let (f, first, rest) = and_then-some (d h j) (λ f. walk d f is) x arrives in
    let down : suc (level f) ≡ level h = v.tree.leads h j f (omega arith) (b.0) first in
    rw (g.keeps h j f (omega arith) (b.0) first) (walk-keeps v g is f x (omega arith) (b.1) rest)

-- A present entry leads to the table at its frame.
pub present_table :
    (hhdm raw : ℕ) → table_at hhdm ((get_frame raw).addr / 4096) ≡ tohh hhdm (get_frame raw).addr
present_table hhdm raw = ap (tohh hhdm) (omega (arith, get_frame_aligned raw))

module _ (hhdm : ℕ) (low : 0 < hhdm) (high : hhdm + 2 ^ 47 ≤ 2 ^ 64) where
  pub table_at-eq : (f : ℕ) → f < 2 ^ 35 → table_at hhdm f ≡ f * 4096 + hhdm
  table_at-eq f h = omega arith

  -- Different entries of tables are different words.
  pub entry_at-apart :
      (f h i j : ℕ)
      → f < 2 ^ 35
      → h < 2 ^ 35
      → i < 512
      → j < 512
      → entry_at (table_at hhdm f) i ≡ entry_at (table_at hhdm h) j
      → (f ≡ h) × (i ≡ j)
  entry_at-apart f h i j hf hh hi hj e =
      let a : table_at hhdm f ≡ f * 4096 + hhdm = table_at-eq f hf in
      let b : table_at hhdm h ≡ h * 4096 + hhdm = table_at-eq h hh in (omega arith, omega arith)
