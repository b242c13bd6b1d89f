-- ===== src/Memory/AddressSpace/Layout/Following.antt =====
-- Operations of kernel/src/mem/address_space.cpp one after the other, on an address space that is seen as
-- the frames of its pages.
use epsilon_os.Base.{
  ℕ, ◌+◌, ◌≤◌, ◌<◌, ◌∙◌, refl, arith, Option, Result, ok, stop, panic, fault, halted, spent, ◌>>=◌,
  >>=-PanicsIf,
}
use epsilon_os.Memory.Pmm.Checked.{free_count}
use epsilon_os.Memory.AddressSpace.{Space}
use epsilon_os.Memory.AddressSpace.Layout.Mapping.{Shows, Follows, Runs}

Follows-trans :
    {hhdm : ℕ} {level : ℕ → ℕ} {j l : ℕ} (k : ℕ) {s t u : Space} {pages pages' : ℕ → Option ℕ}
    (a : Follows hhdm level j s pages t)
    → Follows hhdm a.level' l t pages' u
    → j + l ≤ k
    → Follows hhdm level k s pages' u
Follows-trans k a b small = record {
  level' = b.level';
  shows = b.shows;
  same_bits = b.same_bits ∙ a.same_bits;
  same_memmap = b.same_memmap ∙ a.same_memmap;
  same_pml4 = b.same_pml4 ∙ a.same_pml4;
  uses = λ f e. let h = a.uses f e in let g = b.uses f (h.0) in (g.0, g.1 ∙ h.1);
  spends = omega (arith, a.spends, b.spends);
}

pub Follows-refl :
    {hhdm : ℕ} {level : ℕ → ℕ} (k : ℕ) {s : Space} {pages : ℕ → Option ℕ}
    → Shows hhdm level pages s
    → Follows hhdm level k s pages s
Follows-refl {level = level} k v = record {
  level' = level;
  shows = v;
  same_bits = refl;
  same_memmap = refl;
  same_pml4 = refl;
  uses = λ f e. (e, refl);
  spends = omega arith;
}

module _ {hhdm : ℕ} (level : ℕ → ℕ) (j l k : ℕ) (s : Space) (pages pages' : ℕ → Option ℕ)
    (small : j + l ≤ k) where
  after :
      (t : Space) (f : Follows hhdm level j s pages t) (r : Result Space)
      → Runs hhdm f.level' l t pages' r
      → Runs hhdm level k s pages' r
  after t f (ok u) h = Follows-trans k f h small
  after t f (stop panic) h = omega (arith, f.spends)
  after t f (stop fault) h = elim h [ ]
  after t f (stop halted) h = elim h [ ]
  after t f (stop spent) h = elim h [ ]

  pub >>=-Follows :
      (first : Result Space) (next : Space → Result Space)
      → Runs hhdm level j s pages first
      → ((t : Space) (f : Follows hhdm level j s pages t) → Runs hhdm f.level' l t pages' (next t))
      → Runs hhdm level k s pages' (first >>= next)
  >>=-Follows first next h then_ =
      >>=-PanicsIf (free_count s.vm.pmm < j) (free_count s.vm.pmm < k)
        (Follows hhdm level j s pages) (Follows hhdm level k s pages') first next h
        (λ few. omega arith) λ t f. after t f (next t) (then_ t f)
