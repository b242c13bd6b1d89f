-- ===== src/Memory/AddressSpace/Layout/Allocating.antt =====
-- `allocate` of kernel/src/mem/address_space.cpp in a space that maps memory linearly.
use epsilon_os.Base.{
  ℕ, ◌+◌, ◌*◌, ◌^◌, ◌≤◌, ◌<◌, ◌≡◌, ◌≢◌, ◌∙◌, refl, sym, ap, arith, inl, inr, Option, some, ok,
  PanicsIf-ok, add64, subst, suc,
}
use epsilon_os.Memory.Address.{Address, address, tohh}
use epsilon_os.Memory.Pmm.{Pmm, allocate_frame}
use epsilon_os.Memory.Pmm.Frames.{in_use, IsMarked, Allocates, allocate_frame-Allocates}
use epsilon_os.Memory.Pmm.Checked.{free_count, free_count-taken, allocate_frame-some}
use epsilon_os.Memory.AddressSpace.{Space, map_page, allocate, allocate_from, flush_tlb}
use epsilon_os.Memory.AddressSpace.Indices.{page_number}
use epsilon_os.Memory.AddressSpace.Tree.Leaves.{with_page, with_page_ne}
use epsilon_os.Memory.AddressSpace.Layout.Mapping.{Shows, Follows, map_page-Follows}
use epsilon_os.Memory.AddressSpace.Layout.Unmapping.{IsPlain}
use epsilon_os.Memory.AddressSpace.Layout.Replacing.{map_page-Replaces}

abbrev with_pmm : Space → Pmm → Space
with_pmm s p = record s { vm = record { store = s.vm.store; pmm = p } }

-- A frame is taken, and no table changes.
taken-Shows :
    {hhdm : ℕ} {level : ℕ → ℕ} {pages : ℕ → Option ℕ} {s : Space} (n : ℕ) (p' : Pmm)
    → Shows hhdm level pages s
    → in_use s.vm.pmm n ≡ 0
    → IsMarked s.vm.pmm n 1 p'
    → Shows hhdm level pages (with_pmm s p')
taken-Shows {s = s} n p' v free m = record {
  root = v.root;
  laid = record {
    ready = m.ready;
    physical = omega (arith, m.same_bits, v.laid.physical);
    tree = v.laid.tree;
    inside = λ f deep. omega (arith, m.same_bits, v.laid.inside f deep);
    taken = λ f deep.
        m.others f (λ e. omega (arith, ap (in_use s.vm.pmm) e, v.laid.taken f deep))
        ∙ v.laid.taken f deep;
  };
  at = v.at;
  shown = v.shown;
}

flush-Shows :
    {hhdm : ℕ} {level : ℕ → ℕ} {pages : ℕ → Option ℕ} {s : Space} (x : ℕ)
    → Shows hhdm level pages s
    → Shows hhdm level pages (flush_tlb x s)
unfolding flush_tlb
flush-Shows x v = record { root = v.root; laid = v.laid; at = v.at; shown = v.shown }

module _ (hhdm : ℕ) (low : 0 < hhdm) (high : hhdm + 2 ^ 47 ≤ 2 ^ 64) where
  -- The page of the frame that was taken has this frame already.
  first_page :
      (level : ℕ → ℕ) (pages : ℕ → Option ℕ) (s : Space) (f flags : ℕ)
      → Shows hhdm level pages s
      → f < 2 ^ 40
      → flags < 2 ^ 64
      → pages (page_number (tohh hhdm (f * 4096))) ≡ some f
      → (t : Space) × (map_page hhdm (tohh hhdm (f * 4096)) (address (f * 4096)) flags s ≡ ok t)
        × Follows hhdm level 0 s (with_page pages (page_number (tohh hhdm (f * 4096))) (some f)) t
  first_page level pages s f flags v hf wide linear =
      let x : ℕ = tohh hhdm (f * 4096) in
      PanicsIf-ok (free_count s.vm.pmm < 0)
        (Follows hhdm level 0 s (with_page pages (page_number x) (some f)))
        (map_page hhdm x (address (f * 4096)) flags s)
        (map_page-Follows hhdm low high level pages s 0 x f flags v (omega arith) hf wide
          (inr linear) (inr (page_number x, f, omega arith, refl, linear)))
        (λ few. omega arith)

  -- The next page of an allocation, whose frame is in use: this frame is given back.
  next_page :
      (level : ℕ → ℕ) (pages : ℕ → Option ℕ) (s : Space) (m flags : ℕ) (first : Address)
      → Shows hhdm level pages s
      → flags < 2 ^ 64
      → pages (page_number (add64 first.addr 4096)) ≡ some m
      → IsPlain level s.vm.pmm m
      → 0 < free_count s.vm.pmm
      → (s' : Space) × (allocate_from hhdm 1 1 first flags s ≡ ok (first, s'))
        × (in_use s'.vm.pmm m ≡ 0)
  unfolding allocate_from flush_tlb
  next_page level pages s m flags first v wide linear (plain, inside, used) some_free =
      let (n, p', gives, below, free, marked) =
        allocate_frame-some s.vm.pmm v.laid.ready some_free in
      let ne : m ≢ n = λ e. omega (arith, ap (in_use s.vm.pmm) e) in
      let v' : Shows hhdm level pages (with_pmm s p') = taken-Shows n p' v free marked in
      let (u, returns, r) =
        map_page-Replaces hhdm low high level pages (with_pmm s p') (add64 first.addr 4096) m n
          flags v' (omega arith) (omega (arith, v.laid.physical)) wide linear ne
          (plain, omega (arith, marked.same_bits), marked.others m ne ∙ used) in
      (flush_tlb (add64 first.addr 4096) u, rw (gives, returns) refl, r.freed)

  -- Where the higher half starts above 0 and has room for 2^47 bytes, in a space whose tables lie
  -- in memory as a tree and that maps linearly both the page of the frame `f` that `allocate_frame`
  -- gives next and the page behind it, where the frame behind `f` is in use and holds no table, and
  -- two frames or more are free: `allocate` of two pages with 64-bit flags returns, and has given
  -- the frame behind `f` back, whoever holds it.
  pub allocate-releases_other :
      (level : ℕ → ℕ) (pages : ℕ → Option ℕ) (s : Space) (f flags : ℕ) (p' : Pmm)
      → Shows hhdm level pages s
      → flags < 2 ^ 64
      → allocate_frame s.vm.pmm ≡ ok (address (f * 4096), p')
      → pages (page_number (tohh hhdm (f * 4096))) ≡ some f
      → pages (page_number (add64 (tohh hhdm (f * 4096)) 4096)) ≡ some (suc f)
      → IsPlain level s.vm.pmm (suc f)
      → 2 ≤ free_count s.vm.pmm
      → (s' : Space) × (allocate hhdm 2 flags s ≡ ok (address (tohh hhdm (f * 4096)), s'))
        × (in_use s'.vm.pmm (suc f) ≡ 0)
  unfolding allocate flush_tlb
  allocate-releases_other level pages s f flags p' v wide gives linear next (plain, inside, used)
        enough =
      let x : ℕ = tohh hhdm (f * 4096) in
      elim (subst (Allocates s.vm.pmm) gives (allocate_frame-Allocates s.vm.pmm v.laid.ready)) [
        | inl (null, _, _) ↦ absurd (cc)
        | inr (n, below, at, free, _, marked) ↦
            let e : n ≡ f = omega (arith, ap (λ (a : Address). a.addr) at) in
            let m : IsMarked s.vm.pmm f 1 p' = subst (λ k. IsMarked s.vm.pmm k 1 p') e marked in
            let free' : in_use s.vm.pmm f ≡ 0 = ap (in_use s.vm.pmm) (sym e) ∙ free in
            let v1 : Shows hhdm level pages (with_pmm s p') = taken-Shows f p' v free' m in
            let ne : suc f ≢ f = omega arith in
            let (t, returns, g) =
              first_page level pages (with_pmm s p') f flags v1 (omega (arith, v.laid.physical))
                wide linear in
            let v2 : Shows hhdm g.level' (with_page pages (page_number x) (some f))
                (flush_tlb x t) =
              flush-Shows x g.shows in
            let apart : page_number (add64 x 4096) ≢ page_number x =
              λ q. let both : some f ≡ some (suc f) = sym linear ∙ ap pages (sym q) ∙ next in cc in
            let kept = g.uses (suc f) (m.others (suc f) ne ∙ used) in
            let left = free_count-taken s.vm.pmm p' f (omega arith) free' m in
            let (u, more, freed) =
              next_page g.level' (with_page pages (page_number x) (some f)) (flush_tlb x t) (suc f)
                flags (address x) v2 wide
                (with_page_ne pages (page_number x) (page_number (add64 x 4096)) (some f) apart
                  ∙ next)
                (kept.1 ∙ plain, omega (arith, m.same_bits, g.same_bits), kept.0)
                (omega (arith, g.spends)) in
            (u, rw (gives, returns, more) refl, freed)
      ]
