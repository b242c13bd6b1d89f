-- ===== src/Memory/AddressSpace/Layout/Walking.antt =====
-- The walk of kernel/src/mem/address_space.cpp through tables that lie in memory.
use epsilon_os.Base.{
  length, inl, inr, Option-cases, ℕ, suc, ◌+◌, ◌/◌, ◌%◌, ◌^◌, ◌≤◌, ◌<◌, ◌≡◌, ◌∙◌, refl, sym, ap,
  arith, true, false, none, some, List, [], ◌∷◌, Result, ok, PanicsIf, >>=-PanicsIf, ◌==◌, ◌>>=◌,
  if◌then◌else◌, ne→==, subst,
}
use epsilon_os.Memory.Pmm.Checked.{free_count}
use epsilon_os.Memory.PageTable.{Vm, is_present, entry_at, get_next_table}
use epsilon_os.Memory.AddressSpace.{virt2pte, pml4_index, pdp_index, pd_index, pt_index}
use epsilon_os.Memory.AddressSpace.Indices.{page_number, indices-page_number, indices-lt}
use epsilon_os.Memory.AddressSpace.Tree.{Entries, walk, upper_indices, Below, and_then-some}
use epsilon_os.Memory.AddressSpace.Layout.{
  table_at, entries, IsLaid, Grows, Grows-trans, walk-keeps, table_at-eq,
}
use epsilon_os.Memory.AddressSpace.Layout.Creation.{Leads, LacksTable, get_next_table-Leads}

-- The entry of page `p`, after tables were added perhaps.
pub record Arrives (hhdm root : ℕ) (level : ℕ → ℕ) (vm : Vm) (p : ℕ) (r : ℕ × Vm) : Type 0 where
  pub frame : ℕ
  pub level' : ℕ → ℕ
  pub at : r.0 ≡ entry_at (table_at hhdm frame) (p % 512)
  pub laid : IsLaid hhdm root level' (r.1)
  pub last : level' frame ≡ 1
  pub arrives : walk (entries hhdm (r.1.store)) root (upper_indices p) ≡ some frame
  pub grows : Grows hhdm root level vm level' (r.1)
  pub spends : free_count vm.pmm ≤ 3 + free_count r.1.pmm
  pub saves :
      (g : ℕ)
      → walk (entries hhdm vm.store) root (upper_indices p) ≡ some g
      → free_count vm.pmm ≡ free_count r.1.pmm

-- A table of the page is missing, and too few frames are free for all three of them.
abbrev pub LacksTables : ℕ → ℕ → Vm → ℕ → Type 0
LacksTables hhdm root vm p =
    (free_count vm.pmm < 3) × (walk (entries hhdm vm.store) root (upper_indices p) ≡ none)

walk-three :
    (d : Entries) (f g h k i j l : ℕ)
    → d f i ≡ some g
    → d g j ≡ some h
    → d h l ≡ some k
    → walk d f (i ∷ j ∷ l ∷ []) ≡ some k
walk-three d f g h k i j l a b c = rw (a, b, c) refl

module _ (hhdm : ℕ) (low : 0 < hhdm) (high : hhdm + 2 ^ 47 ≤ 2 ^ 64) (root : ℕ) where
  pub table_at-nonnull :
      {level : ℕ → ℕ} {vm : Vm} (f : ℕ)
      → IsLaid hhdm root level vm
      → 0 < level f
      → (table_at hhdm f == 0) ≡ false
  table_at-nonnull f v deep =
      let e = table_at-eq hhdm low high f (omega (arith, v.inside f deep, v.physical)) in
      ne→== (table_at hhdm f) 0 (λ z. omega arith)

  -- One step of the walk that may create tables.
  descend :
      {level : ℕ → ℕ} {vm : Vm} (N : Type 0) (P : ℕ × Vm → Type 0) (f i k flags : ℕ)
      (next : ℕ × Vm → Result (ℕ × Vm))
      → IsLaid hhdm root level vm
      → level f ≡ suc (suc k)
      → i < 512
      → flags < 2 ^ 64
      → is_present flags ≡ true
      → (LacksTable hhdm vm f i → N)
      → ((r : ℕ × Vm) (a : Leads hhdm root level vm f i k r)
          → PanicsIf N P (next (table_at hhdm a.frame, r.1)))
      → PanicsIf N P (
          get_next_table hhdm (table_at hhdm f) i flags true vm >>= λ r.
          if r.0 == 0 then ok (0, r.1) else next r)
  descend {level} {vm} N P f i k flags next v above small wide set panics then_ =
      >>=-PanicsIf (LacksTable hhdm vm f i) N (Leads hhdm root level vm f i k) P
        (get_next_table hhdm (table_at hhdm f) i flags true vm) _
        (get_next_table-Leads hhdm low high root level vm v f i k flags above small wide set) panics
        λ r a.
          let there : (table_at hhdm a.frame == 0) ≡ false =
            table_at-nonnull a.frame a.laid (omega (arith, a.next_level)) in
          subst (λ (t : ℕ). PanicsIf N P (if t == 0 then ok (0, r.1) else next (t, r.1))) (sym a.at)
            (rw there (then_ r a))

  -- A walk that arrived before the step goes on behind it.
  goes_on :
      {level : ℕ → ℕ} {vm : Vm} {f i k : ℕ} {r : ℕ × Vm} (is : List ℕ) (g : ℕ)
      (a : Leads hhdm root level vm f i k r)
      → IsLaid hhdm root level vm
      → suc (length is) < level f
      → Below (i ∷ is)
      → walk (entries hhdm vm.store) f (i ∷ is) ≡ some g
      → walk (entries hhdm (r.1.store)) a.frame is ≡ some g
  goes_on {f = f} {i} {r = r} is g a v deep b arrives =
      let step : walk (entries hhdm (r.1.store)) f (i ∷ is)
          ≡ walk (entries hhdm (r.1.store)) a.frame is =
        rw a.entry refl in
      sym step ∙ walk-keeps v a.grows (i ∷ is) f g deep b arrives

  -- The three steps together.
  module _ (level : ℕ → ℕ) (vm : Vm) (v : IsLaid hhdm root level vm) (p i1 i2 i3 : ℕ)
      (s1 : i1 < 512) (s2 : i2 < 512) (s3 : i3 < 512) (e1 : i1 ≡ p / 2 ^ 27 % 512)
      (e2 : i2 ≡ p / 2 ^ 18 % 512) (e3 : i3 ≡ p / 2 ^ 9 % 512) where
    abbrev Reached : ℕ → Type 0
    Reached g = walk (entries hhdm vm.store) root (upper_indices p) ≡ some g

    from_root : (g : ℕ) → Reached g → walk (entries hhdm vm.store) root (i1 ∷ i2 ∷ i3 ∷ []) ≡ some g
    from_root g w =
        let same : (i1 ∷ i2 ∷ i3 ∷ []) ≡ upper_indices p = cc in
        ap (walk (entries hhdm vm.store) root) same ∙ w

    second :
        {r : ℕ × Vm} (a : Leads hhdm root level vm root i1 2 r) (g : ℕ)
        → Reached g
        → walk (entries hhdm (r.1.store)) a.frame (i2 ∷ i3 ∷ []) ≡ some g
    second a g w =
        goes_on (i2 ∷ i3 ∷ []) g a v (omega (arith, v.tree.top)) (s1, (s2, (s3, tt)))
          (from_root g w)

    third :
        {r q : ℕ × Vm} (a : Leads hhdm root level vm root i1 2 r)
        (b : Leads hhdm root a.level' (r.1) a.frame i2 1 q) (g : ℕ)
        → Reached g
        → walk (entries hhdm (q.1.store)) b.frame (i3 ∷ []) ≡ some g
    third a b g w =
        goes_on (i3 ∷ []) g b a.laid (omega (arith, a.next_level)) (s2, (s3, tt)) (second a g w)

    -- A missing table behind the first or the second step was missing before.
    lacks : free_count vm.pmm < 3 → ((g : ℕ) → Reached g → ⊥) → LacksTables hhdm root vm p
    lacks few never = elim (Option-cases (walk (entries hhdm vm.store) root (upper_indices p))) [
      | inl lost ↦ (few, lost)
      | inr (g, w) ↦ absurd (never g w)
    ]

    lacks_first : LacksTable hhdm vm root i1 → LacksTables hhdm root vm p
    lacks_first (none_free, lost) = lacks (omega arith) λ g w.
        let (h, there, _) =
          and_then-some (entries hhdm vm.store root i1)
            (λ h. walk (entries hhdm vm.store) h (i2 ∷ i3 ∷ [])) g (from_root g w) in
        let gone : none ≡ some h = sym lost ∙ there in cc

    lacks_second :
        {r : ℕ × Vm} (a : Leads hhdm root level vm root i1 2 r)
        → LacksTable hhdm (r.1) a.frame i2
        → LacksTables hhdm root vm p
    lacks_second {r} a (none_free, lost) = lacks (omega (arith, a.spends)) λ g w.
        let (h, there, _) =
          and_then-some (entries hhdm (r.1.store) a.frame i2)
            (λ h. walk (entries hhdm (r.1.store)) h (i3 ∷ [])) g (second a g w) in
        let gone : none ≡ some h = sym lost ∙ there in cc

    lacks_third :
        {r q : ℕ × Vm} (a : Leads hhdm root level vm root i1 2 r)
        (b : Leads hhdm root a.level' (r.1) a.frame i2 1 q)
        → LacksTable hhdm (q.1) b.frame i3
        → LacksTables hhdm root vm p
    lacks_third {r} {q} a b (none_free, lost) = lacks (omega (arith, a.spends, b.spends)) λ g w.
        let (h, there, _) =
          and_then-some (entries hhdm (q.1.store) b.frame i3) (λ h. some h) g (third a b g w) in
        let gone : none ≡ some h = sym lost ∙ there in cc

    saved :
        {r q o : ℕ × Vm} (a : Leads hhdm root level vm root i1 2 r)
        (b : Leads hhdm root a.level' (r.1) a.frame i2 1 q)
        (c : Leads hhdm root b.level' (q.1) b.frame i3 0 o) (g : ℕ)
        → Reached g
        → free_count vm.pmm ≡ free_count o.1.pmm
    saved {r} {q} a b c g w =
        let (h1, there1, _) =
          and_then-some (entries hhdm vm.store root i1)
            (λ h. walk (entries hhdm vm.store) h (i2 ∷ i3 ∷ [])) g (from_root g w) in
        let (h2, there2, _) =
          and_then-some (entries hhdm (r.1.store) a.frame i2)
            (λ h. walk (entries hhdm (r.1.store)) h (i3 ∷ [])) g (second a g w) in
        let (h3, there3, _) =
          and_then-some (entries hhdm (q.1.store) b.frame i3) (λ h. some h) g (third a b g w) in
        a.saves h1 there1 ∙ b.saves h2 there2 ∙ c.saves h3 there3

    arrived :
        {r q o : ℕ × Vm} (a : Leads hhdm root level vm root i1 2 r)
        (b : Leads hhdm root a.level' (r.1) a.frame i2 1 q)
        (c : Leads hhdm root b.level' (q.1) b.frame i3 0 o) (j : ℕ)
        → j ≡ p % 512
        → Arrives hhdm root level vm p (entry_at (table_at hhdm c.frame) j, o.1)
    arrived {r} {q} {o} a b c j e4 =
        let d : Entries = entries hhdm (o.1.store) in
        let k1 : d root i1 ≡ some a.frame =
          c.grows.keeps root i1 a.frame (omega (arith, b.laid.tree.top)) s1
            (b.grows.keeps root i1 a.frame (omega (arith, a.laid.tree.top)) s1 a.entry) in
        let k2 : d a.frame i2 ≡ some b.frame =
          c.grows.keeps a.frame i2 b.frame
            (omega (arith, b.grows.levels a.frame (omega (arith, a.next_level)), a.next_level)) s2
            b.entry in
        record {
          frame = c.frame;
          level' = c.level';
          at = ap (entry_at (table_at hhdm c.frame)) e4;
          laid = c.laid;
          last = c.next_level;
          arrives =
              walk-three d root a.frame b.frame c.frame (p / 2 ^ 27 % 512) (p / 2 ^ 18 % 512)
                (p / 2 ^ 9 % 512) (ap (d root) (sym e1) ∙ k1) (ap (d a.frame) (sym e2) ∙ k2)
                (ap (d b.frame) (sym e3) ∙ c.entry);
          grows =
              Grows-trans hhdm root level a.level' c.level' vm (r.1) (o.1) a.grows (
                Grows-trans hhdm root a.level' b.level' c.level' (r.1) (q.1) (o.1) b.grows c.grows);
          spends = omega (arith, a.spends, b.spends, c.spends);
          saves = saved a b c;
        }

  -- The walk that may create tables.
  pub virt2pte-Arrives :
      (level : ℕ → ℕ) (vm : Vm) (x flags : ℕ)
      → IsLaid hhdm root level vm
      → x < 2 ^ 64
      → flags < 2 ^ 64
      → is_present flags ≡ true
      → PanicsIf
          (LacksTables hhdm root vm (page_number x))
          (Arrives hhdm root level vm (page_number x))
          (virt2pte hhdm (table_at hhdm root) x flags true vm)
  unfolding virt2pte
  virt2pte-Arrives level vm x flags v hx wide set =
      let p : ℕ = page_number x in
      let lost : Type 0 = LacksTables hhdm root vm p in
      let done : ℕ × Vm → Type 0 = Arrives hhdm root level vm p in
      let i1 : ℕ = pml4_index x in
      let i2 : ℕ = pdp_index x in
      let i3 : ℕ = pd_index x in
      let (s1, s2, s3, s4) = indices-lt x hx in
      let (e1, e2, e3, e4) = indices-page_number x hx in
      rw (table_at-nonnull root v (omega (arith, v.tree.top))) (
        descend lost done root i1 2 flags _ v v.tree.top s1 wide set
          (lacks_first level vm v p i1 i2 i3 s1 s2 s3 e1 e2 e3)
          λ r a.
            descend lost done a.frame i2 1 flags _ a.laid a.next_level s2 wide set
              (lacks_second level vm v p i1 i2 i3 s1 s2 s3 e1 e2 e3 a)
              λ q b.
                descend lost done b.frame i3 0 flags _ b.laid b.next_level s3 wide set
                  (lacks_third level vm v p i1 i2 i3 s1 s2 s3 e1 e2 e3 a b)
                  λ o c. arrived level vm v p i1 i2 i3 s1 s2 s3 e1 e2 e3 a b c (pt_index x) e4)
