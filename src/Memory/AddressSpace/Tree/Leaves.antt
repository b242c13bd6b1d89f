-- ===== src/Memory/AddressSpace/Tree/Leaves.antt =====
-- A tree of page tables in which one entry of the last level is set.
use epsilon_os.Base.{
  ℕ, ◌+◌, ◌/◌, ◌%◌, ◌^◌, ◌≤◌, ◌<◌, ◌≡◌, ◌≢◌, ◌∙◌, refl, sym, ap, arith, inl, inr, ◌&&◌, Option,
  none, some, List, length, ◌==◌, if◌then◌else◌, Option-cases, ==_iff, ne→==, Bool-cases,
}
use native.Mathlib.Decide.{ℕ_discrete}
use epsilon_os.Memory.AddressSpace.Tree.{
  Entries, and_then, walk, upper_indices, upper_indices-Below, frame_of_page, IsTree, walk-agrees,
  walk-apart, walk-level,
}

-- The entries with entry `i` of the table at `f` set.
abbrev pub with_entry : Entries → ℕ → ℕ → Option ℕ → Entries
with_entry d f i value h j = if (h == f) && (j == i) then value else d h j

-- The frames of the pages with the one of page `p` set.
abbrev pub with_page : (ℕ → Option ℕ) → ℕ → Option ℕ → ℕ → Option ℕ
with_page pages p value q = if q == p then value else pages q

pub with_page_ne :
    (pages : ℕ → Option ℕ) (p q : ℕ) (value : Option ℕ)
    → q ≢ p
    → with_page pages p value q ≡ pages q
with_page_ne pages p q value ne = rw (ne→== q p ne) refl

pub with_entry_at :
    (d : Entries) (f i : ℕ) (value : Option ℕ) (h j : ℕ)
    → h ≡ f
    → j ≡ i
    → with_entry d f i value h j ≡ value
with_entry_at d f i value h j eh ej = ground (arith, ==_iff h f, ==_iff j i)

pub with_entry_ne :
    (d : Entries) (f i : ℕ) (value : Option ℕ) (h j : ℕ)
    → ((h ≡ f) × (j ≡ i) → ⊥)
    → with_entry d f i value h j ≡ d h j
with_entry_ne d f i value h j ne = elim (ℕ_discrete h f) [
  | no other ↦ rw (ne→== h f other) refl
  | yes same ↦
      let other : j ≢ i = λ e. ne (same, e) in
      elim (Bool-cases (h == f)) [ inl e ↦ rw (e, ne→== j i other) refl | inr e ↦ rw e refl ]
]

same_indices :
    (p q : ℕ)
    → p < 2 ^ 36
    → q < 2 ^ 36
    → upper_indices p ≡ upper_indices q
    → p % 512 ≡ q % 512
    → p ≡ q
same_indices p q hp hq e last =
    let first : p / 2 ^ 27 % 512 ≡ q / 2 ^ 27 % 512 = cc in
    let second : p / 2 ^ 18 % 512 ≡ q / 2 ^ 18 % 512 = cc in
    let third : p / 2 ^ 9 % 512 ≡ q / 2 ^ 9 % 512 = cc in omega arith

-- `f` has level 1, and `d'` has the entries of the tables afterwards.
module _ (d d' : Entries) (root : ℕ) (level : ℕ → ℕ) (t : IsTree d root level) (f i : ℕ)
    (value : Option ℕ) (last : level f ≡ 1)
    (updated : (h j : ℕ) → 0 < level h → j < 512 → d' h j ≡ with_entry d f i value h j) where
  pub kept : (h j : ℕ) → 2 ≤ level h → j < 512 → d' h j ≡ d h j
  kept h j deep small =
      let other : h ≢ f = λ e. omega (arith, ap level e) in
      updated h j (omega arith) small ∙ rw (ne→== h f other) refl

  pub set-IsTree : IsTree d' root level
  set-IsTree = record {
    top = t.top;
    leads = λ h j g deep small there. t.leads h j g deep small (sym (kept h j deep small) ∙ there);
    single = λ h j h' j' g deep deep' small small' there there'.
        t.single h j h' j' g deep deep' small small' (sym (kept h j deep small) ∙ there)
          (sym (kept h' j' deep' small') ∙ there');
  }

  -- The entry is that of page `p`: the frame of this page is set, and no other changes.
  pub frame_of_page-set :
      (p q : ℕ)
      → p < 2 ^ 36
      → q < 2 ^ 36
      → walk d root (upper_indices p) ≡ some f
      → i ≡ p % 512
      → frame_of_page d' root q ≡ with_page (frame_of_page d root) p value q
  frame_of_page-set p q hp hq arrives at =
      let js : List ℕ = upper_indices q in
      let three : length js < level root = omega (arith, t.top) in
      let walks : walk d' root js ≡ walk d root js =
        walk-agrees d root level t d' js root kept three (upper_indices-Below q) in
      elim (Option-cases (walk d root js)) [
        | inl lost ↦
            let other : q ≢ p = λ e. absurd_walk (lost_page e lost) in
            leaf_of d' (walks ∙ lost)
            ∙ sym (with_page_ne (frame_of_page d root) p q value other ∙ leaf_of d lost)
        | inr (g, found) ↦
            let deep : 3 + level g ≡ level root =
              walk-level d root level t js root g three (upper_indices-Below q) found in
            let entry : d' g (q % 512) ≡ with_entry d f i value g (q % 512) =
              updated g (q % 512) (omega (arith, t.top)) (omega arith) in
            leaf_of d' (walks ∙ found) ∙ entry ∙ set_here g found
      ]
    where
      -- The entry of page `q`, in the table at `g`.
      leaf_of :
          (e : Entries) {o : Option ℕ}
          → walk e root (upper_indices q) ≡ o
          → frame_of_page e root q ≡ and_then o (λ g. e g (q % 512))
      leaf_of e w = ap (λ (o : Option ℕ). and_then o (λ g. e g (q % 512))) w

      absurd_walk : none ≡ some f → ⊥
      absurd_walk e = cc

      lost_page : q ≡ p → walk d root (upper_indices q) ≡ none → none ≡ some f
      lost_page e lost = sym lost ∙ ap (λ (x : ℕ). walk d root (upper_indices x)) e ∙ arrives

      set_here :
          (g : ℕ)
          → walk d root (upper_indices q) ≡ some g
          → with_entry d f i value g (q % 512) ≡ with_page (frame_of_page d root) p value q
      set_here g found = elim (ℕ_discrete q p) [
        | yes e ↦
            let table : some g ≡ some f =
              sym found ∙ ap (λ (x : ℕ). walk d root (upper_indices x)) e ∙ arrives in
            let eg : g ≡ f = cc in
            let ei : q % 512 ≡ i = omega (arith, e) in
            ground (arith, ==_iff g f, ==_iff (q % 512) i, ==_iff q p)
        | no ne ↦
            let other : (g ≡ f) × (q % 512 ≡ i) → ⊥ = λ e.
              let three : length (upper_indices q) < level root = omega (arith, t.top) in
              let arrives' : walk d root (upper_indices q) ≡ some f = found ∙ ap some (e.0) in
              let (_, same) =
                walk-apart d root level t (upper_indices q) (upper_indices p) root root f refl three
                  refl (upper_indices-Below q) (upper_indices-Below p) arrives' arrives in
              ne (same_indices q p hq hp same (e.1 ∙ at)) in
            with_entry_ne d f i value g (q % 512) other
            ∙ sym (with_page_ne (frame_of_page d root) p q value ne ∙ leaf_of d found)
      ]
