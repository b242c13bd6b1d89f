-- ===== src/Memory/AddressSpace/Tree/Growth.antt =====
-- A tree of page tables that gets an empty table.
use epsilon_os.Base.{
  ℕ, suc, ◌≤◌, ◌<◌, ◌≡◌, ◌≢◌, ◌∙◌, ◌⊎◌, refl, sym, ap, ap₂, arith, inl, inr, ◌&&◌, none, some, List,
  [], ◌∷◌, length, ◌==◌, if◌then◌else◌, Option-cases, ==_self, ne→==,
}
use native.Mathlib.Decide.{ℕ_discrete}
use epsilon_os.Memory.AddressSpace.Tree.{Entries, walk, Below, leaf, IsTree, and_then-some}

-- The levels with a new table at frame `n`.
abbrev pub with_level : (ℕ → ℕ) → ℕ → ℕ → ℕ → ℕ
with_level level n k h = if h == n then k else level h

-- The entries with an empty table at frame `n`, to which entry `i` of the table at `f` leads.
abbrev pub with_table : Entries → ℕ → ℕ → ℕ → Entries
with_table d f i n h j = if h == n then none else if (h == f) && (j == i) then some n else d h j

-- `f` has level `k + 2`, and its entry `i` is absent; `d'` has the entries of the tables afterwards.
module _ (d d' : Entries) (root : ℕ) (level : ℕ → ℕ) (t : IsTree d root level) (f i k n : ℕ)
    (above : level f ≡ suc (suc k)) (absent : d f i ≡ none) (fresh : level n ≡ 0)
    (updated : (h j : ℕ)
      → 0 < with_level level n (suc k) h
      → j < 512
      → d' h j ≡ with_table d f i n h j) where
  new_ne : (h : ℕ) → 0 < level h → h ≢ n
  new_ne h deep e = omega (arith, ap level e)

  pub old_level : (h : ℕ) → 0 < level h → with_level level n (suc k) h ≡ level h
  old_level h deep = rw (ne→== h n (new_ne h deep)) refl

  -- The entries of the old tables.
  old_entry :
      (h j : ℕ)
      → 0 < level h
      → j < 512
      → ((h ≡ f) × (j ≡ i) × (d' h j ≡ some n)) ⊎ (((h ≡ f) × (j ≡ i) → ⊥) × (d' h j ≡ d h j))
  old_entry h j deep small =
      let at : d' h j ≡ with_table d f i n h j =
        updated h j (omega (arith, old_level h deep)) small in
      let not_new = ne→== h n (new_ne h deep) in
      elim (ℕ_discrete h f) [
        | no other ↦ inr (λ e. other (e.0), at ∙ rw (not_new, ne→== h f other) refl)
        | yes same ↦ elim (ℕ_discrete j i) [
          | no other ↦ inr (λ e. other (e.1), at ∙ ground (arith, not_new, ne→== j i other))
          | yes also ↦ inl (same, also, at ∙ ground (arith, not_new, ==_self f, ==_self i))
        ]
      ]

  new_entry : (j : ℕ) → j < 512 → d' n j ≡ none
  new_entry j small =
      let deep : 0 < with_level level n (suc k) n = rw (==_self n) (omega arith) in
      updated n j deep small ∙ rw (==_self n) refl

  -- Where an entry above the last level comes from.
  origin :
      (h j g : ℕ)
      → 2 ≤ with_level level n (suc k) h
      → j < 512
      → d' h j ≡ some g
      → ((h ≡ f) × (j ≡ i) × (g ≡ n)) ⊎ ((2 ≤ level h) × (d h j ≡ some g) × (0 < level g))
  origin h j g deep small leads = elim (ℕ_discrete h n) [
    | yes new ↦ let empty : d' h j ≡ none = ap (λ (x : ℕ). d' x j) new ∙ new_entry j small in cc
    | no old ↦
        let same : with_level level n (suc k) h ≡ level h = rw (ne→== h n old) refl in
        let deep' : 2 ≤ level h = omega (arith, same) in
        elim (old_entry h j (omega arith) small) [
          | inl (eh, ej, made) ↦ inl (eh, ej, cc)
          | inr (_, kept) ↦
              let there : d h j ≡ some g = sym kept ∙ leads in
              inr (deep', there, omega (arith, t.leads h j g deep' small there))
        ]
  ]

  pub grown-IsTree : IsTree d' root (with_level level n (suc k))
  grown-IsTree = record {
    top = old_level root (omega (arith, t.top)) ∙ t.top;
    leads = λ h j g deep small leads. elim (origin h j g deep small leads) [
      | inl (eh, _, eg) ↦
          let up : with_level level n (suc k) h ≡ suc (suc k) =
            ap (with_level level n (suc k)) eh ∙ old_level f (omega (arith, above)) ∙ above in
          let down : with_level level n (suc k) g ≡ suc k =
            ap (with_level level n (suc k)) eg ∙ rw (==_self n) refl in
          omega (arith, up, down)
      | inr (deep', there, below) ↦
          omega
            (arith, old_level h (omega arith), old_level g below, t.leads h j g deep' small there)
    ];
    single = λ h j h' j' g deep deep' small small' leads leads'.
        elim (origin h j g deep small leads) [
          | inl (eh, ej, eg) ↦ elim (origin h' j' g deep' small' leads') [
            | inl (eh', ej', _) ↦ (eh ∙ sym eh', ej ∙ sym ej')
            | inr (_, _, below) ↦ absurd (new_ne g below eg)
          ]
          | inr (up, there, below) ↦ elim (origin h' j' g deep' small' leads') [
            | inl (_, _, eg) ↦ absurd (new_ne g below eg)
            | inr (up', there', _) ↦ t.single h j h' j' g up up' small small' there there'
          ]
        ];
  }

  -- Walks that arrived still do.
  pub walk-grows :
      (is : List ℕ) (h x : ℕ)
      → length is < level h
      → Below is
      → walk d h is ≡ some x
      → walk d' h is ≡ some x
  walk-grows [] h x deep b arrives = arrives
  walk-grows (j ∷ is) h x deep b arrives =
      let (g, first, rest) = and_then-some (d h j) (λ g. walk d g is) x arrives in
      let down : suc (level g) ≡ level h = t.leads h j g (omega arith) (b.0) first in
      elim (old_entry h j (omega arith) (b.0)) [
        | inl (eh, ej, _) ↦ let gone : d h j ≡ none = ap₂ d eh ej ∙ absent in cc
        | inr (_, kept) ↦ rw (kept, first) (walk-grows is g x (omega arith) (b.1) rest)
      ]

  -- No page gets a frame or loses it.
  pub leaf-grows :
      (is : List ℕ) (j h : ℕ)
      → suc (length is) ≡ level h
      → Below is
      → j < 512
      → leaf d' h is j ≡ leaf d h is j
  leaf-grows [] j h deep b small = elim (old_entry h j (omega arith) small) [
    | inl (eh, _, _) ↦ absurd (omega (arith, ap level eh))
    | inr (_, kept) ↦ kept
  ]
  leaf-grows (j' ∷ is) j h deep b small = elim (old_entry h j' (omega arith) (b.0)) [
    | inl (eh, ej, made) ↦
        let gone : d h j' ≡ none = ap₂ d eh ej ∙ absent in rw (made, gone) (empty_leaf is b.1)
    | inr (_, kept) ↦ elim (Option-cases (d h j')) [
      | inl gone ↦ rw (kept, gone) refl
      | inr (g, there) ↦
          let down : suc (level g) ≡ level h = t.leads h j' g (omega arith) (b.0) there in
          rw (kept, there) (leaf-grows is j g (omega arith) (b.1) small)
    ]
  ]
    where
      empty_leaf : (is : List ℕ) → Below is → leaf d' n is j ≡ none
      empty_leaf [] c = new_entry j small
      empty_leaf (l ∷ ls) c = rw (new_entry l c.0) refl
