-- ===== src/Memory/AddressSpace/Tree.antt =====
-- The tree of the page tables of kernel/src/mem/address_space.cpp, apart from how it is stored.
--
-- A table is known by its frame, and `d f i` is the frame that the present entry `i` of the table at
-- frame `f` leads to. Tables have levels from 4, the root, down to 1; any other frame has level 0.
pub mod Growth
pub mod Leaves
use epsilon_os.Base.{
  ℕ, zero, suc, ◌+◌, ◌/◌, ◌%◌, ◌^◌, ◌≤◌, ◌<◌, ◌≡◌, ◌≢◌, ◌∙◌, refl, sym, ap, arith, inl, inr, Option,
  none, some, List, [], ◌∷◌, length, Option-cases,
}

abbrev pub Entries : Type 0
Entries = ℕ → ℕ → Option ℕ

abbrev pub and_then : Option ℕ → (ℕ → Option ℕ) → Option ℕ
and_then none next = none
and_then (some f) next = next f

-- The table behind a list of indices.
abbrev pub walk : Entries → ℕ → List ℕ → Option ℕ
walk d f [] = some f
walk d f (i ∷ is) = and_then (d f i) (λ g. walk d g is)

abbrev pub Below : List ℕ → Type 0
Below [] = Unit
Below (i ∷ is) = (i < 512) × Below is

-- The indices of a page's number in the three upper tables.
abbrev pub upper_indices : ℕ → List ℕ
upper_indices p = (p / 2 ^ 27 % 512) ∷ (p / 2 ^ 18 % 512) ∷ (p / 2 ^ 9 % 512) ∷ []

pub upper_indices-Below : (p : ℕ) → Below (upper_indices p)
upper_indices-Below p = (omega arith, (omega arith, (omega arith, tt)))

-- The frame behind a list of indices and a last one, and the frame of a page.
abbrev pub leaf : Entries → ℕ → List ℕ → ℕ → Option ℕ
leaf d f is j = and_then (walk d f is) (λ g. d g j)

abbrev pub frame_of_page : Entries → ℕ → ℕ → Option ℕ
frame_of_page d root p = leaf d root (upper_indices p) (p % 512)

-- An entry of a table above the last level leads to a table one level below, to which no other
-- entry leads.
pub record IsTree (d : Entries) (root : ℕ) (level : ℕ → ℕ) : Type 0 where
  pub top : level root ≡ 4
  pub leads : (f i g : ℕ) → 2 ≤ level f → i < 512 → d f i ≡ some g → suc (level g) ≡ level f
  pub single :
      (f i h j g : ℕ)
      → 2 ≤ level f
      → 2 ≤ level h
      → i < 512
      → j < 512
      → d f i ≡ some g
      → d h j ≡ some g
      → (f ≡ h) × (i ≡ j)

-- A walk that arrives went through a first entry.
pub and_then-some :
    (o : Option ℕ) (next : ℕ → Option ℕ) (x : ℕ)
    → and_then o next ≡ some x
    → (g : ℕ) × (o ≡ some g) × (next g ≡ some x)
and_then-some none next x h = cc
and_then-some (some g) next x h = (g, refl, h)

module _ (d : Entries) (root : ℕ) (level : ℕ → ℕ) (t : IsTree d root level) where
  pub walk-level :
      (is : List ℕ) (f x : ℕ)
      → length is < level f
      → Below is
      → walk d f is ≡ some x
      → length is + level x ≡ level f
  walk-level [] f x h b arrives = let e : f ≡ x = cc in omega (arith, ap level e)
  walk-level (i ∷ is) f x h b arrives =
      let (g, first, rest) = and_then-some (d f i) (λ g. walk d g is) x arrives in
      let down : suc (level g) ≡ level f = t.leads f i g (omega arith) (b.0) first in
      omega (arith, walk-level is g x (omega arith) (b.1) rest)

  -- Walks of the same length that arrive at the same table are the same.
  pub walk-apart :
      (is js : List ℕ) (f h x : ℕ)
      → length is ≡ length js
      → length is < level f
      → level f ≡ level h
      → Below is
      → Below js
      → walk d f is ≡ some x
      → walk d h js ≡ some x
      → (f ≡ h) × (is ≡ js)
  walk-apart [] [] f h x l deep same b c arrives also = (cc, refl)
  walk-apart [] (j ∷ js) f h x l deep same b c arrives also = absurd (omega arith)
  walk-apart (i ∷ is) [] f h x l deep same b c arrives also = absurd (omega arith)
  walk-apart (i ∷ is) (j ∷ js) f h x l deep same b c arrives also =
      let (g, first, rest) = and_then-some (d f i) (λ g. walk d g is) x arrives in
      let (k, first', rest') = and_then-some (d h j) (λ g. walk d g js) x also in
      let down : suc (level g) ≡ level f = t.leads f i g (omega arith) (b.0) first in
      let down' : suc (level k) ≡ level h = t.leads h j k (omega arith) (c.0) first' in
      let (e, es) =
        walk-apart is js g k x (omega arith) (omega arith) (omega arith) (b.1) (c.1) rest rest' in
      let (ef, ei) =
        t.single f i h j g (omega arith) (omega arith) (b.0) (c.0) first
          (first' ∙ ap some (sym e)) in
      (ef, cc)

  -- Entries that agree above the last level agree in the walks to it.
  pub walk-agrees :
      (d' : Entries) (is : List ℕ) (f : ℕ)
      → ((h j : ℕ) → 2 ≤ level h → j < 512 → d' h j ≡ d h j)
      → length is < level f
      → Below is
      → walk d' f is ≡ walk d f is
  walk-agrees d' [] f agree h b = refl
  walk-agrees d' (i ∷ is) f agree h b =
      let first : d' f i ≡ d f i = agree f i (omega arith) (b.0) in
      elim (Option-cases (d f i)) [
        | inl absent ↦ rw (first, absent) refl
        | inr (g, there) ↦
            let down : suc (level g) ≡ level f = t.leads f i g (omega arith) (b.0) there in
            rw (first, there) (walk-agrees d' is g agree (omega arith) (b.1))
      ]
