-- ===== src/Memory/AddressSpace/Layout/Finding.antt =====
-- The walk of kernel/src/mem/address_space.cpp that creates no tables, and `virt2phys`, where the tables
-- lie in memory.
use epsilon_os.Base.{
  ◌>>=◌, ==→ne, ℕ, suc, ◌+◌, ◌*◌, ◌/◌, ◌%◌, ◌^◌, ◌≤◌, ◌<◌, ◌≡◌, ◌∙◌, refl, sym, ap, ap₂, arith, inl,
  inr, false, Option, none, some, List, [], ◌∷◌, Result, ok, ◌==◌, if◌then◌else◌, not64, ne→==,
  Bool-cases, Option-cases,
}
use epsilon_os.Base.Bits.{bit_and-le_right}
use epsilon_os.Memory.Address.{Address, address, null_address}
use epsilon_os.Memory.PageTable.{Vm, flags_mask, is_present, get_frame, entry_at, get_next_table}
use epsilon_os.Memory.PageTable.Entries.{get_frame_aligned}
use epsilon_os.Memory.AddressSpace.{
  Space, virt2pte, virt2phys, pte2frame, pml4_index, pdp_index, pd_index, pt_index,
}
use epsilon_os.Memory.AddressSpace.Indices.{page_number, indices-page_number, indices-lt}
use epsilon_os.Memory.AddressSpace.Translate.{offset_join}
use epsilon_os.Memory.AddressSpace.Tree.{
  Entries, walk, and_then, upper_indices, frame_of_page, and_then-some, upper_indices-Below,
  walk-level,
}
use epsilon_os.Memory.AddressSpace.Layout.{table_at, entry_frame, entries, IsLaid, present_table}
use epsilon_os.Memory.AddressSpace.Layout.Walking.{table_at-nonnull}

-- The address of a table, where there is one, that of its entry, and that of a frame.
abbrev table_of : ℕ → Option ℕ → ℕ
table_of hhdm none = 0
table_of hhdm (some f) = table_at hhdm f

abbrev pub entry_behind : ℕ → Option ℕ → ℕ → ℕ
entry_behind hhdm none j = 0
entry_behind hhdm (some f) j = entry_at (table_at hhdm f) j

abbrev pub frame_address : Option ℕ → Address
frame_address none = null_address
frame_address (some n) = address (n * 4096)

-- What an address is translated to, by the frame of its page.
abbrev pub translation : Option ℕ → ℕ → Address
translation none x = null_address
translation (some n) x = address (n * 4096 + x % 4096)

get_frame-lt : (raw : ℕ) → (get_frame raw).addr < 2 ^ 52
unfolding get_frame
get_frame-lt raw = omega (arith, bit_and-le_right 64 raw (not64 flags_mask) (omega arith))

entry_frame-lt : (raw n : ℕ) → entry_frame raw ≡ some n → n < 2 ^ 40
entry_frame-lt raw n e = elim (Bool-cases (is_present raw)) [
  | inl there ↦
      let same : some ((get_frame raw).addr / 4096) ≡ some n = sym (rw there refl) ∙ e in
      let it : (get_frame raw).addr / 4096 ≡ n = cc in omega (arith, get_frame-lt raw)
  | inr absent ↦ let same : none ≡ some n = sym (rw absent refl) ∙ e in cc
]

get_frame-address : (raw : ℕ) → get_frame raw ≡ address ((get_frame raw).addr / 4096 * 4096)
unfolding get_frame
get_frame-address raw = ap address (omega (arith, get_frame_aligned raw))

module _ (hhdm : ℕ) where
  get_next_table-find :
      (vm : Vm) (f i flags : ℕ) (o : Option ℕ)
      → entries hhdm vm.store f i ≡ o
      → get_next_table hhdm (table_at hhdm f) i flags false vm ≡ ok (table_of hhdm o, vm)
  unfolding get_next_table
  get_next_table-find vm f i flags o e =
      let raw : ℕ = vm.store (entry_at (table_at hhdm f) i) in
      elim (Bool-cases (is_present raw)) [
        | inl there ↦
            let is : entry_frame raw ≡ some ((get_frame raw).addr / 4096) = rw there refl in
            rw there (
              ap (λ (t : ℕ). ok (t, vm))
                (sym (present_table hhdm raw) ∙ ap (table_of hhdm) (sym is ∙ e)))
        | inr absent ↦
            let is : entry_frame raw ≡ none = rw absent refl in
            rw absent (ap (λ (t : ℕ). ok (t, vm)) (ap (table_of hhdm) (sym is ∙ e)))
      ]

module _ (hhdm : ℕ) (low : 0 < hhdm) (high : hhdm + 2 ^ 47 ≤ 2 ^ 64) (root : ℕ)
    (level : ℕ → ℕ) where
  -- One step of the walk.
  descend :
      (vm : Vm) (f i k flags j : ℕ) (rest : ℕ → Option ℕ) (next : ℕ × Vm → Result (ℕ × Vm))
      → IsLaid hhdm root level vm
      → level f ≡ suc (suc k)
      → i < 512
      → ((g : ℕ)
          → level g ≡ suc k
          → next (table_at hhdm g, vm) ≡ ok (entry_behind hhdm (rest g) j, vm))
      → (get_next_table hhdm (table_at hhdm f) i flags false vm >>= λ r.
          if r.0 == 0 then ok (0, r.1) else next r)
        ≡ ok (entry_behind hhdm (and_then (entries hhdm vm.store f i) rest) j, vm)
  descend vm f i k flags j rest next v above small then_ =
      let d : Entries = entries hhdm vm.store in
      elim (Option-cases (d f i)) [
        | inl lost ↦ rw (get_next_table-find hhdm vm f i flags none lost, lost) refl
        | inr (g, found) ↦
            let down : suc (level g) ≡ level f = v.tree.leads f i g (omega arith) small found in
            rw
              (
                get_next_table-find hhdm vm f i flags (some g) found,
                found,
                table_at-nonnull hhdm low high root g v (omega arith),
              )
              (then_ g (omega arith))
      ]

  -- The walk finds the entry of the page if its tables are there, and changes nothing.
  pub virt2pte-find :
      (vm : Vm) (x flags : ℕ)
      → IsLaid hhdm root level vm
      → x < 2 ^ 64
      → virt2pte hhdm (table_at hhdm root) x flags false vm
        ≡ ok (
          entry_behind hhdm
              (walk (entries hhdm vm.store) root (upper_indices (page_number x)))
              (page_number x % 512),
          vm,
        )
  unfolding virt2pte
  virt2pte-find vm x flags v hx =
      let p : ℕ = page_number x in
      let d : Entries = entries hhdm vm.store in
      let (s1, s2, s3, s4) = indices-lt x hx in
      let (e1, e2, e3, e4) = indices-page_number x hx in
      let same : (pml4_index x ∷ pdp_index x ∷ pd_index x ∷ []) ≡ upper_indices p = cc in
      rw (table_at-nonnull hhdm low high root root v (omega (arith, v.tree.top))) (
        descend vm root (pml4_index x) 2 flags (pt_index x)
          (λ f. walk d f (pdp_index x ∷ pd_index x ∷ [])) _ v v.tree.top s1
          (λ f lf.
            descend vm f (pdp_index x) 1 flags (pt_index x) (λ g. walk d g (pd_index x ∷ [])) _ v lf
              s2
              (λ g lg.
                descend vm g (pd_index x) 0 flags (pt_index x) (λ h. some h) _ v lg s3
                  (λ h lh. refl)))
        ∙ ap₂ (λ (is : List ℕ) (j : ℕ). ok (entry_behind hhdm (walk d root is) j, vm)) same e4)

  pub pte2frame-find :
      (vm : Vm) (o : Option ℕ) (j : ℕ)
      → IsLaid hhdm root level vm
      → ((g : ℕ) → o ≡ some g → 0 < level g)
      → pte2frame (entry_behind hhdm o j) vm.store
        ≡ frame_address (and_then o (λ g. entries hhdm vm.store g j))
  unfolding pte2frame
  pte2frame-find vm none j v deep = refl
  pte2frame-find vm (some g) j v deep =
      let e : ℕ = entry_at (table_at hhdm g) j in
      let there = table_at-nonnull hhdm low high root g v (deep g refl) in
      let nonnull : (e == 0) ≡ false = ne→== e 0 (λ z. ==→ne _ _ there (omega arith)) in
      elim (Bool-cases (is_present (vm.store e))) [
        | inl p ↦ rw (nonnull, p) (get_frame-address (vm.store e))
        | inr p ↦ rw (nonnull, p) refl
      ]

  -- `virt2phys` gives the address in the frame of the page, or the null address if the page has none.
  pub virt2phys-translation :
      (s : Space) (x : ℕ)
      → IsLaid hhdm root level s.vm
      → s.pml4 ≡ table_at hhdm root
      → x < 2 ^ 64
      → virt2phys hhdm x s
        ≡ ok (translation (frame_of_page (entries hhdm s.vm.store) root (page_number x)) x, s)
  unfolding virt2phys
  virt2phys-translation s x v at hx =
      let p : ℕ = page_number x in
      let d : Entries = entries hhdm s.vm.store in
      let w : Option ℕ = walk d root (upper_indices p) in
      let found = ap (λ (t : ℕ). virt2pte hhdm t x 0 false s.vm) at ∙ virt2pte-find s.vm x 0 v hx in
      let frame : pte2frame (entry_behind hhdm w (p % 512)) s.vm.store
          ≡ frame_address (frame_of_page d root p) =
        pte2frame-find s.vm w (p % 512) v (λ g e. omega (
          arith,
          walk-level d root level v.tree (upper_indices p) root g (omega (arith, v.tree.top))
              (upper_indices-Below p) e,
          v.tree.top,
        )) in
      elim (Option-cases (frame_of_page d root p)) [
        | inl lost ↦ rw (found, frame, lost) refl
        | inr (n, maps) ↦
            let (g, _, entry) = and_then-some w (λ g. d g (p % 512)) n maps in
            let small : n < 2 ^ 40 = entry_frame-lt _ n entry in
            let whole : n * 4096 % 4096 ≡ 0 = omega arith in
            rw (found, frame, maps)
              (ap (λ (a : ℕ). ok (address a, s))
                (offset_join hhdm (n * 4096) x (omega arith) whole hx))
      ]
