-- ===== src/Memory/AddressSpace/Layout/Writes.antt =====
-- What stores to page tables do to their entries: `reset` and `PageTableEntry::set` of
-- kernel/src/mem/page_table.cpp.
use epsilon_os.Base.{
  ℕ, ◌+◌, ◌*◌, ◌/◌, ◌^◌, ◌≤◌, ◌<◌, ◌≡◌, ◌≢◌, ◌∙◌, refl, sym, ap, ap₂, ==_self, arith, true, false,
  ◌&&◌, Option, none, some, ltb, leb, ◌==◌, if◌then◌else◌, ne→==,
}
use native.Mathlib.Decide.{ℕ_discrete}
use epsilon_os.Memory.Address.{address}
use epsilon_os.Memory.PageTable.{Store, write, reset, is_present, entry_of, entry_at}
use epsilon_os.Memory.PageTable.Entries.{get_frame-entry_of, is_present-entry_of}
use epsilon_os.Memory.AddressSpace.Walks.{write_ne, write_self}
use epsilon_os.Memory.AddressSpace.Tree.{Entries}
use epsilon_os.Memory.AddressSpace.Tree.Growth.{with_table}
use epsilon_os.Memory.AddressSpace.Tree.Leaves.{with_entry, with_entry_at, with_entry_ne}
use epsilon_os.Memory.AddressSpace.Layout.{
  table_at, entry_frame, entries, table_at-eq, entry_at-apart,
}

-- A word that was set for a frame.
pub entry_frame-entry_of :
    (n flags : ℕ)
    → n < 2 ^ 40
    → flags < 2 ^ 64
    → is_present flags ≡ true
    → entry_frame (entry_of (address (n * 4096)) flags) ≡ some n
entry_frame-entry_of n flags small wide there =
    let whole : n * 4096 / 4096 ≡ n = omega arith in
    rw
      (
        is_present-entry_of (n * 4096) flags (omega arith) wide ∙ there,
        get_frame-entry_of (n * 4096) flags (omega arith) (omega arith) wide,
        whole,
      )
      refl

pub entry_frame-zero : entry_frame 0 ≡ none
unfolding is_present
entry_frame-zero = refl

reset_outside :
    (store : Store) (table q : ℕ)
    → (leb table q && ltb q (table + 4096)) ≡ false
    → reset store table q ≡ store q
unfolding reset
reset_outside store table q e = rw e refl

reset_inside :
    (store : Store) (table q : ℕ)
    → (leb table q && ltb q (table + 4096)) ≡ true
    → reset store table q ≡ 0
unfolding reset
reset_inside store table q e = rw e refl

module _ (hhdm : ℕ) (low : 0 < hhdm) (high : hhdm + 2 ^ 47 ≤ 2 ^ 64) where
  pub entries-reset_self :
      (store : Store) (n j : ℕ)
      → n < 2 ^ 35
      → j < 512
      → entries hhdm (reset store (table_at hhdm n)) n j ≡ none
  entries-reset_self store n j hn hj =
      let a : table_at hhdm n ≡ n * 4096 + hhdm = table_at-eq hhdm low high n hn in
      ap entry_frame
        (reset_inside store (table_at hhdm n) (entry_at (table_at hhdm n) j) (ground arith))
      ∙ entry_frame-zero

  pub entries-reset_ne :
      (store : Store) (n h j : ℕ)
      → n < 2 ^ 35
      → h < 2 ^ 35
      → j < 512
      → h ≢ n
      → entries hhdm (reset store (table_at hhdm n)) h j ≡ entries hhdm store h j
  entries-reset_ne store n h j hn hh hj ne =
      let a : table_at hhdm n ≡ n * 4096 + hhdm = table_at-eq hhdm low high n hn in
      let b : table_at hhdm h ≡ h * 4096 + hhdm = table_at-eq hhdm low high h hh in
      ap entry_frame
        (reset_outside store (table_at hhdm n) (entry_at (table_at hhdm h) j) (ground arith))

  pub entries-write :
      (store : Store) (f i raw h j : ℕ)
      → f < 2 ^ 35
      → h < 2 ^ 35
      → i < 512
      → j < 512
      → entries hhdm (write store (entry_at (table_at hhdm f) i) raw) h j
        ≡ with_entry (entries hhdm store) f i (entry_frame raw) h j
  entries-write store f i raw h j hf hh hi hj =
      let apart = entry_at-apart hhdm low high f h i j hf hh hi hj in
      let q : ℕ = entry_at (table_at hhdm h) j in
      let e : ℕ = entry_at (table_at hhdm f) i in
      elim (ℕ_discrete e q) [
        | yes same ↦
            let (ef, ei) = apart same in
            ap (λ (x : ℕ). entry_frame (write store e raw x)) (sym same)
            ∙ ap entry_frame (write_self store e raw)
            ∙ sym (with_entry_at (entries hhdm store) f i (entry_frame raw) h j (sym ef) (sym ei))
        | no other ↦
            ap entry_frame (write_ne store e raw q other)
            ∙ sym (
                with_entry_ne (entries hhdm store) f i (entry_frame raw) h j (λ s.
                  other (ap₂ (λ (x y : ℕ). entry_at (table_at hhdm x) y) (sym (s.0)) (sym (s.1)))))
      ]

  -- The stores of `create_table`.
  pub entries-create :
      (store : Store) (f i n raw h j : ℕ)
      → f < 2 ^ 35
      → n < 2 ^ 35
      → h < 2 ^ 35
      → i < 512
      → j < 512
      → f ≢ n
      → entry_frame raw ≡ some n
      → entries hhdm (write (reset store (table_at hhdm n)) (entry_at (table_at hhdm f) i) raw) h j
        ≡ with_table (entries hhdm store) f i n h j
  entries-create store f i n raw h j hf hn hh hi hj ne leads =
      let table : ℕ = table_at hhdm n in
      let d' : Entries = entries hhdm (reset store table) in
      let set : entries hhdm (write (reset store table) (entry_at (table_at hhdm f) i) raw) h j
          ≡ with_entry d' f i (entry_frame raw) h j =
        entries-write (reset store table) f i raw h j hf hh hi hj in
      elim (ℕ_discrete h n) [
        | yes e ↦
            set
            ∙ with_entry_ne d' f i (entry_frame raw) h j (λ s. ne (sym (s.0) ∙ e))
            ∙ ap (λ (x : ℕ). d' x j) e
            ∙ entries-reset_self store n j hn hj
            ∙ sym
                (ap (λ (x : ℕ). with_table (entries hhdm store) f i n x j) e ∙ rw (==_self n) refl)
        | no other ↦
            set
            ∙ ap₂ (λ (x y : Option ℕ). if (h == f) && (j == i) then x else y) leads
                (entries-reset_ne store n h j hn hh hj other)
            ∙ sym (rw (ne→== h n other) refl)
      ]
