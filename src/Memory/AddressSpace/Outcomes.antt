-- ===== src/Memory/AddressSpace/Outcomes.antt =====
-- The outcomes of the frame manager and of the walk of kernel/src/mem/address_space.cpp that may create
-- tables.
use epsilon_os.Base.{
  ℕ, ◌+◌, ◌/◌, ◌^◌, ◌<◌, ◌≤◌, ◌≡◌, ◌≢◌, ◌∙◌, inl, inr, refl, sym, ap, subst, arith, Bool, true, not,
  ◌&&◌, ◌||◌, List, Result, ok, stop, >>=-PanicsOr, PanicsOr, ltb, ◌==◌, leb, Bool-cases, ==→ne,
  ne→==,
}
use native.Mathlib.Decide.{dec_lt}
use epsilon_os.Bitmap.Laws.{clear-IsUpdated_lem, clear-panic_iff}
use epsilon_os.Memory.Address.{Address, tohh, is_page_aligned}
use epsilon_os.Memory.Pmm.{Pmm, Region, allocate_frame, release_frame}
use epsilon_os.Memory.Pmm.Frames.{IsReady, Allocates, in_use, in_use-le, allocate_frame-Allocates}
use epsilon_os.Memory.PageTable.{
  Vm, Store, write, reset, entry_of, get_frame, is_present, entry_at, create_table, get_next_table,
}
use epsilon_os.Memory.PageTable.Entries.{get_frame-entry_of_le}
use epsilon_os.Memory.AddressSpace.{pml4_index, pdp_index, pd_index, virt2pte}

-- A ready frame manager of frames below 2 ^ 47, the half of the addresses below the higher one.
pub record IsUsable (regions : List Region) (p : Pmm) : Type 0 where
  pub ready : IsReady p
  pub physical : p.bitmap.bitsize ≤ 2 ^ 35
  pub memmap : p.memmap ≡ regions

-- A frame that an allocation gave, or the null address.
abbrev pub Given : List Region → Address × Pmm → Type 0
Given regions (a, p) = IsUsable regions p × (a.addr < 2 ^ 47)

Allocates-Given :
    {regions : List Region} (p : Pmm) (r : Result (Address × Pmm))
    → IsUsable regions p
    → Allocates p r
    → PanicsOr (Given regions) r
Allocates-Given {regions} p (ok (a, p')) v (inl (null, same, _)) =
    (subst (IsUsable regions) (sym same) v, omega (arith, ap (λ (x : Address). x.addr) null))
Allocates-Given {regions} p (ok (a, p')) v (inr (n, below, at, _, _, m)) = (
  record {
    ready = m.ready;
    physical = omega (arith, m.same_bits, v.physical);
    memmap = m.same_memmap ∙ v.memmap;
  },
  omega (arith, ap (λ (x : Address). x.addr) at, v.physical),
)
Allocates-Given p (stop _) v h = elim h [ ]

pub allocate_frame-Given :
    {regions : List Region} (p : Pmm)
    → IsUsable regions p
    → PanicsOr (Given regions) (allocate_frame p)
allocate_frame-Given p v =
    Allocates-Given p (allocate_frame p) v (allocate_frame-Allocates p v.ready)

-- `release_frame` of any address.
pub release_frame-IsUsable :
    {regions : List Region} (p : Pmm) (a : Address)
    → IsUsable regions p
    → PanicsOr (IsUsable regions) (release_frame p a)
unfolding release_frame
release_frame-IsUsable p a v =
    let n : ℕ = a.addr / 4096 in
    elim (Bool-cases (is_page_aligned a)) [
      | inr odd ↦ rw odd tt
      | inl even ↦ elim (dec_lt n p.bitmap.bitsize) [
        | no beyond ↦
            rw (even, (clear-panic_iff p.bitmap n true v.ready.bitmap).1 (inl (omega arith))) tt
        | yes inside ↦ elim (dec_lt (in_use p n) 1) [
          | yes free ↦
              rw
                (even, (clear-panic_iff p.bitmap n true v.ready.bitmap).1 (inr (refl, omega arith)))
                tt
          | no taken ↦
              let (b, returns, u) =
                clear-IsUpdated_lem p.bitmap n true v.ready.bitmap inside
                  (inr (omega (arith, in_use-le p n))) in
              rw (even, returns)
                (record {
                  ready = record {
                    bitmap = u.valid;
                    fits = omega (arith, v.ready.fits, u.same_bits);
                  };
                  physical = omega (arith, v.physical, u.same_bits);
                  memmap = v.memmap;
                })
        ]
      ]
    ]

==-eq : {a b : ℕ} → (a == b) ≡ true → a ≡ b
==-eq {a} {b} h = ground arith

-- No word reads as an entry for the one physical address that the higher half takes to null.
abbrev pub NoNull : ℕ → Store → Type 0
NoNull hhdm store = (q : ℕ) → tohh hhdm (get_frame (store q)).addr ≢ 0

-- A usable frame manager and tables without such a word.
abbrev pub Good : List Region → ℕ → Vm → Type 0
Good regions hhdm vm = IsUsable regions vm.pmm × NoNull hhdm vm.store

-- A next table, or the entry behind it: not the null pointer where it may be created.
abbrev pub Next : List Region → ℕ → Bool → ℕ × Vm → Type 0
Next regions hhdm must (t, vm) = Good regions hhdm vm × (must ≡ true → t ≢ 0)

-- The higher half starts above 0 and has room for 2 ^ 47 bytes.
module _ (regions : List Region) (hhdm : ℕ) (low : 0 < hhdm) (high : hhdm + 2 ^ 47 ≤ 2 ^ 64) where
  pub tohh-nonnull : (a : ℕ) → a < 2 ^ 47 → tohh hhdm a ≢ 0
  tohh-nonnull a h e = omega arith

  -- Words that leave the tables without an entry for null.
  pub entry-nonnull :
      (phys : Address) (flags : ℕ)
      → phys.addr < 2 ^ 47
      → tohh hhdm (get_frame (entry_of phys flags)).addr ≢ 0
  unfolding entry_of
  entry-nonnull phys flags h =
      tohh-nonnull _ (omega (arith, get_frame-entry_of_le phys.addr flags (omega arith)))

  pub zero-nonnull : tohh hhdm (get_frame 0).addr ≢ 0
  unfolding get_frame
  zero-nonnull = tohh-nonnull 0 (omega arith)

  pub write-NoNull :
      (store : Store) (entry v : ℕ)
      → NoNull hhdm store
      → tohh hhdm (get_frame v).addr ≢ 0
      → NoNull hhdm (write store entry v)
  write-NoNull store entry v n h q = elim (Bool-cases (entry == q)) [
    | inl e ↦ rw e h
    | inr e ↦ rw e (n q)
  ]

  pub reset-NoNull :
      (store : Store) (table : ℕ) → NoNull hhdm store → NoNull hhdm (reset store table)
  unfolding reset
  reset-NoNull store table n q = elim (Bool-cases (leb table q && ltb q (table + 4096))) [
    | inl e ↦ rw e zero-nonnull
    | inr e ↦ rw e (n q)
  ]

  create_table-Next :
      (entry flags : ℕ) (must : Bool) (vm : Vm)
      → Good regions hhdm vm
      → PanicsOr (Next regions hhdm must) (create_table hhdm entry flags vm)
  unfolding create_table
  create_table-Next entry flags must vm v =
      >>=-PanicsOr (Given regions) (Next regions hhdm must) (allocate_frame vm.pmm) _
        (allocate_frame-Given vm.pmm (v.0))
        (λ r h. elim (Bool-cases (r.0.is_null || not (is_page_aligned (r.0)))) [
          | inl bad ↦ rw bad tt
          | inr good ↦ rw good (
            (
              h.0,
              write-NoNull (reset vm.store (tohh hhdm r.0.addr)) entry (entry_of (r.0) flags)
                  (reset-NoNull vm.store (tohh hhdm r.0.addr) (v.1))
                  (entry-nonnull (r.0) flags (h.1)),
            ),
            λ e. tohh-nonnull (r.0.addr) (h.1),
          )
        ])

  get_next_table-Next :
      (table index flags : ℕ) (must : Bool) (vm : Vm)
      → Good regions hhdm vm
      → PanicsOr (Next regions hhdm must) (get_next_table hhdm table index flags must vm)
  unfolding get_next_table
  get_next_table-Next table index flags must vm v =
      let raw : ℕ = vm.store (entry_at table index) in
      elim (Bool-cases (is_present raw)) [
        | inl there ↦ rw there (v, λ e. v.1 (entry_at table index))
        | inr absent ↦ elim (Bool-cases must) [
          | inl e ↦ rw (absent, e) (create_table-Next (entry_at table index) flags true vm v)
          | inr e ↦ rw (absent, e) (v, λ q. cc)
        ]
      ]

  -- A page table entry, not the null pointer where tables may be created.
  pub virt2pte-Next :
      (pml4 vaddr flags : ℕ) (must : Bool) (vm : Vm)
      → pml4 ≢ 0
      → Good regions hhdm vm
      → PanicsOr (Next regions hhdm must) (virt2pte hhdm pml4 vaddr flags must vm)
  unfolding virt2pte
  virt2pte-Next pml4 vaddr flags must vm root v = rw (ne→== pml4 0 root) (
      >>=-PanicsOr (Next regions hhdm must) (Next regions hhdm must)
        (get_next_table hhdm pml4 (pml4_index vaddr) flags must vm) _
        (get_next_table-Next pml4 (pml4_index vaddr) flags must vm v)
        (λ r h. elim (Bool-cases (r.0 == 0)) [
          | inl e ↦ rw e (h.0, λ m z. h.1 m (==-eq e))
          | inr e ↦ rw e (
              >>=-PanicsOr (Next regions hhdm must) (Next regions hhdm must)
                (get_next_table hhdm (r.0) (pdp_index vaddr) flags must (r.1)) _
                (get_next_table-Next (r.0) (pdp_index vaddr) flags must (r.1) (h.0))
                (λ q g. elim (Bool-cases (q.0 == 0)) [
                  | inl e ↦ rw e (g.0, λ m z. g.1 m (==-eq e))
                  | inr e ↦ rw e (
                      >>=-PanicsOr (Next regions hhdm must) (Next regions hhdm must)
                        (get_next_table hhdm (q.0) (pd_index vaddr) flags must (q.1)) _
                        (get_next_table-Next (q.0) (pd_index vaddr) flags must (q.1) (g.0))
                        (λ p k. elim (Bool-cases (p.0 == 0)) [
                          | inl e ↦ rw e (k.0, λ m z. k.1 m (==-eq e))
                          | inr e ↦ rw e (k.0, λ m z. ==→ne _ _ e (omega (arith, z)))
                        ]))
                ]))
        ]))
