-- ===== src/Memory/AddressSpace/Translate.antt =====
-- Mapping a page and translating an address in kernel/src/mem/address_space.cpp, where the tables
-- are there already.
use epsilon_os.Base.{
  ℕ, ◌+◌, ◌*◌, ◌/◌, ◌%◌, ◌^◌, ◌<◌, ◌≡◌, ◌≢◌, ◌∙◌, ◌⊎◌, inl, inr, refl, ap, arith, true, false, not,
  ◌||◌, ◌&&◌, ok, bit_and, bit_or, ◌==◌, if◌then◌else◌, ne→==, ==_self, Bool-cases,
}
use epsilon_os.Base.Bits.{bit, bit-bit_or, bit_or-lt}
use epsilon_os.Base.Masks.{and_low_mask, or_fields}
use epsilon_os.Memory.Address.{Address, address, null_address, differs}
use epsilon_os.Memory.PageTable.{Store, write, entry_at, is_present, get_frame, entry_of}
use epsilon_os.Memory.PageTable.Entries.{get_frame-entry_of, is_present-entry_of, is_present_lem}
use epsilon_os.Memory.AddressSpace.{Space, pt_index, fix_flags, pte2frame, map_page, virt2phys}
use epsilon_os.Memory.AddressSpace.Indices.{SameIndices}
use epsilon_os.Memory.AddressSpace.Walks.{
  IsWalk, IsOff, write_ne, write_self, write-IsWalk, virt2pte-IsWalk,
}

-- An entry that maps no frame, or the frame wanted already.
abbrev pub Accepts : ℕ → ℕ → Type 0
Accepts raw phys = (is_present raw ≡ false) ⊎ (get_frame raw ≡ address phys)

pub pte2frame-present :
    (entry raw : ℕ) (store : Store)
    → entry ≢ 0
    → store entry ≡ raw
    → is_present raw ≡ true
    → pte2frame entry store ≡ get_frame raw
unfolding pte2frame get_frame
pte2frame-present entry raw store nonnull holds there =
    rw (holds, there, ne→== entry 0 nonnull) refl

pte2frame-Accepts :
    (entry phys : ℕ) (store : Store)
    → entry ≢ 0
    → Accepts (store entry) phys
    → (not (pte2frame entry store).is_null && differs (pte2frame entry store) (address phys))
      ≡ false
unfolding pte2frame differs
pte2frame-Accepts entry phys store nonnull (inl absent) = rw (absent, ne→== entry 0 nonnull) refl
pte2frame-Accepts entry phys store nonnull (inr same) =
    elim (Bool-cases (is_present (store entry))) [
      | inl there ↦ rw (there, ne→== entry 0 nonnull, same) (rw (==_self phys) refl)
      | inr absent ↦ rw (absent, ne→== entry 0 nonnull) refl
    ]

pub fix_flags-is_present : (flags : ℕ) → flags < 2 ^ 64 → is_present ((fix_flags flags).1) ≡ true
unfolding fix_flags bit
fix_flags-is_present flags h =
    let odd : bit_or flags 1 % 2 ≡ 1 = omega (arith, bit-bit_or flags 1 0) in
    rw (is_present_lem (bit_or flags 1) (bit_or-lt 64 flags 1 h (omega arith)), odd) refl

pub fix_flags-lt : (flags : ℕ) → flags < 2 ^ 64 → (fix_flags flags).1 < 2 ^ 64
unfolding fix_flags
fix_flags-lt flags h = bit_or-lt 64 flags 1 h (omega arith)

-- The space after a page was mapped: one word is written.
abbrev pub mapped : ℕ → ℕ → ℕ → Space → Space
mapped entry phys flags s = record s {
  vm = record s.vm {
    store = write s.vm.store entry (entry_of (address phys) ((fix_flags flags).1));
  };
}

module _ (hhdm : ℕ) where
  map_page-mapped :
      (s : Space) (virt phys flags t1 t2 t3 : ℕ)
      → IsWalk hhdm s.vm.store s.pml4 virt t1 t2 t3
      → Accepts (s.vm.store (entry_at t3 (pt_index virt))) phys
      → map_page hhdm virt (address phys) flags s
        ≡ ok (mapped (entry_at t3 (pt_index virt)) phys flags s)
  unfolding map_page
  map_page-mapped s virt phys flags t1 t2 t3 w accepts =
      let e : ℕ = entry_at t3 (pt_index virt) in
      let nonnull : e ≢ 0 = λ z. w.nonnull3 (omega arith) in
      rw
        (
          virt2pte-IsWalk hhdm s.pml4 virt t1 t2 t3 virt ((fix_flags flags).0) true s.vm w
              (refl, refl, refl, refl),
          pte2frame-Accepts e phys s.vm.store nonnull accepts,
          ne→== e 0 nonnull,
        )
        refl

  -- What `virt2phys` makes of the frame of an entry.
  abbrev pub translated : Address → ℕ → Address
  translated frame other =
      if frame.is_null then null_address else address (bit_or frame.addr (bit_and other 4095))

  pub virt2phys-IsWalk :
      (s : Space) (virt other t1 t2 t3 : ℕ)
      → IsWalk hhdm s.vm.store s.pml4 virt t1 t2 t3
      → SameIndices other virt
      → virt2phys hhdm other s
        ≡ ok (translated (pte2frame (entry_at t3 (pt_index virt)) s.vm.store) other, s)
  unfolding virt2phys
  virt2phys-IsWalk s virt other t1 t2 t3 w same =
      let frame : Address = pte2frame (entry_at t3 (pt_index virt)) s.vm.store in
      elim (Bool-cases frame.is_null) [
        | inl e ↦ rw (virt2pte-IsWalk hhdm s.pml4 virt t1 t2 t3 other 0 false s.vm w same, e) refl
        | inr e ↦ rw (virt2pte-IsWalk hhdm s.pml4 virt t1 t2 t3 other 0 false s.vm w same, e) refl
      ]

  pub offset_join :
      (phys x : ℕ)
      → phys < 2 ^ 52
      → phys % 4096 ≡ 0
      → x < 2 ^ 64
      → bit_or phys (bit_and x 4095) ≡ phys + x % 4096
  offset_join phys x small aligned h =
      let low : bit_and x 4095 ≡ x % 4096 = and_low_mask 64 12 x (omega arith) h in
      let whole : phys ≡ phys / 4096 * 2 ^ 12 = omega arith in
      ap (bit_or phys) low
      ∙ ap (λ (f : ℕ). bit_or f (x % 4096)) whole
      ∙ or_fields 64 12 (phys / 4096) (x % 4096) (omega arith) (omega arith)
      ∙ omega arith

  -- Where the three tables are there, the entry is none of the words that the walk reads, and the
  -- page is not mapped to another frame: after `map` of a page-aligned physical address, every
  -- address of the page is translated to that address with its own offset.
  pub map_page-virt2phys :
      (s : Space) (virt other phys flags t1 t2 t3 : ℕ)
      → IsWalk hhdm s.vm.store s.pml4 virt t1 t2 t3
      → IsOff s.pml4 virt t1 t2 (entry_at t3 (pt_index virt))
      → Accepts (s.vm.store (entry_at t3 (pt_index virt))) phys
      → phys < 2 ^ 52
      → phys % 4096 ≡ 0
      → flags < 2 ^ 64
      → other < 2 ^ 64
      → SameIndices other virt
      → (s' : Space) × (map_page hhdm virt (address phys) flags s ≡ ok s')
        × (virt2phys hhdm other s' ≡ ok (address (phys + other % 4096), s'))
  map_page-virt2phys s virt other phys flags t1 t2 t3 w off accepts small aligned hf ho same =
      let e : ℕ = entry_at t3 (pt_index virt) in
      let raw : ℕ = entry_of (address phys) ((fix_flags flags).1) in
      let store' : Store = write s.vm.store e raw in
      let s' : Space = mapped e phys flags s in
      let nonnull : e ≢ 0 = λ z. w.nonnull3 (omega arith) in
      let there : is_present raw ≡ true =
        is_present-entry_of phys ((fix_flags flags).1) (omega arith) (fix_flags-lt flags hf)
        ∙ fix_flags-is_present flags hf in
      let frame : pte2frame e store' ≡ address phys =
        pte2frame-present e raw store' nonnull (write_self s.vm.store e raw) there
        ∙ get_frame-entry_of phys ((fix_flags flags).1) small aligned (fix_flags-lt flags hf) in
      let w' : IsWalk hhdm store' s.pml4 virt t1 t2 t3 =
        write-IsWalk hhdm s.vm.store s.pml4 virt t1 t2 t3 e raw w off in
      (
        s',
        map_page-mapped s virt phys flags t1 t2 t3 w accepts,
        virt2phys-IsWalk s' virt other t1 t2 t3 w' same
            ∙ ap (λ (f : Address). ok (translated f other, s')) frame
            ∙ ap (λ (a : ℕ). ok (address a, s')) (offset_join phys other small aligned ho),
      )

  -- `map` of a page leaves the translation of an address as it was, if the walks of both are
  -- through tables that are there, and the entry that is written is neither the entry of that
  -- address nor a word that its walk reads.
  pub map_page-others :
      (s : Space) (virt v phys flags t1 t2 t3 u1 u2 u3 : ℕ)
      → IsWalk hhdm s.vm.store s.pml4 virt t1 t2 t3
      → IsWalk hhdm s.vm.store s.pml4 v u1 u2 u3
      → IsOff s.pml4 v u1 u2 (entry_at t3 (pt_index virt))
      → entry_at t3 (pt_index virt) ≢ entry_at u3 (pt_index v)
      → Accepts (s.vm.store (entry_at t3 (pt_index virt))) phys
      → (s' : Space) × (a : Address) × (map_page hhdm virt (address phys) flags s ≡ ok s')
        × (virt2phys hhdm v s ≡ ok (a, s))
        × (virt2phys hhdm v s' ≡ ok (a, s'))
  unfolding pte2frame
  map_page-others s virt v phys flags t1 t2 t3 u1 u2 u3 w u off apart accepts =
      let e : ℕ = entry_at t3 (pt_index virt) in
      let d : ℕ = entry_at u3 (pt_index v) in
      let raw : ℕ = entry_of (address phys) ((fix_flags flags).1) in
      let s' : Space = mapped e phys flags s in
      (
        s',
        translated (pte2frame d s.vm.store) v,
        map_page-mapped s virt phys flags t1 t2 t3 w accepts,
        virt2phys-IsWalk s v v u1 u2 u3 u (refl, refl, refl, refl),
        virt2phys-IsWalk s' v v u1 u2 u3
              (write-IsWalk hhdm s.vm.store s.pml4 v u1 u2 u3 e raw u off) (refl, refl, refl, refl)
            ∙ ap
                (λ (x : ℕ). ok (
                  translated (if d == 0 || not (is_present x) then null_address else get_frame x) v,
                  s',
                ))
                (write_ne s.vm.store e raw d apart),
      )
