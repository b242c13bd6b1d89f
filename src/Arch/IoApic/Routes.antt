-- ===== src/Arch/IoApic/Routes.antt =====
-- Which entries kernel/src/arch/ioapic.cpp writes, and what they route.
use epsilon_os.Base.{
  ℕ, ◌+◌, ◌*◌, ◌%◌, ◌^◌, ◌<◌, ◌≤◌, ◌/◌, ◌≡◌, ◌∙◌, ◌⊎◌, inl, inr, refl, ap, arith, true, some, none,
  stop, panic, leb, ◌&&◌, Bool-cases, List, [], ◌∷◌, ◌++◌, ok, ◌==◌, bit_or, length, length-append,
}
use epsilon_os.Base.Masks.{or_fields, or_comm}
use epsilon_os.Acpi.Madt.{IoApic}
use epsilon_os.Arch.IoApic.{
  RegisterWrite, map_entry, init_from, init, find_ioapic, get_max_interrupts, map_irq, route, irq0,
  get_id, masked,
}

-- The first two writes of a route: the vector in the low half, the APIC id in the top byte of the
-- high half, and no other bit, so that the entry is not masked.
abbrev pub IsRoute : ℕ → ℕ → ℕ → List RegisterWrite → Type 0
IsRoute base irq apicid (low ∷ high ∷ []) =
    (low.base ≡ base)
    × (high.base ≡ base)
    × (low.register ≡ 16 + 2 * irq)
    × (high.register ≡ 17 + 2 * irq)
    × (low.value ≡ 32 + irq)
    × (high.value ≡ 2 ^ 24 * apicid)
IsRoute base irq apicid _ = ⊥

length-map_entry : (base index val : ℕ) → length (map_entry base index val) ≡ 2
unfolding map_entry
length-map_entry base index val = refl

module _ (version ident : ℕ → ℕ) where
  -- The interrupt is one of the controller's numbers as the code counts them: from `gsib` on, the
  -- version's bits 16 to 23 and one more, and the number behind those too.
  abbrev pub Takes : ℕ → IoApic → Type 0
  Takes irq c =
      (c.gsib ≤ irq) × (irq ≤ (c.gsib + (version c.address / 2 ^ 16 % 2 ^ 8 + 1)) % 2 ^ 32)

  abbrev pub NoneTakes : ℕ → List IoApic → Type 0
  NoneTakes irq [] = Unit
  NoneTakes irq (c ∷ cs) = (Takes irq c → ⊥) × NoneTakes irq cs

  -- The controllers before the one that is found do not take the interrupt, and it does.
  abbrev pub IsFirst : ℕ → List IoApic → IoApic → Type 0
  IsFirst irq cs c =
      (before : List IoApic) × (after : List IoApic) × (cs ≡ before ++ (c ∷ after))
      × NoneTakes irq before
      × Takes irq c

  find_ioapic-cases :
      (irq : ℕ) (cs : List IoApic)
      → ((c : IoApic) × (find_ioapic version ident irq cs ≡ some c) × IsFirst irq cs c)
        ⊎ ((find_ioapic version ident irq cs ≡ none) × NoneTakes irq cs)
  unfolding find_ioapic get_max_interrupts
  find_ioapic-cases irq [] = inr (refl, tt)
  find_ioapic-cases irq (c ∷ cs) =
      let last : ℕ = (c.gsib + (version c.address / 2 ^ 16 % 2 ^ 8 + 1)) % 2 ^ 32 in
      elim (Bool-cases (leb c.gsib irq && leb irq last)) [
        | inl t ↦
            let takes : Takes irq c = (ground (arith, t), ground (arith, t)) in
            inl (c, rw t refl, ([], cs, refl, tt, takes))
        | inr f ↦
            let passes : Takes irq c → ⊥ = λ takes. ground (arith, f, takes.0, takes.1) in
            elim (find_ioapic-cases irq cs) [
              | inl (d, found, (before, after, same, none_, takes)) ↦ inl (
                d,
                rw f found,
                (c ∷ before, after, ap (λ (l : List IoApic). c ∷ l) same, (passes, none_), takes),
              )
              | inr (found, none_) ↦ inr (rw f found, (passes, none_))
            ]
      ]

  -- For an interrupt below 224 and an 8-bit APIC id: where some controller takes the interrupt, `map`
  -- writes the entry with the number of the interrupt, on the first such controller: vector 32 + irq,
  -- for the APIC id given, not masked. Where none takes it, `map` panics.
  pub map_irq-IsRoute :
      (irq apicid : ℕ) (cs : List IoApic)
      → irq < 224
      → apicid < 256
      → ((c : IoApic) × (ws : List RegisterWrite) × IsFirst irq cs c
          × (map_irq version ident irq apicid cs ≡ ok ws)
          × IsRoute c.address irq apicid ws)
        ⊎ (NoneTakes irq cs × (map_irq version ident irq apicid cs ≡ stop panic))
  unfolding map_irq route map_entry
  map_irq-IsRoute irq apicid cs h g = elim (find_ioapic-cases irq cs) [
    | inr (found, none_) ↦ inr (none_, rw found refl)
    | inl (c, found, first) ↦
        let e : (apicid * 2 ^ 56) % 2 ^ 64 ≡ apicid * 2 ^ 56 = omega arith in
        let joined : bit_or (32 + irq) (apicid * 2 ^ 56) ≡ apicid * 2 ^ 56 + (32 + irq) =
          or_comm 64 (32 + irq) (apicid * 2 ^ 56) (omega arith) (omega arith)
          ∙ or_fields 64 56 apicid (32 + irq) (omega arith) (omega arith) in
        inl (
          c,
          map_entry c.address irq (apicid * 2 ^ 56 + (32 + irq)),
          first,
          rw (found, e, joined) refl,
          (refl, refl, omega arith, omega arith, omega arith, omega arith),
        )
  ]

  -- A controller is taken for the interrupt just behind its last one: with `n` entries from
  -- `gsib` on, the numbers up to `gsib + n` itself pass the test.
  pub find_ioapic-one_past :
      (c : IoApic) (cs : List IoApic)
      → c.gsib + get_max_interrupts version ident c < 256
      → find_ioapic version ident (c.gsib + get_max_interrupts version ident c) (c ∷ cs) ≡ some c
  unfolding find_ioapic
  find_ioapic-one_past c cs h = ground arith

  -- The controllers answer with the ids that the tables give them.
  abbrev pub IdsMatch : List IoApic → Type 0
  IdsMatch [] = Unit
  IdsMatch (c ∷ cs) = (get_id version ident c ≡ c.id) × IdsMatch cs

  init_from-two_each :
      (i : ℕ) (cs : List IoApic)
      → IdsMatch cs
      → (ws : List RegisterWrite) × (init_from version ident i cs ≡ ok ws)
        × (length ws ≡ 2 * length cs)
  unfolding init_from
  init_from-two_each i [] h = ([], refl, refl)
  init_from-two_each i (c ∷ cs) h =
      let (rest, returns, count) = init_from-two_each (i + 1) cs (h.1) in
      let t : (get_id version ident c == c.id) ≡ true = ground (arith, h.0) in
      let entry : List RegisterWrite = map_entry c.address (i % 2 ^ 8) (bit_or (irq0 + i) masked) in
      (
        entry ++ rest,
        rw (t, returns) refl,
        omega (
          arith,
          length-append entry rest,
          length-map_entry c.address (i % 2 ^ 8) (bit_or (irq0 + i) masked),
        ),
      )

  -- `init` writes one redirection entry, two registers, for each controller, however many
  -- entries the controllers have.
  pub init-two_each :
      (cs : List IoApic)
      → IdsMatch cs
      → (ws : List RegisterWrite) × (init version ident cs ≡ ok ws) × (length ws ≡ 2 * length cs)
  unfolding init
  init-two_each cs h = init_from-two_each 0 cs h
