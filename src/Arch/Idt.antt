-- ===== src/Arch/Idt.antt =====
-- kernel/src/arch/idt.cpp: the interrupt descriptor table.
use epsilon_os.Base.{
  ℕ, zero, suc, ◌+◌, ◌*◌, ◌^◌, ◌≤◌, ◌<◌, ◌≡◌, ◌∙◌, ◌⊎◌, inl, refl, sym, arith, List, set, get_or,
  length, length-set, get_or-set_self, get_or-set_ne, to_u8, to_u16, to_u32, shr, ◌-◌, subst,
}
use native.Mathlib.Decide.{ℕ_discrete}
use epsilon_os.Arch.Gdt.{TableDescriptor}

pub record IdtEntry : Type 0 where
  pub offset_low : ℕ
  pub segment : ℕ
  pub ist : ℕ
  pub reserved0 : ℕ
  pub flags : ℕ
  pub offset_mid : ℕ
  pub offset_high : ℕ
  pub reserved1 : ℕ

abbrev pub idt_entries : ℕ
idt_entries = 256

-- `IDT_TRAP_TYPE0`, and `KERNEL_CS` of kernel/include/arch/cpu.hpp.
abbrev pub trap_type0 : ℕ
trap_type0 = 0x8F

abbrev pub kernel_cs : ℕ
kernel_cs = 8

-- The entry that `set_entry` writes; the `flags` are cut to their 8-bit field.
unfoldable pub idt_entry : ℕ → ℕ → ℕ → IdtEntry
idt_entry offset segment flags = record {
  offset_low = to_u16 offset;
  segment = segment;
  ist = 0;
  reserved0 = 0;
  flags = to_u8 flags;
  offset_mid = to_u16 (shr offset 16);
  offset_high = to_u32 (shr offset 32);
  reserved1 = 0;
}

-- The loop of `idt_init`: `left` entries from entry `i` on, for the stubs `handlers`.
unfoldable pub set_entries : ℕ → ℕ → (ℕ → ℕ) → List IdtEntry → List IdtEntry
set_entries zero i handlers entries = entries
set_entries (suc left) i handlers entries =
    set_entries left (i + 1) handlers (set entries i (idt_entry (handlers i) kernel_cs trap_type0))

unfoldable pub idt_init : ℕ → (ℕ → ℕ) → List IdtEntry → List IdtEntry × TableDescriptor
unfolding set_entries
idt_init at handlers entries =
    (set_entries idt_entries 0 handlers entries, record { size = 256 * 16 - 1; base = at })

-- What the processor reads from an entry.
abbrev pub offset_of : IdtEntry → ℕ
offset_of e = e.offset_low + 2 ^ 16 * e.offset_mid + 2 ^ 32 * e.offset_high

idt_entry_lem :
    (offset segment flags : ℕ)
    → offset < 2 ^ 64
    → offset_of (idt_entry offset segment flags) ≡ offset
unfolding idt_entry
idt_entry_lem offset segment flags h = omega arith

set_entries_lem :
    (left i : ℕ) (handlers : ℕ → ℕ) (entries : List IdtEntry) (d : IdtEntry)
    → i + left ≤ length entries
    → (k : ℕ)
    → ((i ≤ k)
        → (k < i + left)
        → get_or (set_entries left i handlers entries) k d
          ≡ idt_entry (handlers k) kernel_cs trap_type0)
      × (((k < i) ⊎ (i + left ≤ k))
          → get_or (set_entries left i handlers entries) k d ≡ get_or entries k d)
unfolding set_entries
set_entries_lem zero i handlers entries d h k = (λ p q. absurd (omega arith), λ p. refl)
set_entries_lem (suc left) i handlers entries d h k =
    let e : IdtEntry = idt_entry (handlers i) kernel_cs trap_type0 in
    let later =
      set_entries_lem left (i + 1) handlers (set entries i e) d
        (omega (arith, length-set entries i e)) k in
    (
      λ p q. elim (ℕ_discrete k i) [
        | yes same ↦
            later.1 (inl (omega arith))
            ∙ subst
                (λ x. get_or (set entries i e) x d ≡ idt_entry (handlers x) kernel_cs trap_type0)
                (sym same) (get_or-set_self entries i e d (omega arith))
        | no ne ↦ later.0 (omega arith) (omega arith)
      ],
      λ p. later.1 (omega arith) ∙ get_or-set_ne entries i k e d (omega arith),
    )

-- After `idt_init` each of the 256 vectors leads to its own stub, in the kernel's code segment, as
-- a present trap gate of ring 0 on the current stack.
pub idt_init_lem :
    (at : ℕ) (handlers : ℕ → ℕ) (entries : List IdtEntry) (d : IdtEntry) (k : ℕ)
    → length entries ≡ 256
    → k < 256
    → handlers k < 2 ^ 64
    → let e = get_or ((idt_init at handlers entries).0) k d in
      (offset_of e ≡ handlers k) × (e.segment ≡ 8) × (e.flags ≡ 0x8F) × (e.ist ≡ 0)
unfolding idt_init
idt_init_lem at handlers entries d k len h fits =
    let e : get_or (set_entries 256 0 handlers entries) k d ≡ idt_entry (handlers k) 8 0x8F =
      (set_entries_lem 256 0 handlers entries d (omega arith) k).0 (omega arith) (omega arith) in
    rw e (
      idt_entry_lem (handlers k) 8 0x8F fits,
      unfold idt_entry in refl,
      unfold idt_entry in refl,
      unfold idt_entry in refl,
    )
