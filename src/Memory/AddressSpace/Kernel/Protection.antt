-- ===== src/Memory/AddressSpace/Kernel/Protection.antt =====
-- The flags of the mappings of `init_kernel` of kernel/src/mem/address_space.cpp.
use epsilon_os.Base.{ℕ, ◌+◌, ◌^◌, ◌<◌, ◌≡◌, ◌⊎◌, inl, inr, refl, arith, List, [], ◌∷◌, bit_and}
use epsilon_os.Memory.Address.{address}
use epsilon_os.Memory.Flags.{writable, execute_disable}
use epsilon_os.Memory.Pmm.{Region}
use epsilon_os.Memory.PageTable.{entry_of, flags_mask}
use epsilon_os.Memory.PageTable.Entries.{flags-entry_of}
use epsilon_os.Memory.AddressSpace.{fix_flags}
use epsilon_os.Memory.AddressSpace.Kernel.{
  Mapping, Image, lower_mapping, image_mappings, framebuffer_mapping,
}

abbrev pub AllOf : (Mapping → Type 0) → List Mapping → Type 0
AllOf P [] = Unit
AllOf P (m ∷ ms) = P m × AllOf P ms

-- An entry of flags and a frame that cannot be both written and executed.
abbrev pub IsProtected : ℕ → Type 0
IsProtected raw =
    (bit_and (bit_and raw flags_mask) writable ≡ 0)
    ⊎ (bit_and (bit_and raw flags_mask) execute_disable ≡ execute_disable)

-- The words of a frame and the page flags of a mapping.
abbrev pub ProtectsPages : Mapping → Type 0
ProtectsPages m =
    (frame : ℕ) → frame < 2 ^ 64 → IsProtected (entry_of (address frame) ((fix_flags m.flags).1))

masked-IsProtected :
    (frame flags : ℕ)
    → frame < 2 ^ 64
    → flags < 2 ^ 64
    → (bit_and (bit_and flags flags_mask) writable ≡ 0)
      ⊎ (bit_and (bit_and flags flags_mask) execute_disable ≡ execute_disable)
    → IsProtected (entry_of (address frame) flags)
masked-IsProtected frame flags h small p = rw (flags-entry_of frame flags h small) p

-- A word that `entry_of` makes of any frame and the page flags that `fix_flags` gives for a range of
-- `init_kernel` lacks Writable or has ExecuteDisable.
pub init_kernel-IsProtected :
    (hhdm : ℕ) (i : Image) (r : Region)
    → AllOf ProtectsPages (lower_mapping hhdm ∷ framebuffer_mapping i r ∷ image_mappings i)
unfolding lower_mapping image_mappings framebuffer_mapping fix_flags
init_kernel-IsProtected hhdm i r =
    let locked : (f flags : ℕ)
        → f < 2 ^ 64
        → flags < 2 ^ 64
        → bit_and (bit_and flags flags_mask) execute_disable ≡ execute_disable
        → IsProtected (entry_of (address f) flags) =
      λ f flags h g e. masked-IsProtected f flags h g (inr e) in
    let data_pages : ℕ = 2 ^ 63 + 3 in
    let code_pages : (f : ℕ) → f < 2 ^ 64 → IsProtected (entry_of (address f) 1) =
      λ f h. masked-IsProtected f 1 h (omega arith) (inl refl) in
    (
      λ f h. locked f data_pages h (omega arith) refl,
      (
        λ f h. locked f (2 ^ 63 + 131) h (omega arith) refl,
        (
          λ f h. locked f data_pages h (omega arith) refl,
          (
            code_pages,
            (
              λ f h. locked f (2 ^ 63 + 1) h (omega arith) refl,
              (
                code_pages,
                (
                  λ f h. locked f data_pages h (omega arith) refl,
                  (λ f h. locked f data_pages h (omega arith) refl, tt),
                ),
              ),
            ),
          ),
        ),
      ),
    )
