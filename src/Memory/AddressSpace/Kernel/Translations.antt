-- ===== src/Memory/AddressSpace/Kernel/Translations.antt =====
-- What addresses are translated to after `init_kernel` of kernel/src/mem/address_space.cpp.
use epsilon_os.Base.{
  ℕ, ◌+◌, ◌-◌, ◌*◌, ◌/◌, ◌%◌, ◌^◌, ◌≤◌, ◌<◌, ◌≡◌, ◌∙◌, ◌⊎◌, refl, sym, ap, arith, inl, inr, Option,
  none, some, List, [], ◌∷◌, ok, PanicsIf-ok, suc, ◌==◌, subst,
}
use mathlib.Core.List.{Memᴰ}
use mathlib.Core.List.Memᴰ
use native.Mathlib.Decide.{dec_lt}
use epsilon_os.Memory.Address.{address, null_address}
use epsilon_os.Memory.Pmm.{Region, framebuffer, find_physical_entry}
use epsilon_os.Memory.Pmm.Frames.{IsReady}
use epsilon_os.Device.Interrupts.{Handlers, page_fault, page_fault_vector, register_interrupt}
use epsilon_os.Memory.AddressSpace.{Space, virt2phys}
use epsilon_os.Memory.AddressSpace.Indices.{page_number}
use epsilon_os.Memory.AddressSpace.Kernel.{Image, Mapping, init_space, init_kernel}
use epsilon_os.Memory.AddressSpace.Kernel.Protection.{AllOf}
use epsilon_os.Memory.Pmm.Checked.{free_count}
use epsilon_os.Memory.AddressSpace.Kernel.Pages.{pages_after, IsMappable, AllMappable, needs}
use epsilon_os.Memory.AddressSpace.Kernel.Mapped.{
  kernel_mappings, ShowsRanges, init_space-ShowsRanges,
}
use epsilon_os.Memory.AddressSpace.Layout.Finding.{translation}
use epsilon_os.Memory.AddressSpace.Layout.Mapping.{virt2phys-Shows}
use epsilon_os.Memory.AddressSpace.Layout.Ranges.{
  with_range, with_range-inside, with_range-outside, page_count, IsPlaced,
}

-- The pages of an address are none of those of a range.
abbrev pub IsOutside : ℕ → Mapping → Type 0
IsOutside x m =
    (page_number x < page_number m.virt) ⊎ (page_number m.virt + page_count m.size ≤ page_number x)

mapped_keeps :
    (pages : ℕ → Option ℕ) (m : Mapping) (q f : ℕ)
    → IsMappable pages m
    → pages q ≡ some f
    → with_range pages (page_number m.virt) (m.phys / 4096) (page_count m.size) q ≡ some f
mapped_keeps pages m q f v there =
    let p : ℕ = page_number m.virt in
    let n : ℕ = m.phys / 4096 in
    let count : ℕ = page_count m.size in
    elim (dec_lt q p) [
      | yes h ↦ with_range-outside pages p n count q (inl h) ∙ there
      | no h ↦ elim (dec_lt q (p + count)) [
        | no g ↦ with_range-outside pages p n count q (inr (omega arith)) ∙ there
        | yes g ↦
            let at : p + (q - p) ≡ q = omega arith in
            let new : with_range pages p n count q ≡ some (n + (q - p)) =
              ap (with_range pages p n count) (sym at)
              ∙ with_range-inside pages p n count (q - p) (omega arith) in
            elim (v.agrees (q - p) (omega arith)) [
              | inl lost ↦
                  let gone : none ≡ some f = sym (ap pages (sym at) ∙ lost) ∙ there in absurd (cc)
              | inr same ↦ new ∙ sym (ap pages (sym at) ∙ same) ∙ there
            ]
      ]
    ]

pages_after-keeps :
    (ms : List Mapping) (pages : ℕ → Option ℕ) (q f : ℕ)
    → AllMappable pages ms
    → pages q ≡ some f
    → pages_after pages ms q ≡ some f
pages_after-keeps [] pages q f v there = there
pages_after-keeps (m ∷ ms) pages q f v there =
    pages_after-keeps ms _ q f (v.1) (mapped_keeps pages m q f (v.0) there)

-- A range of the list has its frames at the end.
pages_after-member :
    (ms : List Mapping) (pages : ℕ → Option ℕ) (m : Mapping) (j : ℕ)
    → AllMappable pages ms
    → Memᴰ m ms
    → j < page_count m.size
    → (pages_after pages ms (page_number m.virt + j) ≡ some (m.phys / 4096 + j))
      × IsPlaced m.virt (m.phys / 4096) m.size m.flags
      × (m.phys % 4096 ≡ 0)
pages_after-member [] pages m j v at h = absurd (Memᴰ.not-nil at)
pages_after-member (k ∷ ms) pages m j v at h = elim (Memᴰ.cases_cons at) [
  | inr rest ↦ pages_after-member ms _ m j (v.1) rest h
  | inl e ↦
      let now : Mapping → Type 0 = λ k.
        (pages_after pages (k ∷ ms) (page_number m.virt + j) ≡ some (m.phys / 4096 + j))
        × IsPlaced m.virt (m.phys / 4096) m.size m.flags
        × (m.phys % 4096 ≡ 0) in
      let v' : AllMappable pages (m ∷ ms) = subst (λ k. AllMappable pages (k ∷ ms)) (sym e) v in
      subst now e (
        pages_after-keeps ms _ (page_number m.virt + j) (m.phys / 4096 + j) (v'.1)
            (with_range-inside pages (page_number m.virt) (m.phys / 4096) (page_count m.size) j h),
        v'.0.placed,
        v'.0.aligned,
      )
]

pages_after-outside :
    (ms : List Mapping) (pages : ℕ → Option ℕ) (x : ℕ)
    → AllOf (IsOutside x) ms
    → pages_after pages ms (page_number x) ≡ pages (page_number x)
pages_after-outside [] pages x h = refl
pages_after-outside (m ∷ ms) pages x h =
    pages_after-outside ms _ x (h.1)
    ∙ with_range-outside pages (page_number m.virt) (m.phys / 4096) (page_count m.size)
        (page_number x) (h.0)

module _ (hhdm : ℕ) (low : 0 < hhdm) (high : hhdm + 2 ^ 47 ≤ 2 ^ 64) where
  ShowsRanges-inside :
      (ms : List Mapping) (s : Space) (m : Mapping) (x : ℕ)
      → ShowsRanges hhdm low high ms s
      → AllMappable (λ p. none) ms
      → Memᴰ m ms
      → m.virt % 4096 ≡ 0
      → m.virt ≤ x
      → x < m.virt + m.size
      → virt2phys hhdm x s ≡ ok (address (m.phys + (x - m.virt)), s)
  ShowsRanges-inside ms s m x (level, shows) v at whole from until =
      let j : ℕ = (x - m.virt) / 4096 in
      let (there, placed, aligned) = pages_after-member ms (λ p. none) m j v at (omega arith) in
      let page : page_number x ≡ page_number m.virt + j =
        omega (arith, placed.inside, placed.ends) in
      let sum : (m.phys / 4096 + j) * 4096 + x % 4096 ≡ m.phys + (x - m.virt) = omega arith in
      virt2phys-Shows hhdm low high level (pages_after (λ p. none) ms) s x shows
        (omega (arith, placed.ends))
      ∙ ap (λ (q : ℕ). ok (translation (pages_after (λ p. none) ms q) x, s)) page
      ∙ ap (λ (o : Option ℕ). ok (translation o x, s)) there
      ∙ ap (λ (a : ℕ). ok (address a, s)) sum

  ShowsRanges-outside :
      (ms : List Mapping) (s : Space) (x : ℕ)
      → ShowsRanges hhdm low high ms s
      → x < 2 ^ 64
      → AllOf (IsOutside x) ms
      → virt2phys hhdm x s ≡ ok (null_address, s)
  ShowsRanges-outside ms s x (level, shows) hx out =
      virt2phys-Shows hhdm low high level (pages_after (λ p. none) ms) s x shows hx
      ∙ ap (λ (o : Option ℕ). ok (translation o x, s)) (pages_after-outside ms (λ p. none) x out)

  init_space-returns :
      (i : Image) (k : ℕ) (r : Region) (s : Space)
      → IsReady s.vm.pmm
      → s.vm.pmm.bitmap.bitsize ≤ 2 ^ 35
      → find_physical_entry (λ r. r.kind == framebuffer) 0 s.vm.pmm.memmap ≡ some (k, r)
      → AllMappable (λ p. none) (kernel_mappings hhdm i r)
      → needs (kernel_mappings hhdm i r) < free_count s.vm.pmm
      → (t : Space) × (init_space hhdm i s ≡ ok t)
        × ShowsRanges hhdm low high (kernel_mappings hhdm i r) t
  init_space-returns i k r s ready physical found v enough =
      let ms : List Mapping = kernel_mappings hhdm i r in
      PanicsIf-ok (free_count s.vm.pmm < suc (needs ms)) (ShowsRanges hhdm low high ms)
        (init_space hhdm i s) (init_space-ShowsRanges hhdm low high i k r s ready physical found v)
        (λ few. omega arith)

  -- Where the higher half starts above 0 and has room for 2^47 bytes, from a ready manager of
  -- physical memory below 2^47 with an entry for the framebuffer, where the ranges that
  -- `init_kernel` maps (the lower 4 GiB, the six sections of the image and the framebuffer) have
  -- page-aligned frames below 2^52, do not cross the end of the 48-bit space and give no page two
  -- frames, and where more frames are free than their tables can need: `init_kernel` returns, and
  -- afterwards every address of a range that starts at a page is translated to the address at its
  -- offset in the range's memory.
  pub init_kernel-virt2phys :
      (i : Image) (handlers : Handlers) (k : ℕ) (r : Region) (s : Space) (m : Mapping) (x : ℕ)
      → IsReady s.vm.pmm
      → s.vm.pmm.bitmap.bitsize ≤ 2 ^ 35
      → find_physical_entry (λ r. r.kind == framebuffer) 0 s.vm.pmm.memmap ≡ some (k, r)
      → AllMappable (λ p. none) (kernel_mappings hhdm i r)
      → needs (kernel_mappings hhdm i r) < free_count s.vm.pmm
      → Memᴰ m (kernel_mappings hhdm i r)
      → m.virt % 4096 ≡ 0
      → m.virt ≤ x
      → x < m.virt + m.size
      → (t : Space × Handlers) × (init_kernel hhdm i handlers s ≡ ok t)
        × (virt2phys hhdm x (t.0) ≡ ok (address (m.phys + (x - m.virt)), t.0))
  unfolding init_kernel
  init_kernel-virt2phys i handlers k r s m x ready physical found v enough at whole from until =
      let (t, returns, shows) = init_space-returns i k r s ready physical found v enough in
      (
        (t, register_interrupt page_fault page_fault_vector handlers),
        rw returns refl,
        ShowsRanges-inside (kernel_mappings hhdm i r) t m x shows v at whole from until,
      )

  -- Under the same conditions, an address in none of the pages of the ranges is translated to the null
  -- address after `init_kernel`.
  pub init_kernel-virt2phys_null :
      (i : Image) (handlers : Handlers) (k : ℕ) (r : Region) (s : Space) (x : ℕ)
      → IsReady s.vm.pmm
      → s.vm.pmm.bitmap.bitsize ≤ 2 ^ 35
      → find_physical_entry (λ r. r.kind == framebuffer) 0 s.vm.pmm.memmap ≡ some (k, r)
      → AllMappable (λ p. none) (kernel_mappings hhdm i r)
      → needs (kernel_mappings hhdm i r) < free_count s.vm.pmm
      → x < 2 ^ 64
      → AllOf (IsOutside x) (kernel_mappings hhdm i r)
      → (t : Space × Handlers) × (init_kernel hhdm i handlers s ≡ ok t)
        × (virt2phys hhdm x (t.0) ≡ ok (null_address, t.0))
  unfolding init_kernel
  init_kernel-virt2phys_null i handlers k r s x ready physical found v enough hx out =
      let (t, returns, shows) = init_space-returns i k r s ready physical found v enough in
      (
        (t, register_interrupt page_fault page_fault_vector handlers),
        rw returns refl,
        ShowsRanges-outside (kernel_mappings hhdm i r) t x shows hx out,
      )
