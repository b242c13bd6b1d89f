-- ===== src/Boot/Mapped.antt =====
-- What the start of kernel/src/main.cpp leaves mapped.
use epsilon_os.Base.{
  ℕ, zero, suc, ◌+◌, ◌-◌, ◌/◌, ◌%◌, ◌^◌, ◌<◌, ◌≤◌, ◌≡◌, ◌∙◌, ap, arith, true, none, some, List, ok,
  if◌then◌else◌,
}
use mathlib.Core.List.{Memᴰ}
use native.Mathlib.Decide.{dec_lt}
use epsilon_os.Memory.Address.{address}
use epsilon_os.Memory.Pmm.{Pmm, Region, highest_end}
use epsilon_os.Memory.Pmm.Frames.{in_use}
use epsilon_os.Memory.Pmm.Checked.{free_below, free_count}
use epsilon_os.Memory.Pmm.Maps.{IsMap, has_frame}
use epsilon_os.Memory.Pmm.Start.{storage_entry, init-IsStarted}
use epsilon_os.Memory.PageTable.{Store}
use epsilon_os.Device.Interrupts.{Handlers, no_handlers}
use epsilon_os.Memory.AddressSpace.{Space, virt2phys}
use epsilon_os.Memory.AddressSpace.Kernel.{Image, Mapping}
use epsilon_os.Memory.AddressSpace.Kernel.Pages.{AllMappable, needs}
use epsilon_os.Memory.AddressSpace.Kernel.Mapped.{kernel_mappings}
use epsilon_os.Memory.AddressSpace.Kernel.Translations.{init_kernel-virt2phys}
use epsilon_os.Boot.{blank_space, init_memory}
use epsilon_os.Boot.Start.{framebuffer_entry, left_map, left_map-framebuffer}

free_below-range :
    (p : Pmm) (lo c k : ℕ)
    → lo + c ≤ k
    → ((f : ℕ) → lo ≤ f → f < lo + c → in_use p f ≡ 0)
    → c ≤ free_below p k
free_below-range p lo c zero fits free = omega arith
free_below-range p lo zero (suc k) fits free = omega arith
free_below-range p lo (suc c) (suc k) fits free = elim (dec_lt (lo + suc c) (suc k)) [
  | yes h ↦
      let rest : suc c ≤ free_below p k = free_below-range p lo (suc c) k (omega arith) free in
      omega (arith, rest)
  | no h ↦
      let rest : c ≤ free_below p k =
        free_below-range p lo c k (omega arith) (λ f from until. free f from (omega arith)) in
      omega (arith, rest, free k (omega arith) (omega arith))
]

-- Booted with a memory map that keeps what the boot protocol promises, all below 2^47, with room for
-- the bitmap and an entry for the framebuffer, where the higher half starts above 0 and has room for
-- 2^47 bytes, the ranges that `init_kernel` maps have page-aligned frames below 2^52, do not cross the
-- end of the 48-bit space and give no page two frames, and `count` frames in a row, more than their
-- tables can need, lie in usable entries beside the bitmap: the kernel sets up its memory, and
-- afterwards every address of a range that starts at a page is translated to the address at its
-- offset in the range's memory.
pub init_memory-virt2phys :
    (hhdm : ℕ) (i : Image) (rs : List Region) (store : Store) (n : ℕ) (fb : Region) (k : ℕ)
    (r : Region) (lo count : ℕ) (m : Mapping) (x : ℕ)
    → 0 < hhdm
    → hhdm + 2 ^ 47 ≤ 2 ^ 64
    → IsMap rs
    → highest_end 0 rs ≤ 2 ^ 47
    → storage_entry rs ≡ some (k, r)
    → framebuffer_entry rs ≡ some (n, fb)
    → AllMappable (λ p. none) (kernel_mappings hhdm i fb)
    → ((f : ℕ) → lo ≤ f → f < lo + count → has_frame (left_map rs k r) f ≡ true)
    → lo + count ≤ highest_end 0 rs / 4096
    → needs (kernel_mappings hhdm i fb) < count
    → Memᴰ m (kernel_mappings hhdm i fb)
    → m.virt % 4096 ≡ 0
    → m.virt ≤ x
    → x < m.virt + m.size
    → (t : Space × Handlers) × (init_memory hhdm i rs store ≡ ok t)
      × (virt2phys hhdm x (t.0) ≡ ok (address (m.phys + (x - m.virt)), t.0))
unfolding init_memory
init_memory-virt2phys hhdm i rs store n fb k r lo count m x low high map below room has v usable
      fits enough at whole from until =
    let (p, returns, started) = init-IsStarted rs k r map room in
    let free : (f : ℕ) → lo ≤ f → f < lo + count → in_use p f ≡ 0 = λ f lf fl.
      started.frames f (omega (arith, started.bits))
      ∙ ap (λ b. if b then 0 else 1)
          (ap (λ (l : List Region). has_frame l f) started.memmap ∙ usable f lf fl) in
    let many : count ≤ free_count p =
      free_below-range p lo count p.bitmap.bitsize (omega (arith, started.bits)) free in
    let (t, runs, translates) =
      init_kernel-virt2phys hhdm low high i no_handlers n fb (blank_space store p) m x started.ready
        (omega (arith, started.bits, below))
        (ap framebuffer_entry started.memmap ∙ left_map-framebuffer rs k r map room ∙ has) v
        (omega arith) at whole from until in
    (t, rw returns runs, translates)
