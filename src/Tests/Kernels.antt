-- ===== src/Tests/Kernels.antt =====
-- `init_kernel` of kernel/src/mem/address_space.cpp on 6400 frames, with an image of six sections and a
-- framebuffer.
use epsilon_os.Base.{
  ℕ, zero, suc, ◌+◌, ◌-◌, ◌/◌, ◌%◌, ◌<◌, ◌≡◌, ◌∙◌, inl, inr, refl, sym, subst, ap, arith, none,
  some, [], ◌∷◌, ok, ◌==◌, get_or, replicate, length-replicate, u64_max,
}
use mathlib.Core.List.{Memᴰ}
use mathlib.Core.List.Memᴰ
use mathlib.Core.List.Memᴰ.{head}
use epsilon_os.Base.Bits.{bit, zero-bit}
use epsilon_os.Bitmap.{Bitmap}
use epsilon_os.Memory.Address.{address, null_address}
use epsilon_os.Memory.Pmm.{Region, framebuffer, find_physical_entry}
use epsilon_os.Memory.Pmm.Frames.{IsReady, in_use}
use epsilon_os.Memory.Pmm.Checked.{free_below, free_count}
use epsilon_os.Device.Interrupts.{Handlers, no_handlers}
use epsilon_os.Memory.AddressSpace.{Space, virt2phys}
use epsilon_os.Memory.AddressSpace.Kernel.{
  Section, Image, lower_mapping, image_mappings, section_mapping, framebuffer_mapping, init_kernel,
}
use epsilon_os.Memory.AddressSpace.Kernel.Pages.{AllMappable, needs}
use epsilon_os.Memory.AddressSpace.Kernel.Mapped.{kernel_mappings}
use epsilon_os.Memory.AddressSpace.Kernel.Translations.{
  init_kernel-virt2phys, init_kernel-virt2phys_null,
}
use epsilon_os.Boot.{blank_space}

abbrev pub half : ℕ
half = 0xFFFF800000000000

abbrev pub screen : Region
screen = record { base = 0xE0000000; size = 0x300000; kind = framebuffer }

abbrev section : ℕ → Section
section n = record { first = n; past = n + 0x2000 }

abbrev pub image : Image
image = record {
  physical_base = 0x200000;
  virtual_base = 0xFFFFFFFF80000000;
  requests = section 0xFFFFFFFF80000000;
  text = section 0xFFFFFFFF80002000;
  rodata = section 0xFFFFFFFF80004000;
  ctor = section 0xFFFFFFFF80006000;
  ksyms = section 0xFFFFFFFF80008000;
  data_area = section 0xFFFFFFFF8000A000;
  framebuffer_address = 0xFFFF8000E0000000;
}

abbrev frames : Bitmap
frames = record {
  cells = replicate 100 0;
  max_value = u64_max;
  bsize = 800;
  bitsize = 6400;
  entries = 100;
}

get_or-replicate : (n i : ℕ) → get_or (replicate n zero) i zero ≡ zero
get_or-replicate zero i = refl
get_or-replicate (suc n) zero = refl
get_or-replicate (suc n) (suc i) = get_or-replicate n i

abbrev start : Space
start = blank_space (λ a. 0) (record { bitmap = frames; memmap = screen ∷ [] })

start-IsReady : IsReady start.vm.pmm
start-IsReady = record {
  bitmap = record {
    whole = length-replicate 100 zero;
    sized = refl;
    full = refl;
    words = λ i. omega (arith, get_or-replicate 100 i);
  };
  fits = omega arith;
}

all_free : (n : ℕ) → in_use start.vm.pmm n ≡ 0
all_free n = ap (λ (x : ℕ). bit x (n % 64)) (get_or-replicate 100 (n / 64)) ∙ zero-bit (n % 64)

free_below-all : (k : ℕ) → free_below start.vm.pmm k ≡ k
free_below-all zero = refl
free_below-all (suc k) = omega (arith, free_below-all k, all_free k)

screen_found :
    find_physical_entry (λ r. r.kind == framebuffer) 0 start.vm.pmm.memmap ≡ some (0, screen)
unfolding find_physical_entry
screen_found = refl

needed : needs (kernel_mappings half image screen) < 6400
unfolding lower_mapping image_mappings framebuffer_mapping section_mapping
needed = omega arith

enough : needs (kernel_mappings half image screen) < free_count start.vm.pmm
enough =
    subst (λ (c : ℕ). needs (kernel_mappings half image screen) < c) (sym (free_below-all 6400))
      needed

pub mappable : AllMappable (λ p. none) (kernel_mappings half image screen)
unfolding lower_mapping image_mappings framebuffer_mapping section_mapping
mappable = (
  record {
    placed = record {
      ends = omega arith;
      inside = omega arith;
      frames = omega arith;
      wide = omega arith;
    };
    aligned = omega arith;
    agrees = λ j h. inl refl;
  },
  (
    record {
      placed = record {
        ends = omega arith;
        inside = omega arith;
        frames = omega arith;
        wide = omega arith;
      };
      aligned = omega arith;
      agrees = λ j h. inl (ground arith);
    },
    (
      record {
        placed = record {
          ends = omega arith;
          inside = omega arith;
          frames = omega arith;
          wide = omega arith;
        };
        aligned = omega arith;
        agrees = λ j h. inl (ground arith);
      },
      (
        record {
          placed = record {
            ends = omega arith;
            inside = omega arith;
            frames = omega arith;
            wide = omega arith;
          };
          aligned = omega arith;
          agrees = λ j h. inl (ground arith);
        },
        (
          record {
            placed = record {
              ends = omega arith;
              inside = omega arith;
              frames = omega arith;
              wide = omega arith;
            };
            aligned = omega arith;
            agrees = λ j h. inl (ground arith);
          },
          (
            record {
              placed = record {
                ends = omega arith;
                inside = omega arith;
                frames = omega arith;
                wide = omega arith;
              };
              aligned = omega arith;
              agrees = λ j h. inl (ground arith);
            },
            (
              record {
                placed = record {
                  ends = omega arith;
                  inside = omega arith;
                  frames = omega arith;
                  wide = omega arith;
                };
                aligned = omega arith;
                agrees = λ j h. inl (ground arith);
              },
              (
                record {
                  placed = record {
                    ends = omega arith;
                    inside = omega arith;
                    frames = omega arith;
                    wide = omega arith;
                  };
                  aligned = omega arith;
                  agrees = λ j h. inr (ground arith);
                },
                tt,
              ),
            ),
          ),
        ),
      ),
    ),
  ),
)

-- The framebuffer at its address in the image.
pub screen_listed : Memᴰ (framebuffer_mapping image screen) (kernel_mappings half image screen)
unfolding image_mappings
screen_listed = Memᴰ.append_right (lower_mapping half ∷ image_mappings image) (head refl)

init_kernel-virt2phys_example :
    (t : Space × Handlers) × (init_kernel half image no_handlers start ≡ ok t)
    × (virt2phys half 0xFFFF8000E0001234 (t.0)
        ≡ ok (
          address (
              (framebuffer_mapping image screen).phys
              + (0xFFFF8000E0001234 - (framebuffer_mapping image screen).virt)),
          t.0,
        ))
unfolding framebuffer_mapping
init_kernel-virt2phys_example =
    init_kernel-virt2phys half (omega arith) (omega arith) image no_handlers 0 screen start
      (framebuffer_mapping image screen) 0xFFFF8000E0001234 start-IsReady (omega arith) screen_found
      mappable enough screen_listed (omega arith) (omega arith) (omega arith)

init_kernel-virt2phys_null_example :
    (t : Space × Handlers) × (init_kernel half image no_handlers start ≡ ok t)
    × (virt2phys half 0x1234 (t.0) ≡ ok (null_address, t.0))
unfolding lower_mapping image_mappings framebuffer_mapping section_mapping
init_kernel-virt2phys_null_example =
    init_kernel-virt2phys_null half (omega arith) (omega arith) image no_handlers 0 screen start
      0x1234 start-IsReady (omega arith) screen_found mappable enough (omega arith)
      (
        inl (omega arith),
        (
          inl (omega arith),
          (
            inl (omega arith),
            (
              inl (omega arith),
              (
                inl (omega arith),
                (inl (omega arith), (inl (omega arith), (inl (omega arith), tt))),
              ),
            ),
          ),
        ),
      )
