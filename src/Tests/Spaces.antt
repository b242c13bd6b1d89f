-- ===== src/Tests/Spaces.antt =====
-- kernel/src/mem/address_space.cpp on a space with an empty first table, and on one that maps a page.
use epsilon_os.Base.{
  PanicsIf, subst, ◌+◌, Result, stop, ◌∙◌, PanicsIf-ok, ℕ, zero, suc, ◌*◌, ◌^◌, ◌<◌, ◌≡◌, inl, refl,
  sym, ap, arith, Option, none, some, [], ◌∷◌, ok, get_or, u64_max, ◌==◌, if◌then◌else◌,
}
use epsilon_os.Base.Bits.{bit}
use epsilon_os.Bitmap.{
  Bitmap, find_set, cell_bit, cell_clear, cell_set, find_from, first_unused, get_bit, get_offset,
  put_cell, set_bit,
}
use epsilon_os.Memory.PageTable.{
  get_next_table, is_present, create_table, reset, entry_of, get_frame,
}
use epsilon_os.Memory.Address.{is_page_aligned, differs}
use epsilon_os.Memory.Pmm.{Pmm, allocate_frame, release_frame}
use epsilon_os.Memory.AddressSpace.{
  virt2pte, pml4_index, pdp_index, pd_index, pt_index, pte2frame, fix_flags, map_range_from,
}
use epsilon_os.Memory.Pmm.Checked.{free_count}
use epsilon_os.Memory.AddressSpace.Layout.Replacing.{Replaces, map_page-Replaces}
use epsilon_os.Memory.AddressSpace.Layout.Allocating.{allocate-releases_other}
use epsilon_os.Memory.AddressSpace.Layout.Unmapping.{unmap_page-some}
use epsilon_os.Memory.Address.{address, tohh}
use epsilon_os.Memory.Pmm.Frames.{IsMarked, in_use}
use epsilon_os.Memory.AddressSpace.{Space, allocate, map_page, map_range, unmap_page, virt2phys}
use epsilon_os.Memory.AddressSpace.Indices.{page_number}
use epsilon_os.Memory.AddressSpace.Tree.Leaves.{with_page}
use epsilon_os.Memory.AddressSpace.Layout.{table_at}
use epsilon_os.Memory.AddressSpace.Layout.Writes.{entry_frame-zero}
use epsilon_os.Memory.AddressSpace.Layout.Finding.{translation}
use epsilon_os.Memory.AddressSpace.Layout.Mapping.{
  Shows, Follows, Runs, map_page-Follows, virt2phys-Shows,
}
use epsilon_os.Memory.AddressSpace.Layout.Flagging.{IsFlagged, map_page-IsFlagged}
use epsilon_os.Memory.AddressSpace.Layout.Ranges.{
  table_need, page_count, with_range, map_range-Follows,
}

abbrev half : ℕ
half = 0xFFFF800000000000

-- Of the frames 0 to 63, the frames 0, 1, 6 and 7 are in use.
abbrev frames : Bitmap
frames = record { cells = 195 ∷ []; max_value = u64_max; bsize = 8; bitsize = 64; entries = 1 }

frames-small : (i : ℕ) → get_or frames.cells i 0 < 2 ^ 64
frames-small zero = omega arith
frames-small (suc i) = omega arith

abbrev empty : Space
empty = record {
  vm = record { store = λ a. 0; pmm = record { bitmap = frames; memmap = [] } };
  phys_pml4 = address 4096;
  pml4 = table_at half 1;
  flushed = [];
  cr3 = 4096;
}

abbrev level : ℕ → ℕ
level f = if f == 1 then 4 else 0

abbrev nothing : ℕ → Option ℕ
nothing p = none

only_root : (f : ℕ) → 0 < level f → f ≡ 1
only_root f deep = ground arith

taken_root : in_use empty.vm.pmm 1 ≡ 1
unfolding bit
taken_root = refl

empty-Shows : Shows half level nothing empty
empty-Shows = record {
  root = 1;
  laid = record {
    ready = record {
      bitmap = record { whole = refl; sized = refl; full = refl; words = frames-small };
      fits = omega arith;
    };
    physical = omega arith;
    tree = record {
      top = refl;
      leads = λ f i g deep hi there. let gone : none ≡ some g = sym entry_frame-zero ∙ there in cc;
      single = λ f i h j g deep deep' hi hj there also.
          let gone : none ≡ some g = sym entry_frame-zero ∙ there in cc;
    };
    inside = λ f deep. omega (arith, only_root f deep);
    taken = λ f deep. ap (in_use empty.vm.pmm) (only_root f deep) ∙ taken_root;
  };
  at = refl;
  shown = λ q hq. rw entry_frame-zero refl;
}

virt2phys-Shows_example :
    virt2phys half 0x5123 empty ≡ ok (translation (nothing (page_number 0x5123)) 0x5123, empty)
virt2phys-Shows_example =
    virt2phys-Shows half (omega arith) (omega arith) level nothing empty 0x5123 empty-Shows
      (omega arith)

map_page-Follows_example :
    Runs half level 3 empty
      (with_page nothing (page_number 0x5000) (some 7))
      (map_page half 0x5000 (address (7 * 4096)) 2 empty)
map_page-Follows_example =
    map_page-Follows half (omega arith) (omega arith) level nothing empty 3 0x5000 7 2 empty-Shows
      (omega arith) (omega arith) (omega arith) (inl refl) (inl (omega arith))

map_page-IsFlagged_example :
    PanicsIf
      (free_count empty.vm.pmm < 3)
      (IsFlagged half 0x5000 7 (2 ^ 63 + 2))
      (map_page half 0x5000 (address (7 * 4096)) (2 ^ 63 + 2) empty)
map_page-IsFlagged_example =
    map_page-IsFlagged half (omega arith) (omega arith) level nothing empty 3 0x5000 7 (2 ^ 63 + 2)
      empty-Shows (omega arith) (omega arith) (omega arith) (inl refl) (inl (omega arith))

map_range-Follows_example :
    Runs half level
      (table_need 0x1FE000 0x3001)
      empty
      (with_range nothing (page_number 0x1FE000) 7 (page_count 0x3001))
      (map_range half 0x1FE000 (7 * 4096) 0x3001 2 empty)
map_range-Follows_example =
    map_range-Follows half (omega arith) (omega arith) 0x1FE000 7 0x3001 2
      (record {
        ends = omega arith;
        inside = omega arith;
        frames = omega arith;
        wide = omega arith;
      })
      nothing (λ j h. inl refl) level empty empty-Shows

free_frames : free_count empty.vm.pmm ≡ 60
unfolding bit
free_frames = refl

-- Page 5 of the space in frame 7.
mapped :
    (s : Space) × (map_page half 0x5000 (address (7 * 4096)) 2 empty ≡ ok s)
    × Follows half level 3 empty (with_page nothing 5 (some 7)) s
mapped =
    PanicsIf-ok (free_count empty.vm.pmm < 3)
      (Follows half level 3 empty (with_page nothing 5 (some 7)))
      (map_page half 0x5000 (address (7 * 4096)) 2 empty)
      (map_page-Follows half (omega arith) (omega arith) level nothing empty 3 0x5000 7 2
        empty-Shows (omega arith) (omega arith) (omega arith) (inl refl) (inl (omega arith)))
      (λ few. omega (arith, free_frames))

used_frame : in_use empty.vm.pmm 7 ≡ 1
unfolding bit
used_frame = refl

unmap_page-some_example :
    (s : Space) × (unmap_page half 0x5000 (mapped.0) ≡ ok s)
    × Shows half
        (mapped.2.level')
        (with_page (with_page nothing 5 (some 7)) (page_number 0x5000) none)
        s
    × IsMarked (mapped.0.vm.pmm) 7 0 s.vm.pmm
unmap_page-some_example =
    unmap_page-some half (omega arith) (omega arith) (mapped.2.level')
      (with_page nothing 5 (some 7)) (mapped.0) 0x5000 (mapped.2.shows) (omega arith) 7 refl
      (
        (mapped.2.uses 7 used_frame).1,
        omega (arith, mapped.2.same_bits),
        (mapped.2.uses 7 used_frame).0,
      )

map_page-Replaces_example :
    (s : Space) × (map_page half 0x5000 (address (9 * 4096)) 2 (mapped.0) ≡ ok s)
    × Replaces half
        (mapped.2.level')
        7
        (mapped.0)
        (with_page (with_page nothing 5 (some 7)) (page_number 0x5000) (some 9))
        s
map_page-Replaces_example =
    map_page-Replaces half (omega arith) (omega arith) (mapped.2.level')
      (with_page nothing 5 (some 7)) (mapped.0) 0x5000 7 9 2 (mapped.2.shows) (omega arith)
      (omega arith) (omega arith) refl (omega arith)
      (
        (mapped.2.uses 7 used_frame).1,
        omega (arith, mapped.2.same_bits),
        (mapped.2.uses 7 used_frame).0,
      )

-- The space once frames 5 and 6 are mapped linearly, where 2 to 4 hold tables.
abbrev result_or : Space → Result Space → Space
result_or s (stop _) = s
result_or s (ok t) = t

abbrev linear : Space
linear = result_or empty (map_range half (half + 0x5000) 0x5000 0x2000 2 empty)

linear_run : map_range half (half + 0x5000) 0x5000 0x2000 2 empty ≡ ok linear
unfolding map_range map_page virt2pte get_next_table is_present create_table allocate_frame find_set
    is_page_aligned pml4_index pdp_index pd_index pt_index reset pte2frame entry_of fix_flags
    get_frame cell_bit cell_clear cell_set find_from first_unused get_bit get_offset put_cell
    set_bit differs map_range_from release_frame
linear_run = refl

abbrev two_pages : ℕ → Option ℕ
two_pages = with_range nothing (page_number (half + 0x5000)) 5 2

linear-Follows : Follows half level (table_need (half + 0x5000) 0x2000) empty two_pages linear
linear-Follows =
    subst (Runs half level (table_need (half + 0x5000) 0x2000) empty two_pages) linear_run (
      map_range-Follows half (omega arith) (omega arith) (half + 0x5000) 5 0x2000 2
        (record {
          ends = omega arith;
          inside = omega arith;
          frames = omega arith;
          wide = omega arith;
        })
        nothing (λ j h. inl refl) level empty empty-Shows)

abbrev next_pmm : Pmm
next_pmm = record { bitmap = record frames { cells = 255 ∷ [] }; memmap = [] }

frame_five : allocate_frame linear.vm.pmm ≡ ok (address (5 * 4096), next_pmm)
unfolding map_range map_page virt2pte get_next_table is_present create_table allocate_frame find_set
    is_page_aligned pml4_index pdp_index pd_index pt_index reset pte2frame entry_of fix_flags
    get_frame cell_bit cell_clear cell_set find_from first_unused get_bit get_offset put_cell
    set_bit differs map_range_from release_frame
frame_five = refl

frame_six : in_use empty.vm.pmm 6 ≡ 1
unfolding bit
frame_six = refl

allocate-releases_other_example :
    (s : Space) × (allocate half 2 2 linear ≡ ok (address (tohh half (5 * 4096)), s))
    × (in_use s.vm.pmm 6 ≡ 0)
allocate-releases_other_example =
    allocate-releases_other half (omega arith) (omega arith) (linear-Follows.level') two_pages
      linear 5 2 next_pmm (linear-Follows.shows) (omega arith) frame_five refl refl
      (
        (linear-Follows.uses 6 frame_six).1,
        omega (arith, linear-Follows.same_bits),
        (linear-Follows.uses 6 frame_six).0,
      )
      (omega (arith, linear-Follows.spends, free_frames))
