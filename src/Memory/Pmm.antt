-- ===== src/Memory/Pmm.antt =====
-- kernel/src/mem/pmm.cpp and kernel/include/mem/pmm.hpp: the physical memory manager.
--
-- The memory map is the list of entries that the bootloader answers. The words that `memset` leaves
-- in the bitmap's storage are written out; the bitmap's storage itself is taken to be disjoint from
-- all that the kernel writes otherwise. Log lines are left out.
pub mod Frames
pub mod Checked
pub mod Clients
pub mod FreeFrames
pub mod Regions
pub mod Maps
pub mod Start
pub mod Storage
use epsilon_os.Base.{
  ℕ, zero, suc, ◌+◌, ◌-◌, ◌*◌, ◌/◌, Bool, true, false, ◌&&◌, Option, none, some, List, [], ◌∷◌,
  Result, ok, stop, panic, ◌>>=◌, ltb, leb, ◌==◌, if◌then◌else◌, replicate, set, add64, sub64,
  mul64, u64_max, round_up, round_down,
}
use epsilon_os.Bitmap
use epsilon_os.Bitmap.{Bitmap}
use epsilon_os.Memory.Address.{Address, address, null_address, is_page_aligned}

abbrev pub frame_size : ℕ
frame_size = 4096

-- `limine_memmap_entry`, and the two types of entries that the kernel looks for.
pub record Region : Type 0 where
  pub base : ℕ
  pub size : ℕ
  pub kind : ℕ

abbrev pub usable : ℕ
usable = 0

abbrev pub framebuffer : ℕ
framebuffer = 7

-- The manager with the memory map, whose bitmap entry `init` shrinks.
pub record Pmm : Type 0 where
  pub bitmap : Bitmap
  pub memmap : List Region

-- The end of the highest usable region, from the highest `mem_end` seen so far.
unfoldable pub highest_end : ℕ → List Region → ℕ
highest_end mem_end [] = mem_end
highest_end mem_end (r ∷ rs) =
    highest_end
      (if r.kind == usable && ltb mem_end (add64 r.base r.size)
        then add64 r.base r.size
        else mem_end)
      rs

-- `find_physical_entry`: the index of the first entry that passes the test, with that entry.
unfoldable pub find_physical_entry : (Region → Bool) → ℕ → List Region → Option (ℕ × Region)
find_physical_entry test i [] = none
find_physical_entry test i (r ∷ rs) =
    let rest = find_physical_entry test (i + 1) rs in if test r then some (i, r) else rest

-- The loop of `free_region`: `left` frames are to be freed, from `frame` on.
unfoldable pub free_frames : ℕ → ℕ → Bitmap → Result Bitmap
free_frames zero frame b = ok b
free_frames (suc left) frame b = Bitmap.clear b frame true >>= λ b'. free_frames left (frame + 1) b'

-- The frames of a region: their number and the first.
unfoldable pub frame_count : Region → ℕ
frame_count r = round_down r.size frame_size / frame_size

unfoldable pub start_frame : Region → ℕ
start_frame r = round_up r.base frame_size / frame_size

unfoldable pub free_region : Region → Bitmap → Result Bitmap
unfolding free_frames frame_count start_frame
free_region r b = free_frames (frame_count r) (start_frame r) b

unfoldable pub free_usable : List Region → Bitmap → Result Bitmap
unfolding free_region
free_usable [] b = ok b
free_usable (r ∷ rs) b = (if r.kind == usable then free_region r b else ok b) >>= free_usable rs

-- The bytes that the bitmap takes for memory that ends at `mem_end`.
unfoldable pub bitmap_bytes : ℕ → ℕ
bitmap_bytes mem_end = round_up (round_down mem_end frame_size / frame_size) 64 / 8

-- The entry that gives the bitmap its storage, after it was shrunk.
unfoldable pub carve : ℕ → Region → Region
carve bsize r = record r { base = add64 r.base bsize; size = sub64 r.size bsize }

-- The bitmap over its storage, once `memset` has filled that with 0xFF.
unfoldable pub all_used : ℕ → Bitmap
all_used bsize = Bitmap.init (replicate (bsize / 8) u64_max) u64_max bsize

-- The rest of `init`, from the search for the bitmap's storage on.
unfoldable pub start_with : List Region → ℕ → Option (ℕ × Region) → Result Pmm
start_with memmap bsize none = stop panic
start_with memmap bsize (some (i, r)) =
    let memmap' = set memmap i (carve bsize r) in
    free_usable memmap' (all_used bsize) >>= λ b. ok (record { bitmap = b; memmap = memmap' })

unfoldable pub init : List Region → Result Pmm
unfolding start_with
init memmap =
    let bsize = bitmap_bytes (highest_end 0 memmap) in
    start_with memmap bsize
      (find_physical_entry (λ r. r.kind == usable && leb bsize r.size) 0 memmap)

-- `allocate_frame`: `find_set`'s -1 gives the null address.
unfoldable pub allocate_frame : Pmm → Result (Address × Pmm)
allocate_frame p = Bitmap.find_set p.bitmap >>= λ r. elim (r.0) [
  | none ↦ ok (null_address, record p { bitmap = r.1 })
  | some num ↦ ok (address (mul64 num frame_size), record p { bitmap = r.1 })
]

unfoldable pub release_frame : Pmm → Address → Result Pmm
release_frame p a =
    if is_page_aligned a
    then (Bitmap.clear p.bitmap (a.addr / frame_size) true >>= λ b. ok (record p { bitmap = b }))
    else stop panic
