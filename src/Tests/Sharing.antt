-- ===== src/Tests/Sharing.antt =====
-- The frame manager of kernel/src/mem/pmm.cpp with a bitmap of one word, shared by its users.
use epsilon_os.Base.{
  ℕ, zero, suc, ◌*◌, ◌^◌, ◌<◌, ◌≡◌, refl, arith, true, ◌∷◌, [], ok, get_or, u64_max,
}
use epsilon_os.Base.Bits.{bit}
use epsilon_os.Bitmap.{Bitmap, find_set}
use epsilon_os.Memory.Address.{address}
use epsilon_os.Memory.Pmm.{Pmm, allocate_frame, release_frame}
use epsilon_os.Memory.Pmm.Frames.{IsReady, in_use}
use epsilon_os.Memory.Pmm.Clients.{Shared, Step, take, here, next, adjust, Reach-held_once}
use epsilon_os.Memory.Pmm.FreeFrames.{
  Refines, free_set, with_frame, allocate_frame-Refines, release_frame-Refines,
}

-- The frames 0 and 2 are in use.
abbrev one_word : Bitmap
one_word = record { cells = 5 ∷ []; max_value = u64_max; bsize = 8; bitsize = 64; entries = 1 }

one_word-small : (i : ℕ) → get_or one_word.cells i 0 < 2 ^ 64
one_word-small zero = omega arith
one_word-small (suc i) = omega arith

abbrev pmm : Pmm
pmm = record { bitmap = one_word; memmap = [] }

pmm-IsReady : IsReady pmm
pmm-IsReady = record {
  bitmap = record { whole = refl; sized = refl; full = refl; words = one_word-small };
  fits = omega arith;
}

allocate_frame-Refines_example : Refines pmm (allocate_frame pmm)
allocate_frame-Refines_example = allocate_frame-Refines pmm pmm-IsReady

release_frame-Refines_example :
    (p : Pmm) × (release_frame pmm (address (2 * 4096)) ≡ ok p)
    × IsReady p
    × (free_set p ≡ with_frame (free_set pmm) 2 true)
unfolding bit
release_frame-Refines_example = release_frame-Refines pmm 2 pmm-IsReady (omega arith) refl

abbrev pmm_taken : Pmm
pmm_taken = record pmm { bitmap = record one_word { cells = 7 ∷ [] } }

-- A user has taken frame 1.
abbrev one_held : Shared
one_held = record { pmm = pmm_taken; held = adjust (λ m. 0) 1 1 }

takes_frame : Step (record { pmm = pmm; held = λ m. 0 }) one_held
unfolding allocate_frame find_set
takes_frame = take 1 refl

Reach-held_once_example :
    (one_held.held 1 ≡ 1)
    × (in_use pmm_taken 1 ≡ 1)
    × ((q : Pmm) × (release_frame pmm_taken (address (1 * 4096)) ≡ ok q))
Reach-held_once_example =
    Reach-held_once pmm {t = one_held} 1 pmm-IsReady (next here takes_frame) (omega arith)
