-- ===== src/Memory/Pmm/FreeFrames.antt =====
-- The frame manager of kernel/src/mem/pmm.cpp as its users see it: a set of free frames.
use epsilon_os.Base.{
  ℕ, ◌*◌, ◌<◌, ◌≡◌, ◌⊎◌, inl, inr, sym, ap, arith, subst, Bool, true, false, ◌&&◌, Result, ok, stop,
  ◌==◌, ltb, if◌then◌else◌,
}
use mathlib.Core.Path.{fun_ext}
use native.Mathlib.Decide.{ℕ_discrete, dec_lt}
use epsilon_os.Bitmap.Search.{AllUsed}
use epsilon_os.Memory.Address.{Address, address, null_address}
use epsilon_os.Memory.Pmm.{Pmm, allocate_frame, release_frame}
use epsilon_os.Memory.Pmm.Frames.{
  IsReady, IsMarked, Allocates, in_use, in_use-le, allocate_frame-Allocates, release_frame-IsMarked,
}

-- The abstract view: the set of the free frames.
abbrev pub FreeSet : Type 0
FreeSet = ℕ → Bool

abbrev pub free_set : Pmm → FreeSet
free_set p n = ltb n p.bitmap.bitsize && (in_use p n == 0)

abbrev pub with_frame : FreeSet → ℕ → Bool → FreeSet
with_frame f n v m = if m == n then v else f m

-- What a set of free frames allows an allocation to do: it gives some free frame, which leaves the
-- set, or, where the set is empty, the null address.
abbrev pub Takes : FreeSet → Address → FreeSet → Type 0
Takes f a f' =
    ((a ≡ null_address) × (f ≡ λ m. false) × (f' ≡ f))
    ⊎ ((n : ℕ) × (a ≡ address (n * 4096)) × (f n ≡ true) × (f' ≡ with_frame f n false))

-- The outcome of an allocation is one that the free frames allow.
abbrev pub Refines : Pmm → Result (Address × Pmm) → Type 0
Refines p (ok (a, p')) = Takes (free_set p) a (free_set p') × IsReady p'
Refines p (stop _) = ⊥

free_set-IsMarked :
    (p p' : Pmm) (n v : ℕ)
    → n < p.bitmap.bitsize
    → IsMarked p n v p'
    → free_set p' ≡ with_frame (free_set p) n (v == 0)
free_set-IsMarked p p' n v below m = fun_ext λ k. elim (ℕ_discrete k n) [
  | yes e ↦ ground (arith, ap (in_use p') e, m.frame, m.same_bits)
  | no ne ↦ ground (arith, m.others k ne, m.same_bits)
]

none_free : (p : Pmm) → AllUsed p.bitmap 0 p.bitmap.bitsize → free_set p ≡ λ m. false
none_free p all = fun_ext λ k. elim (dec_lt k p.bitmap.bitsize) [
  | yes h ↦ ground (arith, all k (omega arith) h)
  | no h ↦ ground arith
]

Allocates-Refines : (p : Pmm) (r : Result (Address × Pmm)) → IsReady p → Allocates p r → Refines p r
Allocates-Refines p (ok (a, p')) v (inl (null, same, all)) =
    (inl (null, none_free p all, ap free_set same), subst IsReady (sym same) v)
Allocates-Refines p (ok (a, p')) v (inr (n, below, at, free, _, m)) =
    (inr (n, at, ground arith, free_set-IsMarked p p' n 1 below m), m.ready)
Allocates-Refines p (stop s) v h = h

-- `allocate_frame` refines an allocation from a set: it returns, and it takes some free frame out of
-- the set of free frames, or the null address where that set is empty, and nothing else of the set
-- changes.
pub allocate_frame-Refines : (p : Pmm) → IsReady p → Refines p (allocate_frame p)
allocate_frame-Refines p v = Allocates-Refines p (allocate_frame p) v (allocate_frame-Allocates p v)

-- `release_frame` refines putting a frame into the set: for the address of a frame of memory that is
-- not free, it returns, and the set of free frames gets that frame and no other.
pub release_frame-Refines :
    (p : Pmm) (n : ℕ)
    → IsReady p
    → n < p.bitmap.bitsize
    → free_set p n ≡ false
    → (p' : Pmm) × (release_frame p (address (n * 4096)) ≡ ok p')
      × IsReady p'
      × (free_set p' ≡ with_frame (free_set p) n true)
release_frame-Refines p n v below taken =
    let used : in_use p n ≡ 1 = ground (arith, in_use-le p n) in
    let (p', returns, m) = release_frame-IsMarked p n v below used in
    (p', returns, m.ready, free_set-IsMarked p p' n 0 below m)
