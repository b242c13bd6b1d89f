-- ===== src/Memory/Pmm/Storage.antt =====
-- The storage of the frame bitmap, which `init` of kernel/src/mem/pmm.cpp takes out of the memory
-- map, is never handed out.
use epsilon_os.Base.{
  ℕ, zero, suc, ◌+◌, ◌*◌, ◌<◌, ◌≡◌, ◌∙◌, arith, false, List, [], ◌∷◌, ok, some, get_elem?, set,
  subst, ◌≤◌,
}
use epsilon_os.Memory.Pmm
use epsilon_os.Memory.Pmm.{Pmm, Region, usable, carve}
use epsilon_os.Memory.Pmm.Frames.{in_use}
use epsilon_os.Memory.Pmm.Maps.{IsMap, All, Shrinks, IsDisjoint, has_frame, holds_frame}
use epsilon_os.Memory.Pmm.Start.{
  IsStarted, storage_bytes, storage_entry, init-IsStarted, shrinks, at_index, All-get,
}

not_held :
    (t r : Region) (k hi : ℕ)
    → r.kind ≡ usable
    → IsDisjoint t r
    → hi ≤ r.base + r.size
    → r.base < k * 4096 + 4096
    → k * 4096 < hi
    → holds_frame t k ≡ false
not_held t r k hi u d e p q = ground (arith, d)

not_held_after :
    (rs : List Region) (r : Region) (k hi : ℕ)
    → r.kind ≡ usable
    → All (IsDisjoint r) rs
    → hi ≤ r.base + r.size
    → r.base < k * 4096 + 4096
    → k * 4096 < hi
    → has_frame rs k ≡ false
not_held_after [] r k hi u d e p q = λ _. false
not_held_after (t ∷ rs) r k hi u d e p q =
    ground (arith, d.0 u, not_held_after rs r k hi u d.1 e p q)

-- A frame that touches what an entry gave up lies whole in no entry of the map left.
storage_apart :
    (rs : List Region) (i : ℕ) (r s : Region) (k : ℕ)
    → get_elem? rs i ≡ some r
    → r.kind ≡ usable
    → Shrinks r s
    → IsMap rs
    → r.base < k * 4096 + 4096
    → k * 4096 < s.base
    → has_frame (set rs i s) k ≡ false
storage_apart [] i r s k e u h m lo hi = absurd (cc)
storage_apart (t ∷ rs) zero r s k e u h m lo hi =
    let f : t ≡ r = cc in
    let d : All (IsDisjoint r) rs = subst (λ x. All (IsDisjoint x) rs) f m.1 in
    ground (arith, not_held_after rs r k s.base u d (omega arith) lo hi)
storage_apart (t ∷ rs) (suc i) r s k e u h m lo hi = ground (
  arith,
  not_held t r k s.base u (All-get (IsDisjoint t) rs i r e m.1) (omega arith) lo hi,
  storage_apart rs i r s k e u h m.2 lo hi,
)

-- When `init` returns, on a memory map as the boot protocol promises it, no frame that the bitmap's
-- storage touches is free.
pub init-storage_in_use :
    (rs : List Region) (i : ℕ) (r : Region) (p : Pmm) (k : ℕ)
    → IsMap rs
    → storage_entry rs ≡ some (i, r)
    → Pmm.init rs ≡ ok p
    → k < p.bitmap.bitsize
    → r.base < k * 4096 + 4096
    → k * 4096 < r.base + storage_bytes rs
    → in_use p k ≡ 1
init-storage_in_use rs i r p k m found returns h lo hi =
    let (q, same, started) = init-IsStarted rs i r m found in
    let e : q ≡ p = cc in
    let started' : IsStarted rs i r p = subst (IsStarted rs i r) e started in
    let at = at_index rs i r m found in
    let shrunk = shrinks rs i r m found in
    let none_holds : has_frame p.memmap k ≡ false = rw (started'.memmap) (
      storage_apart rs i r (carve (storage_bytes rs) r) k at.0 at.1 shrunk.0 m lo
        (omega (arith, shrunk.1))) in
    started'.frames k h ∙ rw none_holds
