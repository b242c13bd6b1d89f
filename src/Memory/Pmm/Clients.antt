-- ===== src/Memory/Pmm/Clients.antt =====
-- The users of the frame manager of kernel/src/mem/pmm.cpp: who takes and gives back frames, in any
-- order, and the set of free frames that they see.
use epsilon_os.Base.{
  ℕ, ◌+◌, ◌-◌, ◌*◌, ◌≤◌, ◌<◌, ◌≡◌, ◌∙◌, inl, inr, refl, sym, ap, subst, arith, ok, ◌==◌,
  if◌then◌else◌,
}
use native.Mathlib.Decide.{ℕ_discrete, dec_lt}
use epsilon_os.Memory.Address.{Address, address}
use epsilon_os.Memory.Pmm.{Pmm, allocate_frame, release_frame}
use epsilon_os.Memory.Pmm.Frames.{
  IsReady, IsMarked, Allocates, in_use, in_use-le, allocate_frame-Allocates, release_frame-IsMarked,
}

-- The manager, with the number of times that each frame was given out and not yet given back.
pub record Shared : Type 0 where
  pub pmm : Pmm
  pub held : ℕ → ℕ

abbrev pub adjust : (ℕ → ℕ) → ℕ → ℕ → ℕ → ℕ
adjust held n v m = if m == n then v else held m

-- Users call `allocate_frame`, and `release_frame` for a frame that they hold.
pub data Step (s : Shared) : Shared → Type 0 where
  take :
      (n : ℕ) {p : Pmm}
      → allocate_frame s.pmm ≡ ok (address (n * 4096), p)
      → Step s (record { pmm = p; held = adjust s.held n (s.held n + 1) })
  give :
      (n : ℕ) {p : Pmm}
      → 0 < s.held n
      → release_frame s.pmm (address (n * 4096)) ≡ ok p
      → Step s (record { pmm = p; held = adjust s.held n (s.held n - 1) })

pub data Reach (s : Shared) : Shared → Type 0 where
  here : Reach s s
  next : {t u : Shared} → Reach s t → Step t u → Reach s u

-- Frames that are given out are in use, each once.
pub record IsSound (s : Shared) : Type 0 where
  pub ready : IsReady s.pmm
  pub once : (m : ℕ) → s.held m ≤ in_use s.pmm m
  pub inside : (m : ℕ) → s.pmm.bitmap.bitsize ≤ m → s.held m ≡ 0

held_in_use :
    (s : Shared) (n : ℕ)
    → IsSound s
    → 0 < s.held n
    → (in_use s.pmm n ≡ 1) × (n < s.pmm.bitmap.bitsize)
held_in_use s n v h = elim (dec_lt n s.pmm.bitmap.bitsize) [
  | yes p ↦ (omega (arith, v.once n, in_use-le s.pmm n), p)
  | no p ↦ absurd (omega (arith, v.inside n))
]

-- A held frame can be given back: `release_frame` returns.
pub release_frame-held :
    (s : Shared) (n : ℕ)
    → IsSound s
    → 0 < s.held n
    → (p : Pmm) × (release_frame s.pmm (address (n * 4096)) ≡ ok p) × IsMarked s.pmm n 0 p
release_frame-held s n v h =
    release_frame-IsMarked s.pmm n v.ready ((held_in_use s n v h).1) ((held_in_use s n v h).0)

mark-IsSound :
    (s : Shared) (n v w : ℕ) {p : Pmm}
    → IsSound s
    → n < s.pmm.bitmap.bitsize
    → IsMarked s.pmm n v p
    → w ≡ v
    → IsSound (record { pmm = p; held = adjust s.held n w })
mark-IsSound s n v w {p} sound below m same = record {
  ready = m.ready;
  once = λ k. elim (ℕ_discrete k n) [
    | yes e ↦ ground (arith, ap (in_use p) e, m.frame)
    | no ne ↦ ground (arith, m.others k ne, sound.once k)
  ];
  inside = λ k h. ground (arith, sound.inside k, m.same_bits);
}

pub Step-IsSound : {s t : Shared} → Step s t → IsSound s → IsSound t
Step-IsSound {s} (take n {p} returns) v =
    elim (subst (Allocates s.pmm) returns (allocate_frame-Allocates s.pmm v.ready)) [
      | inl (null, _, _) ↦ (cc)
      | inr (k, below, at, free, _, m) ↦
          let e : n ≡ k = omega (arith, ap (λ (a : Address). a.addr) at) in
          let m' : IsMarked s.pmm n 1 p = subst (λ x. IsMarked s.pmm x 1 p) (sym e) m in
          let none_held : s.held n ≡ 0 = omega (arith, v.once n, ap (in_use s.pmm) e) in
          mark-IsSound s n 1 (s.held n + 1) v (omega arith) m' (omega arith)
    ]
Step-IsSound {s} (give n {p} holds returns) v =
    let (q, also, m) = release_frame-held s n v holds in
    let same : ok q ≡ ok p = sym also ∙ returns in
    let m' : IsMarked s.pmm n 0 p = subst (IsMarked s.pmm n 0) (cc) m in
    let (taken, below) = held_in_use s n v holds in
    mark-IsSound s n 0 (s.held n - 1) v below m' (omega (arith, v.once n))

pub Reach-IsSound : {s t : Shared} → IsSound s → Reach s t → IsSound t
Reach-IsSound h here = h
Reach-IsSound h (next r st) = Step-IsSound st (Reach-IsSound h r)

-- From a ready manager of which nobody holds a frame, where users take frames and give back only
-- those that they hold, in any order: a frame that is held is held once, it is in use, and giving it
-- back returns.
pub Reach-held_once :
    (p : Pmm) {t : Shared} (n : ℕ)
    → IsReady p
    → Reach (record { pmm = p; held = λ m. 0 }) t
    → 0 < t.held n
    → (t.held n ≡ 1)
      × (in_use t.pmm n ≡ 1)
      × ((q : Pmm) × (release_frame t.pmm (address (n * 4096)) ≡ ok q))
Reach-held_once p {t} n ready r h =
    let empty : IsSound (record { pmm = p; held = λ m. 0 }) = record {
      ready = ready;
      once = λ m. omega arith;
      inside = λ m g. refl;
    } in
    let v : IsSound t = Reach-IsSound empty r in
    let (taken, below) = held_in_use t n v h in
    let (q, returns, _) = release_frame-held t n v h in
    (omega (arith, v.once n), taken, (q, returns))
