-- ===== src/CString/Copies.antt =====
-- What the copying functions of kernel/src/lib/string.cpp leave in memory, overlaps included.
use epsilon_os.Base.{
  ℕ, zero, suc, ◌+◌, ◌-◌, ◌≤◌, ◌<◌, ◌≡◌, ◌≢◌, ◌∙◌, ◌⊎◌, ◌&&◌, inl, ap, arith, false, Option, none,
  some, ltb, leb, ◌==◌, if◌then◌else◌, to_u8, ◌%◌, subst,
}
use native.Mathlib.Decide.{ℕ_discrete, dec_lt}
use epsilon_os.CString.{
  Memory, store, copy_up, copy_down, memcpy, memmove, memset, fill, copy_text, copy_bounded, strcpy,
  strncpy,
}

-- `m` with the `n` bytes from `src` on copied to `dest`, read from the old memory.
abbrev pub moved : ℕ → ℕ → ℕ → Memory → Memory
moved dest src n m a = if leb dest a && ltb a (dest + n) then m (src + (a - dest)) else m a

-- The same for the bytes from index `i` on.
abbrev moved_from : ℕ → ℕ → ℕ → ℕ → Memory → Memory
moved_from left i dest src m a =
    if leb (dest + i) a && ltb a (dest + i + left) then m (src + (a - dest)) else m a

-- Copying upwards reads nothing that it has written, if the source does not lie below the
-- destination and overlap it.
copy_up_lem :
    (left i dest src : ℕ) (m : Memory)
    → (dest ≤ src) ⊎ (src + i + left ≤ dest + i)
    → (a : ℕ) → copy_up left i dest src m a ≡ moved_from left i dest src m a
unfolding copy_up
copy_up_lem zero i dest src m h a = ground arith
copy_up_lem (suc left) i dest src m h a =
    let m' : Memory = store m (dest + i) (m (src + i)) in
    copy_up_lem left (i + 1) dest src m' (omega arith) a ∙ step
  where
    step :
        moved_from left (i + 1) dest src (store m (dest + i) (m (src + i))) a
        ≡ moved_from (suc left) i dest src m a
    step = elim (ℕ_discrete a (dest + i)) [
      | yes e ↦ let k : src + (a - dest) ≡ src + i = omega arith in ground (arith, ap m k)
      | no ne ↦ ground arith
    ]

copy_down_lem :
    (n dest src : ℕ) (m : Memory)
    → src ≤ dest
    → (a : ℕ) → copy_down n dest src m a ≡ moved dest src n m a
unfolding copy_down
copy_down_lem zero dest src m h a = ground arith
copy_down_lem (suc n) dest src m h a =
    copy_down_lem n dest src (store m (dest + n) (m (src + n))) h a ∙ step
  where
    step : moved dest src n (store m (dest + n) (m (src + n))) a ≡ moved dest src (suc n) m a
    step = elim (ℕ_discrete a (dest + n)) [
      | yes e ↦ let k : src + (a - dest) ≡ src + n = omega arith in ground (arith, ap m k)
      | no ne ↦ ground arith
    ]

-- `memmove` copies the bytes as they were before the call, however the buffers overlap, and
-- changes no other byte.
pub memmove_lem :
    (dest src n : ℕ) (m : Memory) (a : ℕ) → memmove dest src n m a ≡ moved dest src n m a
unfolding memmove
memmove_lem dest src n m a = elim (dec_lt dest src) [
  | yes p ↦ ground (arith, copy_up_lem n 0 dest src m (inl (omega arith)) a)
  | no p ↦ elim (dec_lt src dest) [
    | yes q ↦ ground (arith, copy_down_lem n dest src m (omega arith) a)
    | no q ↦ elim (dec_lt a dest) [
      | yes before ↦ ground arith
      | no after ↦ let k : src + (a - dest) ≡ a = omega arith in ground (arith, ap m k)
    ]
  ]
]

-- `memcpy` copies the bytes as they were before the call and changes no other byte, if the source
-- does not start below the destination and run into it.
pub memcpy_lem :
    (dest src n : ℕ) (m : Memory)
    → (dest ≤ src) ⊎ (src + n ≤ dest)
    → (a : ℕ) → memcpy dest src n m a ≡ moved dest src n m a
unfolding memcpy
memcpy_lem dest src n m h a = ground (arith, copy_up_lem n 0 dest src m (omega arith) a)

fill_lem :
    (left i s c : ℕ) (m : Memory) (a : ℕ)
    → fill left i s c m a ≡ (if leb (s + i) a && ltb a (s + i + left) then to_u8 c else m a)
unfolding fill
fill_lem zero i s c m a = ground arith
fill_lem (suc left) i s c m a =
    ground (arith, fill_lem left (i + 1) s c (store m (s + i) (to_u8 c)) a)

-- `memset` stores the low byte of `c` in exactly the `n` bytes from `s` on.
pub memset_lem :
    (s c n : ℕ) (m : Memory) (a : ℕ)
    → memset s c n m a ≡ (if leb s a && ltb a (s + n) then c % 256 else m a)
unfolding memset
memset_lem s c n m a = ground (arith, fill_lem n 0 s c m a)

-- The bytes before the `k`-th are no terminators, and the `k`-th is one.
abbrev pub IsText : Memory → ℕ → ℕ → Type 0
IsText m s k = ((j : ℕ) → j < k → m (s + j) ≢ 0) × (m (s + k) ≡ 0)

IsText-suc :
    (m : Memory) (d s k : ℕ) (c : ℕ)
    → (d ≤ s) ⊎ (s + suc k < d)
    → IsText m s (suc k)
    → IsText (store m d c) (s + 1) k
IsText-suc m d s k c h t = (
  λ j p.
      let e : s + 1 + j ≡ s + suc j = omega arith in
      rw e (λ z. t.0 (suc j) (omega arith) (ground arith)),
  let e : s + 1 + k ≡ s + suc k = omega arith in rw e (ground (arith, t.1)),
)

-- One byte, and then the rest, make up a move.
moved-suc :
    (d s n : ℕ) (m : Memory) (a : ℕ)
    → (d ≤ s) ⊎ (s + n < d)
    → moved (d + 1) (s + 1) n (store m d (m s)) a ≡ moved d s (n + 1) m a
moved-suc d s n m a h = elim (ℕ_discrete a d) [
  | yes e ↦ let k : s + (a - d) ≡ s = omega arith in ground (arith, ap m k)
  | no ne ↦ elim (dec_lt d a) [
    | yes l ↦ let k : s + 1 + (a - (d + 1)) ≡ s + (a - d) = omega arith in ground (arith, ap m k)
    | no l ↦ ground arith
  ]
]

stored_zero : (d s : ℕ) (m : Memory) (a : ℕ) → m s ≡ 0 → store m d 0 a ≡ moved d s (0 + 1) m a
stored_zero d s m a e = elim (ℕ_discrete a d) [
  | yes q ↦ let k : s + (a - d) ≡ s = omega arith in ground (arith, ap m k)
  | no ne ↦ ground arith
]

-- What a loop over a text returns: the memory with the text and its terminator copied.
abbrev pub Copies : ℕ → ℕ → ℕ → Memory → Option Memory → Type 0
Copies d s k m none = ⊥
Copies d s k m (some m') = (a : ℕ) → m' a ≡ moved d s (k + 1) m a

Copies-suc :
    (d s k : ℕ) (m : Memory) (r : Option Memory)
    → (d ≤ s) ⊎ (s + suc k < d)
    → Copies (d + 1) (s + 1) k (store m d (m s)) r
    → Copies d s (suc k) m r
Copies-suc d s k m none h c = c
Copies-suc d s k m (some m') h c = λ a.
    c a ∙ (let q : suc k ≡ k + 1 = omega arith in rw q (moved-suc d s (k + 1) m a (omega arith)))

copy_text_lem :
    (k fuel d s : ℕ) (m : Memory)
    → k < fuel
    → (d ≤ s) ⊎ (s + k < d)
    → IsText m s k
    → Copies d s k m (copy_text fuel d s m)
unfolding copy_text
copy_text_lem k zero d s m p h t = absurd (omega arith)
copy_text_lem zero (suc fuel) d s m p h t =
    let e : m s ≡ 0 = subst (λ x. m x ≡ 0) (omega arith) (t.1) in rw e (λ a. stored_zero d s m a e)
copy_text_lem (suc k) (suc fuel) d s m p h t =
    let q : s + 0 ≡ s = omega arith in
    let live : (m s == 0) ≡ false = ground (arith, t.0 0 (omega arith), ap m q) in
    rw live (
      Copies-suc d s k m (copy_text fuel (d + 1) (s + 1) (store m d (m s))) h (
        copy_text_lem k fuel (d + 1) (s + 1) (store m d (m s)) (omega arith) (omega arith)
          (IsText-suc m d s k (m s) h t)))

-- `strcpy` copies a text of `k` characters with its terminator, and changes no other byte, if the
-- destination does not start inside the text; fuel beyond `k` is enough.
pub strcpy_lem :
    (k fuel d s : ℕ) (m : Memory)
    → k < fuel
    → d ≢ 0
    → (d ≤ s) ⊎ (s + k < d)
    → IsText m s k
    → Copies d s k m (strcpy fuel d s m)
unfolding strcpy
strcpy_lem k fuel d s m p live h t =
    let e : (d == 0) ≡ false = ground arith in rw e (copy_text_lem k fuel d s m p h t)

copy_bounded_end :
    (n d s : ℕ) (m : Memory)
    → (d ≤ s) ⊎ (s + n < d)
    → ((j : ℕ) → j < n → m (s + j) ≢ 0)
    → copy_bounded d s n m (d + n) ≡ 0
unfolding copy_bounded
copy_bounded_end zero d s m h t = ground arith
copy_bounded_end (suc n) d s m h t =
    let q : s + 0 ≡ s = omega arith in
    let live : (m s == 0) ≡ false = ground (arith, t 0 (omega arith), ap m q) in
    let e : d + suc n ≡ d + 1 + n = omega arith in
    rw (live, e)
      (copy_bounded_end n (d + 1) (s + 1) (store m d (m s)) (omega arith) (λ j g.
        let f : s + 1 + j ≡ s + suc j = omega arith in
        rw f (λ z. t (suc j) (omega arith) (ground arith))))

-- `strncpy` of a text with no terminator among its first `n` characters writes a terminator
-- behind the `n` bytes that it may fill: the byte at `d + n` becomes 0.
pub strncpy-writes_behind :
    (n d s : ℕ) (m : Memory)
    → d ≢ 0
    → (d ≤ s) ⊎ (s + n < d)
    → ((j : ℕ) → j < n → m (s + j) ≢ 0)
    → strncpy d s n m (d + n) ≡ 0
unfolding strncpy
strncpy-writes_behind n d s m live h t =
    let e : (d == 0) ≡ false = ground arith in rw e (copy_bounded_end n d s m h t)
