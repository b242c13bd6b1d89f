-- ===== src/Arch/Cpu.antt =====
-- kernel/src/arch/cpu.cpp: enabling the features of a processor.
--
-- `CpuFlags` is what `cpuid` answers for leaves 1 and 7, and `Registers` the control registers and
-- the MSR that the code reads and writes. The processors are handed out by their number, `m_id`.
use epsilon_os.Base.{
  ℕ, ◌+◌, ◌*◌, ◌^◌, ◌≡◌, ◌∙◌, inl, inr, refl, ap, Bool, true, false, not, ◌&&◌, ◌||◌, Result, ok,
  assert, ◌>>=◌, ◌>>◌, ltb, ◌==◌, if◌then◌else◌, bit_and, bit_or, not64, Bool-cases,
}
use epsilon_os.Base.Bits.{bit}
use epsilon_os.Base.Masks.{bit-or_bit}

pub record CpuFlags : Type 0 where
  pub ecx1 : ℕ
  pub edx1 : ℕ
  pub ebx7 : ℕ
  pub ecx7 : ℕ

pub record Registers : Type 0 where
  pub cr0 : ℕ
  pub cr4 : ℕ
  pub xcr0 : ℕ
  pub pat : ℕ

abbrev pub max_cpu : ℕ
max_cpu = 64

-- `value & (1 << j)` as a condition.
unfoldable pub has : ℕ → ℕ → Bool
has value j = not (bit_and value (2 ^ j) == 0)

-- `if (test) Register::write(r, Register::read(r) | (1 << j))`.
unfoldable pub set_if : Bool → ℕ → ℕ → ℕ
set_if test j x = if test then bit_or x (2 ^ j) else x

-- `sse_enable`: CR0 loses EM (bit 2) and gets MP (bit 1), CR4 gets OSFXSR and OSXMMEXCPT.
unfoldable pub sse_enable : Registers → Registers
sse_enable r = record r {
  cr0 = bit_or (bit_and r.cr0 (not64 (2 ^ 2))) (2 ^ 1);
  cr4 = bit_or (bit_or r.cr4 (2 ^ 9)) (2 ^ 10);
}

-- The XSAVE part: XCR0 starts from 1, and gets X87, SSE and AVX where AVX is there.
unfoldable pub xsave : CpuFlags → Registers → Registers
unfolding has
xsave f r =
    if has f.ecx1 26
    then record r {
      cr4 = bit_or r.cr4 (2 ^ 18);
      xcr0 = if has f.ecx1 28 then bit_or (bit_or (bit_or 1 1) (2 ^ 1)) (2 ^ 2) else 1;
    }
    else r

-- The page attribute table: entry 4 becomes write combining.
unfoldable pub write_combining : CpuFlags → Registers → Registers
unfolding has
write_combining f r =
    if has f.edx1 16
    then record r { pat = bit_or (bit_and r.pat (not64 (7 * 2 ^ 32))) (2 ^ 32) }
    else r

-- The features of leaf 7: SMAP, SMEP and UMIP.
unfoldable pub protections : CpuFlags → ℕ → ℕ
unfolding set_if has
protections f cr4 =
    set_if (has f.ecx7 2) 11 (set_if (has f.ebx7 7) 20 (set_if (has f.ebx7 20) 21 cr4))

abbrev set_cr4 : Registers → ℕ → Registers
set_cr4 r v = record r { cr4 = v }

-- `init` up to the new processor.
unfoldable pub enable : CpuFlags → Registers → Result Registers
unfolding sse_enable xsave write_combining protections
enable f r = do
  assert (has f.edx1 25)
  let r1 : Registers = sse_enable r
  let r2 : Registers = set_cr4 r1 (set_if (has f.edx1 13) 7 r1.cr4)
  let r3 : Registers = write_combining f (xsave f r2)
  let r4 : Registers = set_cr4 r3 (protections f r3.cr4)
  assert (has f.ebx7 0)
  ok (set_cr4 r4 (bit_or r4.cr4 (2 ^ 16)))

-- `get_next_cpu`: the number of the processor and the next number.
unfoldable pub get_next_cpu : ℕ → Result (ℕ × ℕ)
get_next_cpu id = do assert (ltb id max_cpu); ok (id, id + 1)

unfoldable pub init : CpuFlags → Registers → ℕ → Result (ℕ × ℕ × Registers)
unfolding enable get_next_cpu
init f r id = do r' ← enable f r; (cpu, next) ← get_next_cpu id; ok (cpu, next, r')

bit-set_if :
    (test : Bool) (j x k : ℕ) → bit (set_if test j x) k ≡ (if test && (k == j) then 1 else bit x k)
unfolding set_if
bit-set_if true j x k = bit-or_bit x j k
bit-set_if false j x k = refl

cr4-xsave :
    (f : CpuFlags) (r : Registers) (k : ℕ)
    → bit ((xsave f r).cr4) k ≡ (if has f.ecx1 26 && (k == 18) then 1 else bit r.cr4 k)
unfolding xsave
cr4-xsave f r k = elim (Bool-cases (has f.ecx1 26)) [
  | inl e ↦ rw e (bit-or_bit r.cr4 18 k)
  | inr e ↦ rw e
]

cr4-write_combining : (f : CpuFlags) (r : Registers) → (write_combining f r).cr4 ≡ r.cr4
unfolding write_combining
cr4-write_combining f r = elim (Bool-cases (has f.edx1 16)) [ inl e ↦ rw e | inr e ↦ rw e ]

-- The bits of CR4 that a processor with these flags gets.
abbrev pub wanted : CpuFlags → ℕ → Bool
wanted f k =
    (k == 16)
    || ((has f.ecx7 2 && (k == 11))
        || ((has f.ebx7 7 && (k == 20))
            || ((has f.ebx7 20 && (k == 21))
                || ((has f.ecx1 26 && (k == 18))
                    || ((has f.edx1 13 && (k == 7)) || ((k == 10) || (k == 9)))))))

if-or : (a b : Bool) (n : ℕ) → (if a then 1 else if b then 1 else n) ≡ (if a || b then 1 else n)
if-or true b n = refl
if-or false b n = refl

cr4-sse_enable :
    (r : Registers) (k : ℕ)
    → bit ((sse_enable r).cr4) k ≡ (if (k == 10) || (k == 9) then 1 else bit r.cr4 k)
unfolding sse_enable
cr4-sse_enable r k =
    bit-or_bit (bit_or r.cr4 (2 ^ 9)) 10 k
    ∙ ap (λ n. if k == 10 then 1 else n) (bit-or_bit r.cr4 9 k)
    ∙ if-or (k == 10) (k == 9) (bit r.cr4 k)

-- A bit set on top of bits that are set already.
set_more :
    (test : Bool) (j x k n : ℕ) (before : Bool)
    → bit x k ≡ (if before then 1 else n)
    → bit (set_if test j x) k ≡ (if (test && (k == j)) || before then 1 else n)
set_more test j x k n before e =
    bit-set_if test j x k
    ∙ ap (λ m. if test && (k == j) then 1 else m) e
    ∙ if-or (test && (k == j)) before n

-- On a processor with SSE and FS/GS base access, enabling the features sets in CR4 exactly the
-- bits of the features that `cpuid` reports, and keeps every other bit.
pub cr4-enable :
    (f : CpuFlags) (r : Registers)
    → (has f.edx1 25 ≡ true)
    → (has f.ebx7 0 ≡ true)
    → (r' : Registers) × (enable f r ≡ ok r')
      × ((k : ℕ) → bit r'.cr4 k ≡ (if wanted f k then 1 else bit r.cr4 k))
unfolding enable protections
cr4-enable f r sse fsgs =
    let r1 : Registers = sse_enable r in
    let r2 : Registers = set_cr4 r1 (set_if (has f.edx1 13) 7 r1.cr4) in
    let r3 : Registers = write_combining f (xsave f r2) in
    let r4 : Registers = set_cr4 r3 (protections f r3.cr4) in
    (
      set_cr4 r4 (bit_or r4.cr4 (2 ^ 16)),
      rw (sse, fsgs) refl,
      λ k.
          let n : ℕ = bit r.cr4 k in
          let at2 : bit r2.cr4 k
              ≡ (if (has f.edx1 13 && (k == 7)) || ((k == 10) || (k == 9)) then 1 else n) =
            set_more (has f.edx1 13) 7 (r1.cr4) k n _ (cr4-sse_enable r k) in
          let at3 : bit r3.cr4 k ≡ (
              if (has f.ecx1 26 && (k == 18))
                || ((has f.edx1 13 && (k == 7)) || ((k == 10) || (k == 9)))
              then 1
              else n) =
            ap (λ c. bit c k) (cr4-write_combining f (xsave f r2))
            ∙ cr4-xsave f r2 k
            ∙ ap (λ m. if has f.ecx1 26 && (k == 18) then 1 else m) at2
            ∙ if-or (has f.ecx1 26 && (k == 18)) _ n in
          bit-or_bit (r4.cr4) 16 k
          ∙ ap (λ m. if k == 16 then 1 else m)
              (set_more (has f.ecx7 2) 11 _ k n _ (
                set_more (has f.ebx7 7) 20 _ k n _
                  (set_more (has f.ebx7 20) 21 (r3.cr4) k n _ at3)))
          ∙ if-or (k == 16) _ n,
    )
