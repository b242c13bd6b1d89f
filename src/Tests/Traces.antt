-- ===== src/Tests/Traces.antt =====
-- kernel/src/arch/icxxabi.cpp on two destructors, and the stack trace of kernel/src/arch/ksyms.cpp on a
-- stack of two frames.
use epsilon_os.Base.{
  ℕ, ◌≡◌, refl, arith, true, false, List, [], ◌∷◌, ok, replicate, length-replicate, ◌==◌,
  if◌then◌else◌,
}
use epsilon_os.CString.{Memory}
use epsilon_os.Arch.CxxAbi.{AtexitEntry, AtexitTable, Call, cxa_finalize}
use epsilon_os.Arch.CxxAbi.Order.{IsTable, register_all, cxa_finalize-order}
use epsilon_os.Arch.CxxAbi.Once.{cxa_finalize-once}
use epsilon_os.Arch.Symbols.Backtrace.{
  TraceLine, backtrace, AreLines, AllTraceable, IsChain, backtrace-AreLines,
}
use epsilon_os.Tests.Names.{two_symbols, two_symbols-IsSpanned, two_symbols-IsAscending}

abbrev entry : ℕ → ℕ → AtexitEntry
entry f objptr = record { destructor_func = f; obj_ptr = objptr; dso_handle = 0 }

abbrev two_objects : List AtexitEntry
two_objects = entry 0x1000 1 ∷ entry 0x2000 2 ∷ []

abbrev no_destructors : AtexitTable
no_destructors = record { funcs = replicate 128 (entry 0 0); func_count = 0 }

no_destructors-IsTable : IsTable no_destructors
no_destructors-IsTable = record { size = length-replicate 128 (entry 0 0); count = omega arith }

cxa_finalize-order_example :
    cxa_finalize 0 (register_all two_objects no_destructors)
    ≡ ok ((0x2000, 2) ∷ (0x1000, 1) ∷ [], register_all two_objects no_destructors)
cxa_finalize-order_example =
    cxa_finalize-order two_objects no_destructors no_destructors-IsTable refl
      ((λ e. omega (arith, e)), ((λ e. omega (arith, e)), tt)) (omega arith)

abbrev one_destructor : AtexitTable
one_destructor = record { funcs = entry 0x1000 1 ∷ replicate 127 (entry 0 0); func_count = 1 }

one_destructor-IsTable : IsTable one_destructor
one_destructor-IsTable = record {
  size = omega (arith, length-replicate 127 (entry 0 0));
  count = omega arith;
}

cxa_finalize-once_example :
    (calls : List Call) × (t' : AtexitTable) × (cxa_finalize 0x1000 one_destructor ≡ ok (calls, t'))
    × IsTable t'
    × (cxa_finalize 0x1000 t' ≡ ok ([], t'))
cxa_finalize-once_example =
    cxa_finalize-once 0x1000 one_destructor one_destructor-IsTable (λ e. omega (arith, e))

-- Two frames, at 16 and at 32, with the return addresses 0x1234 and 0x3000; the second has no caller.
abbrev pub stack : Memory
stack a =
    if a == 16
    then 32
    else if a == 24
    then 0x34
    else if a == 25
    then 0x12
    else if a == 41
    then 0x30
    else 0

abbrev pub rips : List ℕ
rips = 0x1234 ∷ 0x3000 ∷ []

pub stack-IsChain : IsChain stack 16 rips
stack-IsChain = (
  (λ e. omega (arith, e)),
  (λ e. omega (arith, e)),
  refl,
  ((λ e. omega (arith, e)), (λ e. omega (arith, e)), refl, refl),
)

pub rips-AllTraceable : AllTraceable two_symbols rips
rips-AllTraceable =
    (omega arith, (λ e. omega (arith, e)), (omega arith, (λ e. omega (arith, e)), tt))

backtrace-AreLines_example :
    ((lines : List TraceLine) × (backtrace true 16 stack two_symbols ≡ ok lines)
      × AreLines two_symbols (0x1234 ∷ 0x3000 ∷ []) lines)
    × (backtrace false 16 stack two_symbols ≡ ok [])
backtrace-AreLines_example =
    backtrace-AreLines two_symbols two_symbols-IsSpanned two_symbols-IsAscending 16 rips stack
      stack-IsChain rips-AllTraceable
