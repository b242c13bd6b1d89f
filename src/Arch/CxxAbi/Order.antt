-- ===== src/Arch/CxxAbi/Order.antt =====
-- The order of the destructors of kernel/src/arch/icxxabi.cpp.
use epsilon_os.Base.{
  ℕ, zero, suc, ◌+◌, ◌<◌, ◌≤◌, ◌≡◌, ◌≢◌, ◌∙◌, refl, sym, ap, subst, arith, false, some, List, [],
  ◌∷◌, ok, get_elem?, set, length, length-set, leb, pos, to_u32, ne→==,
}
use epsilon_os.Arch.CxxAbi.{AtexitEntry, AtexitTable, Call, cxa_atexit, finalize_all, cxa_finalize}

pub get_elem?-set_self :
    {A : Type 0} (xs : List A) (i : ℕ) (v : A) → i < length xs → get_elem? (set xs i v) i ≡ some v
get_elem?-set_self [] i v h = absurd (omega arith)
get_elem?-set_self (x ∷ xs) zero v h = refl
get_elem?-set_self (x ∷ xs) (suc i) v h = get_elem?-set_self xs i v (omega arith)

pub get_elem?-set_ne :
    {A : Type 0} (xs : List A) (i j : ℕ) (v : A) → i ≢ j → get_elem? (set xs i v) j ≡ get_elem? xs j
get_elem?-set_ne [] i j v h = refl
get_elem?-set_ne (x ∷ xs) zero zero v h = absurd (h refl)
get_elem?-set_ne (x ∷ xs) zero (suc j) v h = refl
get_elem?-set_ne (x ∷ xs) (suc i) zero v h = refl
get_elem?-set_ne (x ∷ xs) (suc i) (suc j) v h = get_elem?-set_ne xs i j v (λ e. h (ap suc e))

-- The array has its full size, and the count is within it.
pub record IsTable (t : AtexitTable) : Type 0 where
  pub size : length t.funcs ≡ 128
  pub count : t.func_count ≤ 128

finalize_all-set :
    (n i : ℕ) (funcs : List AtexitEntry) (e : AtexitEntry)
    → n ≤ i
    → finalize_all n (set funcs i e) ≡ finalize_all n funcs
unfolding finalize_all
finalize_all-set zero i funcs e h = refl
finalize_all-set (suc n) i funcs e h =
    rw
      (
        get_elem?-set_ne funcs i n e (λ q. omega (arith, q)),
        finalize_all-set n i funcs e (omega arith),
      )
      refl

-- The registrations of a list, the first one first.
abbrev pub register_all : List AtexitEntry → AtexitTable → AtexitTable
register_all [] t = t
register_all (e ∷ es) t =
    register_all es ((cxa_atexit e.destructor_func e.obj_ptr e.dso_handle t).1)

-- Calls of the destructors of a list before those that are there, the last one of the list first.
abbrev pub before : List AtexitEntry → List Call → List Call
before [] calls = calls
before (e ∷ es) calls = before es ((e.destructor_func, e.obj_ptr) ∷ calls)

abbrev pub NoneNull : List AtexitEntry → Type 0
NoneNull [] = Unit
NoneNull (e ∷ es) = (e.destructor_func ≢ 0) × NoneNull es

-- The table with one entry more.
abbrev pub pushed : AtexitEntry → AtexitTable → AtexitTable
pushed e t = record { funcs = set t.funcs t.func_count e; func_count = t.func_count + 1 }

cxa_atexit-pushed :
    (e : AtexitEntry) (t : AtexitTable)
    → t.func_count < 128
    → cxa_atexit e.destructor_func e.obj_ptr e.dso_handle t ≡ (pos 0, pushed e t)
unfolding cxa_atexit
cxa_atexit-pushed e t h =
    let room : leb 128 t.func_count ≡ false = ground arith in
    let count : to_u32 (t.func_count + 1) ≡ t.func_count + 1 = omega arith in rw (room, count) refl

pushed-IsTable :
    (e : AtexitEntry) (t : AtexitTable) → IsTable t → t.func_count < 128 → IsTable (pushed e t)
pushed-IsTable e t v h = record {
  size = length-set t.funcs t.func_count e ∙ v.size;
  count = omega arith;
}

finalize_all-pushed :
    (e : AtexitEntry) (t : AtexitTable) {calls : List Call}
    → IsTable t
    → t.func_count < 128
    → e.destructor_func ≢ 0
    → finalize_all t.func_count t.funcs ≡ ok calls
    → finalize_all (t.func_count + 1) (set t.funcs t.func_count e)
      ≡ ok ((e.destructor_func, e.obj_ptr) ∷ calls)
unfolding finalize_all
finalize_all-pushed e t {calls} v h nonnull runs =
    let next : t.func_count + 1 ≡ suc t.func_count = omega arith in
    rw
      (
        next,
        get_elem?-set_self t.funcs t.func_count e (omega (arith, v.size)),
        finalize_all-set t.func_count t.func_count t.funcs e (omega arith),
        runs,
        ne→== e.destructor_func 0 nonnull,
      )
      refl

register_all-order :
    (es : List AtexitEntry) (t : AtexitTable) {calls : List Call}
    → IsTable t
    → NoneNull es
    → t.func_count + length es ≤ 128
    → finalize_all t.func_count t.funcs ≡ ok calls
    → finalize_all (register_all es t).func_count (register_all es t).funcs ≡ ok (before es calls)
register_all-order [] t v some_ room runs = runs
register_all-order (e ∷ es) t {calls} v (nonnull, rest) room runs =
    let h : t.func_count < 128 = omega arith in
    let same : (cxa_atexit e.destructor_func e.obj_ptr e.dso_handle t).1 ≡ pushed e t =
      ap (λ r. r.1) (cxa_atexit-pushed e t h) in
    subst
      (λ (u : AtexitTable).
        finalize_all (register_all es u).func_count (register_all es u).funcs
        ≡ ok (before es ((e.destructor_func, e.obj_ptr) ∷ calls)))
      (sym same)
      (register_all-order es (pushed e t) (pushed-IsTable e t v h) rest (omega arith)
        (finalize_all-pushed e t v h nonnull runs))

-- From an empty table, after registrations of at most 128 destructors, none of them null,
-- `__cxa_finalize(nullptr)` calls each of them once with its own object, the last registered first.
pub cxa_finalize-order :
    (es : List AtexitEntry) (t : AtexitTable)
    → IsTable t
    → t.func_count ≡ 0
    → NoneNull es
    → length es ≤ 128
    → cxa_finalize 0 (register_all es t) ≡ ok (before es [], register_all es t)
unfolding cxa_finalize finalize_all
cxa_finalize-order es t v none_yet some_ room =
    rw
      (register_all-order es t v some_ (omega arith)
        (ap (λ (n : ℕ). finalize_all n t.funcs) none_yet))
      refl
