-- ===== src/Arch/CxxAbi.antt =====
-- kernel/src/arch/icxxabi.cpp: the destructors that are to run at the end.
--
-- A function and its object are numbers, and 0 is a null pointer. What a destructor does is not in
-- this file: a call of it is an entry of the list of calls, the first one first, and it is taken not
-- to register or run destructors itself.
pub mod Order
pub mod Once
use epsilon_os.Base.{
  ℕ, zero, suc, ◌+◌, ◌%◌, ◌^◌, Bool, true, false, Option, none, some, List, [], ◌∷◌, Result, ok,
  stop, fault, ◌>>=◌, in_range, get_elem?, set, length, leb, ◌==◌, if◌then◌else◌, ℤ, pos, negsuc,
  to_u32,
}

-- `atexit_func_entry_t`.
pub record AtexitEntry : Type 0 where
  pub destructor_func : ℕ
  pub obj_ptr : ℕ
  pub dso_handle : ℕ

-- `ATEXIT_MAX_FUNCS`.
abbrev pub atexit_max_funcs : ℕ
atexit_max_funcs = 128

-- `__atexit_funcs` and `__atexit_func_count`.
pub record AtexitTable : Type 0 where
  pub funcs : List AtexitEntry
  pub func_count : ℕ

-- A function that is called, and the object that it is called with.
abbrev pub Call : Type 0
Call = ℕ × ℕ

unfoldable pub cxa_atexit : ℕ → ℕ → ℕ → AtexitTable → ℤ × AtexitTable
cxa_atexit f objptr dso t = if leb atexit_max_funcs t.func_count then (negsuc 0, t) else (
  pos 0,
  record {
    funcs =
        set t.funcs t.func_count
          (record { destructor_func = f; obj_ptr = objptr; dso_handle = dso });
    func_count = to_u32 (t.func_count + 1);
  },
)

-- The loop without a function: `i` entries are left.
unfoldable pub finalize_all : ℕ → List AtexitEntry → Result (List Call)
finalize_all zero funcs = ok []
finalize_all (suc i) funcs = in_range (get_elem? funcs i) >>= λ e. finalize_all i funcs >>= λ calls.
    ok (if e.destructor_func == 0 then calls else (e.destructor_func, e.obj_ptr) ∷ calls)

-- The loop for a function: its entries are called and cleared.
unfoldable pub finalize_one : ℕ → ℕ → List AtexitEntry → Result (List Call × List AtexitEntry)
finalize_one f zero funcs = ok ([], funcs)
finalize_one f (suc i) funcs = in_range (get_elem? funcs i) >>= λ e.
    let skipped = finalize_one f i funcs in
    let called = finalize_one f i (set funcs i (record e { destructor_func = 0 })) >>= λ r.
    ok ((e.destructor_func, e.obj_ptr) ∷ r.0, r.1) in
    if e.destructor_func == f then called else skipped

unfoldable pub cxa_finalize : ℕ → AtexitTable → Result (List Call × AtexitTable)
unfolding finalize_all finalize_one
cxa_finalize f t =
    if f == 0
    then (finalize_all t.func_count t.funcs >>= λ calls. ok (calls, t))
    else (finalize_one f t.func_count t.funcs >>= λ r. ok (r.0, record t { funcs = r.1 }))
