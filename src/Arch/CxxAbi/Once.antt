-- ===== src/Arch/CxxAbi/Once.antt =====
-- `__cxa_finalize` of one function in kernel/src/arch/icxxabi.cpp.
use epsilon_os.Base.{
  ℕ, zero, suc, ◌≤◌, ◌≡◌, ◌≢◌, ◌∙◌, refl, sym, arith, inl, inr, some, List, [], ◌∷◌, ok, get_elem?,
  get_or, set, length, length-set, get_elem?-eq-get_or, ◌==◌, Bool-cases, ne→==,
}
use epsilon_os.Arch.CxxAbi.{AtexitEntry, AtexitTable, Call, finalize_one, cxa_finalize}
use epsilon_os.Arch.CxxAbi.Order.{IsTable, get_elem?-set_self, get_elem?-set_ne}

blank : AtexitEntry
blank = record { destructor_func = 0; obj_ptr = 0; dso_handle = 0 }

-- The loop over `n` entries returns, leaves those behind them, and finds none when run again.
abbrev Clears : ℕ → ℕ → List AtexitEntry → Type 0
Clears f n funcs =
    (calls : List Call) × (funcs' : List AtexitEntry) × (finalize_one f n funcs
      ≡ ok (calls, funcs'))
    × (length funcs' ≡ length funcs)
    × ((k : ℕ) → n ≤ k → get_elem? funcs' k ≡ get_elem? funcs k)
    × (finalize_one f n funcs' ≡ ok ([], funcs'))

finalize_one-Clears :
    (f n : ℕ) (funcs : List AtexitEntry) → f ≢ 0 → n ≤ length funcs → Clears f n funcs
unfolding finalize_one
finalize_one-Clears f zero funcs nonnull h = ([], funcs, refl, refl, λ k g. refl, refl)
finalize_one-Clears f (suc n) funcs nonnull h =
    let e : AtexitEntry = get_or funcs n blank in
    let at : get_elem? funcs n ≡ some e = get_elem?-eq-get_or funcs n blank (omega arith) in
    elim (Bool-cases (e.destructor_func == f)) [
      | inr other ↦
          let (calls, funcs', runs, size, behind, again) =
            finalize_one-Clears f n funcs nonnull (omega arith) in
          (
            calls,
            funcs',
            rw (at, other, runs) refl,
            size,
            λ k g. behind k (omega arith),
            rw (behind n (omega arith), at, other, again) refl,
          )
      | inl found ↦
          let e0 : AtexitEntry = record e { destructor_func = 0 } in
          let (calls, funcs', runs, size, behind, again) =
            finalize_one-Clears f n (set funcs n e0) nonnull
              (omega (arith, length-set funcs n e0)) in
          let cleared : get_elem? funcs' n ≡ some e0 =
            behind n (omega arith) ∙ get_elem?-set_self funcs n e0 (omega arith) in
          (
            (e.destructor_func, e.obj_ptr) ∷ calls,
            funcs',
            rw (at, found, runs) refl,
            size ∙ length-set funcs n e0,
            λ k g. behind k (omega arith) ∙ get_elem?-set_ne funcs n k e0 (λ q. omega (arith, q)),
            rw (cleared, ne→== 0 f (λ q. nonnull (sym q)), again) refl,
          )
    ]

-- On a valid table `__cxa_finalize(f)` of a function that is not null returns, and a second one calls
-- nothing and leaves the table as it is.
pub cxa_finalize-once :
    (f : ℕ) (t : AtexitTable)
    → IsTable t
    → f ≢ 0
    → (calls : List Call) × (t' : AtexitTable) × (cxa_finalize f t ≡ ok (calls, t'))
      × IsTable t'
      × (cxa_finalize f t' ≡ ok ([], t'))
unfolding cxa_finalize
cxa_finalize-once f t v nonnull =
    let (calls, funcs', runs, size, _, again) =
      finalize_one-Clears f t.func_count t.funcs nonnull (omega (arith, v.size, v.count)) in
    (
      calls,
      record t { funcs = funcs' },
      rw (ne→== f 0 nonnull, runs) refl,
      record { size = size ∙ v.size; count = v.count },
      rw (ne→== f 0 nonnull, again) refl,
    )
