-- ===== src/Arch/Symbols/Lookup.antt =====
-- What `addr2symbol` of kernel/src/arch/ksyms.cpp finds.
use epsilon_os.Base.{
  ℕ, zero, suc, ◌+◌, ◌-◌, ◌≤◌, ◌<◌, ◌≡◌, ap, refl, arith, Option, some, List, Result, ok, stop,
  fault, get_or, length, get_elem?-eq-get_or, get_elem?-none, lt→ltb, le→ltb,
}
use native.Mathlib.Decide.{dec_lt, ℕ_discrete}
use epsilon_os.Arch.Symbols.{KernelSymbol, SymbolTable, symbol_from, addr2symbol}

abbrev blank : KernelSymbol
blank = record { address = 0; name = 0 }

-- The address of symbol `i`.
abbrev pub address_at : List KernelSymbol → ℕ → ℕ
address_at symbols i = (get_or symbols i (record { address = 0; name = 0 })).address

-- The symbol `i` of the array starts at or below the address, and no symbol behind it does.
abbrev pub IsLast : List KernelSymbol → ℕ → ℕ → Type 0
IsLast symbols addr i =
    (i < length symbols)
    × (address_at symbols i ≤ addr)
    × ((k : ℕ) → k < length symbols → address_at symbols k ≤ addr → k ≤ i)

-- A result in range: the last symbol that starts at or below the address.
abbrev pub Holds : List KernelSymbol → ℕ → Result (Option ℕ) → Type 0
Holds symbols addr (ok (some i)) = IsLast symbols addr i
Holds symbols addr _ = ⊥

-- The addresses do not fall from one symbol to a later one.
abbrev pub IsAscending : List KernelSymbol → Type 0
IsAscending symbols =
    (j k : ℕ) → j ≤ k → k < length symbols → address_at symbols j ≤ address_at symbols k

past_next :
    (symbols : List KernelSymbol) (i addr : ℕ)
    → IsAscending symbols
    → addr < address_at symbols (i + 1)
    → (k : ℕ) → k < length symbols
    → address_at symbols k ≤ addr
    → k ≤ i
past_next symbols i addr ascends above k inside at = elim (dec_lt i k) [
  | yes p ↦ absurd (omega (arith, ascends (i + 1) k (omega arith) inside))
  | no p ↦ omega arith
]

-- The search has not passed the symbol `last`, which starts above the address.
strictly_before :
    (i last addr : ℕ) (symbols : List KernelSymbol)
    → i ≤ last
    → address_at symbols i ≤ addr
    → addr < address_at symbols last
    → i < last
strictly_before i last addr symbols before lo hi = elim (ℕ_discrete i last) [
  | yes same ↦ absurd (omega (arith, ap (address_at symbols) same))
  | no ne ↦ omega arith
]

symbol_from-Holds :
    (left i last addr : ℕ) (symbols : List KernelSymbol)
    → IsAscending symbols
    → i ≤ last
    → last ≤ i + left
    → last < length symbols
    → address_at symbols i ≤ addr
    → addr < address_at symbols last
    → Holds symbols addr (symbol_from left i addr symbols)
unfolding symbol_from
symbol_from-Holds zero i last addr symbols ascends before reach len lo hi =
    absurd (omega (arith, strictly_before i last addr symbols before lo hi))
symbol_from-Holds (suc left) i last addr symbols ascends before reach len lo hi =
    let strict = strictly_before i last addr symbols before lo hi in
    let next = get_elem?-eq-get_or symbols (i + 1) blank (omega arith) in
    elim (dec_lt addr (address_at symbols (i + 1))) [
      | yes p ↦
          rw (next, lt→ltb addr (address_at symbols (i + 1)) p)
            (omega arith, lo, past_next symbols i addr ascends p)
      | no p ↦
          rw (next, le→ltb addr (address_at symbols (i + 1)) (omega arith))
            (symbol_from-Holds left (i + 1) last addr symbols ascends (omega arith) (omega arith)
              len (omega arith) hi)
    ]

symbol_from-faults :
    (left i addr : ℕ) (symbols : List KernelSymbol)
    → i + suc left ≡ length symbols
    → ((k : ℕ) → k < length symbols → address_at symbols k ≤ addr)
    → symbol_from (suc left) i addr symbols ≡ stop fault
unfolding symbol_from
symbol_from-faults zero i addr symbols len below =
    rw (get_elem?-none symbols (i + 1) (omega arith)) refl
symbol_from-faults (suc left) i addr symbols len below =
    rw
      (
        get_elem?-eq-get_or symbols (i + 1) blank (omega arith),
        le→ltb addr (address_at symbols (i + 1)) (below (i + 1) (omega arith)),
      )
      (symbol_from-faults left (i + 1) addr symbols (omega arith) below)

-- A table as `load` leaves it for a map sorted by address: the array is as long as the count, the
-- lowest and highest addresses are the first and the last, and no address lies above the highest.
pub record IsSpanned (t : SymbolTable) : Type 0 where
  pub whole : length t.symbols ≡ t.symbol_count
  pub lowest : address_at t.symbols 0 ≡ t.lowest_addr
  pub highest : address_at t.symbols (t.symbol_count - 1) ≡ t.highest_addr
  pub order : (k : ℕ) → k < length t.symbols → address_at t.symbols k ≤ t.highest_addr

has_symbols :
    (t : SymbolTable) (addr : ℕ)
    → IsSpanned t
    → t.lowest_addr ≤ addr
    → addr < t.highest_addr
    → 0 < t.symbol_count
has_symbols t addr spans lo hi = elim (ℕ_discrete t.symbol_count 0) [
  | yes none_left ↦ absurd (
      omega (
        arith,
        spans.lowest,
        spans.highest,
        ap (λ (c : ℕ). address_at t.symbols (c - 1)) none_left,
      ))
  | no ne ↦ omega arith
]

-- In a table of ascending addresses, for an address from the lowest up to below the highest,
-- `addr2symbol` returns the last symbol that starts at or below the address.
pub addr2symbol-Holds :
    (t : SymbolTable) (addr : ℕ)
    → IsSpanned t
    → IsAscending t.symbols
    → t.lowest_addr ≤ addr
    → addr < t.highest_addr
    → Holds t.symbols addr (addr2symbol addr t)
unfolding addr2symbol
addr2symbol-Holds t addr spans ascends lo hi =
    let some_symbol : 0 < t.symbol_count = has_symbols t addr spans lo hi in
    rw (le→ltb addr t.lowest_addr lo, le→ltb t.highest_addr addr (omega arith))
      (symbol_from-Holds t.symbol_count 0 (t.symbol_count - 1) addr t.symbols ascends (omega arith)
        (omega arith) (omega (arith, spans.whole)) (omega (arith, spans.lowest))
        (omega (arith, spans.highest)))

-- Where the highest address is that of the last symbol, `addr2symbol` of the highest address reads behind the array.
pub addr2symbol-faults :
    (t : SymbolTable) (n : ℕ)
    → IsSpanned t
    → t.symbol_count ≡ suc n
    → addr2symbol t.highest_addr t ≡ stop fault
unfolding addr2symbol
addr2symbol-faults t n spans count =
    rw
      (
        le→ltb t.highest_addr t.lowest_addr
            (omega (arith, spans.lowest, spans.order 0 (omega (arith, spans.whole)))),
        le→ltb t.highest_addr t.highest_addr (omega arith),
        count,
      )
      (symbol_from-faults n 0 t.highest_addr t.symbols (omega (arith, spans.whole)) spans.order)
