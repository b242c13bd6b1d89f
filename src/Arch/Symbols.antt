-- ===== src/Arch/Symbols.antt =====
-- kernel/src/arch/ksyms.cpp: the kernel's symbols, read from the exported map and looked up.
--
-- The text is in the byte memory of CString.antt; the heap that holds the symbols is the function
-- `new_symbols`, which gives an array of as many entries as asked for, or none. A loop over the text
-- takes fuel; `none` means that it ran out.
pub mod Lookup
pub mod Digits
pub mod Backtrace
use epsilon_os.Base.{
  ℕ, zero, suc, ◌+◌, ◌-◌, ◌*◌, ◌%◌, ◌^◌, Bool, true, false, ◌&&◌, ◌||◌, Option, none, some, List,
  [], ◌∷◌, Result, ok, stop, panic, fault, ◌>>=◌, ◌>>◌, assert, in_range, get_elem?, set, length,
  ltb, leb, ◌==◌, if◌then◌else◌, bit_or, to_u64, u64_max,
}
use epsilon_os.CString.{Memory, store, strlen}

pub record KernelSymbol : Type 0 where
  pub address : ℕ
  pub name : ℕ

-- The static fields of `SymbolTable`, and the text, which loading changes.
pub record SymbolTable : Type 0 where
  pub symbols : List KernelSymbol
  pub symbol_count : ℕ
  pub lowest_addr : ℕ
  pub highest_addr : ℕ
  pub text : Memory

unfoldable pub hex2num : ℕ → Result ℕ
hex2num c =
    if leb 48 c && leb c 57
    then ok (c - 48)
    else (assert (leb 97 c && leb c 102) >>= λ _. ok (10 + (c - 97)))

-- The loops that read digits: `left` of them from `ptr` on, behind those in `acc`.
unfoldable pub read_hex : ℕ → ℕ → ℕ → Memory → Result ℕ
read_hex zero acc ptr m = ok acc
read_hex (suc left) acc ptr m =
    hex2num (m ptr) >>= λ d. read_hex left (bit_or (to_u64 (acc * 16)) d) (ptr + 1) m

-- The end of the line, a newline or the terminator.
unfoldable pub line_end : ℕ → ℕ → Memory → Option ℕ
line_end zero ptr m = none
line_end (suc fuel) ptr m =
    let rest : Option ℕ = line_end fuel (ptr + 1) m in
    if m ptr == 0 || m ptr == 10 then some ptr else rest

-- Symbol `current` is written, if the array has it.
unfoldable pub add_symbol : ℕ → ℕ → ℕ → SymbolTable → Result SymbolTable
add_symbol current addr name t =
    if ltb current (length t.symbols)
    then ok (record t {
      symbols = set t.symbols current (record { address = addr; name = name });
      lowest_addr = if ltb addr t.lowest_addr then addr else t.lowest_addr;
      highest_addr = if ltb t.highest_addr addr then addr else t.highest_addr;
    })
    else stop fault

-- The rest of a line behind its address, with the newline at `stop_at` replaced.
unfoldable pub finish_line : ℕ → ℕ → ℕ → ℕ → SymbolTable → Result (ℕ × ℕ × SymbolTable)
unfolding add_symbol
finish_line stop_at current addr name t = add_symbol current addr name t >>= λ t'.
    ok (stop_at + 1, addr, record t' { text = store t'.text stop_at 0 })

-- One round of the loop over the lines: where the next line starts, its address and the table.
unfoldable pub load_line : ℕ → ℕ → ℕ → ℕ → SymbolTable → Option (Result (ℕ × ℕ × SymbolTable))
unfolding read_hex line_end finish_line
load_line fuel ptr current addr t = elim (read_hex 16 addr ptr t.text) [
  | stop s ↦ some (stop s)
  | ok addr' ↦ elim (line_end fuel (ptr + 18) t.text) [
    | none ↦ none
    | some stop_at ↦ some (finish_line stop_at current addr' (ptr + 18) t)
  ]
]

unfoldable pub load_lines : ℕ → ℕ → ℕ → ℕ → ℕ → SymbolTable → Option (Result SymbolTable)
unfolding load_line
load_lines zero ptr end current addr t = none
load_lines (suc fuel) ptr end current addr t =
    let next : Option (Result SymbolTable) = elim (load_line (suc fuel) ptr current addr t) [
      | none ↦ none
      | some (stop s) ↦ some (stop s)
      | some (ok r) ↦ load_lines fuel (r.0) end (current + 1) (r.1) (r.2)
    ] in
    if ltb ptr end then next else some (ok t)

-- `load` behind the count of the symbols.
unfoldable pub load_counted :
    ℕ → ℕ → Memory → ℕ → Option (List KernelSymbol) → Option (Result SymbolTable)
unfolding strlen load_lines
load_counted fuel base m count none = some (stop panic)
load_counted fuel base m count (some symbols) = elim (strlen fuel base m) [
  | none ↦ none
  | some size ↦ load_lines fuel (base + 9) (base + size) 0 0 (record {
    symbols = symbols;
    symbol_count = count;
    lowest_addr = u64_max;
    highest_addr = 0;
    text = m;
  })
]

unfoldable pub load :
    (ℕ → Option (List KernelSymbol)) → ℕ → ℕ → Memory → Option (Result SymbolTable)
unfolding read_hex load_counted
load new_symbols fuel base m = elim (read_hex 8 0 base m) [
  | stop s ↦ some (stop s)
  | ok count ↦ load_counted fuel base m count (new_symbols count)
]

-- The loop of `addr2symbol`: `left` symbols from symbol `i` on.
unfoldable pub symbol_from : ℕ → ℕ → ℕ → List KernelSymbol → Result (Option ℕ)
symbol_from zero i addr symbols = ok none
symbol_from (suc left) i addr symbols =
    let rest : Result (Option ℕ) = symbol_from left (i + 1) addr symbols in
    in_range (get_elem? symbols (i + 1)) >>= λ next.
    if ltb addr next.address then ok (some i) else rest

-- `addr2symbol`: the index of the symbol.
unfoldable pub addr2symbol : ℕ → SymbolTable → Result (Option ℕ)
unfolding symbol_from
addr2symbol addr t =
    if ltb addr t.lowest_addr || ltb t.highest_addr addr
    then ok none
    else symbol_from t.symbol_count 0 addr t.symbols
