-- ===== src/Tests/Names.antt =====
-- kernel/src/arch/ksyms.cpp on two symbols.
use epsilon_os.Base.{ℕ, zero, suc, ◌<◌, ◌≤◌, ◌≡◌, refl, arith, [], ◌∷◌, ok, stop, fault, get_or}
use epsilon_os.CString.{Memory}
use epsilon_os.Arch.Symbols.{SymbolTable, addr2symbol, read_hex}
use epsilon_os.Arch.Symbols.Lookup.{
  Holds, IsAscending, IsSpanned, address_at, addr2symbol-Holds, addr2symbol-faults,
}
use epsilon_os.Arch.Symbols.Digits.{read_hex_lem}

abbrev pub two_symbols : SymbolTable
two_symbols = record {
  symbols = record { address = 0x1000; name = 18 } ∷ record { address = 0x2000; name = 44 } ∷ [];
  symbol_count = 2;
  lowest_addr = 0x1000;
  highest_addr = 0x2000;
  text = λ a. 0;
}

two_symbols-order : (k : ℕ) → k < 2 → address_at two_symbols.symbols k ≤ 0x2000
two_symbols-order zero h = omega arith
two_symbols-order (suc zero) h = omega arith
two_symbols-order (suc (suc k)) h = absurd (omega arith)

pub two_symbols-IsSpanned : IsSpanned two_symbols
two_symbols-IsSpanned = record {
  whole = refl;
  lowest = refl;
  highest = refl;
  order = two_symbols-order;
}

pub two_symbols-IsAscending : IsAscending two_symbols.symbols
two_symbols-IsAscending zero zero p q = omega arith
two_symbols-IsAscending zero (suc zero) p q = omega arith
two_symbols-IsAscending (suc j) zero p q = absurd (omega arith)
two_symbols-IsAscending (suc zero) (suc zero) p q = omega arith
two_symbols-IsAscending (suc (suc j)) (suc zero) p q = absurd (omega arith)
two_symbols-IsAscending j (suc (suc k)) p q = absurd (omega arith)

addr2symbol-Holds_example : Holds two_symbols.symbols 0x1234 (addr2symbol 0x1234 two_symbols)
addr2symbol-Holds_example =
    addr2symbol-Holds two_symbols 0x1234 two_symbols-IsSpanned two_symbols-IsAscending (omega arith)
      (omega arith)

addr2symbol-faults_example : addr2symbol 0x2000 two_symbols ≡ stop fault
addr2symbol-faults_example = addr2symbol-faults two_symbols 1 two_symbols-IsSpanned refl

-- "1f".
abbrev digits_text : Memory
digits_text a = get_or (49 ∷ 102 ∷ []) a 0

read_hex_lem_example : read_hex 2 0 0 digits_text ≡ ok 0x1f
read_hex_lem_example =
    read_hex_lem (1 ∷ 15 ∷ []) 0 0 digits_text (omega arith, (omega arith, tt)) (refl, (refl, tt))
      (omega arith)
