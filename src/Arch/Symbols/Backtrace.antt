-- ===== src/Arch/Symbols/Backtrace.antt =====
-- `SymbolTable::backtrace` of kernel/src/arch/ksyms.cpp: the lines of a stack trace.
--
-- The stack is byte memory, a frame is the address of the caller's frame and of the return address,
-- and the loop starts at the frame that the processor's RBP holds.
use epsilon_os.Base.{
  ℕ, zero, suc, ◌+◌, ◌≡◌, ◌≢◌, refl, Bool, true, false, not, ◌||◌, Option, none, some, List, [],
  ◌∷◌, Result, ok, ◌>>=◌, in_range, get_elem?, take, ◌==◌, if◌then◌else◌, sub64, ne→==, ◌<◌, ◌^◌,
  ◌⊎◌, inl, inr, arith, stop, length, get_or, get_elem?-eq-get_or, lt→ltb, le→ltb,
}
use native.Mathlib.Decide.{dec_lt}
use epsilon_os.CString.{Memory}
use epsilon_os.Acpi.Bytes.{le64}
use epsilon_os.Arch.Symbols.{KernelSymbol, SymbolTable, addr2symbol}
use epsilon_os.Arch.Symbols.Lookup.{
  IsLast, Holds, IsSpanned, IsAscending, address_at, addr2symbol-Holds,
}

-- A line: the address, and the symbol's name with the offset in it where there is a symbol.
pub data TraceLine : Type 0 where
  symbolized : ℕ → ℕ → ℕ → TraceLine
  bare : ℕ → TraceLine

-- `MAX_SYMBOL_TRACE`.
abbrev pub max_symbol_trace : ℕ
max_symbol_trace = 64

abbrev pub line_at : ℕ → SymbolTable → Option ℕ → Result TraceLine
line_at rip t none = ok (bare rip)
line_at rip t (some i) =
    in_range (get_elem? t.symbols i) >>= λ s. ok (symbolized rip s.name (sub64 rip s.address))

unfoldable pub trace_line : ℕ → SymbolTable → Result TraceLine
trace_line rip t = addr2symbol rip t >>= line_at rip t

-- The loop: `left` more lines at most.
unfoldable pub trace_from : ℕ → ℕ → Memory → SymbolTable → Result (List TraceLine)
unfolding trace_line
trace_from zero stack m t = ok []
trace_from (suc left) stack m t =
    let more : Result (List TraceLine) = trace_line (le64 m (stack + 8)) t >>= λ line.
    trace_from left (le64 m stack) m t >>= λ lines. ok (line ∷ lines) in
    if stack == 0 || le64 m (stack + 8) == 0 then ok [] else more

unfoldable pub backtrace : Bool → ℕ → Memory → SymbolTable → Result (List TraceLine)
unfolding trace_from
backtrace initialized rbp m t =
    if not initialized then ok [] else trace_from max_symbol_trace rbp m t

-- From `stack` on, the frames of the callers lie in the memory, with these return addresses; the last
-- one has no caller.
abbrev pub IsChain : Memory → ℕ → List ℕ → Type 0
IsChain m stack [] = stack ≡ 0
IsChain m stack (rip ∷ rips) =
    (stack ≢ 0) × (rip ≢ 0) × (le64 m (stack + 8) ≡ rip) × IsChain m (le64 m stack) rips

-- The name of symbol `i`.
abbrev pub name_at : List KernelSymbol → ℕ → ℕ
name_at symbols i = (get_or symbols i (record { address = 0; name = 0 })).name

-- A line for a return address: it names the last symbol that starts at or below it, with the distance
-- from there, or no symbol where the address lies outside of all of them.
abbrev pub IsLine : SymbolTable → ℕ → TraceLine → Type 0
IsLine t rip (symbolized a name offset) =
    (a ≡ rip)
    × ((i : ℕ) × IsLast t.symbols rip i
        × (name_at t.symbols i ≡ name)
        × (address_at t.symbols i + offset ≡ rip))
IsLine t rip (bare a) = (a ≡ rip) × ((rip < t.lowest_addr) ⊎ (t.highest_addr < rip))

abbrev pub AreLines : SymbolTable → List ℕ → List TraceLine → Type 0
AreLines t [] [] = Unit
AreLines t (rip ∷ rips) (line ∷ lines) = IsLine t rip line × AreLines t rips lines
AreLines t _ _ = ⊥

-- 64-bit return addresses, none of them the highest address of the symbols.
abbrev pub AllTraceable : SymbolTable → List ℕ → Type 0
AllTraceable t [] = Unit
AllTraceable t (rip ∷ rips) = (rip < 2 ^ 64) × (rip ≢ t.highest_addr) × AllTraceable t rips

Holds-some :
    (symbols : List KernelSymbol) (rip : ℕ) (r : Result (Option ℕ))
    → Holds symbols rip r
    → (i : ℕ) × (r ≡ ok (some i)) × IsLast symbols rip i
Holds-some symbols rip (ok (some i)) h = (i, refl, h)
Holds-some symbols rip (ok none) h = absurd h
Holds-some symbols rip (stop s) h = absurd h

module _ (t : SymbolTable) (spans : IsSpanned t) (ascends : IsAscending t.symbols) where
  symbol_line :
      (rip i : ℕ)
      → addr2symbol rip t ≡ ok (some i)
      → i < length t.symbols
      → trace_line rip t
        ≡ ok (symbolized rip (name_at t.symbols i) (sub64 rip (address_at t.symbols i)))
  unfolding trace_line
  symbol_line rip i found inside =
      rw (found, get_elem?-eq-get_or t.symbols i (record { address = 0; name = 0 }) inside) refl

  trace_line-IsLine :
      (rip : ℕ)
      → rip < 2 ^ 64
      → rip ≢ t.highest_addr
      → (line : TraceLine) × (trace_line rip t ≡ ok line) × IsLine t rip line
  unfolding trace_line addr2symbol
  trace_line-IsLine rip small differs = elim (dec_lt rip t.lowest_addr) [
    | yes p ↦ (bare rip, rw (lt→ltb rip t.lowest_addr p) refl, (refl, inl p))
    | no p ↦ elim (dec_lt t.highest_addr rip) [
      | yes q ↦ (
        bare rip,
        rw (le→ltb rip t.lowest_addr (omega arith), lt→ltb t.highest_addr rip q) refl,
        (refl, inr q),
      )
      | no q ↦
          let (i, found, last) =
            Holds-some t.symbols rip (addr2symbol rip t)
              (addr2symbol-Holds t rip spans ascends (omega arith) (omega arith)) in
          (
            symbolized rip (name_at t.symbols i) (sub64 rip (address_at t.symbols i)),
            symbol_line rip i found (last.0),
            (refl, (i, last, refl, omega (arith, last.1))),
          )
    ]
  ]

  -- At most `left` lines, for the first return addresses.
  trace_from-AreLines :
      (left stack : ℕ) (rips : List ℕ) (m : Memory)
      → IsChain m stack rips
      → AllTraceable t rips
      → (lines : List TraceLine) × (trace_from left stack m t ≡ ok lines)
        × AreLines t (take left rips) lines
  unfolding trace_from
  trace_from-AreLines zero stack rips m c traceable = ([], refl, tt)
  trace_from-AreLines (suc left) stack [] m c traceable = ([], rw c refl, tt)
  trace_from-AreLines (suc left) stack (rip ∷ rips) m (nonnull, there, holds, rest) traceable =
      let (line, one, is_line) = trace_line-IsLine rip (traceable.0) (traceable.1) in
      let (lines, more, are_lines) =
        trace_from-AreLines left (le64 m stack) rips m rest (traceable.2) in
      (
        line ∷ lines,
        rw (holds, ne→== stack 0 nonnull, ne→== rip 0 there, one, more) refl,
        (is_line, are_lines),
      )

  -- With the symbols loaded, sorted by their addresses, and a stack whose frames form a chain to a last
  -- one without a caller, with 64-bit return addresses that are not the highest address of a symbol,
  -- `backtrace` ends and gives a line for each of the first 64 return addresses, in their order: the
  -- last symbol that starts at or below the address and the distance from there, or the bare address
  -- where it lies outside of the symbols. With no symbols loaded it gives no line.
  pub backtrace-AreLines :
      (rbp : ℕ) (rips : List ℕ) (m : Memory)
      → IsChain m rbp rips
      → AllTraceable t rips
      → ((lines : List TraceLine) × (backtrace true rbp m t ≡ ok lines)
          × AreLines t (take max_symbol_trace rips) lines)
        × (backtrace false rbp m t ≡ ok [])
  unfolding backtrace
  backtrace-AreLines rbp rips m c traceable =
      (trace_from-AreLines max_symbol_trace rbp rips m c traceable, refl)
