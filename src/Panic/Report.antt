-- ===== src/Panic/Report.antt =====
-- What a panic of kernel/src/panic.cpp gets out.
use epsilon_os.Base.{
  ℕ, ◌+◌, ◌≡◌, ◌∙◌, refl, sym, ap, ◌++◌, take, to_u8, true, List, [], ◌∷◌, inl, inr, Bool-cases, ok,
  stop, halted,
}
use epsilon_os.Arch.Ipi.{send_interrupt, broadcast, icr_low, icr_high}
use epsilon_os.Device.Bus.{Bus, memory, Access, stored, Io, ◌>>=◌}
use epsilon_os.Device.Interrupts.{ipi_abort_vector}
use epsilon_os.Device.LocalApic.{Apic}
use epsilon_os.Device.Serial.Output.{Sends, GetsReady, bytes_sent, behind, write_char-Sends}
use epsilon_os.Panic.{
  Tracing, print_out, print_lines, print_trace, write_registers, panic_report, panic_with,
}
use epsilon_os.Arch.Symbols.Lookup.{IsSpanned, IsAscending}
use epsilon_os.Arch.Symbols.Backtrace.{
  TraceLine, IsChain, AllTraceable, AreLines, max_symbol_trace, backtrace-AreLines,
}

print_out-Sends :
    (fuel : ℕ) (cs : List ℕ) (b : Bus)
    → GetsReady fuel b.answers
    → (b' : Bus) × (print_out fuel true cs b ≡ ok (tt, b')) × Sends cs b b'
unfolding print_out
print_out-Sends fuel [] b ready = (b, refl, (refl, refl))
print_out-Sends fuel (c ∷ cs) b ready =
    let (b1, returns, (sent, same)) = write_char-Sends fuel c b ready in
    let (b2, more, (sent_more, same_more)) = print_out-Sends fuel cs b1 (λ t. rw same (ready t)) in
    (b2, rw returns more, (sent_more ∙ ap (behind cs) sent, same_more ∙ same))

behind-append : (xs ys sent : List ℕ) → behind (xs ++ ys) sent ≡ behind ys (behind xs sent)
behind-append [] ys sent = refl
behind-append (x ∷ xs) ys sent = behind-append xs ys (to_u8 x ∷ sent)

-- The texts of lines, one after the other.
abbrev pub text_of : (TraceLine → List ℕ) → List TraceLine → List ℕ
text_of format [] = []
text_of format (line ∷ lines) = format line ++ text_of format lines

print_lines-Sends :
    (fuel : ℕ) (format : TraceLine → List ℕ) (lines : List TraceLine) (b : Bus)
    → GetsReady fuel b.answers
    → (b' : Bus) × (print_lines fuel true format lines b ≡ ok (tt, b'))
      × Sends (text_of format lines) b b'
unfolding print_lines
print_lines-Sends fuel format [] b ready = (b, refl, (refl, refl))
print_lines-Sends fuel format (line ∷ lines) b ready =
    let (b1, returns, (sent, same)) = print_out-Sends fuel (format line) b ready in
    let (b2, more, (sent_more, same_more)) =
      print_lines-Sends fuel format lines b1 (λ t. rw same (ready t)) in
    (
      b2,
      rw returns more,
      (
        sent_more
            ∙ ap (behind (text_of format lines)) sent
            ∙ sym (behind-append (format line) (text_of format lines) (bytes_sent b.log)),
        same_more ∙ same,
      ),
    )

-- The texts of a panic.
texts_out : ℕ → List ℕ → List ℕ → (TraceLine → List ℕ) → List TraceLine → Io (Unit {0})
unfolding print_out print_lines
texts_out fuel header message format lines = print_out fuel true header >>= λ _.
    print_out fuel true message >>= λ _. print_lines fuel true format lines

texts_out-sent :
    (fuel : ℕ) (header message : List ℕ) (format : TraceLine → List ℕ) (lines : List TraceLine)
    (b : Bus)
    → GetsReady fuel b.answers
    → (b' : Bus) × (texts_out fuel header message format lines b ≡ ok (tt, b'))
      × (bytes_sent b'.log
          ≡ behind (text_of format lines) (behind message (behind header (bytes_sent b.log))))
unfolding texts_out
texts_out-sent fuel header message format lines b ready =
    let (b1, first, (sent1, same1)) = print_out-Sends fuel header b ready in
    let (b2, second, (sent2, same2)) = print_out-Sends fuel message b1 (λ t. rw same1 (ready t)) in
    let (b3, third, (sent3, same3)) =
      print_lines-Sends fuel format lines b2 (λ t. rw (same2 ∙ same1) (ready t)) in
    (
      b3,
      rw (first, second) third,
      sent3 ∙ ap (behind (text_of format lines)) (sent2 ∙ ap (behind message) sent1),
    )

-- The command of the abort: no byte is sent by it.
abort_sent :
    (s : Apic) (b : Bus)
    → (commands : List (ℕ × ℕ)) × (b1 : Bus) × (send_interrupt s.enabled 0 broadcast
          ipi_abort_vector
        ≡ ok commands)
      × (write_registers s commands b ≡ ok (tt, b1))
      × (bytes_sent b1.log ≡ bytes_sent b.log)
      × (b1.answers ≡ b.answers)
unfolding write_registers send_interrupt
abort_sent s b = elim (Bool-cases s.enabled) [
  | inl e ↦
      let high : Access = stored (memory (s.lapic + icr_high)) 0 in
      let low : Access = stored (memory (s.lapic + icr_low)) 540926 in
      (
        (icr_high, 0) ∷ (icr_low, 540926) ∷ [],
        record b { time = b.time + 1 + 1; log = low ∷ high ∷ b.log },
        rw e refl,
        refl,
        refl,
        refl,
      )
  | inr e ↦ ([], b, rw e refl, refl, refl, refl)
]

-- With symbols sorted by their addresses, a stack whose frames form a chain to a last one without a
-- caller, and 64-bit return addresses that are not the highest address of a symbol, a panic on an
-- initialized serial port that always gets ready again sends the header, the message and the lines of
-- the first 64 return addresses, as bytes and in this order, whether the local controller is enabled or
-- not, and then halts the processor: the stack trace neither faults nor panics again.
pub panic_with-halts :
    (fuel : ℕ) (s : Apic) (header message : List ℕ) (tracing : Tracing) (rips : List ℕ) (b : Bus)
    → GetsReady fuel b.answers
    → tracing.loaded ≡ true
    → IsSpanned tracing.symbols
    → IsAscending tracing.symbols.symbols
    → IsChain tracing.stack tracing.rbp rips
    → AllTraceable tracing.symbols rips
    → (lines : List TraceLine) × AreLines tracing.symbols (take max_symbol_trace rips) lines
      × ((b' : Bus) × (panic_report fuel s true header message tracing b ≡ ok (tt, b'))
          × (bytes_sent b'.log
              ≡ behind
                  (text_of tracing.format lines)
                  (behind message (behind header (bytes_sent b.log))))
          × (panic_with fuel s true header message tracing b ≡ stop halted))
unfolding panic_with panic_report print_trace texts_out
panic_with-halts fuel s header message tracing rips b ready loaded spans ascends chain traceable =
    let ((lines, traced, are_lines), _) =
      backtrace-AreLines tracing.symbols spans ascends tracing.rbp rips tracing.stack chain
        traceable in
    let (commands, b1, sends, writes, sent, same) = abort_sent s b in
    let (b', prints, sent') =
      texts_out-sent fuel header message tracing.format lines b1 (λ t. rw same (ready t)) in
    let returns : panic_report fuel s true header message tracing b ≡ ok (tt, b') =
      rw (sends, writes, loaded, traced) prints in
    (
      lines,
      are_lines,
      (
        b',
        returns,
        sent'
            ∙ ap
                (λ (l : List ℕ).
                  behind (text_of tracing.format lines) (behind message (behind header l)))
                sent,
        rw returns refl,
      ),
    )
