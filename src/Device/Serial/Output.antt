-- ===== src/Device/Serial/Output.antt =====
-- What the port of kernel/src/dev/uart.cpp sends.
use epsilon_os.Base.{
  ℕ, zero, suc, ◌+◌, ◌<◌, ◌≡◌, ◌∙◌, refl, ap, true, List, [], ◌∷◌, ok, ◌==◌, if◌then◌else◌, to_u8,
}
use epsilon_os.Device.Bus.{Place, memory, port, msr, Access, fetched, stored, Bus}
use epsilon_os.Device.Bus.Polling.{repeated, waited, poll-returns}
use epsilon_os.Device.Serial.{uart_port, can_send, write_char, write_text}

-- The bytes stored to the data port, the last one first.
abbrev pub bytes_sent : List Access → List ℕ
bytes_sent [] = []
bytes_sent (fetched p ∷ log) = bytes_sent log
bytes_sent (stored (memory a) v ∷ log) = bytes_sent log
bytes_sent (stored (msr a) v ∷ log) = bytes_sent log
bytes_sent (stored (port a) v ∷ log) =
    let rest : List ℕ = bytes_sent log in if a == uart_port then v ∷ rest else rest

bytes_sent-repeated :
    (n : ℕ) (p : Place) (log : List Access)
    → bytes_sent (repeated n (fetched p) log) ≡ bytes_sent log
bytes_sent-repeated zero p log = refl
bytes_sent-repeated (suc n) p log = bytes_sent-repeated n p (fetched p ∷ log)

-- Characters one after the other behind those that were sent.
abbrev pub behind : List ℕ → List ℕ → List ℕ
behind [] sent = sent
behind (c ∷ cs) sent = behind cs (to_u8 c ∷ sent)

-- Whenever it is asked, the port gets ready to send within the fuel.
abbrev pub GetsReady : ℕ → (ℕ → Place → ℕ) → Type 0
GetsReady fuel answers =
    (t : ℕ) → (j : ℕ) × (j < fuel) × (can_send (answers (t + j) (port (uart_port + 5))) ≡ true)

-- The bus `b'` is behind `b` with these characters sent.
abbrev pub Sends : List ℕ → Bus → Bus → Type 0
Sends cs b b' = (bytes_sent b'.log ≡ behind cs (bytes_sent b.log)) × (b'.answers ≡ b.answers)

pub write_char-Sends :
    (fuel c : ℕ) (b : Bus)
    → GetsReady fuel b.answers
    → (b' : Bus) × (write_char fuel true c b ≡ ok (tt, b')) × Sends (c ∷ []) b b'
unfolding write_char
write_char-Sends fuel c b ready =
    let p : Place = port (uart_port + 5) in
    let (j, soon, ends) = ready b.time in
    let (n, _, _, returns) = poll-returns fuel j can_send p b soon ends in
    let w : Bus = waited (suc n) p b in
    let b' : Bus = record w {
      time = w.time + 1;
      log = stored (port uart_port) (to_u8 c) ∷ w.log;
    } in
    (
      b',
      rw returns refl,
      (ap (λ (l : List ℕ). to_u8 c ∷ l) (bytes_sent-repeated (suc n) p b.log), refl),
    )

-- On an initialized port that always gets ready again, the write of a text returns, and it has sent
-- the characters of the text, as bytes and in their order.
pub write_text-in_order :
    (fuel : ℕ) (cs : List ℕ) (b : Bus)
    → GetsReady fuel b.answers
    → (b' : Bus) × (write_text fuel true cs b ≡ ok (tt, b'))
      × (bytes_sent b'.log ≡ behind cs (bytes_sent b.log))
      × (b'.answers ≡ b.answers)
unfolding write_text
write_text-in_order fuel [] b ready = (b, refl, refl, refl)
write_text-in_order fuel (c ∷ cs) b ready =
    let (b1, returns, (sent, same)) = write_char-Sends fuel c b ready in
    let (b2, more, sent_more, same_more) =
      write_text-in_order fuel cs b1 (λ t. rw same (ready t)) in
    (b2, rw returns more, sent_more ∙ ap (behind cs) sent, same_more ∙ same)
