-- ===== src/Arch/Ipi.antt =====
-- kernel/src/arch/ipi.cpp: inter-processor interrupts through the interrupt command register.
--
-- The bit fields of `ICR` are laid out from the lowest bit, as the compiler for x86-64 does. A call
-- returns the register writes that it makes, in their order.
use epsilon_os.Base.{
  ℕ, ◌+◌, ◌*◌, ◌/◌, ◌%◌, ◌^◌, ◌<◌, ◌≡◌, refl, arith, Bool, true, false, List, [], ◌∷◌, Result, ok,
  stop, panic, ◌==◌, if◌then◌else◌,
}

-- The fields that `send` writes; the others stay 0.
pub record Icr : Type 0 where
  pub vector : ℕ
  pub delivery_mode : ℕ
  pub dest_mode : ℕ
  pub level : ℕ
  pub trigger : ℕ
  pub dest_shorthand : ℕ
  pub dest : ℕ

-- Each field keeps as many bits as it has.
abbrev pub value_low : Icr → ℕ
value_low i =
    i.vector % 2 ^ 8
    + 2 ^ 8 * (i.delivery_mode % 2 ^ 3)
    + 2 ^ 11 * (i.dest_mode % 2)
    + 2 ^ 14 * (i.level % 2)
    + 2 ^ 15 * (i.trigger % 2)
    + 2 ^ 18 * (i.dest_shorthand % 2 ^ 2)

abbrev pub value_high : Icr → ℕ
value_high i = 2 ^ 24 * (i.dest % 2 ^ 8)

-- `IPI_SINGLE`, `IPI_BROADCAST`, `DESTMOD_ALL_WITH_SELF` and the two halves of the register.
abbrev pub single : ℕ
single = 0

abbrev pub broadcast : ℕ
broadcast = 1

abbrev pub all_with_self : ℕ
all_with_self = 2

abbrev pub icr_low : ℕ
icr_low = 0x300

abbrev pub icr_high : ℕ
icr_high = 0x310

abbrev blank : ℕ → ℕ → Icr
blank vector delvmod = record {
  vector = vector;
  delivery_mode = delvmod;
  dest_mode = 0;
  level = 0;
  trigger = 0;
  dest_shorthand = 0;
  dest = 0;
}

-- The `switch` on the kind of destination.
unfoldable pub aim : ℕ → ℕ → Icr → Result Icr
aim apicid dest icr =
    if dest == broadcast
    then ok (record icr { dest_shorthand = all_with_self })
    else if dest == single
    then ok (record icr { dest_mode = 0; dest = apicid })
    else stop panic

-- The last lines of `send`: the high half is written first, since the low one sends.
unfoldable pub fire : ℕ → ℕ → Result Icr → Result (List (ℕ × ℕ))
fire level trigger (stop s) = stop s
fire level trigger (ok icr) =
    let icr' : Icr = record icr { level = level; trigger = trigger } in
    ok ((icr_high, value_high icr') ∷ (icr_low, value_low icr') ∷ [])

unfoldable pub send : Bool → ℕ → ℕ → ℕ → ℕ → ℕ → ℕ → Result (List (ℕ × ℕ))
unfolding aim fire
send enabled apicid delvmod vector dest level trigger =
    if enabled then fire level trigger (aim apicid dest (blank vector delvmod)) else ok []

unfoldable pub send_interrupt : Bool → ℕ → ℕ → ℕ → Result (List (ℕ × ℕ))
unfolding send
send_interrupt enabled apicid dest vector = send enabled apicid 0 vector dest 1 0

-- What the processor reads from the command: vector, target and shorthand.
abbrev pub Sends : ℕ → ℕ → ℕ → Result (List (ℕ × ℕ)) → Type 0
Sends vector target shorthand (ok ((r, high) ∷ (s, low) ∷ [])) =
    (r ≡ icr_high)
    × (s ≡ icr_low)
    × (low % 256 ≡ vector)
    × (high / 2 ^ 24 ≡ target)
    × (low / 2 ^ 18 % 4 ≡ shorthand)
    × (low / 2 ^ 14 % 2 ≡ 1)
Sends vector target shorthand _ = ⊥

-- With the controller enabled, an interrupt for one processor is a command with its vector and
-- APIC id, and a broadcast is a command with the shorthand for all processors; in both the high
-- half is written before the low one.
pub send_interrupt-Sends :
    (apicid vector : ℕ)
    → apicid < 256
    → vector < 256
    → Sends vector apicid 0 (send_interrupt true apicid single vector)
      × Sends vector 0 all_with_self (send_interrupt true apicid broadcast vector)
unfolding send_interrupt
send_interrupt-Sends apicid vector h g = (
  (refl, refl, omega arith, omega arith, omega arith, omega arith),
  (refl, refl, omega arith, omega arith, omega arith, omega arith),
)

-- Another kind of destination panics, and nothing is sent while the controller is disabled.
pub send_interrupt-refused :
    (apicid dest vector : ℕ)
    → 1 < dest
    → (send_interrupt true apicid dest vector ≡ stop panic)
      × (send_interrupt false apicid dest vector ≡ ok [])
unfolding send_interrupt
send_interrupt-refused apicid dest vector h = ground arith
