-- ===== src/Device/Bus.antt =====
-- The registers that drivers read and write: memory-mapped ones, I/O ports (kernel/src/io/io.cpp)
-- and model-specific ones (kernel/include/arch/msr.hpp).
--
-- What a device answers is not in the kernel: it is the function `answers` of the number of accesses
-- so far and of the place. The accesses are logged, the last one first.
pub mod Polling
use epsilon_os.Base.{
  ℕ, zero, suc, ◌+◌, ◌*◌, ◌%◌, ◌^◌, Bool, true, false, List, [], ◌∷◌, Result, ok, stop, panic,
  spent, if◌then◌else◌, shr, to_u32,
}

pub data Place : Type 0 where
  memory : ℕ → Place
  port : ℕ → Place
  msr : ℕ → Place

pub data Access : Type 0 where
  fetched : Place → Access
  stored : Place → ℕ → Access

pub record Bus : Type 0 where
  pub answers : ℕ → Place → ℕ
  pub time : ℕ
  pub log : List Access

abbrev pub Io : Type 0 → Type 0
Io A = Bus → Result (A × Bus)

-- What follows an outcome.
abbrev pub go_on : {A B : Type 0} → Result (A × Bus) → (A → Io B) → Result (B × Bus)
go_on (stop s) f = stop s
go_on (ok (a, b)) f = f a b

infixl 5 ◌>>=◌ ◌>>◌
abbrev pub ◌>>=◌ : {A B : Type 0} → Io A → (A → Io B) → Io B
◌>>=◌ m f b = go_on (m b) f

abbrev pub ◌>>◌ : {B : Type 0} → Io (Unit {0}) → Io B → Io B
m >> k = m >>= λ _. k

abbrev pub give : {A : Type 0} → A → Io A
give a b = ok (a, b)

abbrev pub halt_with : {A : Type 0} → Result A → Io A
halt_with (stop s) b = stop s
halt_with (ok a) b = ok (a, b)

abbrev pub check : Bool → Io (Unit {0})
check true b = ok (tt, b)
check false b = stop panic

-- One access.
unfoldable pub fetch : Place → Io ℕ
fetch p b = ok (b.answers b.time p, record b { time = b.time + 1; log = fetched p ∷ b.log })

unfoldable pub put : Place → ℕ → Io (Unit {0})
put p v b = ok (tt, record b { time = b.time + 1; log = stored p v ∷ b.log })

-- `in8`, `out8` and the forms of `MSR::read` and `MSR::write` of kernel/include/arch/msr.hpp.
unfoldable pub in8 : ℕ → Io ℕ
unfolding fetch
in8 p b = fetch (port p) b

unfoldable pub out8 : ℕ → ℕ → Io (Unit {0})
unfolding put
out8 p v b = put (port p) v b

unfoldable pub msr_read : ℕ → Io ℕ
unfolding fetch
msr_read m b = fetch (msr m) b

-- The two halves go to EDX and EAX, and `wrmsr` joins them.
unfoldable pub msr_write_halves : ℕ → ℕ → ℕ → Io (Unit {0})
unfolding put
msr_write_halves m low high b = put (msr m) (to_u32 low + 2 ^ 32 * to_u32 high) b

unfoldable pub msr_write : ℕ → ℕ → Io (Unit {0})
unfolding msr_write_halves
msr_write m v b = msr_write_halves m v (shr v 32) b

-- `while (!done(read)) ;` with fuel.
unfoldable pub poll : ℕ → (ℕ → Bool) → Place → Io ℕ
unfolding fetch
poll zero done p b = stop spent
poll (suc fuel) done p b =
    let v : ℕ = b.answers b.time p in
    let b' : Bus = record b { time = b.time + 1; log = fetched p ∷ b.log } in
    let more : Result (ℕ × Bus) = poll fuel done p b' in if done v then ok (v, b') else more
