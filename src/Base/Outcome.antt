-- ===== src/Base/Outcome.antt =====
-- The outcome of kernel code: a value, or a stop.
use mathlib.Core.Path.{◌≡◌, refl}
use mathlib.Core.Bool.{Bool, true, false}
use epsilon_os.Base.Tests.{if◌then◌else◌}
use mathlib.Core.Option.{Option, none, some}

-- Why the code does not go on: `panic` was called (an `assert` that fails calls it too), an access
-- left the array or mapping that it is meant for, which C++ leaves undefined, the processor was
-- halted for good, or the fuel of a loop of the model ran out.
pub data Stop : Type 0 where
  panic : Stop
  fault : Stop
  halted : Stop
  spent : Stop

pub data Result {ℓ} (A : Type ℓ) : Type ℓ where
  stop : Stop → Result A
  ok : A → Result A

module _ {ℓ κ} {A : Type ℓ} {B : Type κ} where
  infixl 5 ◌>>=◌
  -- What follows a stop is not run.
  abbrev pub ◌>>=◌ : Result A → (A → Result B) → Result B
  stop s >>= next = stop s
  ok a >>= next = next a

  -- A sequence that returns has run both of its parts.
  pub >>=-eq-ok :
      (first : Result A) (next : A → Result B) {b : B}
      → (first >>= next) ≡ ok b
      → (a : A) × (first ≡ ok a) × (next a ≡ ok b)
  >>=-eq-ok (stop s) next returns = cc
  >>=-eq-ok (ok a) next returns = (a, refl, returns)

infixl 5 ◌>>◌
abbrev pub ◌>>◌ {κ} : {B : Type κ} → Result (Unit {0}) → Result B → Result B
check >> rest = check >>= λ _. rest

-- `assert(b)`.
abbrev pub assert : Bool → Result (Unit {0})
assert true = ok tt
assert false = stop panic

-- A read that must lie in its array.
abbrev pub in_range {ℓ} : {A : Type ℓ} → Option A → Result A
in_range none = stop fault
in_range (some a) = ok a

-- A run that returns with `P`, or that panics; it neither leaves an array nor runs out of fuel.
abbrev pub PanicsOr {ℓ} : {A : Type ℓ} → (A → Type 0) → Result A → Type 0
PanicsOr P (ok a) = P a
PanicsOr P (stop panic) = Unit
PanicsOr P (stop fault) = ⊥
PanicsOr P (stop halted) = ⊥
PanicsOr P (stop spent) = ⊥

module _ {ℓ κ} {A : Type ℓ} {B : Type κ} (P : A → Type 0) (Q : B → Type 0) where
  pub >>=-PanicsOr :
      (first : Result A) (next : A → Result B)
      → PanicsOr P first
      → ((a : A) → P a → PanicsOr Q (next a))
      → PanicsOr Q (first >>= next)
  >>=-PanicsOr (ok a) next h then_ = then_ a h
  >>=-PanicsOr (stop panic) next h then_ = tt
  >>=-PanicsOr (stop fault) next h then_ = elim h [ ]
  >>=-PanicsOr (stop halted) next h then_ = elim h [ ]
  >>=-PanicsOr (stop spent) next h then_ = elim h [ ]

module _ {ℓ} {A : Type ℓ} (P : A → Type 0) where
  pub if-PanicsOr :
      (b : Bool) (this that : Result A)
      → PanicsOr P this
      → PanicsOr P that
      → PanicsOr P (if b then this else that)
  if-PanicsOr true this that h g = h
  if-PanicsOr false this that h g = g

-- A run that returns with `P`, or that panics in the case `N`.
abbrev pub PanicsIf {ℓ} : {A : Type ℓ} → Type 0 → (A → Type 0) → Result A → Type 0
PanicsIf N P (ok a) = P a
PanicsIf N P (stop panic) = N
PanicsIf N P (stop fault) = ⊥
PanicsIf N P (stop halted) = ⊥
PanicsIf N P (stop spent) = ⊥

module _ {ℓ κ} {A : Type ℓ} {B : Type κ} (N M : Type 0) (P : A → Type 0) (Q : B → Type 0) where
  pub >>=-PanicsIf :
      (first : Result A) (next : A → Result B)
      → PanicsIf N P first
      → (N → M)
      → ((a : A) → P a → PanicsIf M Q (next a))
      → PanicsIf M Q (first >>= next)
  >>=-PanicsIf (ok a) next h panics then_ = then_ a h
  >>=-PanicsIf (stop panic) next h panics then_ = panics h
  >>=-PanicsIf (stop fault) next h panics then_ = elim h [ ]
  >>=-PanicsIf (stop halted) next h panics then_ = elim h [ ]
  >>=-PanicsIf (stop spent) next h panics then_ = elim h [ ]

module _ {ℓ} {A : Type ℓ} (N : Type 0) (P : A → Type 0) where
  pub if-PanicsIf :
      (b : Bool) (this that : Result A)
      → (b ≡ true → PanicsIf N P this)
      → (b ≡ false → PanicsIf N P that)
      → PanicsIf N P (if b then this else that)
  if-PanicsIf true this that h g = h refl
  if-PanicsIf false this that h g = g refl

  -- A run that does not panic in that case returns.
  pub PanicsIf-ok : (r : Result A) → PanicsIf N P r → (N → ⊥) → (a : A) × (r ≡ ok a) × P a
  PanicsIf-ok (ok a) h never = (a, refl, h)
  PanicsIf-ok (stop panic) h never = elim (never h) [ ]
  PanicsIf-ok (stop fault) h never = elim h [ ]
  PanicsIf-ok (stop halted) h never = elim h [ ]
  PanicsIf-ok (stop spent) h never = elim h [ ]

module _ {ℓ} {A : Type ℓ} (N M : Type 0) (P Q : A → Type 0) where
  pub PanicsIf-map :
      (N → M) → ((a : A) → P a → Q a) → (r : Result A) → PanicsIf N P r → PanicsIf M Q r
  PanicsIf-map panics f (ok a) h = f a h
  PanicsIf-map panics f (stop panic) h = panics h
  PanicsIf-map panics f (stop fault) h = elim h [ ]
  PanicsIf-map panics f (stop halted) h = elim h [ ]
  PanicsIf-map panics f (stop spent) h = elim h [ ]
