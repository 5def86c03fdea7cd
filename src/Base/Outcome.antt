-- ===== src/Base/Outcome.antt =====
-- The outcome of a Rust computation that may panic (an index out of bounds, an underflow) or, in
-- the model alone, may run out of fuel.
use mathlib.Core.Path.{◌≡◌}
use mathlib.Core.List.{List}
use mathlib.Core.Bool.{Bool, true, false}
use mathlib.Core.Option.{Option, none, some}
use Prim.Native.Nat.{ℕ, ◌-◌}
use luajit_rs.Base.Lists.{get_elem?}
use luajit_rs.Base.Tests.{ltb, if◌then◌else◌}

pub data Run {ℓ} (A : Type ℓ) : Type ℓ where
  ok : A → Run A
  panic : Run A
  no_fuel : Run A

infixl 5 ◌>>=◌
abbrev pub ◌>>=◌ {ℓ κ} : {A : Type ℓ} {B : Type κ} → Run A → (A → Run B) → Run B
ok a >>= f = f a
panic >>= f = panic
no_fuel >>= f = no_fuel

-- The code ends normally, with a result that satisfies `P`.
abbrev pub Returns {ℓ κ} : {A : Type ℓ} → Run A → (A → Type κ) → Type (ℓ ⊔ κ)
Returns {A = A} m P = (a : A) × (m ≡ ok a) × P a

abbrev pub unwrap {ℓ} : {A : Type ℓ} → Option A → Run A
unwrap none = panic
unwrap (some a) = ok a

-- `xs[i]`
abbrev pub at {ℓ} : {A : Type ℓ} → List A → ℕ → Run A
at xs i = unwrap (get_elem? xs i)

-- `a - b` on an unsigned type, where an underflow panics
abbrev pub sub : ℕ → ℕ → Run ℕ
sub a b = if ltb a b then panic else ok (a - b)

-- A lookup behind a guard returns only what the lookup finds.
pub guarded-eq-ok {ℓ} :
    {A : Type ℓ} (t : Bool) (o : Option A) {a : A}
    → (if t then unwrap o else panic) ≡ ok a
    → o ≡ some a
guarded-eq-ok true (some a) h = cc
guarded-eq-ok true none h = cc
guarded-eq-ok false o h = cc
