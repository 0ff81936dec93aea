-- ===== src/Prelude/Chains.antt =====
-- Chains of steps that may fail.
use mathlib.Core.Option.{Option, none, some}

-- `a.and_then(f)` on optional values: `none` is an exception.
infixl 5 ◌>>=◌
abbrev pub ◌>>=◌ {ℓ κ} : {A : Type ℓ} {B : Type κ} → Option A → (A → Option B) → Option B
none >>= f = none
some a >>= f = f a
