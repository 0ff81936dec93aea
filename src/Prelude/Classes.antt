-- ===== src/Prelude/Classes.antt =====
-- Equality tests as an interface, with instances for numbers and texts.
use Prim.Native.Nat.{ℕ}
use Prim.Native.String.{String}
use mathlib.Core.Bool.{Bool, true}
use mathlib.Core.Logic.{◌↔◌}
use mathlib.Core.Path.{◌≡◌, refl}
use text.Mathlib.Text.{◌==◌ as str_eq}
use text.Mathlib.TextEquality.{eq_iff}
use sqlite_wasm.Prelude.Tests.{eqb, eqb_iff}

pub record Eq {ℓ} (K : Type ℓ) : Type ℓ where
  pub same : K → K → Bool
  pub beq_iff : (j k : K) → (same j k ≡ true) ↔ (j ≡ k)

instance abbrev pub string_eq : Eq String
string_eq = record { same = str_eq; beq_iff = eq_iff }

instance abbrev pub nat_eq : Eq ℕ
nat_eq = record { same = eqb; beq_iff = eqb_iff }

infix 50 ◌==◌
abbrev pub ◌==◌ {ℓ} : {K : Type ℓ} ⦃eq : Eq K⦄ → K → K → Bool
◌==◌ ⦃eq⦄ j k = eq.same j k

pub beq_refl {ℓ} : {K : Type ℓ} ⦃eq : Eq K⦄ (k : K) → (k == k) ≡ true
beq_refl ⦃eq⦄ k = (eq.beq_iff k k).1 refl
