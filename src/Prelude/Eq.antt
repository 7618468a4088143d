-- ===== src/Prelude/Eq.antt =====
-- What the keys of a map are compared with.
use Prim.Native.String.{String}
use mathlib.Core.Path.{◌≡◌}
use mathlib.Core.Logic.{◌↔◌}
use mathlib.Core.Bool.{Bool, true}
use text.Mathlib.Text.{◌==◌ as str_eq}
use text.Mathlib.TextEquality.{eq_iff}
use yes.Prelude.Int.{ℤ, int_eq, int_eq_iff}

-- A type of keys: a test, and that it finds the equal keys.
pub record Key {ℓ} (K : Type ℓ) : Type ℓ where
  pub same : K → K → Bool
  pub same_iff : (j k : K) → (same j k ≡ true) ↔ (j ≡ k)

infix 50 ◌==◌
abbrev pub ◌==◌ {ℓ} : {K : Type ℓ} ⦃key : Key K⦄ → K → K → Bool
◌==◌ ⦃key⦄ j k = key.same j k

instance abbrev pub eq_ℤ : Key ℤ
eq_ℤ = record { same = int_eq; same_iff = int_eq_iff }

instance abbrev pub eq_String : Key String
eq_String = record { same = str_eq; same_iff = eq_iff }
