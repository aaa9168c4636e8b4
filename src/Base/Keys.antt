-- ===== src/Base/Keys.antt =====
-- Equality of keys: what `Eq` and `Hash` give the source's maps, sets and `==` tests.
use Prim.Native.Nat.{ℕ}
use Prim.Native.String.{String}
use mathlib.Core.Path.{◌≡◌, refl}
use mathlib.Core.Bool.{Bool, true, false}
use native.Mathlib.Decide.{ℕ_discrete}
use text.Mathlib.Text.{◌==◌ as str_eq}
use text.Mathlib.TextEquality.{eq_iff}

pub record Key {ℓ} (K : Type ℓ) : Type ℓ where
  pub discrete : Discrete K

infix 50 ◌==◌
abbrev pub ◌==◌ {ℓ} : {K : Type ℓ} ⦃key : Key K⦄ → K → K → Bool
◌==◌ ⦃key⦄ a b = elim (key.discrete a b) [ yes _ ↦ true | no _ ↦ false ]

decide_text : (s t : String) (b : Bool) → str_eq s t ≡ b → Dec (s ≡ t)
decide_text s t true e = yes ((eq_iff s t).0 e)
decide_text s t false e = no (λ p. cc (e, (eq_iff s t).1 p))

unfoldable pub String-discrete : Discrete String
unfolding decide_text
String-discrete s t = decide_text s t (str_eq s t) refl

instance abbrev pub nat_key : Key ℕ
nat_key = record { discrete = ℕ_discrete }

instance abbrev pub string_key : Key String
string_key = record { discrete = String-discrete }
