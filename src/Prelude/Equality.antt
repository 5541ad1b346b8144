-- ===== src/Prelude/Equality.antt =====
-- Types with a Boolean test of equality, and membership in a list by that test.
use Prim.Native.Nat.{ℕ}
use Prim.Native.String.{String}
use mathlib.Core.Bool.{Bool, true, false, ◌||◌}
use mathlib.Core.List.{List, [], ◌∷◌, ◌++◌}
use mathlib.Core.Logic.{◌↔◌}
use mathlib.Core.Path.{◌≡◌, refl}
use native.Mathlib.Omega.{arith}
use text.Mathlib.Text.{◌==◌ as same_text}
use text.Mathlib.TextEquality.{eq_iff}
use sink_production_suite.Prelude.Tests.{eqb, eqb_iff}

abbrev pub bool_beq : Bool → Bool → Bool
bool_beq true b = b
bool_beq false true = false
bool_beq false false = true

pub bool_beq_iff : (a b : Bool) → (bool_beq a b ≡ true) ↔ (a ≡ b)
bool_beq_iff a b = ground arith

-- What Go calls a comparable type.
pub record HasEquality {ℓ} (K : Type ℓ) : Type ℓ where
  pub is_same : K → K → Bool
  pub is_same_iff : (a b : K) → (is_same a b ≡ true) ↔ (a ≡ b)

instance abbrev pub string_eq : HasEquality String
string_eq = record { is_same = same_text; is_same_iff = eq_iff }

instance abbrev pub nat_eq : HasEquality ℕ
nat_eq = record { is_same = eqb; is_same_iff = eqb_iff }

module _ {ℓ} {K : Type ℓ} ⦃e : HasEquality K⦄ where
  infix 50 ◌==◌
  abbrev pub ◌==◌ : K → K → Bool
  j == k = e.is_same j k

  -- A key of the Go map whose keys are those of the list.
  abbrev pub contains : List K → K → Bool
  contains [] k = false
  contains (j ∷ ks) k = k == j || contains ks k

  pub is_same_refl : (k : K) → (k == k) ≡ true
  is_same_refl k = (e.is_same_iff k k).1 refl

  pub contains-append :
      (ks js : List K) (k : K) → contains (ks ++ js) k ≡ (contains ks k || contains js k)
  contains-append [] js k = refl
  contains-append (x ∷ ks) js k = ground (arith, contains-append ks js k)
