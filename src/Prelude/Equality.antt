-- ===== src/Prelude/Equality.antt =====
-- Decidable equality as an interface: `==` of the source.
use Prim.Native.Nat.{ℕ}
use mathlib.Core.Path.{◌≡◌, refl}
use mathlib.Core.Logic.{◌↔◌, ◌≢◌}
use mathlib.Core.Bool.{Bool, true, false}
use native.Mathlib.Omega.{arith}
use rust_bitcoin_node.Prelude.Tests.{nat_beq, nat_beq_iff}

-- `equals` is the test, and it decides the equality.
pub record Eq {ℓ} (K : Type ℓ) : Type ℓ where
  pub equals : (left right : K) → Bool
  pub decides : (left right : K) → (equals left right ≡ true) ↔ (left ≡ right)

module _ {ℓ} {K : Type ℓ} ⦃e : Eq K⦄ where
  infix 50 ◌==◌
  abbrev pub ◌==◌ : K → K → Bool
  left == right = e.equals left right

instance abbrev pub nat_eq : Eq ℕ
nat_eq = record { decides = nat_beq_iff; equals = nat_beq }

module _ {ℓ} {A : Type ℓ} ⦃e : Eq A⦄ where
  pub beq_refl : (a : A) → (a == a) ≡ true
  beq_refl a = (e.decides a a).1 refl

  pub beq_ne : (a b : A) → a ≢ b → (a == b) ≡ false
  beq_ne a b h = ground (arith, e.decides a b)
