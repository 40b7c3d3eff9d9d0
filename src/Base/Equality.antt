-- ===== src/Base/Equality.antt =====
-- Python's `==` and `in`, for every type whose equality can be decided.
use Prim.Native.Nat.{ℕ}
use mathlib.Core.Path.{◌≡◌, refl, ap₂}
use mathlib.Core.Logic.{ite}
use mathlib.Core.Bool.{Bool, true, false, ◌||◌}
use mathlib.Core.List.{List, [], ◌∷◌}
use native.Mathlib.Omega.{arith}
use native.Mathlib.Decide.{ℕ_discrete}

pub record Eq {ℓ} (A : Type ℓ) : Type ℓ where
  pub dec : Discrete A

module _ {ℓ} {A : Type ℓ} ⦃e : Eq A⦄ where
  infix 50 ◌==◌
  abbrev pub ◌==◌ : A → A → Bool
  a == b = ite (e.dec a b) true false

  abbrev pub contains : List A → A → Bool
  contains [] a = false
  contains (x ∷ xs) a = a == x || contains xs a

  pub eq_refl : (a : A) → (a == a) ≡ true
  eq_refl a = ground arith

  list_dec : Discrete (List A)
  list_dec [] [] = yes refl
  list_dec [] (b ∷ bs) = no (λ p. cc)
  list_dec (a ∷ xs) [] = no (λ p. cc)
  list_dec (a ∷ xs) (b ∷ bs) = elim (e.dec a b) [
    | yes p ↦ elim (list_dec xs bs) [ yes q ↦ yes (ap₂ ◌∷◌ p q) | no n ↦ no (λ r. n (cc)) ]
    | no n ↦ no (λ r. n (cc))
  ]

  instance unfoldable pub list_eq : Eq (List A)
  unfolding list_dec
  list_eq = record { dec = list_dec }

instance unfoldable pub nat_eq : Eq ℕ
unfolding ℕ_discrete
nat_eq = record { dec = ℕ_discrete }
