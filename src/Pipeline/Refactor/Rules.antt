-- ===== src/Pipeline/Refactor/Rules.antt =====
-- Postconditions of code that may raise: they speak of a result only.
use mathlib.Core.Path.{◌≡◌, refl, subst}
use refactor_tradeoffs.Base.{
  Bool, true, false, if◌then◌else◌, Result, ok, raised, Exec, continue, ◌>>=◌,
}

abbrev pub Holds {ℓ κ μ} : {A : Type ℓ} {S : Type κ} → (A → S → Type μ) → Result A × S → Type μ
Holds Q (ok a, s) = Q a s
Holds Q (raised e, s) = Unit

module _ {ℓ κ} {A : Type ℓ} {S : Type κ} where
  pub Holds-any : (r : Result A × S) → Holds (λ _ _. Unit {0}) r
  Holds-any (ok a, s) = tt
  Holds-any (raised e, s) = tt

module _ {ℓ κ μ} {A : Type ℓ} {S : Type κ} where
  pub Holds-if :
      (Q : A → S → Type μ) (b : Bool) (m n : Exec S A) (s : S)
      → Holds Q (m s)
      → Holds Q (n s)
      → Holds Q ((if b then m else n) s)
  Holds-if Q true m n s h k = h
  Holds-if Q false m n s h k = k

  pub Holds-weaken :
      (P Q : A → S → Type μ) (r : Result A × S)
      → ((a : A) (s : S) → P a s → Q a s)
      → Holds P r
      → Holds Q r
  Holds-weaken P Q (ok a, s) k h = k a s h
  Holds-weaken P Q (raised e, s) k h = tt

module _ {ℓ κ μ ν} {A : Type ℓ} {B : Type κ} {S : Type μ} where
  Holds-continue :
      (P : A → S → Type ν) (Q : B → S → Type ν) (r : Result A) (t : S) (f : A → Exec S B)
      → Holds P (r, t)
      → ((a : A) (u : S) → P a u → Holds Q (f a u))
      → Holds Q (continue r f t)
  Holds-continue P Q (ok a) t f h k = k a t h
  Holds-continue P Q (raised e) t f h k = tt

  -- A block keeps what its rest keeps from each result of its first statement.
  pub Holds-bind :
      (P : A → S → Type ν) (Q : B → S → Type ν) (m : Exec S A) (f : A → Exec S B) (s : S)
      → Holds P (m s)
      → ((a : A) (t : S) → P a t → Holds Q (f a t))
      → Holds Q ((m >>= f) s)
  Holds-bind P Q m f s = Holds-continue P Q (m s).0 (m s).1 f

module _ {ℓ κ μ} {A : Type ℓ} {S : Type κ} (Q : A → S → Type μ) where
  -- A postcondition of a run that returned.
  pub Holds-returned : (m : Result A × S) {a : A} {t : S} → Holds Q m → m ≡ (ok a, t) → Q a t
  Holds-returned m h e = subst (Holds Q) e h

module _ {ℓ κ} {A : Type ℓ} {S : Type κ} where
  -- A run that returned did so.
  pub Holds-self : (m : Result A × S) → Holds (λ a s. m ≡ (ok a, s)) m
  Holds-self (ok a, s) = refl
  Holds-self (raised e, s) = tt
