-- ===== src/Base/Dict.antt =====
-- Dicts in insertion order, as association lists.
use mathlib.Core.Path.{◌≡◌, refl}
use mathlib.Core.Bool.{Bool, true, false}
use mathlib.Core.Option.{Option, none, some}
use mathlib.Core.List.{List, [], ◌∷◌, ◌++◌}
use native.Mathlib.Omega.{arith}
use refactor_tradeoffs.Base.Tests.{if◌then◌else◌}
use refactor_tradeoffs.Base.Equality.{Eq, ◌==◌}

abbrev pub Dict {ℓ κ} : Type ℓ → Type κ → Type (ℓ ⊔ κ)
Dict K V = List (K × V)

module _ {ℓ κ} {K : Type ℓ} {V : Type κ} ⦃e : Eq K⦄ where
  unfoldable pub lookup : K → Dict K V → Option V
  lookup k [] = none
  lookup k ((j, v) ∷ d) = if k == j then some v else lookup k d

  -- `d[k] = v`
  unfoldable pub insert : K → V → Dict K V → Dict K V
  insert k v [] = (k, v) ∷ []
  insert k v ((j, w) ∷ d) = if k == j then (k, v) ∷ d else (j, w) ∷ insert k v d

  -- `d.get(k, default)`
  unfoldable pub lookup_or : V → K → Dict K V → V
  unfolding lookup
  lookup_or default k d = elim (lookup k d) [ none ↦ default | some v ↦ v ]

  -- `k in d`
  unfoldable pub has : K → Dict K V → Bool
  unfolding lookup
  has k d = elim (lookup k d) [ none ↦ false | some v ↦ true ]

  pub lookup-insert :
      (j k : K) (v : V) (d : Dict K V)
      → lookup j (insert k v d) ≡ (if j == k then some v else lookup j d)
  unfolding insert lookup
  lookup-insert j k v [] = refl
  lookup-insert j k v (_ ∷ d) = ground (arith, lookup-insert j k v d)

module _ {ℓ κ} {K : Type ℓ} {V : Type κ} ⦃e : Eq K⦄ where
  -- `d.setdefault(k, []).append(v)`
  unfoldable pub append_to : K → V → Dict K (List V) → Dict K (List V)
  append_to k v [] = (k, v ∷ []) ∷ []
  append_to k v ((j, vs) ∷ d) =
      if k == j then (j, vs ++ (v ∷ [])) ∷ d else (j, vs) ∷ append_to k v d

module _ {ℓ κ} {K : Type ℓ} {V : Type κ} ⦃e : Eq K⦄ where
  pub lookup_or-append_to :
      (j k : K) (v : V) (d : Dict K (List V))
      → lookup_or [] j (append_to k v d)
        ≡ (if j == k then lookup_or [] j d ++ (v ∷ []) else lookup_or [] j d)
  unfolding append_to lookup_or lookup
  lookup_or-append_to j k v [] = ground arith
  lookup_or-append_to j k v ((i, vs) ∷ d) = ground (arith, lookup_or-append_to j k v d)

  pub has-append_to :
      (j k : K) (v : V) (d : Dict K (List V))
      → has j (append_to k v d) ≡ (if j == k then true else has j d)
  unfolding append_to has lookup
  has-append_to j k v [] = ground arith
  has-append_to j k v ((i, vs) ∷ d) = ground (arith, has-append_to j k v d)

  pub has-insert :
      (j k : K) (v : V) (d : Dict K V) → has j (insert k v d) ≡ (if j == k then true else has j d)
  unfolding insert has lookup
  has-insert j k v [] = ground arith
  has-insert j k v ((i, w) ∷ d) = ground (arith, has-insert j k v d)
