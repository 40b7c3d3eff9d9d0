-- ===== src/Base/Counter.antt =====
-- `collections.Counter`: a dict of counts, with the order in which the keys came.
pub mod Common
use Prim.Native.Nat.{ℕ, zero, suc, ◌+◌, ◌-◌, ◌<◌, ◌≤◌, min}
use mathlib.Core.Path.{◌≡◌, refl}
use mathlib.Core.Bool.{Bool, true, false, ◌||◌}
use mathlib.Core.List.{List, [], ◌∷◌}
use native.Mathlib.Omega.{arith}
use refactor_tradeoffs.Base.Tests.{ltb, if◌then◌else◌}
use refactor_tradeoffs.Base.Equality.{Eq, ◌==◌}
use refactor_tradeoffs.Base.Lists.{length, All}
use refactor_tradeoffs.Base.Dict.{Dict}

abbrev pub Counter {ℓ} : Type ℓ → Type ℓ
Counter K = Dict K ℕ

module _ {ℓ} {K : Type ℓ} where
  -- The sum of a weight over the entries.
  unfoldable pub weigh : (K → ℕ → ℕ) → Counter K → ℕ
  weigh w [] = 0
  weigh w ((k, c) ∷ d) = w k c + weigh w d

  -- `sum(counter.values())`
  unfoldable pub total_count : Counter K → ℕ
  unfolding weigh
  total_count d = weigh (λ k c. c) d

  pub weigh-add :
      (w v : K → ℕ → ℕ) (d : Counter K) → weigh (λ k c. w k c + v k c) d ≡ weigh w d + weigh v d
  unfolding weigh
  weigh-add w v [] = refl
  weigh-add w v ((k, c) ∷ d) = omega (arith, weigh-add w v d)

  pub weigh_congr :
      (w v : K → ℕ → ℕ) (d : Counter K) → ((k : K) (c : ℕ) → w k c ≡ v k c) → weigh w d ≡ weigh v d
  unfolding weigh
  weigh_congr w v [] e = refl
  weigh_congr w v ((k, c) ∷ d) e = omega (arith, weigh_congr w v d e, e k c)

module _ {ℓ} {K : Type ℓ} ⦃e : Eq K⦄ where
  -- `counter[key]`, which is 0 for a key that is not there.
  unfoldable pub get : K → Counter K → ℕ
  get k [] = 0
  get k ((j, c) ∷ d) = if k == j then c else get k d

  -- `key in counter`
  unfoldable pub counted : K → Counter K → Bool
  counted k [] = false
  counted k ((j, c) ∷ d) = (k == j) || counted k d

  unfoldable pub increment : K → Counter K → Counter K
  increment k [] = (k, 1) ∷ []
  increment k ((j, c) ∷ d) =
      let rest = increment k d in if k == j then (j, c + 1) ∷ d else (j, c) ∷ rest

  unfoldable pub count_into : List K → Counter K → Counter K
  unfolding increment
  count_into [] d = d
  count_into (k ∷ ks) d = count_into ks (increment k d)

  -- `Counter(keys)`
  unfoldable pub counter_of : List K → Counter K
  unfolding count_into
  counter_of ks = count_into ks []

  infixl 65 ◌minus◌ ◌intersect◌
  -- `a - b`, for counts that are not negative.
  unfoldable pub ◌minus◌ : Counter K → Counter K → Counter K
  unfolding get
  [] minus b = []
  ((k, c) ∷ a) minus b =
      let rest = a minus b in if ltb (get k b) c then (k, c - get k b) ∷ rest else rest

  -- `a & b`
  unfoldable pub ◌intersect◌ : Counter K → Counter K → Counter K
  unfolding get
  [] intersect b = []
  ((k, c) ∷ a) intersect b =
      let rest = a intersect b in
      let both = min c (get k b) in if ltb 0 both then (k, both) ∷ rest else rest

  pub weigh-minus :
      (w : K → ℕ → ℕ) (a b : Counter K)
      → ((k : K) → w k 0 ≡ 0)
      → weigh w (a minus b) ≡ weigh (λ k c. w k (c - get k b)) a
  unfolding weigh ◌minus◌
  weigh-minus w [] b z = refl
  weigh-minus w ((k, c) ∷ a) b z = ground (arith, weigh-minus w a b z, z k)

  pub weigh-intersect :
      (w : K → ℕ → ℕ) (a b : Counter K)
      → ((k : K) → w k 0 ≡ 0)
      → weigh w (a intersect b) ≡ weigh (λ k c. w k (min c (get k b))) a
  unfolding weigh ◌intersect◌
  weigh-intersect w [] b z = refl
  weigh-intersect w ((k, c) ∷ a) b z = ground (arith, weigh-intersect w a b z, z k)

  -- One more of a key changes the sum by what its weight changes.
  pub weigh-increment :
      (w : K → ℕ → ℕ) (k : K) (d : Counter K)
      → w k 0 ≡ 0
      → weigh w (increment k d) + w k (get k d) ≡ weigh w d + w k (get k d + 1)
  unfolding weigh increment get
  weigh-increment w k [] z = omega (arith, z)
  weigh-increment w k ((j, c) ∷ d) z = ground (arith, weigh-increment w k d z)

  pub get-increment :
      (j k : K) (d : Counter K) → get j (increment k d) ≡ (if j == k then get k d + 1 else get j d)
  unfolding increment get
  get-increment j k [] = ground arith
  get-increment j k ((i, c) ∷ d) = ground (arith, get-increment j k d)

  counted-increment :
      (j k : K) (d : Counter K) → counted j (increment k d) ≡ ((j == k) || counted j d)
  unfolding increment counted
  counted-increment j k [] = ground arith
  counted-increment j k ((i, c) ∷ d) = ground (arith, counted-increment j k d)

  -- No key stands twice.
  abbrev pub IsUnique : Counter K → Type 0
  IsUnique [] = Unit
  IsUnique ((k, c) ∷ d) = (counted k d ≡ false) × IsUnique d

  increment-IsUnique : (k : K) (d : Counter K) → IsUnique d → IsUnique (increment k d)
  unfolding increment counted
  increment-IsUnique k [] h = (refl, tt)
  increment-IsUnique k ((j, c) ∷ d) h =
      ground (arith, counted-increment j k d, increment-IsUnique k d)

  pub count_into-IsUnique : (ks : List K) (d : Counter K) → IsUnique d → IsUnique (count_into ks d)
  unfolding count_into
  count_into-IsUnique [] d h = h
  count_into-IsUnique (k ∷ ks) d h =
      count_into-IsUnique ks (increment k d) (increment-IsUnique k d h)

  pub get-not_counted : (k : K) (d : Counter K) → counted k d ≡ false → get k d ≡ 0
  unfolding get counted
  get-not_counted k [] h = refl
  get-not_counted k ((j, c) ∷ d) h = ground (arith, get-not_counted k d)
