-- ===== src/Base/Counter/Common.antt =====
-- What two counters have in common, and what one has of a list of keys.
use Prim.Native.Nat.{ℕ, ◌+◌, ◌-◌, min}
use mathlib.Core.Path.{◌≡◌, refl}
use mathlib.Core.Bool.{true}
use mathlib.Core.List.{List, [], ◌∷◌}
use native.Mathlib.Omega.{arith}
use refactor_tradeoffs.Base.Tests.{ltb, if◌then◌else◌}
use refactor_tradeoffs.Base.Equality.{Eq, ◌==◌}
use refactor_tradeoffs.Base.Lists.{length}
use refactor_tradeoffs.Base.Counter.{
  Counter, weigh, total_count, get, counted, increment, count_into, counter_of, ◌minus◌,
  ◌intersect◌, weigh-increment, get-increment, IsUnique, get-not_counted,
}

module _ {ℓ} {K : Type ℓ} ⦃e : Eq K⦄ where
  weigh-increment_right :
      (k : K) (d a : Counter K)
      → IsUnique a
      → weigh (λ j c. min c (get j (increment k d))) a + min (get k a) (get k d)
        ≡ weigh (λ j c. min c (get j d)) a + min (get k a) (get k d + 1)
  unfolding weigh get counted
  weigh-increment_right k d [] u = omega arith
  weigh-increment_right k d ((j, c) ∷ a) u =
      ground (arith, weigh-increment_right k d a u.1, get-increment j k d, get-not_counted j a, u.0)

  common-count_into :
      (ks : List K) (d a : Counter K)
      → IsUnique a
      → weigh (λ k c. min c (get k d)) a ≡ weigh (λ k c. min c (get k a)) d
      → weigh (λ k c. min c (get k (count_into ks d))) a
        ≡ weigh (λ k c. min c (get k a)) (count_into ks d)
  unfolding count_into
  common-count_into [] d a u h = h
  common-count_into (k ∷ ks) d a u h = common-count_into ks (increment k d) a u (
      omega (
        arith,
        weigh-increment_right k d a u,
        weigh-increment (λ j c. min c (get j a)) k d (omega arith),
        h,
      ))

  nothing_common : (a : Counter K) → weigh (λ k c. min c (get k [])) a ≡ 0
  unfolding weigh get
  nothing_common [] = refl
  nothing_common ((k, c) ∷ a) = omega (arith, nothing_common a)

  -- What two counters have in common can be summed over the entries of either.
  pub common-counter_of :
      (a : Counter K) (ks : List K)
      → IsUnique a
      → weigh (λ k c. min c (get k (counter_of ks))) a
        ≡ weigh (λ k c. min c (get k a)) (counter_of ks)
  unfolding counter_of weigh
  common-counter_of a ks u = common-count_into ks [] a u (nothing_common a)

  pub total_count-count_into :
      (ks : List K) (d : Counter K) → total_count (count_into ks d) ≡ length ks + total_count d
  unfolding count_into total_count
  total_count-count_into [] d = omega arith
  total_count-count_into (k ∷ ks) d =
      omega (arith, total_count-count_into ks (increment k d), weigh-increment (λ j c. c) k d refl)

  -- How often the key stands in the list.
  unfoldable pub occurrences : K → List K → ℕ
  occurrences k [] = 0
  occurrences k (j ∷ ks) = let rest = occurrences k ks in if k == j then rest + 1 else rest

  pub get-count_into :
      (k : K) (ks : List K) (d : Counter K) → get k (count_into ks d) ≡ occurrences k ks + get k d
  unfolding count_into occurrences
  get-count_into k [] d = omega arith
  get-count_into k (j ∷ ks) d =
      ground (arith, get-count_into k ks (increment j d), get-increment k j d)

  pub get-minus : (k : K) (a b : Counter K) → IsUnique a → get k (a minus b) ≡ get k a - get k b
  unfolding counted ◌minus◌ get
  get-minus k [] b u = omega arith
  get-minus k ((j, c) ∷ a) b u = ground (arith, get-minus k a b u.1, get-not_counted j a, u.0)

  pub get-intersect :
      (k : K) (a b : Counter K) → IsUnique a → get k (a intersect b) ≡ min (get k a) (get k b)
  unfolding counted ◌intersect◌ get
  get-intersect k [] b u = omega arith
  get-intersect k ((j, c) ∷ a) b u =
      ground (arith, get-intersect k a b u.1, get-not_counted j a, u.0)

  pub get-counter_of : (k : K) (ks : List K) → get k (counter_of ks) ≡ occurrences k ks
  unfolding counter_of get
  get-counter_of k ks = omega (arith, get-count_into k ks [])

  pub counted-minus :
      (k : K) (a b : Counter K) → IsUnique a → counted k (a minus b) ≡ ltb (get k b) (get k a)
  unfolding counted ◌minus◌ get
  counted-minus k [] b u = ground arith
  counted-minus k ((j, c) ∷ a) b u =
      ground (arith, counted-minus k a b u.1, get-not_counted j a, u.0)

  pub counted-intersect :
      (k : K) (a b : Counter K)
      → IsUnique a
      → counted k (a intersect b) ≡ ltb 0 (min (get k a) (get k b))
  unfolding counted ◌intersect◌ get
  counted-intersect k [] b u = ground arith
  counted-intersect k ((j, c) ∷ a) b u =
      ground (arith, counted-intersect k a b u.1, get-not_counted j a, u.0)

  -- The weights need to agree at the counts of the keys only.
  pub weigh-at :
      (w v : K → ℕ → ℕ) (d : Counter K)
      → IsUnique d
      → ((k : K) → counted k d ≡ true → w k (get k d) ≡ v k (get k d))
      → weigh w d ≡ weigh v d
  unfolding weigh get counted
  weigh-at w v [] u h = refl
  weigh-at w v ((j, c) ∷ d) u h =
      let tail : weigh w d ≡ weigh v d = weigh-at w v d u.1 (λ k p. ground (arith, h k, u.0)) in
      let head : w j c ≡ v j c = ground (arith, h j) in omega (arith, tail, head)
