-- ===== src/Pipeline/WorkerContext/Pool/Sums.antt =====
-- Sums over the threads of the pool, of a weight of what each thread has.
use refactor_tradeoffs.Base.{ℕ, zero, suc, ◌+◌, ◌<◌, ◌≤◌, ◌≡◌, refl, nat_eq, arith, ℕ_discrete}
use refactor_tradeoffs.Pipeline.WorkerContext.Pool.{hold}

module _ {ℓ} {A : Type ℓ} (w : A → ℕ) where
  unfoldable pub total : (ℕ → A) → ℕ → ℕ
  total have zero = 0
  total have (suc u) = w (have u) + total have u

  module _ (have : ℕ → A) where
    -- A thread that gets `a` changes the sum by the weight of that and of what it had.
    module _ (t : ℕ) (a : A) where
      total-hold_above : (bound : ℕ) → bound ≤ t → total (hold t a have) bound ≡ total have bound
      unfolding total
      total-hold_above zero above = refl
      total-hold_above (suc u) above = ground (arith, total-hold_above u)

      pub total-hold :
          (bound : ℕ)
          → t < bound
          → w (have t) + total (hold t a have) bound ≡ w a + total have bound
      unfolding total
      total-hold zero below = elim below [ ]
      total-hold (suc u) below = elim (ℕ_discrete u t) [
        | no earlier ↦ ground (arith, total-hold u)
        | yes last ↦ ground (arith, total-hold_above u)
      ]

    pub total-ones : ((u : ℕ) → w (have u) ≤ 1) → (bound : ℕ) → total have bound ≤ bound
    unfolding total
    total-ones ones zero = omega arith
    total-ones ones (suc u) = omega (arith, total-ones ones u, ones u)

    pub total-nothing : (bound : ℕ) → ((u : ℕ) → u < bound → w (have u) ≡ 0) → total have bound ≡ 0
    unfolding total
    total-nothing zero light = refl
    total-nothing (suc u) light =
        omega (arith, total-nothing u (λ v below. light v (omega arith)), light u (omega arith))
