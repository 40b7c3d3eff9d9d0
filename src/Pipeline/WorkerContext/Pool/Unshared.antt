-- ===== src/Pipeline/WorkerContext/Pool/Unshared.antt =====
-- No two threads of the pool hold the same index.
use refactor_tradeoffs.Base.{
  ℕ, zero, suc, ◌+◌, ◌<◌, ◌≤◌, ◌≡◌, ◌≢◌, Option, none, some, List, [], ◌∷◌, All, nat_eq, arith,
}
use refactor_tradeoffs.Pipeline.WorkerContext.Pool.{
  Threads, Reach, start, hold, range_from, Reach-keeps,
}

abbrev NotIn : ℕ → List ℕ → Type 0
NotIn i queue = All (λ j. i ≢ j) queue

abbrev IsDistinct : List ℕ → Type 0
IsDistinct [] = Unit
IsDistinct (i ∷ queue) = NotIn i queue × IsDistinct queue

record Inv (n : ℕ) (s : Threads) : Type 0 where
  distinct : IsDistinct s.queue
  below : All (λ i. i < n) s.queue
  apart : (t i : ℕ) → s.held t ≡ some i → NotIn i s.queue × (i < n)
  unshared : (t u i : ℕ) → s.held t ≡ some i → s.held u ≡ some i → t ≡ u

module _ (n t i : ℕ) (held : ℕ → Option ℕ) (queue : List ℕ) (member : t < n) where
  cached-Inv :
      held t ≡ some i
      → Inv n (record { held = held; queue = queue })
      → Inv n (record { held = hold t (some i) held; queue = queue })
  cached-Inv h inv = record {
    distinct = inv.distinct;
    below = inv.below;
    apart = λ u j e. inv.apart u j (ground arith);
    unshared = λ u v j e f. inv.unshared u v j (ground arith) (ground arith);
  }

  fresh-Inv :
      held t ≡ none
      → Inv n (record { held = held; queue = i ∷ queue })
      → Inv n (record { held = hold t (some i) held; queue = queue })
  fresh-Inv h inv = record {
    distinct = inv.distinct.1;
    below = inv.below.1;
    apart = λ u j e. ground (arith, inv.apart u j, inv.distinct, inv.below);
    unshared = λ u v j e f. ground (arith, inv.apart u j, inv.apart v j, inv.unshared u v j);
  }

range_from-NotIn : (i first n : ℕ) → i < first → NotIn i (range_from first n)
unfolding range_from
range_from-NotIn i first zero h = tt
range_from-NotIn i first (suc n) h = (omega arith, range_from-NotIn i (suc first) n (omega arith))

range_from-IsDistinct : (first n : ℕ) → IsDistinct (range_from first n)
unfolding range_from
range_from-IsDistinct first zero = tt
range_from-IsDistinct first (suc n) =
    (range_from-NotIn first (suc first) n (omega arith), range_from-IsDistinct (suc first) n)

range_from-below : (first n m : ℕ) → first + n ≤ m → All (λ i. i < m) (range_from first n)
unfolding range_from
range_from-below first zero m h = tt
range_from-below first (suc n) m h = (omega arith, range_from-below (suc first) n m (omega arith))

start-Inv : (n : ℕ) → Inv n (start n)
unfolding start
start-Inv n = record {
  distinct = range_from-IsDistinct 0 n;
  below = range_from-below 0 n n (omega arith);
  apart = λ t i e. cc;
  unshared = λ t u i e f. cc;
}

-- Whatever claims the threads of a pool of `n` workers have made, in whatever order: an index that
-- two threads hold makes them one thread, and it lies below `n`.
pub Reach-unshared :
    (n : ℕ) {s : Threads} (t u i : ℕ)
    → Reach n (start n) s
    → s.held t ≡ some i
    → s.held u ≡ some i
    → (t ≡ u) × (i < n)
Reach-unshared n {s} t u i r e f = (inv.unshared t u i e f, (inv.apart t i e).1)
  where
    inv : Inv n s
    inv = Reach-keeps n (Inv n) (cached-Inv n) (fresh-Inv n) r (start-Inv n)
