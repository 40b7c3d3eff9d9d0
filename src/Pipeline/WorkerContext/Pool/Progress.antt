-- ===== src/Pipeline/WorkerContext/Pool/Progress.antt =====
-- A thread of the pool never waits for an index.
use refactor_tradeoffs.Base.{
  ℕ, zero, suc, ◌+◌, ◌<◌, ◌≤◌, ◌≡◌, ◌≢◌, refl, ap, Option, none, some, List, [], ◌∷◌, length,
  nat_eq, arith,
}
use refactor_tradeoffs.Pipeline.WorkerContext.{claim_worker_index}
use refactor_tradeoffs.Pipeline.WorkerContext.Pool.Sums.{
  total, total-hold, total-ones, total-nothing,
}
use refactor_tradeoffs.Pipeline.WorkerContext.Pool.{
  Threads, Reach, start, hold, range_from, Reach-keeps,
}

abbrev is_held : Option ℕ → ℕ
is_held none = 0
is_held (some _) = 1

-- How many of the threads below `n` hold an index.
abbrev holders : (ℕ → Option ℕ) → ℕ → ℕ
holders held n = total is_held held n

is_held-le : (own : Option ℕ) → is_held own ≤ 1
is_held-le none = omega arith
is_held-le (some i) = omega arith

holders-le : (held : ℕ → Option ℕ) (n : ℕ) → holders held n ≤ n
holders-le held n = total-ones is_held held (λ u. is_held-le (held u)) n

-- With an index for the thread `t` too, there are at most `n` of them.
holders-lt : (held : ℕ → Option ℕ) (t n : ℕ) → held t ≡ none → t < n → holders held n < n
holders-lt held t n e h = omega (
  arith,
  total-hold is_held held t (some 0) n h,
  holders-le (hold t (some 0) held) n,
  ap is_held e,
)

abbrev IsBalanced : ℕ → Threads → Type 0
IsBalanced n s = holders s.held n + length s.queue ≡ n

module _ (n t i : ℕ) (held : ℕ → Option ℕ) (queue : List ℕ) (member : t < n) where
  cached-IsBalanced :
      held t ≡ some i
      → IsBalanced n (record { held = held; queue = queue })
      → IsBalanced n (record { held = hold t (some i) held; queue = queue })
  cached-IsBalanced h b = omega (arith, total-hold is_held held t (some i) n member, ap is_held h)

  fresh-IsBalanced :
      held t ≡ none
      → IsBalanced n (record { held = held; queue = i ∷ queue })
      → IsBalanced n (record { held = hold t (some i) held; queue = queue })
  fresh-IsBalanced h b = omega (arith, total-hold is_held held t (some i) n member, ap is_held h)

length-range_from : (first n : ℕ) → length (range_from first n) ≡ n
unfolding range_from
length-range_from first zero = refl
length-range_from first (suc n) = ap suc (length-range_from (suc first) n)

holders-start : (m n : ℕ) → holders (start m).held n ≡ 0
unfolding start
holders-start m n = total-nothing is_held (λ t. none) n (λ t h. refl)

start-IsBalanced : (n : ℕ) → IsBalanced n (start n)
unfolding start
start-IsBalanced n = omega (arith, length-range_from 0 n, holders-start n n)

claim-ne-none :
    (n : ℕ) (s : Threads) (t : ℕ)
    → IsBalanced n s
    → t < n
    → claim_worker_index (s.held t) s.queue ≢ none
unfolding claim_worker_index
claim-ne-none n s t b h = go (s.held t) s.queue refl refl
  where
    go :
        (own : Option ℕ) (queue : List ℕ)
        → s.held t ≡ own
        → s.queue ≡ queue
        → claim_worker_index own queue ≢ none
    go (some i) queue e q = λ r. cc
    go none (i ∷ queue) e q = λ r. cc
    go none [] e q = absurd (omega (arith, holders-lt s.held t n e h, ap length q))

-- In a pool of `n` workers, none of the `n` threads ever blocks in `claim_worker_index`, whatever
-- the threads have claimed before.
pub Reach-claim-ne-none :
    (n : ℕ) (s : Threads) (t : ℕ)
    → Reach n (start n) s
    → t < n
    → claim_worker_index (s.held t) s.queue ≢ none
Reach-claim-ne-none n s t r h =
    claim-ne-none n s t
      (Reach-keeps n (IsBalanced n) (cached-IsBalanced n) (fresh-IsBalanced n) r
        (start-IsBalanced n))
      h
