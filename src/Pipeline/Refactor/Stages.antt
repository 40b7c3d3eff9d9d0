-- ===== src/Pipeline/Refactor/Stages.antt =====
-- The counters of two stages of the loops of `_refactor`.
use refactor_tradeoffs.Base.{ℕ, suc, ◌+◌, ◌*◌, ◌≤◌, ◌<◌, ◌≡◌, true, list_eq, nat_eq, arith}
use refactor_tradeoffs.Globals.{UnitResult}
use refactor_tradeoffs.Pipeline.Refactor.{
  Progress, Attempt, returned, checked, retry, SyntaxEnd, syntax_returned, syntax_checked,
  syntax_exhausted,
}
use refactor_tradeoffs.Pipeline.Refactor.Rules.{}

-- Two stages of the loops with the same counters.
abbrev pub Same : Progress → Progress → Type 0
Same p q =
    (q.syntax_retries_total ≡ p.syntax_retries_total)
    × (q.correctness_retries_total ≡ p.correctness_retries_total)
    × (q.total_llm_calls ≡ p.total_llm_calls)

-- A result that `p` gives rise to within one more call.
abbrev pub Closes : Progress → UnitResult → Type 0
Closes p r =
    (r.syntax_retries ≡ p.syntax_retries_total)
    × (r.correctness_retries ≡ p.correctness_retries_total)
    × (p.total_llm_calls ≤ r.llm_calls)
    × (r.llm_calls ≤ p.total_llm_calls + 1)
    × (r.accepted ≡ true → r.llm_calls ≡ p.total_llm_calls + 1)

abbrev pub Advances : Progress → Attempt → Type 0
Advances p (returned r) = Closes p r
Advances p (checked q code) =
    (q.syntax_retries_total ≡ p.syntax_retries_total)
    × (q.correctness_retries_total ≡ p.correctness_retries_total)
    × (q.total_llm_calls ≡ p.total_llm_calls + 1)
Advances p (retry q) =
    (q.syntax_retries_total ≡ p.syntax_retries_total + 1)
    × (q.correctness_retries_total ≡ p.correctness_retries_total)
    × (q.total_llm_calls ≡ p.total_llm_calls + 1)

pub Advances-Same : (p q : Progress) (a : Attempt) → Same p q → Advances q a → Advances p a
Advances-Same p q (returned r) h k = ground arith
Advances-Same p q (checked q' code) h k = omega arith
Advances-Same p q (retry q') h k = omega arith

-- What `left` more calls, at most, can make of the counters of `p`.
abbrev pub Within : ℕ → Progress → SyntaxEnd → Type 0
Within left p (syntax_returned r) =
    (r.correctness_retries ≡ p.correctness_retries_total)
    × (r.llm_calls ≤ p.total_llm_calls + left)
    × (p.total_llm_calls + r.syntax_retries ≤ r.llm_calls + p.syntax_retries_total)
    × (r.llm_calls + p.syntax_retries_total ≤ p.total_llm_calls + r.syntax_retries + 1)
    × (r.accepted ≡ true
        → r.llm_calls + p.syntax_retries_total ≡ p.total_llm_calls + r.syntax_retries + 1)
Within left p (syntax_checked q code) =
    (q.correctness_retries_total ≡ p.correctness_retries_total)
    × (q.total_llm_calls ≤ p.total_llm_calls + left)
    × (q.total_llm_calls + p.syntax_retries_total ≡ p.total_llm_calls + q.syntax_retries_total + 1)
Within left p (syntax_exhausted q) =
    (q.correctness_retries_total ≡ p.correctness_retries_total)
    × (q.total_llm_calls ≡ p.total_llm_calls + left)
    × (q.total_llm_calls + p.syntax_retries_total ≡ p.total_llm_calls + q.syntax_retries_total)

pub Within-retry :
    (left : ℕ) (p q : Progress) (e : SyntaxEnd)
    → Advances p (retry q)
    → Within left q e
    → Within (suc left) p e
Within-retry left p q (syntax_returned r) h k = ground arith
Within-retry left p q (syntax_checked q' code) h k = omega arith
Within-retry left p q (syntax_exhausted q') h k = omega arith

-- The same for `left` more rounds of the outer loop, of at most `calls` calls each.
abbrev pub Concludes : ℕ → ℕ → Progress → UnitResult → Type 0
Concludes calls left p r =
    (r.correctness_retries ≤ p.correctness_retries_total + left)
    × (r.llm_calls ≤ p.total_llm_calls + left * calls)
    × (p.total_llm_calls + r.syntax_retries + r.correctness_retries
        ≤ r.llm_calls + p.syntax_retries_total + p.correctness_retries_total)
    × (r.llm_calls + p.syntax_retries_total + p.correctness_retries_total
        ≤ p.total_llm_calls + r.syntax_retries + r.correctness_retries + 1)
    × (r.accepted ≡ true
        → (r.llm_calls + p.syntax_retries_total + p.correctness_retries_total
            ≡ p.total_llm_calls + r.syntax_retries + r.correctness_retries + 1)
          × (r.correctness_retries < p.correctness_retries_total + left))
