-- ===== src/ResultAnalysis/ActiveEvaluation/Minutes.antt =====
-- The minutes of a row, next to those of the issues before the run.
use refactor_tradeoffs.Base.{
  ℕ, ◌+◌, ◌<◌, ◌≤◌, ◌≡◌, min, Bool, ◌&&◌, ltb, List, [], ◌∷◌, map, keep, All, list_eq, nat_eq,
  FilePath, arith,
}
use refactor_tradeoffs.Base.Counter.{
  Counter, get, get-increment, increment, counted, counter_of, count_into, ◌minus◌, ◌intersect◌,
}
use refactor_tradeoffs.Base.Counter.Common.{counted-minus, counted-intersect, get-count_into}
use refactor_tradeoffs.Pipeline.Units.{SonarQubeIssue}
use refactor_tradeoffs.ResultAnalysis.ActiveEvaluation.{
  Key, issue_key, difference, sum_minutes, minutes_in, overall_row,
}
use refactor_tradeoffs.ResultAnalysis.ActiveEvaluation.Counts.{counter_of-IsUnique}

-- Some of the issues with this one's key are resolved, and some are not.
unfoldable pub is_partly : List SonarQubeIssue → List SonarQubeIssue → SonarQubeIssue → Bool
unfolding issue_key get counter_of
is_partly base_issues run_issues issue =
    let before = get (issue_key issue) (counter_of (map issue_key base_issues)) in
    let after = get (issue_key issue) (counter_of (map issue_key run_issues)) in
    ltb 0 after && ltb after before

module _ (a b : Counter Key) where
  minutes_in-split :
      (issues : List SonarQubeIssue)
      → All (λ issue. 0 < get (issue_key issue) a) issues
      → (unique : (k : Key)
          → (counted k (a minus b) ≡ ltb (get k b) (get k a))
            × (counted k (a intersect b) ≡ ltb 0 (min (get k a) (get k b))))
      → minutes_in (a minus b) issues + minutes_in (a intersect b) issues
        ≡ sum_minutes issues
          + sum_minutes (
              keep
                (λ issue.
                  ltb 0 (get (issue_key issue) b)
                  && ltb (get (issue_key issue) b) (get (issue_key issue) a))
                issues)
  unfolding minutes_in sum_minutes
  minutes_in-split [] here unique = omega arith
  minutes_in-split (issue ∷ issues) (first, rest) unique =
      ground (arith, minutes_in-split issues rest unique, unique (issue_key issue))

get-count_into-le : (k : Key) (ks : List Key) (d : Counter Key) → get k d ≤ get k (count_into ks d)
get-count_into-le k ks d = omega (arith, get-count_into k ks d)

counted-All :
    (issues : List SonarQubeIssue) (d : Counter Key)
    → All (λ issue. 0 < get (issue_key issue) (count_into (map issue_key issues) d)) issues
unfolding count_into
counted-All [] d = tt
counted-All (issue ∷ issues) d =
    let k : Key = issue_key issue in
    (
      ground
          (arith, get-count_into-le k (map issue_key issues) (increment k d), get-increment k k d),
      counted-All issues (increment k d),
    )

-- The minutes of the resolved and the unresolved issues together exceed those of the issues before the run: by the
-- minutes of the issues with whose key some have been resolved and some have not, which stand in both.
pub overall_row-minutes :
    {Float : Type 0} (quotient : ℕ → ℕ → Float) (zero_float : Float) (run_path : FilePath)
    (base_issues run_issues : List SonarQubeIssue)
    → let row = overall_row quotient zero_float run_path base_issues run_issues in
      row.resolved + row.unresolved
      ≡ sum_minutes base_issues + sum_minutes (keep (is_partly base_issues run_issues) base_issues)
unfolding overall_row difference is_partly counter_of
overall_row-minutes quotient zero_float run_path base_issues run_issues =
    let a : Counter Key = counter_of (map issue_key base_issues) in
    let b : Counter Key = counter_of (map issue_key run_issues) in
    minutes_in-split a b base_issues (counted-All base_issues []) (λ k. (
      counted-minus k a b (counter_of-IsUnique (map issue_key base_issues)),
      counted-intersect k a b (counter_of-IsUnique (map issue_key base_issues)),
    ))
