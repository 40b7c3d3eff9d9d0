-- ===== src/ResultAnalysis/ActiveEvaluation/Counts.antt =====
-- The counts of a row: each issue before the run is resolved or not, and each one after it is old or
-- new.
use refactor_tradeoffs.Base.{
  ℕ, ◌+◌, ◌-◌, ◌≡◌, refl, min, List, [], ◌∷◌, map, keep, length, ◌==◌, ◌&&◌, ◌∙◌, list_eq, nat_eq,
  FilePath, arith,
}
use refactor_tradeoffs.Base.Counter.{
  Counter, weigh, weigh-add, weigh_congr, weigh-minus, weigh-intersect, get, counter_of,
  total_count, ◌minus◌, ◌intersect◌, IsUnique, count_into-IsUnique,
}
use refactor_tradeoffs.Base.Counter.Common.{
  common-counter_of, total_count-count_into, occurrences, get-minus, get-intersect, get-counter_of,
}
use refactor_tradeoffs.Pipeline.Units.{SonarQubeIssue}
use refactor_tradeoffs.ResultAnalysis.ActiveEvaluation.{
  Key, issue_key, Difference, difference, overall_row,
}

total_count-split :
    (a b : Counter Key) → total_count (a minus b) + total_count (a intersect b) ≡ total_count a
unfolding total_count
total_count-split a b = omega (
  arith,
  weigh-minus (λ k c. c) a b (λ k. refl),
  weigh-intersect (λ k c. c) a b (λ k. refl),
  weigh-add (λ k c. c - get k b) (λ k c. min c (get k b)) a,
  weigh_congr (λ k c. c - get k b + min c (get k b)) (λ k c. c) a (λ k c. omega arith),
)

pub counter_of-IsUnique : (ks : List Key) → IsUnique (counter_of ks)
unfolding counter_of
counter_of-IsUnique ks = count_into-IsUnique ks [] tt

total_count-counter_of : (ks : List Key) → total_count (counter_of ks) ≡ length ks
unfolding counter_of total_count weigh
total_count-counter_of ks = omega (arith, total_count-count_into ks [])

total_count-intersect :
    (ks js : List Key)
    → total_count (counter_of ks intersect counter_of js)
      ≡ total_count (counter_of js intersect counter_of ks)
unfolding total_count
total_count-intersect ks js = omega (
  arith,
  weigh-intersect (λ k c. c) (counter_of ks) (counter_of js) (λ k. refl),
  weigh-intersect (λ k c. c) (counter_of js) (counter_of ks) (λ k. refl),
  common-counter_of (counter_of ks) js (counter_of-IsUnique ks),
)

length-map {ℓ κ} :
    {A : Type ℓ} {B : Type κ} (f : A → B) (xs : List A) → length (map f xs) ≡ length xs
length-map f [] = refl
length-map f (x ∷ xs) = omega (arith, length-map f xs)

-- How many of the issues are of the same rule, in the same file and with the same message.
unfoldable pub alike : SonarQubeIssue → List SonarQubeIssue → ℕ
alike issue issues = length (
    keep
      (λ i.
        (issue.rule_key == i.rule_key)
        && ((issue.file_path == i.file_path) && (issue.message == i.message)))
      issues)

occurrences-alike :
    (issue : SonarQubeIssue) (issues : List SonarQubeIssue)
    → occurrences (issue_key issue) (map issue_key issues) ≡ alike issue issues
unfolding occurrences alike issue_key
occurrences-alike issue [] = refl
occurrences-alike issue (i ∷ issues) = ground (arith, occurrences-alike issue issues)

-- What a difference says of an issue.
pub record Differs (d : Difference) (base_issues run_issues : List SonarQubeIssue)
    (issue : SonarQubeIssue) : Type 0 where
  pub resolved : get (issue_key issue) d.resolved ≡ alike issue base_issues - alike issue run_issues
  pub unresolved :
      get (issue_key issue) d.unresolved ≡ min (alike issue base_issues) (alike issue run_issues)
  pub new : get (issue_key issue) d.new ≡ alike issue run_issues - alike issue base_issues

difference-Differs :
    (base_issues run_issues : List SonarQubeIssue) (issue : SonarQubeIssue)
    → Differs (difference base_issues run_issues) base_issues run_issues issue
unfolding difference
difference-Differs base_issues run_issues issue =
    let before : List Key = map issue_key base_issues in
    let after : List Key = map issue_key run_issues in
    let in_base : get (issue_key issue) (counter_of before) ≡ alike issue base_issues =
      get-counter_of (issue_key issue) before ∙ occurrences-alike issue base_issues in
    let in_run : get (issue_key issue) (counter_of after) ≡ alike issue run_issues =
      get-counter_of (issue_key issue) after ∙ occurrences-alike issue run_issues in
    record {
      resolved = omega (
        arith,
        get-minus (issue_key issue) (counter_of before) (counter_of after)
            (counter_of-IsUnique before),
        in_base,
        in_run,
      );
      unresolved = omega (
        arith,
        get-intersect (issue_key issue) (counter_of before) (counter_of after)
            (counter_of-IsUnique before),
        in_base,
        in_run,
      );
      new = omega (
        arith,
        get-minus (issue_key issue) (counter_of after) (counter_of before)
            (counter_of-IsUnique after),
        in_base,
        in_run,
      );
    }

-- The counts of the row of a run are the sizes of the three counters of the difference: the resolved and
-- the unresolved issues are as many as the issues before the run, and the unresolved and the new ones as many as
-- the run's. Each issue stands in these counters by its rule, file and message: resolved as often as
-- there are more such issues before the run than in it, unresolved as often as there are in both, and new as
-- often as there are more in the run than before it.
pub overall_row-counts :
    {Float : Type 0} (quotient : ℕ → ℕ → Float) (zero_float : Float) (run_path : FilePath)
    (base_issues run_issues : List SonarQubeIssue)
    → let row = overall_row quotient zero_float run_path base_issues run_issues in
      let d = difference base_issues run_issues in
      ((row.resolved_count ≡ total_count d.resolved)
        × (row.unresolved_count ≡ total_count d.unresolved)
        × (row.new_count ≡ total_count d.new))
      × (row.resolved_count + row.unresolved_count ≡ length base_issues)
      × (row.unresolved_count + row.new_count ≡ length run_issues)
      × ((issue : SonarQubeIssue) → Differs d base_issues run_issues issue)
unfolding overall_row difference
overall_row-counts quotient zero_float run_path base_issues run_issues =
    let before : List Key = map issue_key base_issues in
    let after : List Key = map issue_key run_issues in
    (
      (refl, refl, refl),
      omega (
        arith,
        total_count-split (counter_of before) (counter_of after),
        total_count-counter_of before,
        length-map issue_key base_issues,
      ),
      omega (
        arith,
        total_count-split (counter_of after) (counter_of before),
        total_count-intersect before after,
        total_count-counter_of after,
        length-map issue_key run_issues,
      ),
      difference-Differs base_issues run_issues,
    )
