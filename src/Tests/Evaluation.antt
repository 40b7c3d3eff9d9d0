-- ===== src/Tests/Evaluation.antt =====
-- The theorems on the evaluation of SonarQube issues at concrete inputs: two issues with one key, of which
-- the run has resolved one.
use refactor_tradeoffs.Base.{
  ℕ, ◌+◌, ◌≡◌, refl, List, [], ◌∷◌, length, keep, contains, codes, list_eq, nat_eq, ok,
}
use refactor_tradeoffs.Base.Counter.{total_count, ◌minus◌, ◌intersect◌}
use refactor_tradeoffs.Pipeline.Units.{SonarQubeIssue}
use refactor_tradeoffs.ResultAnalysis.ActiveEvaluation.{
  OverallRow, BySeverity, include, exclude, Purpose, issue_key, overall_row, by_severity,
  difference, sum_minutes, keys_at, kept_issues, select, Location,
}
use refactor_tradeoffs.ResultAnalysis.ActiveEvaluation.Counts.{Differs, overall_row-counts}
use refactor_tradeoffs.ResultAnalysis.ActiveEvaluation.Minutes.{is_partly, overall_row-minutes}
use refactor_tradeoffs.ResultAnalysis.ActiveEvaluation.Unchanged.{overall_row-unchanged}
use refactor_tradeoffs.ResultAnalysis.ActiveEvaluation.Severities.{by_severity-total}

abbrev issue_at : ℕ → SonarQubeIssue
issue_at line = record {
  rule_key = codes "php:S1";
  severity = codes "MAJOR";
  file_path = codes "k:a.php";
  line = line;
  debt_minutes = 5;
  message = codes "m";
}

abbrev base_issues : List SonarQubeIssue
base_issues = issue_at 3 ∷ issue_at 8 ∷ []

abbrev run_issues : List SonarQubeIssue
run_issues = issue_at 3 ∷ []

abbrev percent : ℕ → ℕ → ℕ
percent m n = m

abbrev row : OverallRow ℕ
row = overall_row percent 0 [] base_issues run_issues

overall_row-counts_example :
    ((row.resolved_count ≡ total_count (difference base_issues run_issues).resolved)
      × (row.unresolved_count ≡ total_count (difference base_issues run_issues).unresolved)
      × (row.new_count ≡ total_count (difference base_issues run_issues).new))
    × (row.resolved_count + row.unresolved_count ≡ length base_issues)
    × (row.unresolved_count + row.new_count ≡ length run_issues)
    × ((issue : SonarQubeIssue)
        → Differs (difference base_issues run_issues) base_issues run_issues issue)
overall_row-counts_example = overall_row-counts percent 0 [] base_issues run_issues

overall_row-minutes_example :
    row.resolved + row.unresolved
    ≡ sum_minutes base_issues + sum_minutes (keep (is_partly base_issues run_issues) base_issues)
overall_row-minutes_example = overall_row-minutes percent 0 [] base_issues run_issues

-- One of two issues of five minutes is resolved: ten minutes count as resolved, and ten as unresolved.
counted_twice : (row.resolved ≡ 10) × (row.unresolved ≡ 10) × (row.resolved_count ≡ 1)
unfolding overall_row list_eq nat_eq ◌minus◌ ◌intersect◌
counted_twice = (refl, refl, refl)

by_severity-total_example :
    (by_sev : BySeverity) × (by_severity base_issues run_issues (difference base_issues run_issues)
      ≡ ok by_sev)
    × (total_count by_sev.resolved_count ≡ row.resolved_count)
    × (total_count by_sev.unresolved_count ≡ row.unresolved_count)
    × (total_count by_sev.new_count ≡ row.new_count)
by_severity-total_example = by_severity-total percent 0 [] base_issues run_issues

-- The first of the two issues is excluded.
abbrev locations : List Location
locations = (codes "k:a.php", 3) ∷ []

abbrev unchanged_row : Purpose → OverallRow ℕ
unchanged_row purpose =
    overall_row percent 0 [] (kept_issues purpose locations base_issues)
      (select purpose (keys_at locations base_issues) base_issues)

overall_row-unchanged_example :
    ((unchanged_row include).resolved_count ≡ 0)
    × ((unchanged_row include).new_count ≡ 0)
    × ((unchanged_row exclude).new_count ≡ 0)
    × ((unchanged_row exclude).resolved_count
        ≡ length (
            keep
              (λ issue. contains (keys_at locations base_issues) (issue_key issue))
              (kept_issues exclude locations base_issues)))
overall_row-unchanged_example = overall_row-unchanged locations base_issues percent 0 []

-- The other one then counts as resolved.
resolved_by_nothing : (unchanged_row exclude).resolved_count ≡ 1
unfolding overall_row list_eq nat_eq ◌minus◌ kept_issues select
resolved_by_nothing = refl
