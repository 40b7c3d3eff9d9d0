-- ===== src/ResultAnalysis/ActiveEvaluation/Issues.antt =====
-- Which issues the evaluations of src/result_analysis/active_evaluation.ipynb look at. A tuple of texts is
-- their list.
use refactor_tradeoffs.Base.{
  ℕ, Bool, false, not, ◌&&◌, ◌||◌, List, [], ◌∷◌, ◌++◌, map, keep, Str, codes, starts_with, ◌==◌,
  list_eq, nat_eq, contains,
}
use refactor_tradeoffs.Pipeline.Units.{SonarQubeIssue}

-- The rule, the file and the message of an issue.
abbrev pub Key : Type 0
Key = List Str

unfoldable pub issue_key : SonarQubeIssue → Key
issue_key issue = issue.rule_key ∷ issue.file_path ∷ issue.message ∷ []

unfoldable pub is_php : SonarQubeIssue → Bool
is_php issue = starts_with issue.rule_key (codes "php:")

pub data Purpose : Type 0 where
  include exclude : Purpose

-- The issues of the run that are looked at.
unfoldable pub select : Purpose → List Key → List SonarQubeIssue → List SonarQubeIssue
unfolding issue_key
select exclude keys = keep (λ issue. not (contains keys (issue_key issue)))
select include keys = keep (λ issue. contains keys (issue_key issue))

-- A file and a line.
abbrev pub Location : Type 0
Location = Str × ℕ

unfoldable pub at_location : List Location → SonarQubeIssue → Bool
at_location [] issue = false
at_location (location ∷ locations) issue =
    ((issue.file_path == location.0) && (issue.line == location.1)) || at_location locations issue

-- `excluded_keys`, and `included_keys`
unfoldable pub keys_at : List Location → List SonarQubeIssue → List Key
unfolding at_location issue_key
keys_at locations issues = map issue_key (keep (at_location locations) issues)

-- `base_issues` of the traditional runs, and of the agent's.
unfoldable pub kept_issues : Purpose → List Location → List SonarQubeIssue → List SonarQubeIssue
unfolding at_location keys_at issue_key
kept_issues exclude locations issues = keep (λ issue. not (at_location locations issue)) issues
kept_issues include locations issues =
    keep (λ issue. contains (keys_at locations issues) (issue_key issue)) issues

-- `excluded_locations`, and `included_locations`, from the table of a cell.
unfoldable pub locations_of : List (Str × List ℕ) → List Location
locations_of [] = []
locations_of ((path, lines) ∷ table) =
    map (λ line. (codes "EngineBlock:" ++ path, line)) lines ++ locations_of table
