-- ===== src/ResultAnalysis/ActiveEvaluation.antt =====
-- The functions of src/result_analysis/active_evaluation.ipynb: how the SonarQube issues of a run differ
-- from those before it. `json.loads` and the division of floats are parameters. The
-- severities of a run, a set in the source, come in the order in which they are found. The charts are left out.
mod Issues
pub mod Counts
pub mod Minutes
pub mod Unchanged
pub mod Severities
unfoldable pub use Issues.*
use refactor_tradeoffs.Base.{
  ℕ, ◌+◌, ◌*◌, Bool, true, false, not, ◌&&◌, ◌||◌, Option, none, some, List, [], ◌∷◌, ◌++◌, map,
  keep, is_empty, Str, codes, starts_with, FilePath, ◌==◌, list_eq, nat_eq, contains, if◌then◌else◌,
  Result, ok, bind, raised, key_error, os_error,
}
use refactor_tradeoffs.Base.Dict.{Dict, lookup, insert, lookup_or}
use refactor_tradeoffs.Base.Int.{ℤ, sub_ℕ}
use refactor_tradeoffs.Base.Counter.{
  Counter, counter_of, counted, total_count, ◌minus◌, ◌intersect◌,
}
use refactor_tradeoffs.Pipeline.State.{Files, text_at}
use refactor_tradeoffs.Pipeline.Units.{SonarQubeIssue}

-- The issues by key: of two with the same key, the later one.
unfoldable pub issues_by_key :
    List SonarQubeIssue → Dict Key SonarQubeIssue → Dict Key SonarQubeIssue
unfolding issue_key
issues_by_key [] d = d
issues_by_key (issue ∷ issues) d = issues_by_key issues (insert (issue_key issue) issue d)

-- The loop of `sum_by_severity`.
unfoldable pub add_severities :
    (SonarQubeIssue → ℕ) → Dict Key SonarQubeIssue → Counter Key → Dict Str ℕ → Result (Dict Str ℕ)
unfolding lookup lookup_or insert
add_severities value_fn by_key [] result = ok result
add_severities value_fn by_key ((key, count) ∷ counter) result = elim (lookup key by_key) [
  | none ↦ raised key_error
  | some issue ↦
      add_severities value_fn by_key counter
        (insert issue.severity (lookup_or 0 issue.severity result + value_fn issue * count) result)
]

unfoldable pub sum_by_severity :
    Counter Key → Dict Key SonarQubeIssue → (SonarQubeIssue → ℕ) → Result (Dict Str ℕ)
unfolding add_severities
sum_by_severity counter by_key value_fn = add_severities value_fn by_key counter []

-- `resolved`, `unresolved` and `new`
pub record Difference : Type 0 where
  pub resolved : Counter Key
  pub unresolved : Counter Key
  pub new : Counter Key

unfoldable pub difference : List SonarQubeIssue → List SonarQubeIssue → Difference
unfolding issue_key counter_of
difference base_issues run_issues =
    let original_counts = counter_of (map issue_key base_issues) in
    let fixed_counts = counter_of (map issue_key run_issues) in
    record {
      resolved = original_counts minus fixed_counts;
      unresolved = original_counts intersect fixed_counts;
      new = fixed_counts minus original_counts;
    }

unfoldable pub sum_minutes : List SonarQubeIssue → ℕ
sum_minutes [] = 0
sum_minutes (issue ∷ issues) = issue.debt_minutes + sum_minutes issues

-- The debt of the issues whose key is in the counter.
unfoldable pub minutes_in : Counter Key → List SonarQubeIssue → ℕ
unfolding sum_minutes issue_key counted
minutes_in counter issues = sum_minutes (keep (λ issue. counted (issue_key issue) counter) issues)

pub record OverallRow (Float : Type 0) : Type 0 where
  pub run : FilePath
  pub resolved : ℕ
  pub unresolved : ℕ
  pub new : ℕ
  pub fix_rate : Float
  pub resolved_count : ℕ
  pub unresolved_count : ℕ
  pub new_count : ℕ

pub record SeverityRow : Type 0 where
  pub run : FilePath
  pub severity : Str
  pub resolved : ℕ
  pub unresolved : ℕ
  pub new : ℕ
  pub net : ℤ
  pub resolved_count : ℕ
  pub unresolved_count : ℕ
  pub new_count : ℕ
  pub net_count : ℤ

-- `by_sev`
pub record BySeverity : Type 0 where
  pub resolved : Dict Str ℕ
  pub unresolved : Dict Str ℕ
  pub new : Dict Str ℕ
  pub resolved_count : Dict Str ℕ
  pub unresolved_count : Dict Str ℕ
  pub new_count : Dict Str ℕ

-- A set of texts, without repetition.
add_all : List Str → List Str → List Str
add_all found [] = found
add_all found (s ∷ rest) =
    let more = add_all found rest in if contains more s then more else s ∷ more

abbrev keys_of {ℓ} : {A : Type ℓ} → List (Str × A) → List Str
keys_of = map (λ entry. entry.0)

unfoldable pub severities : BySeverity → List Str
unfolding add_all
severities by_sev =
    add_all (add_all (add_all [] (keys_of by_sev.new)) (keys_of by_sev.unresolved))
      (keys_of by_sev.resolved)

unfoldable pub severity_row : FilePath → BySeverity → Str → SeverityRow
unfolding lookup_or
severity_row run_path by_sev sev = record {
  run = run_path;
  severity = sev;
  resolved = lookup_or 0 sev by_sev.resolved;
  unresolved = lookup_or 0 sev by_sev.unresolved;
  new = lookup_or 0 sev by_sev.new;
  net = sub_ℕ (lookup_or 0 sev by_sev.new) (lookup_or 0 sev by_sev.resolved);
  resolved_count = lookup_or 0 sev by_sev.resolved_count;
  unresolved_count = lookup_or 0 sev by_sev.unresolved_count;
  new_count = lookup_or 0 sev by_sev.new_count;
  net_count = sub_ℕ (lookup_or 0 sev by_sev.new_count) (lookup_or 0 sev by_sev.resolved_count);
}

unfoldable pub by_severity :
    List SonarQubeIssue → List SonarQubeIssue → Difference → Result BySeverity
unfolding bind sum_by_severity issues_by_key
by_severity base_issues run_issues d =
    let base_by_key = issues_by_key base_issues [] in
    let run_by_key = issues_by_key run_issues [] in
    let minutes : SonarQubeIssue → ℕ = λ i. i.debt_minutes in
    let one : SonarQubeIssue → ℕ = λ i. 1 in
    bind (sum_by_severity d.resolved base_by_key minutes) λ resolved.
      bind (sum_by_severity d.unresolved base_by_key minutes) λ unresolved.
        bind (sum_by_severity d.new run_by_key minutes) λ new.
          bind (sum_by_severity d.resolved base_by_key one) λ resolved_count.
            bind (sum_by_severity d.unresolved base_by_key one) λ unresolved_count.
              bind (sum_by_severity d.new run_by_key one) λ new_count. ok (record {
                resolved = resolved;
                unresolved = unresolved;
                new = new;
                resolved_count = resolved_count;
                unresolved_count = unresolved_count;
                new_count = new_count;
              })

module _ {Float : Type 0} (quotient : ℕ → ℕ → Float) (zero_float : Float) where
  unfoldable pub overall_row :
      FilePath → List SonarQubeIssue → List SonarQubeIssue → OverallRow Float
  unfolding difference total_count minutes_in
  overall_row run_path base_issues run_issues =
      let d = difference base_issues run_issues in
      let found = total_count d.resolved + total_count d.unresolved in
      record {
        run = run_path;
        resolved = minutes_in d.resolved base_issues;
        unresolved = minutes_in d.unresolved base_issues;
        new = minutes_in d.new run_issues;
        fix_rate = if found == 0 then zero_float else quotient (total_count d.resolved) found;
        resolved_count = total_count d.resolved;
        unresolved_count = total_count d.unresolved;
        new_count = total_count d.new;
      }

  module _ (loads_issues : Str → Result (List SonarQubeIssue)) (files : Files) where
    unfoldable pub load_php_issues : FilePath → Result (List SonarQubeIssue)
    unfolding bind is_php text_at
    load_php_issues path = elim (text_at files path) [
      | none ↦ raised os_error
      | some text ↦ bind (loads_issues text) (λ issues. ok (keep is_php issues))
    ]

    abbrev pub Rows : Type 0
    Rows = List (OverallRow Float) × List SeverityRow

    unfoldable pub per_run_debt :
        List SonarQubeIssue → List FilePath → List Key → Purpose → Result Rows
    unfolding bind load_php_issues select overall_row difference by_severity severities severity_row
    per_run_debt base_issues [] keys purpose = ok ([], [])
    per_run_debt base_issues (run_path ∷ run_paths) keys purpose =
        bind (load_php_issues run_path) λ php_issues.
          let run_issues = select purpose keys php_issues in
          bind (by_severity base_issues run_issues (difference base_issues run_issues)) λ by_sev.
            bind (per_run_debt base_issues run_paths keys purpose) λ rows. ok (
              overall_row run_path base_issues run_issues ∷ rows.0,
              map (severity_row run_path by_sev) (severities by_sev) ++ rows.1,
            )

module _ {Float : Type 0} (quotient : ℕ → ℕ → Float) (zero_float : Float)
    (loads_issues : Str → Result (List SonarQubeIssue)) (files : Files) where
  evaluate :
      Purpose
      → List (Str × List ℕ)
      → FilePath
      → List FilePath
      → Result (Rows quotient zero_float loads_issues files)
  unfolding bind load_php_issues kept_issues keys_at locations_of per_run_debt is_empty
  evaluate purpose table base_path run_paths =
      bind (load_php_issues quotient zero_float loads_issues files base_path) λ issues.
        if is_empty run_paths
        then raised os_error
        else per_run_debt quotient zero_float loads_issues files
            (kept_issues purpose (locations_of table) issues) run_paths
            (keys_at (locations_of table) issues) purpose

  -- The cell on the traditional runs.
  unfoldable pub evaluate_traditional :
      List (Str × List ℕ)
      → FilePath
      → List FilePath
      → Result (Rows quotient zero_float loads_issues files)
  unfolding evaluate
  evaluate_traditional = evaluate exclude

  -- The cell on the agent's runs.
  unfoldable pub evaluate_agent :
      List (Str × List ℕ)
      → FilePath
      → List FilePath
      → Result (Rows quotient zero_float loads_issues files)
  unfolding evaluate
  evaluate_agent = evaluate include
