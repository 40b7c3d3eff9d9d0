-- ===== src/ResultAnalysis/ActiveEvaluation/Severities.antt =====
-- The sums by severity: none raises, and their counts add up to those of the row.
use refactor_tradeoffs.Base.{
  ℕ, ◌+◌, ◌*◌, ◌≡◌, refl, ap, ◌∙◌, true, Option-cases, inl, inr, List, [], ◌∷◌, map, All, list_eq,
  nat_eq, Str, FilePath, Result, ok, bind, arith,
}
use refactor_tradeoffs.Base.Dict.{Dict, lookup, lookup_or, insert, has, has-insert}
use refactor_tradeoffs.Base.Counter.{
  Counter, weigh, increment, counter_of, count_into, total_count, ◌minus◌, ◌intersect◌,
}
use refactor_tradeoffs.Pipeline.Units.{SonarQubeIssue}
use refactor_tradeoffs.ResultAnalysis.ActiveEvaluation.{
  Key, issue_key, issues_by_key, add_severities, sum_by_severity, difference, by_severity,
  BySeverity, overall_row,
}

total_count-insert :
    (s : Str) (n : ℕ) (d : Dict Str ℕ)
    → total_count (insert s (lookup_or 0 s d + n) d) ≡ total_count d + n
unfolding total_count weigh insert lookup_or lookup
total_count-insert s n [] = omega arith
total_count-insert s n ((t, c) ∷ d) = ground (arith, total_count-insert s n d)

abbrev one : SonarQubeIssue → ℕ
one issue = 1

module _ (by_key : Dict Key SonarQubeIssue) where
  -- Each key of the counter has an issue.
  abbrev HasIssues : Counter Key → Type 0
  HasIssues counter = All (λ entry. has entry.0 by_key ≡ true) counter

  add_severities-total :
      (value_fn : SonarQubeIssue → ℕ) (counter : Counter Key) (result : Dict Str ℕ)
      → HasIssues counter
      → (end : Dict Str ℕ) × (add_severities value_fn by_key counter result ≡ ok end)
        × (((i : SonarQubeIssue) → value_fn i ≡ 1)
            → total_count end ≡ total_count result + total_count counter)
  unfolding add_severities has total_count weigh
  add_severities-total value_fn [] result h = (result, refl, λ u. omega arith)
  add_severities-total value_fn ((key, count) ∷ counter) result (first, rest) =
      elim (Option-cases (lookup key by_key)) [
        | inl missing ↦ absurd (ground (arith, missing))
        | inr (issue, found) ↦
            let added : Dict Str ℕ =
              insert issue.severity (lookup_or 0 issue.severity result + value_fn issue * count)
                result in
            let (end, ran, total) = add_severities-total value_fn counter added rest in
            (
              end,
              rw (found, add_severities) ran,
              λ ones.
                  let once : value_fn issue * count ≡ count =
                    ap (λ v. v * count) (ones issue) ∙ omega arith in
                  omega (
                    arith,
                    total ones,
                    once,
                    total_count-insert issue.severity (value_fn issue * count) result,
                  ),
            )
      ]

  increment-HasIssues :
      (k : Key) (d : Counter Key) → has k by_key ≡ true → HasIssues d → HasIssues (increment k d)
  unfolding increment
  increment-HasIssues k [] p h = (p, tt)
  increment-HasIssues k ((j, c) ∷ d) p h = ground (arith, increment-HasIssues k d p h.1, h)

  count_into-HasIssues :
      (ks : List Key) (d : Counter Key)
      → All (λ k. has k by_key ≡ true) ks
      → HasIssues d
      → HasIssues (count_into ks d)
  unfolding count_into
  count_into-HasIssues [] d p h = h
  count_into-HasIssues (k ∷ ks) d p h =
      count_into-HasIssues ks (increment k d) p.1 (increment-HasIssues k d p.0 h)

  minus-HasIssues : (a b : Counter Key) → HasIssues a → HasIssues (a minus b)
  unfolding ◌minus◌
  minus-HasIssues [] b h = tt
  minus-HasIssues ((k, c) ∷ a) b h = ground (arith, minus-HasIssues a b h.1, h)

  intersect-HasIssues : (a b : Counter Key) → HasIssues a → HasIssues (a intersect b)
  unfolding ◌intersect◌
  intersect-HasIssues [] b h = tt
  intersect-HasIssues ((k, c) ∷ a) b h = ground (arith, intersect-HasIssues a b h.1, h)

has-issues_by_key :
    (k : Key) (issues : List SonarQubeIssue) (d : Dict Key SonarQubeIssue)
    → has k d ≡ true
    → has k (issues_by_key issues d) ≡ true
unfolding issues_by_key
has-issues_by_key k [] d h = h
has-issues_by_key k (issue ∷ issues) d h =
    has-issues_by_key k issues (insert (issue_key issue) issue d)
      (ground (arith, has-insert k (issue_key issue) issue d))

has-All :
    (issues : List SonarQubeIssue) (d : Dict Key SonarQubeIssue)
    → All (λ k. has k (issues_by_key issues d) ≡ true) (map issue_key issues)
unfolding issues_by_key
has-All [] d = tt
has-All (issue ∷ issues) d =
    let next = insert (issue_key issue) issue d in
    (
      has-issues_by_key (issue_key issue) issues next
          (ground (arith, has-insert (issue_key issue) (issue_key issue) issue d)),
      has-All issues next,
    )

counter_of-HasIssues :
    (issues : List SonarQubeIssue)
    → HasIssues (issues_by_key issues []) (counter_of (map issue_key issues))
unfolding counter_of
counter_of-HasIssues issues =
    count_into-HasIssues (issues_by_key issues []) (map issue_key issues) [] (has-All issues []) tt

-- A sum by severity that comes to an end, and one of ones that adds up to the counter too.
sum_by_severity-ok :
    (by_key : Dict Key SonarQubeIssue) (counter : Counter Key) (value_fn : SonarQubeIssue → ℕ)
    → HasIssues by_key counter
    → (end : Dict Str ℕ) × (sum_by_severity counter by_key value_fn ≡ ok end)
unfolding sum_by_severity
sum_by_severity-ok by_key counter value_fn h =
    let (end, ran, total) = add_severities-total by_key value_fn counter [] h in (end, ran)

sum_by_severity-one :
    (by_key : Dict Key SonarQubeIssue) (counter : Counter Key)
    → HasIssues by_key counter
    → (end : Dict Str ℕ) × (sum_by_severity counter by_key one ≡ ok end)
      × (total_count end ≡ total_count counter)
unfolding sum_by_severity total_count weigh
sum_by_severity-one by_key counter h =
    let (end, ran, total) = add_severities-total by_key one counter [] h in
    (end, ran, omega (arith, total (λ i. refl)))

bind-ok {ℓ κ} :
    {A : Type ℓ} {B : Type κ} (m : Result A) (f : A → Result B) {a : A} {r : Result B}
    → m ≡ ok a
    → f a ≡ r
    → bind m f ≡ r
unfolding bind
bind-ok m f e h = rw e h

difference-HasIssues :
    (base_issues run_issues : List SonarQubeIssue)
    → let d = difference base_issues run_issues in
      HasIssues (issues_by_key base_issues []) d.resolved
      × HasIssues (issues_by_key base_issues []) d.unresolved
      × HasIssues (issues_by_key run_issues []) d.new
unfolding difference
difference-HasIssues base_issues run_issues =
    let a = counter_of (map issue_key base_issues) in
    let b = counter_of (map issue_key run_issues) in
    (
      minus-HasIssues (issues_by_key base_issues []) a b (counter_of-HasIssues base_issues),
      intersect-HasIssues (issues_by_key base_issues []) a b (counter_of-HasIssues base_issues),
      minus-HasIssues (issues_by_key run_issues []) b a (counter_of-HasIssues run_issues),
    )

-- No sum by severity of a run raises a `KeyError`, and the numbers of resolved, unresolved and new issues by
-- severity add up to those of the run's row.
pub by_severity-total :
    {Float : Type 0} (quotient : ℕ → ℕ → Float) (zero_float : Float) (run_path : FilePath)
    (base_issues run_issues : List SonarQubeIssue)
    → let row = overall_row quotient zero_float run_path base_issues run_issues in
      (by_sev : BySeverity) × (by_severity base_issues run_issues
          (difference base_issues run_issues)
        ≡ ok by_sev)
      × (total_count by_sev.resolved_count ≡ row.resolved_count)
      × (total_count by_sev.unresolved_count ≡ row.unresolved_count)
      × (total_count by_sev.new_count ≡ row.new_count)
unfolding overall_row by_severity
by_severity-total quotient zero_float run_path base_issues run_issues =
    let base_by_key = issues_by_key base_issues [] in
    let run_by_key = issues_by_key run_issues [] in
    let d = difference base_issues run_issues in
    let (resolved_known, unresolved_known, new_known) =
      difference-HasIssues base_issues run_issues in
    let minutes : SonarQubeIssue → ℕ = λ i. i.debt_minutes in
    let (resolved, e₁) = sum_by_severity-ok base_by_key d.resolved minutes resolved_known in
    let (unresolved, e₂) = sum_by_severity-ok base_by_key d.unresolved minutes unresolved_known in
    let (new, e₃) = sum_by_severity-ok run_by_key d.new minutes new_known in
    let (resolved_count, f₁, t₁) = sum_by_severity-one base_by_key d.resolved resolved_known in
    let (unresolved_count, f₂, t₂) =
      sum_by_severity-one base_by_key d.unresolved unresolved_known in
    let (new_count, f₃, t₃) = sum_by_severity-one run_by_key d.new new_known in
    (
      record {
        resolved = resolved;
        unresolved = unresolved;
        new = new;
        resolved_count = resolved_count;
        unresolved_count = unresolved_count;
        new_count = new_count;
      },
      bind-ok _ _ e₁
          (bind-ok _ _ e₂ (bind-ok _ _ e₃ (bind-ok _ _ f₁ (bind-ok _ _ f₂ (bind-ok _ _ f₃ refl))))),
      t₁,
      t₂,
      t₃,
    )
