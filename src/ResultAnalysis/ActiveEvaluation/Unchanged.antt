-- ===== src/ResultAnalysis/ActiveEvaluation/Unchanged.antt =====
-- What the rows of the two evaluations say of a run in which no issue has changed.
use refactor_tradeoffs.Base.{
  ℕ, ◌+◌, ◌-◌, ◌≤◌, ◌≡◌, refl, ap, ◌∙◌, true, false, List, [], ◌∷◌, map, keep, length, contains,
  All, All-In, All-map, In, inl, inr, if◌then◌else◌, list_eq, nat_eq, FilePath, arith,
}
use refactor_tradeoffs.Base.Counter.{
  Counter, weigh, weigh-minus, weigh-increment, get, increment, counter_of, count_into, total_count,
  ◌minus◌, IsUnique,
}
use refactor_tradeoffs.Base.Counter.Common.{weigh-at, occurrences, get-count_into}
use refactor_tradeoffs.Pipeline.Units.{SonarQubeIssue}
use refactor_tradeoffs.ResultAnalysis.ActiveEvaluation.{
  Key, Purpose, OverallRow, issue_key, difference, overall_row, select, include, exclude, Location,
  at_location, keys_at, kept_issues,
}
use refactor_tradeoffs.ResultAnalysis.ActiveEvaluation.Counts.{counter_of-IsUnique}

weigh-zero : (d : Counter Key) → weigh (λ k c. 0) d ≡ 0
unfolding weigh
weigh-zero [] = refl
weigh-zero ((k, c) ∷ d) = omega (arith, weigh-zero d)

-- Nothing is left of a counter from which another takes as much.
minus-nothing :
    (a b : Counter Key) → IsUnique a → ((k : Key) → get k a ≤ get k b) → total_count (a minus b) ≡ 0
unfolding total_count
minus-nothing a b u h =
    weigh-minus (λ k c. c) a b (λ k. refl)
    ∙ weigh-at (λ k c. c - get k b) (λ k c. 0) a u (λ k p. omega (arith, h k))
    ∙ weigh-zero a

module _ (keys : List Key) where
  weigh-count_into :
      (ks : List Key) (d : Counter Key)
      → weigh (λ k c. if contains keys k then c else 0) (count_into ks d)
        ≡ length (keep (contains keys) ks) + weigh (λ k c. if contains keys k then c else 0) d
  unfolding count_into
  weigh-count_into [] d = omega arith
  weigh-count_into (k ∷ ks) d = ground (
    arith,
    weigh-count_into ks (increment k d),
    weigh-increment (λ j c. if contains keys j then c else 0) k d,
  )

  length-keep-map :
      (issues : List SonarQubeIssue)
      → length (keep (contains keys) (map issue_key issues))
        ≡ length (keep (λ issue. contains keys (issue_key issue)) issues)
  length-keep-map [] = refl
  length-keep-map (issue ∷ issues) = ground (arith, length-keep-map issues)

  occurrences-select :
      (k : Key) (issues : List SonarQubeIssue)
      → occurrences k (map issue_key (select exclude keys issues))
        ≡ (if contains keys k then 0 else occurrences k (map issue_key issues))
  unfolding select occurrences
  occurrences-select k [] = ground arith
  occurrences-select k (issue ∷ issues) = ground (arith, occurrences-select k issues)

  module _ (locations : List Location) where
    -- An issue at one of the places has one of the keys.
    abbrev IsCovered : SonarQubeIssue → Type 0
    IsCovered issue = at_location locations issue ≡ true → contains keys (issue_key issue) ≡ true

    occurrences-kept_issues :
        (k : Key) (issues : List SonarQubeIssue)
        → All IsCovered issues
        → contains keys k ≡ false
        → occurrences k (map issue_key (kept_issues exclude locations issues))
          ≡ occurrences k (map issue_key issues)
    unfolding kept_issues occurrences
    occurrences-kept_issues k [] covered other = refl
    occurrences-kept_issues k (issue ∷ issues) (first, rest) other =
        ground (arith, occurrences-kept_issues k issues rest other, first)

module _ (locations : List Location) where
  contains-keys_at :
      (issue : SonarQubeIssue) (issues : List SonarQubeIssue)
      → In issue issues
      → at_location locations issue ≡ true
      → contains (keys_at locations issues) (issue_key issue) ≡ true
  unfolding keys_at
  contains-keys_at issue [] h e = elim h [ ]
  contains-keys_at issue (first ∷ issues) (inl same) e = ground (arith, ap issue_key same)
  contains-keys_at issue (first ∷ issues) (inr h) e =
      ground (arith, contains-keys_at issue issues h e)

get-counter_of : (k : Key) (ks : List Key) → get k (counter_of ks) ≡ occurrences k ks
unfolding counter_of get
get-counter_of k ks = omega (arith, get-count_into k ks [])

module _ (locations : List Location) (issues : List SonarQubeIssue) where
  abbrev shared_keys : List Key
  shared_keys = keys_at locations issues

  abbrev before : Counter Key
  before = counter_of (map issue_key (kept_issues exclude locations issues))

  abbrev after : Counter Key
  after = counter_of (map issue_key (select exclude shared_keys issues))

  -- The run has all issues of a key, or none.
  get-after : (k : Key) → get k after ≡ (if contains shared_keys k then 0 else get k before)
  get-after k =
      let covered =
        All-map issues (λ issue. contains-keys_at locations issue issues) (All-In issues) in
      ground (
        arith,
        get-counter_of k (map issue_key (kept_issues exclude locations issues)),
        get-counter_of k (map issue_key (select exclude shared_keys issues)),
        occurrences-select shared_keys k issues,
        occurrences-kept_issues shared_keys locations k issues covered,
      )

  resolved-excluded :
      total_count (before minus after)
      ≡ length (
          keep
            (λ issue. contains shared_keys (issue_key issue))
            (kept_issues exclude locations issues))
  unfolding total_count weigh counter_of
  resolved-excluded =
      let v : Key → ℕ → ℕ = λ k c. if contains shared_keys k then c else 0 in
      weigh-minus (λ k c. c) before after (λ k. refl)
      ∙ weigh-at (λ k c. c - get k after) v before
          (counter_of-IsUnique (map issue_key (kept_issues exclude locations issues)))
          (λ k p. ground (arith, get-after k))
      ∙ omega (
        arith,
        weigh-count_into shared_keys (map issue_key (kept_issues exclude locations issues)) [],
        length-keep-map shared_keys (kept_issues exclude locations issues),
      )

  module _ {Float : Type 0} (quotient : ℕ → ℕ → Float) (zero_float : Float)
      (run_path : FilePath) where
    -- A run that leaves all issues as they are. The evaluation of the agent's runs finds nothing resolved and
    -- nothing new. That of the traditional runs finds nothing new either, but takes for resolved each issue that
    -- is at no excluded place and shares its rule, file and message with an issue at one.
    pub overall_row-unchanged :
        let row : Purpose → OverallRow Float = λ purpose.
          overall_row quotient zero_float run_path
            (kept_issues purpose locations issues)
            (select purpose shared_keys issues) in
        ((row include).resolved_count ≡ 0)
        × ((row include).new_count ≡ 0)
        × ((row exclude).new_count ≡ 0)
        × ((row exclude).resolved_count
            ≡ length (
                keep
                  (λ issue. contains shared_keys (issue_key issue))
                  (kept_issues exclude locations issues)))
    unfolding overall_row difference kept_issues select
    overall_row-unchanged =
        let same : Counter Key =
          counter_of (map issue_key (kept_issues include locations issues)) in
        let unique = counter_of-IsUnique (map issue_key (kept_issues include locations issues)) in
        (
          minus-nothing same same unique (λ k. omega arith),
          minus-nothing same same unique (λ k. omega arith),
          minus-nothing after before
              (counter_of-IsUnique (map issue_key (select exclude shared_keys issues)))
              (λ k. ground (arith, get-after k)),
          resolved-excluded,
        )
