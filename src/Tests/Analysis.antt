-- ===== src/Tests/Analysis.antt =====
-- The theorems on the server's issues, the traces, the reports and the saved results at concrete inputs.
use refactor_tradeoffs.Base.{
  flatten, ℕ, ◌+◌, ◌*◌, ◌≡◌, refl, ap, none, some, List, [], ◌∷◌, ◌++◌, Str, codes, show, length,
  ltb, zero, suc, list_eq, nat_eq, Result, ok, arith,
}
use refactor_tradeoffs.Base.Dict.{lookup_or, has}
use refactor_tradeoffs.Sonarqube.{
  letter_h, minute_mark, RawIssue, parse_sonarqube_debt_string, fetch_all_pages,
}
use refactor_tradeoffs.Sonarqube.Debt.{
  parse_sonarqube_debt_string-show, parse_sonarqube_debt_string-days,
}
use refactor_tradeoffs.Sonarqube.Paging.{fetch_all_pages-Serves}
use refactor_tradeoffs.RepositoryAnalysis.Xdebug.{calls_of, count_calls, count_calls-lem}

parse_sonarqube_debt_string-show_example :
    (parse_sonarqube_debt_string (some (show 2 ++ (letter_h ∷ (show 30 ++ minute_mark))))
      ≡ ok (2 * 60 + 30))
    × (parse_sonarqube_debt_string (some (show 30 ++ minute_mark)) ≡ ok 30)
    × (parse_sonarqube_debt_string (some (show 2 ++ (letter_h ∷ []))) ≡ ok (2 * 60))
parse_sonarqube_debt_string-show_example = parse_sonarqube_debt_string-show 2 30

parse_sonarqube_debt_string-days_example :
    parse_sonarqube_debt_string (some (show 2 ++ codes "d")) ≡ ok 0
parse_sonarqube_debt_string-days_example = parse_sonarqube_debt_string-days 2

abbrev raw : ℕ → RawIssue
raw line = record {
  rule = none;
  severity = none;
  component = some (codes "key:a.c");
  line = some line;
  debt = some (codes "5min");
  message = none;
}

abbrev pages : List (List RawIssue)
pages = (raw 1 ∷ raw 2 ∷ []) ∷ (raw 3 ∷ []) ∷ []

abbrev page_at : ℕ → Result (List RawIssue)
page_at zero = ok []
page_at (suc zero) = ok (raw 1 ∷ raw 2 ∷ [])
page_at (suc (suc zero)) = ok (raw 3 ∷ [])
page_at (suc (suc (suc n))) = ok []

fetch_all_pages-Serves_example : fetch_all_pages 3 page_at ≡ some (ok (flatten pages))
fetch_all_pages-Serves_example =
    fetch_all_pages-Serves page_at pages 3 (omega arith)
      (refl, (λ e. omega (arith, ap length e)), (refl, (λ e. omega (arith, ap length e)), refl))

-- The call of `f` at the level 0 counts; the line that is no call does not.
abbrev trace : List Str
trace = codes "1\t1\t0\t0\t0\tf\t1\tx" ∷ codes "TRACE START" ∷ codes "1\t2\t0\t0\t0\tf\t1\tx" ∷ []

count_calls-lem_example :
    (lookup_or 0 (codes "f") (count_calls none trace []) ≡ calls_of none (codes "f") trace)
    × (has (codes "f") (count_calls none trace []) ≡ ltb 0 (calls_of none (codes "f") trace))
count_calls-lem_example = count_calls-lem none (codes "f") trace
