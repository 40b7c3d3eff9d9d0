-- ===== src/Sonarqube.antt =====
-- src/sonarqube/parse_issues.py. The server's answer to the request for a page is a parameter.
pub mod Debt
pub mod Paging
use refactor_tradeoffs.Base.{
  or_value_error, ℕ, zero, suc, ◌+◌, ◌*◌, Bool, true, false, ◌&&◌, Option, none, some, List, [],
  ◌∷◌, ◌++◌, Str, codes, is_empty, starts_with, length, drop, strip, ◌==◌, contains, list_eq,
  nat_eq, if◌then◌else◌, Result, ok, raised, value_error,
}
use refactor_tradeoffs.Base.Names.{int, split_on}
use refactor_tradeoffs.Pipeline.Units.{SonarQubeIssue}

abbrev pub letter_h : ℕ
letter_h = b'h'

abbrev pub minute_mark : Str
minute_mark = codes "min"

-- `mark in s`, for a mark that is not empty.
unfoldable pub has_mark : Str → Str → Bool
unfolding starts_with
has_mark mark [] = false
has_mark mark (c ∷ s) =
    let rest = has_mark mark s in if starts_with (c ∷ s) mark then true else rest

-- `s.replace('min', '')`: what stands before a mark stays, and the search goes on behind it.
unfoldable pub without_minutes : Str → Str
without_minutes (b ∷ i ∷ n ∷ s) =
    let skip = without_minutes s in
    let next = without_minutes (i ∷ n ∷ s) in
    if b == b'm' && (i == b'i' && n == b'n') then skip else b ∷ next
without_minutes s = s

first_part : List Str → Str
first_part [] = []
first_part (part ∷ parts) = part

second_part : List Str → Str
second_part (part ∷ next ∷ parts) = next
second_part _ = []

-- What the second `if` adds to the total.
unfoldable pub with_minutes : ℕ → Str → Result ℕ
with_minutes total debt_str =
    if has_mark minute_mark debt_str
    then elim (or_value_error (int (strip (without_minutes debt_str)))) [
      | ok minutes ↦ ok (total + minutes)
      | raised e ↦ raised e
    ]
    else ok total

unfoldable pub parse_sonarqube_debt_string : Option Str → Result ℕ
unfolding first_part second_part is_empty
parse_sonarqube_debt_string none = ok 0
parse_sonarqube_debt_string (some debt_str) =
    if is_empty debt_str
    then ok 0
    else if contains debt_str letter_h
    then elim (or_value_error (int (first_part (split_on letter_h debt_str)))) [
      | ok hours ↦ with_minutes (hours * 60) (second_part (split_on letter_h debt_str))
      | raised e ↦ raised e
    ]
    else with_minutes 0 debt_str

-- An issue of the server's answer, as far as it is read. A key that is missing is `none`.
pub record RawIssue : Type 0 where
  pub rule : Option Str
  pub severity : Option Str
  pub component : Option Str
  pub line : Option ℕ
  pub debt : Option Str
  pub message : Option Str

-- The loop from `page` on: `requests_get` gives the issues of a page, or raises. `none` stands for
-- fuel that has run out.
unfoldable pub fetch_from :
    ℕ → (ℕ → Result (List RawIssue)) → ℕ → List RawIssue → Option (Result (List RawIssue))
unfolding is_empty
fetch_from zero requests_get page issues = none
fetch_from (suc fuel) requests_get page issues = elim (requests_get page) [
  | raised e ↦ some (raised e)
  | ok found ↦ elim (is_empty found) [
    | true ↦ some (ok issues)
    | false ↦ fetch_from fuel requests_get (page + 1) (issues ++ found)
  ]
]

unfoldable pub fetch_all_pages : ℕ → (ℕ → Result (List RawIssue)) → Option (Result (List RawIssue))
unfolding fetch_from
fetch_all_pages fuel requests_get = fetch_from fuel requests_get 1 []

or_empty : Option Str → Str
or_empty none = []
or_empty (some s) = s

-- `raw_issue.get('line')`, where 0 counts as missing too.
unfoldable pub line_number : RawIssue → ℕ
line_number raw = elim raw.line [ none ↦ 0 | some line ↦ line ]

-- The loop of `write_sonarqube_issues_to_disk`.
unfoldable pub convert_issues : List RawIssue → Result (List SonarQubeIssue)
unfolding line_number or_empty parse_sonarqube_debt_string
convert_issues [] = ok []
convert_issues (raw ∷ raws) =
    let rest = convert_issues raws in
    if line_number raw == 0 then rest else elim (parse_sonarqube_debt_string raw.debt) [
      | raised e ↦ raised e
      | ok debt_minutes ↦ elim rest [
        | raised e ↦ raised e
        | ok issues ↦ ok (
            record {
              rule_key = or_empty raw.rule;
              severity = or_empty raw.severity;
              file_path = or_empty raw.component;
              line = line_number raw;
              debt_minutes = debt_minutes;
              message = or_empty raw.message;
            }
            ∷ issues)
      ]
    ]
