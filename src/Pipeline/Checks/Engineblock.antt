-- ===== src/Pipeline/Checks/Engineblock.antt =====
-- src/pipeline/code_checks/correctness_checks/engineblock.py. The test script is a parameter: how it
-- ends, and the reports that it leaves in the temporary directory.
pub mod Failures
pub mod Verdict
use refactor_tradeoffs.Base.{
  ℕ, ◌+◌, ◌-◌, Bool, true, false, ◌||◌, not, Option, none, some, List, [], ◌∷◌, ◌++◌, map, Str,
  codes, is_empty, strip, join, show, length, take, FilePath, path_name, ltb, ◌==◌, list_eq, nat_eq,
  if◌then◌else◌, Exec, pure, ◌>>=◌,
}
use refactor_tradeoffs.Base.Dict.{Dict, has, insert, append_to, lookup_or}
use refactor_tradeoffs.Base.Xml.{Element, tag_of, text_of, get, children_of, iter}
use refactor_tradeoffs.Base.Names.{removeprefix, stem}
use refactor_tradeoffs.Pipeline.State.{State}
use refactor_tradeoffs.Pipeline.WorkerContext.{get_worker_index}

pub record EbTestFailure : Type 0 where
  pub suite : Str
  pub test : Str
  pub message : Str

-- How the script ends.
pub data ScriptEnd : Type 0 where
  timed_out : ScriptEnd
  completed : (returncode : ℕ) (stderr : Str) → ScriptEnd

-- The script, for a worker index, and the paths `phpunit-*.xml` that it leaves, sorted, with the root
-- of each, or `none` where `ElementTree.parse` raises a `ParseError`.
pub record TestScript (World : Type 0) : Type 0 where
  pub execute : ℕ → State World → ScriptEnd × State World
  pub reports : State World → List (FilePath × Option Element)

-- The return code and the captured standard error.
unfoldable pub exit_of : ScriptEnd → ℕ × Str
exit_of timed_out = (1, [])
exit_of (completed returncode stderr) = (returncode, stderr)

unfoldable pub failure_of : Str → Element → Element → EbTestFailure
unfolding get strip is_empty
failure_of suite_name testcase child =
    let classname = get (codes "classname") [] testcase in
    let name = get (codes "name") [] testcase in
    record {
      suite = suite_name;
      test = if is_empty classname then name else classname ++ ((b'.' ∷ []) ++ name);
      message = elim (text_of child) [ none ↦ [] | some text ↦ strip text ];
    }

abbrev is_failure : Element → Bool
is_failure child = tag_of child == codes "failure" || tag_of child == codes "error"

-- The innermost loop, over the children of a test case.
unfoldable pub case_failures : Str → Element → List Element → List EbTestFailure
unfolding failure_of
case_failures suite_name testcase [] = []
case_failures suite_name testcase (child ∷ children) =
    let rest = case_failures suite_name testcase children in
    if is_failure child then failure_of suite_name testcase child ∷ rest else rest

unfoldable pub suite_failures : Str → List Element → List EbTestFailure
unfolding case_failures children_of
suite_failures suite_name [] = []
suite_failures suite_name (testcase ∷ testcases) =
    case_failures suite_name testcase (children_of testcase) ++ suite_failures suite_name testcases

unfoldable pub parse_eb_test_results : List (FilePath × Option Element) → List EbTestFailure
unfolding suite_failures iter removeprefix stem path_name
parse_eb_test_results [] = []
parse_eb_test_results ((xml_path, none) ∷ reports) = parse_eb_test_results reports
parse_eb_test_results ((xml_path, some root) ∷ reports) =
    suite_failures (removeprefix (stem (path_name xml_path)) (codes "phpunit-"))
      (iter (codes "testcase") root)
    ++ parse_eb_test_results reports

-- The three local dicts and lists of `format_failures`.
pub record ByMessage : Type 0 where
  pub tests_by_message : Dict Str (List Str)
  pub message_order : List Str
  pub suite_by_message : Dict Str Str

abbrev pub no_messages : ByMessage
no_messages = record { tests_by_message = []; message_order = []; suite_by_message = [] }

-- One round of the first loop.
unfoldable pub add_failure : EbTestFailure → ByMessage → ByMessage
unfolding has insert append_to
add_failure failure b =
    let message = failure.message in
    if has message b.tests_by_message
    then record b { tests_by_message = append_to message failure.test b.tests_by_message }
    else record {
      tests_by_message = append_to message failure.test (insert message [] b.tests_by_message);
      message_order = b.message_order ++ (message ∷ []);
      suite_by_message = insert message failure.suite b.suite_by_message;
    }

unfoldable pub by_message : List EbTestFailure → ByMessage → ByMessage
unfolding add_failure
by_message [] b = b
by_message (failure ∷ failures) b = by_message failures (add_failure failure b)

abbrev newline : Str
newline = b'\n' ∷ []

unfoldable pub block : ByMessage → Str → Str
unfolding lookup_or join is_empty
block b message = join newline (
    (codes "SUITE:  " ++ lookup_or [] message b.suite_by_message)
    ∷ (map (λ test. codes "TEST:   " ++ test) (lookup_or [] message b.tests_by_message)
        ++ ((if is_empty message then [] else message ∷ []) ++ (codes "---" ∷ []))))

unfoldable pub omitted_block : ℕ → List Str
unfolding show
omitted_block omitted =
    if ltb 0 omitted
    then (codes "... "
        ++ (show omitted ++ codes " more distinct failure(s) omitted for brevity ..."))
      ∷ []
    else []

unfoldable pub blocks : ℕ → ByMessage → List Str
unfolding block omitted_block
blocks max_reported b =
    let shown_messages = take max_reported b.message_order in
    let omitted = length b.message_order - length shown_messages in
    map (block b) shown_messages ++ omitted_block omitted

unfoldable pub format_failures : ℕ → List EbTestFailure → Str
unfolding blocks by_message join is_empty
format_failures max_reported failures =
    let shown = blocks max_reported (by_message failures no_messages) in
    if is_empty shown then [] else join newline shown ++ newline

-- What the check answers, from the return code, the standard error and the failures.
unfoldable pub verdict : ℕ → Str → Str → Bool × Str
unfolding is_empty
verdict returncode stderr failures =
    if returncode == 0
    then (true, failures)
    else if is_empty failures
    then (
      false,
      if is_empty stderr then codes "The correctness check failed with no output." else stderr,
    )
    else (false, failures)

unfoldable pub resolve_index : {World : Type 0} → Option ℕ → Exec (State World) ℕ
unfolding get_worker_index
resolve_index none = get_worker_index
resolve_index (some worker_index) = pure worker_index

module _ {World : Type 0} (script : TestScript World) (max_reported : ℕ) where
  unfoldable pub run_eb_tests : ℕ → Exec (State World) (ℕ × Str)
  unfolding exit_of
  run_eb_tests worker_index s =
      let run = script.execute worker_index s in pure (exit_of run.0) run.1

  unfoldable pub parse_and_format_eb_test_results : Exec (State World) Str
  unfolding format_failures parse_eb_test_results
  parse_and_format_eb_test_results s =
      pure (format_failures max_reported (parse_eb_test_results (script.reports s))) s

  unfoldable pub correctness_check_eb : Option ℕ → Exec (State World) (Bool × Str)
  unfolding resolve_index run_eb_tests parse_and_format_eb_test_results verdict
  correctness_check_eb worker_index = do
    index ← resolve_index worker_index
    (returncode, stderr) ← run_eb_tests index
    failures ← parse_and_format_eb_test_results
    pure (verdict returncode stderr failures)
