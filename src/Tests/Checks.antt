-- ===== src/Tests/Checks.antt =====
-- The theorems on the checks, the server and the meters at concrete inputs: a test script that leaves one
-- report with one failure.
use refactor_tradeoffs.Base.{
  FilePath, ℕ, ◌≡◌, ◌≢◌, ◌↔◌, refl, Bool, true, false, none, some, List, [], ◌∷◌, Str, codes, strip,
  path_str, list_eq, nat_eq, ok, zero, suc,
}
use refactor_tradeoffs.Base.Xml.{Element, element, nil, cons}
use refactor_tradeoffs.Globals.{Settings}
use refactor_tradeoffs.Pipeline.Energy.CpuUtil.{match_filename}
use refactor_tradeoffs.Pipeline.Energy.CpuUtil.Names.{file_name, match_filename-file_name}
use refactor_tradeoffs.Pipeline.State.{State, write}
use refactor_tradeoffs.Pipeline.WorkerContext.{get_worker_repo}
use refactor_tradeoffs.Pipeline.Refactor.Verified.{LeavesFiles}
use refactor_tradeoffs.Pipeline.Checks.Engineblock.{
  EbTestFailure, TestScript, completed, correctness_check_eb, by_message, no_messages,
}
use refactor_tradeoffs.Pipeline.Checks.Engineblock.Failures.{IsGrouped, by_message-IsGrouped}
use refactor_tradeoffs.Pipeline.Checks.Php
use refactor_tradeoffs.Pipeline.Checks.Php.{
  LintScript, syntax_check_php, Completes, syntax_check_php-passed,
}
use refactor_tradeoffs.Pipeline.Checks.EbProfile.{
  engineblock, ScriptsLeaveFiles, engineblock-LeavesFiles,
}
use refactor_tradeoffs.Pipeline.Checks.Tools.{
  as_observation, correctness_tool, correctness_tool-worker,
}
use refactor_tradeoffs.Pipeline.VllmServer.{Health, status_code, request_exception}
use refactor_tradeoffs.Tests.{World, tree, settings}

abbrev report : Element
report = element (codes "testsuite") [] none (
    cons
      (element (codes "testcase") ((codes "name", codes "t") ∷ []) none
        (cons (element (codes "failure") [] (some (codes "no")) nil) nil))
      nil)

abbrev tests : TestScript World
tests = record {
  execute = λ index s. (completed 1 [], s);
  reports = λ s. (codes "phpunit-unit.xml" ∷ [], some report) ∷ [];
}

abbrev lint : LintScript World
lint = record {
  temp_path = λ s. codes "tmp" ∷ codes "code.php" ∷ [];
  execute = λ path s. (Php.completed 0 [] [], s);
}

abbrev idle : State World
idle = record { files = λ path. none; worker_index = some 1; world = tt }

-- The check's answer for the report.
check_fails :
    correctness_check_eb tests 5 none idle
    ≡ (ok (false, codes "SUITE:  unit\nTEST:   t\nno\n---\n"), idle)
unfolding correctness_check_eb list_eq nat_eq
check_fails = refl

abbrev failure : Str → Str → EbTestFailure
failure test message = record { suite = codes "unit"; test = test; message = message }

abbrev failures : List EbTestFailure
failures =
    failure (codes "a") (codes "x")
    ∷ failure (codes "b") (codes "y")
    ∷ failure (codes "c") (codes "x")
    ∷ []

by_message-IsGrouped_example : IsGrouped failures (by_message failures no_messages)
by_message-IsGrouped_example = by_message-IsGrouped failures

syntax_check_php-passed_example :
    (passed : Bool) × (output : Str) × (t : State World) × (syntax_check_php lint
        (codes "f();")
        idle
      ≡ (ok (passed, output), t))
    × (content : Str) × Completes (codes "f();") content
    × ((passed ≡ true) ↔ (
        (strip (codes "f();") ≢ [])
        × ((stdout : Str) × (stderr : Str) × ((lint.execute
                (lint.temp_path idle)
                (record idle { files = write (lint.temp_path idle) content idle.files })).0
              ≡ Php.completed 0 stdout stderr))))
syntax_check_php-passed_example = syntax_check_php-passed lint (codes "f();") idle

-- All files but the temporary one matter.
abbrev Kept : FilePath → Type 0
Kept q = q ≢ codes "tmp" ∷ codes "code.php" ∷ []

scripts : ScriptsLeaveFiles lint tests (λ _. tree) 5 Kept
scripts = record {
  temp_apart = λ s q kept. kept;
  lint_leaves = λ path s q kept. refl;
  tests_leave = λ index s q kept. refl;
}

engineblock-LeavesFiles_example : LeavesFiles (engineblock lint tests (λ _. tree) 5) Kept
engineblock-LeavesFiles_example = engineblock-LeavesFiles lint tests (λ _. tree) 5 Kept scripts

correctness_tool-worker_example :
    (correctness_tool
        (engineblock lint tests (λ _. tree) 5)
        (some (path_str (get_worker_repo settings 1)))
        idle
      ≡ as_observation (correctness_check_eb tests 5 (some 1)) idle)
    × (correctness_check_eb tests 5 none idle ≡ correctness_check_eb tests 5 (some 1) idle)
correctness_tool-worker_example =
    correctness_tool-worker lint tests (λ _. tree) 5 settings 1 idle idle refl

-- The server answers after ten seconds.
abbrev requests_get : Str → ℕ → Health
requests_get url zero = request_exception
requests_get url (suc elapsed) = status_code 200

abbrev patient : Settings
patient = record settings { vllm_server_timeout = 20 }

match_filename-file_name_example : match_filename (file_name 10 50 60) ≡ some (10, 50, 60)
match_filename-file_name_example = match_filename-file_name 10 50 60
