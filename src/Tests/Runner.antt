-- ===== src/Tests/Runner.antt =====
-- The theorems on src/pipeline/runner.py at concrete inputs.
mod Runs
mod Threads
mod Active
use refactor_tradeoffs.Base.{
  ℕ, ◌≡◌, refl, true, false, none, some, List, [], ◌∷◌, ◌++◌, codes, FilePath, to_path, path_str,
  relative_to, ◌==◌, if◌then◌else◌, ap, list_eq, nat_eq, ok, arith,
}
use refactor_tradeoffs.Globals.{UnitResult, traditional}
use refactor_tradeoffs.Pipeline.State.{State, read_text, text_at, copyfile}
use refactor_tradeoffs.Pipeline.WorkerContext.{claim_worker_index, get_worker_repo, src_dir}
use refactor_tradeoffs.Pipeline.TreeParser.{splice_function, relocate_function}
use refactor_tradeoffs.Pipeline.VllmClient.{completed}
use refactor_tradeoffs.Pipeline.Refactor.{
  RefactorUnit, Services, Setup, refactor, start_session, close_session, correctness_loop,
  syntax_loop, attempt, ask, code_to_check, judge, check_syntax, check_correctness,
  write_if_traditional, after_check,
}
use refactor_tradeoffs.Pipeline.Utils.{parse_refactored_code}
use refactor_tradeoffs.Pipeline.Refactor.Counters.{AddUp, refactor-AddUp}
use refactor_tradeoffs.Pipeline.Refactor.Outcome.{refactor-Settled}
use refactor_tradeoffs.Pipeline.Refactor.Verified.{LeavesFiles, Settled}
use refactor_tradeoffs.Pipeline.Refactor.Frame.{refactor-Keeps}
use refactor_tradeoffs.Base.{map, length, show}
use refactor_tradeoffs.Pipeline.Refactor.{first_message, process_unit}
use refactor_tradeoffs.Pipeline.State.{read_text, write}
use refactor_tradeoffs.Pipeline.Units.{
  SonarQubeIssue, active_task, function_reference, build_units_active, process_claimed,
  process_file_units,
}
use refactor_tradeoffs.Pipeline.Units.Grouping.{IsGrouped, unit_place, build_units_active-IsGrouped}
use refactor_tradeoffs.Pipeline.Units.Merging.{ProcessedAll, process_file_units-Merged}
use refactor_tradeoffs.Tests.{World, source, f, profile, settings, run_name, run_files}

-- The language model answers with a function of one line.
abbrev services : Services World
services = record {
  complete = λ history w. (completed (record { content = some (codes "k"); usage = none }), w);
  converse = λ workspace message s. (record { events = []; failed = false; growth = none }, s);
  close = λ w. w;
}

abbrev setup : Setup World
setup = record { settings = settings; services = services; profile = profile }

abbrev path : FilePath
path = codes "a.c" ∷ []

abbrev unit : RefactorUnit
unit = record { task = []; file_path = path; function_info = f }

abbrev before : State World
before = record {
  files = λ q. if q == path then some source else none;
  worker_index = none;
  world = tt;
}

abbrev after : State World
after = (refactor setup [] [] [] unit before).1

abbrev accepted : UnitResult
accepted = record {
  name = codes "f";
  file = codes "a.c";
  accepted = true;
  equal_to_original = false;
  syntax_retries = 0;
  correctness_retries = 0;
  llm_calls = 1;
  tokens_in = 0;
  tokens_out = 0;
  tool_calls = 0;
}

refactor_accepts : refactor setup [] [] [] unit before ≡ (ok accepted, after)
unfolding refactor list_eq nat_eq path_str read_text start_session close_session correctness_loop
    syntax_loop attempt ask code_to_check judge relocate_function splice_function
    parse_refactored_code check_syntax check_correctness write_if_traditional after_check
refactor_accepts = refl

quiet : LeavesFiles profile (λ q. Unit {0})
quiet = record {
  syntax_check_leaves = λ code s q kept. refl;
  correctness_check_leaves = λ index s q kept. refl;
}

before_file : text_at before.files path ≡ some source
unfolding list_eq nat_eq text_at
before_file = refl

refactor-Settled_example : Settled profile (λ q. Unit {0}) traditional path source accepted after
refactor-Settled_example =
    refactor-Settled setup quiet [] [] [] unit source before after accepted tt before_file
      refactor_accepts

refactor-AddUp_example : AddUp settings accepted
refactor-AddUp_example = refactor-AddUp setup [] [] [] unit before after accepted refactor_accepts

abbrev first_code : FilePath → ℕ
first_code [] = 0
first_code ([] ∷ parts) = 0
first_code ((c ∷ part) ∷ parts) = c

refactor-Keeps_example :
    (refactor setup [] [] [] unit before).1.files (codes "b.c" ∷ [])
    ≡ before.files (codes "b.c" ∷ [])
refactor-Keeps_example =
    refactor-Keeps setup quiet [] [] [] unit before (codes "b.c" ∷ []) refl tt
      (λ e. omega (arith, ap first_code e))

-- Two issues of one function make one unit.
abbrev issue : ℕ → SonarQubeIssue
issue line = record {
  rule_key = [];
  severity = [];
  file_path = codes "key:a.c";
  line = line;
  debt_minutes = 0;
  message = codes "m";
}

abbrev run_path : FilePath
run_path = codes "job" ∷ run_name ∷ []

abbrev run_state : State World
run_state = record { files = run_files; worker_index = none; world = tt }

abbrev active_units : List RefactorUnit
active_units =
    record {
      task = active_task [] (function_reference f) (issue 0 ∷ issue 1 ∷ []);
      file_path = run_path ++ src_dir ++ (codes "a.c" ∷ []);
      function_info = f;
    }
    ∷ []

units_built :
    build_units_active setup run_path (issue 0 ∷ issue 1 ∷ []) run_state
    ≡ (ok active_units, run_state)
unfolding build_units_active list_eq nat_eq
units_built = refl

build_units_active-IsGrouped_example : IsGrouped (map unit_place active_units)
build_units_active-IsGrouped_example =
    build_units_active-IsGrouped setup run_path (issue 0 ∷ issue 1 ∷ []) run_state run_state
      active_units units_built

-- The worker 0 has a copy of the file.
abbrev worker_path : FilePath
worker_path = codes "job" ∷ codes "worker_0" ∷ codes "src" ∷ codes "a.c" ∷ []

abbrev pool_state : State World
pool_state = record {
  files = λ q. if q == worker_path then some source else none;
  worker_index = none;
  world = tt;
}

abbrev run_unit : RefactorUnit
run_unit = record {
  task = [];
  file_path = run_path ++ src_dir ++ (codes "a.c" ∷ []);
  function_info = f;
}

abbrev merged_state : State World
merged_state =
    (process_claimed setup run_path 0 (run_unit ∷ [])
      (record pool_state { worker_index = some 0 })).1

abbrev merged_result : UnitResult
merged_result = record accepted { file = codes "job/worker_0/src/a.c" }

unit_processed :
    process_file_units setup (run_unit ∷ []) run_path (0 ∷ 1 ∷ []) pool_state
    ≡ some ((ok (merged_result ∷ []), merged_state), 1 ∷ [])
unfolding process_file_units list_eq nat_eq path_str relative_to first_message to_path show refactor
    start_session close_session correctness_loop syntax_loop attempt ask code_to_check judge
    relocate_function splice_function parse_refactored_code check_syntax check_correctness
    write_if_traditional after_check read_text process_unit get_worker_repo write
unit_processed = refl

index_claimed : claim_worker_index pool_state.worker_index (0 ∷ 1 ∷ []) ≡ some (0, some 0, 1 ∷ [])
unfolding claim_worker_index
index_claimed = refl

process_file_units-Merged_example :
    ProcessedAll setup run_path 0
      (run_unit ∷ [])
      (merged_result ∷ [])
      (record pool_state { worker_index = some 0 })
      merged_state
process_file_units-Merged_example =
    process_file_units-Merged setup run_path (run_unit ∷ []) (0 ∷ 1 ∷ []) (1 ∷ []) pool_state
      merged_state (merged_result ∷ []) 0 (some 0) index_claimed unit_processed
