-- ===== src/Tests/Runner/Runs.antt =====
-- The theorems on `perform_run` and `runner` at concrete inputs: a repository of one file in which there
-- is one unit, and one in which there are none.
use mathlib.Core.List.{Permᴰ}
use refactor_tradeoffs.Base.{
  ℕ, ◌<◌, All, ◌≡◌, refl, true, false, some, List, [], ◌∷◌, map, Str, codes, show, FilePath,
  to_path, path_str, relative_to, list_eq, nat_eq, Result, ok, raised, value_error,
}
use refactor_tradeoffs.Pipeline.State.{read_text, write, write_text}
use refactor_tradeoffs.Pipeline.WorkerContext.{get_worker_repo}
use refactor_tradeoffs.Pipeline.WorkerContext.Pool.{start}
use refactor_tradeoffs.Pipeline.Energy.Gpu.{new_gpu_meter}
use refactor_tradeoffs.Pipeline.Energy.Cpu.{new_cpu_meter}
use refactor_tradeoffs.Pipeline.VllmServer.{Health, status_code}
use refactor_tradeoffs.Pipeline.Units.{process_file_units}
use refactor_tradeoffs.Pipeline.Run.{
  Floats, RunResult, RunServices, Lab, FileUnits, run_repo_of, set_up, build_units, perform_run,
  group_by_file, run_pool, run_tasks, finish, measure, save, saved_below, summarise, on_state,
  copy_new, total_of, stop_cpu, stop_gpu, collect,
}
use refactor_tradeoffs.Pipeline.Run.Totals.{AddsUp, run_pool-AddsUp}
use refactor_tradeoffs.Pipeline.Run.NoUnits.{perform_run-no_units}
use refactor_tradeoffs.Pipeline.Run.Experiment.{Experiment, IsFinished, runner, runner-IsFinished}
use refactor_tradeoffs.Pipeline.Refactor.Index.{LeavesIndex}
use refactor_tradeoffs.ResultAnalysis.{load_run}
use refactor_tradeoffs.ResultAnalysis.Saved.{runner_file, analysis_dir, load_run-save}
use refactor_tradeoffs.Tests.{World, settings}
use refactor_tradeoffs.Pipeline.TreeParser.{splice_function, relocate_function}
use refactor_tradeoffs.Pipeline.Refactor.{
  refactor, start_session, close_session, correctness_loop, syntax_loop, attempt, ask,
  code_to_check, judge, check_syntax, check_correctness, write_if_traditional, after_check,
  first_message, process_unit,
}
use refactor_tradeoffs.Pipeline.Utils.{parse_refactored_code}
use refactor_tradeoffs.Tests.Runner.{merged_state, setup, pool_state, run_unit, merged_result}

-- Times and energies are not looked at.
abbrev floats : Floats World
floats = record {
  quotient = λ m n. tt;
  rounded = λ x n. tt;
  plus = λ x y. tt;
  joules_of_cpu = λ n. tt;
  joules_of_gpu = λ n. tt;
  zero_float = tt;
}

abbrev in_order : ℕ → List FileUnits → List (ℕ × FileUnits)
in_order workers [] = []
in_order workers (task ∷ tasks) = (0, task) ∷ in_order workers tasks

abbrev run_services : RunServices World World
run_services = record {
  floats = floats;
  exists = λ path s. false;
  rglob = λ dir extension s. [];
  loads_issues = λ text. ok [];
  dumps = λ result. show result.run_index;
  seconds_between = λ s t. tt;
  package_polls = λ s. [];
  package_energy = λ s. some (2 ∷ []);
  gpu_counters = λ s. 7 ∷ [];
  schedule = in_order;
}

abbrev results_dir : FilePath
results_dir = codes "results" ∷ []

abbrev lab : Lab World
lab = record { state = pool_state; cpu = new_cpu_meter; gpu = new_gpu_meter }

abbrev no_repo : FilePath
no_repo = codes "nothing" ∷ []

-- What the run has set up for a repository that has no files.
abbrev ready : Lab World
ready = (set_up setup run_services [] results_dir 1 no_repo lab).1

base_copied : set_up setup run_services [] results_dir 1 no_repo lab ≡ (ok tt, ready)
unfolding set_up
base_copied = refl

nothing_built :
    build_units setup run_services [] results_dir settings.experiment_type
      (run_repo_of setup run_services [] results_dir 1)
      ready.state
    ≡ (ok [], ready.state)
unfolding build_units
nothing_built = refl

perform_run-no_units_example :
    perform_run setup run_services [] results_dir 1 no_repo lab
    ≡ some (raised value_error, record ready { state = ready.state })
perform_run-no_units_example =
    perform_run-no_units setup run_services [] results_dir 1 no_repo lab ready ready.state
      base_copied nothing_built

-- The pool processes the one unit.
abbrev by_file : List FileUnits
by_file = group_by_file (run_unit ∷ []) []

abbrev pool_result : RunResult World
pool_result = record {
  run_index = 1;
  experiment_type = settings.experiment_type;
  ai_type = settings.ai_type;
  model = [];
  language = codes "C";
  wall_time_seconds = tt;
  cpu_energy_joules = tt;
  gpu_energy_joules = tt;
  total_energy_joules = tt;
  total_llm_calls = 1;
  total_tokens_in = 0;
  total_tokens_out = 0;
  total_processed_units = 1;
  total_accepted_units = 1;
  total_rejected_units = 0;
  acceptance_rate = tt;
  per_unit_results = merged_result ∷ [];
}

abbrev pool_end : Lab World
pool_end =
    (finish setup run_services [] results_dir 1 pool_state (merged_result ∷ [])
      (record lab { state = merged_state })).1

pool_returns :
    run_pool setup run_services [] results_dir 1 (ok (pool_state, by_file)) lab
    ≡ some (ok pool_result, pool_end)
unfolding run_pool run_tasks start collect finish measure save summarise on_state copy_new
    write_text total_of stop_cpu stop_gpu group_by_file process_file_units list_eq nat_eq path_str
    relative_to first_message to_path show refactor start_session close_session correctness_loop
    syntax_loop attempt ask code_to_check judge relocate_function splice_function
    parse_refactored_code check_syntax check_correctness write_if_traditional after_check read_text
    process_unit get_worker_repo write
pool_returns = refl

each_once : (tasks : List FileUnits) → Permᴰ (map (λ task. task.1) (in_order 1 tasks)) tasks
each_once [] = Permᴰ.nil
each_once (task ∷ tasks) = Permᴰ.cons refl (each_once tasks)

run_pool-AddsUp_example : AddsUp setup run_services [] results_dir 1 (run_unit ∷ []) lab pool_result
run_pool-AddsUp_example =
    run_pool-AddsUp setup run_services [] results_dir 1 pool_state (run_unit ∷ []) lab pool_end
      pool_result (each_once by_file) pool_returns

-- What `json.load` makes of the text of the result.
abbrev json_load : Str → Result (RunResult World)
json_load text = ok pool_result

abbrev saved : Lab World
saved = (save setup run_services [] results_dir 1 pool_result lab).1

result_saved : save setup run_services [] results_dir 1 pool_result lab ≡ (ok tt, saved)
unfolding save on_state copy_new
result_saved = refl

saved_there : results_dir ≡ saved_below (runner_file [])
unfolding saved_below nat_eq list_eq
saved_there = refl

load_run-save_example :
    load_run json_load
      (analysis_dir [])
      settings.experiment_type
      settings.ai_type
      1
      saved.state.files
    ≡ ok pool_result
load_run-save_example =
    load_run-save setup run_services [] results_dir json_load [] 1 pool_result lab saved saved_there
      refl result_saved

-- An experiment of one run, which finds no units.
abbrev requests_get : Str → ℕ → Health
requests_get url elapsed = status_code 200

abbrev nvidia_smi : ℕ → ℕ × Str
nvidia_smi elapsed = (0, [])

-- Nothing that is run sets the index of a thread, and the first thread does all.
pub setup-LeavesIndex : LeavesIndex setup
setup-LeavesIndex = record {
  syntax_check_leaves = λ code s. refl;
  correctness_check_leaves = λ index s. refl;
  converse_leaves = λ working_dir message s. refl;
}

in_order-below :
    (workers : ℕ) (tasks : List FileUnits)
    → 0 < workers
    → All (λ task. task.0 < workers) (in_order workers tasks)
in_order-below workers [] h = tt
in_order-below workers (task ∷ tasks) h = (h, in_order-below workers tasks h)

runner-IsFinished_example :
    (end : Experiment setup run_services [] results_dir) × (runner setup run_services [] results_dir
        requests_get true nvidia_smi lab
      ≡ some end)
    × IsFinished setup run_services [] results_dir end
runner-IsFinished_example =
    runner-IsFinished setup run_services [] results_dir requests_get true nvidia_smi lab
      (refl, refl) setup-LeavesIndex in_order-below
