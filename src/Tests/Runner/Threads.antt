-- ===== src/Tests/Runner/Threads.antt =====
-- The theorems on the threads of the pool at concrete inputs: two threads, and a task for each of two
-- files of one unit.
use refactor_tradeoffs.Base.{
  length, ℕ, ◌<◌, ◌≤◌, ◌≡◌, ◌≢◌, refl, some, List, [], ◌∷◌, ◌++◌, codes, FilePath, relative_to,
  to_path, path_str, show, list_eq, nat_eq, ok, ◌⊎◌, arith,
}
use refactor_tradeoffs.Pipeline.State.{read_text, write}
use refactor_tradeoffs.Pipeline.WorkerContext.{
  claim_worker_index, worker_name, src_dir, get_worker_repo,
}
use refactor_tradeoffs.Pipeline.WorkerContext.Pool.{Threads, start, hold}
use refactor_tradeoffs.Pipeline.WorkerContext.Provision.{worker_src, run_src-apart}
use refactor_tradeoffs.Pipeline.TreeParser.{splice_function, relocate_function}
use refactor_tradeoffs.Pipeline.Refactor.{
  RefactorUnit, refactor, start_session, close_session, correctness_loop, syntax_loop, attempt, ask,
  code_to_check, judge, check_syntax, check_correctness, write_if_traditional, after_check,
  first_message, process_unit,
}
use refactor_tradeoffs.Pipeline.Utils.{parse_refactored_code}
use refactor_tradeoffs.Pipeline.Units.{process_rebased, process_file_units}
use refactor_tradeoffs.Pipeline.Run.{FileUnits, Completed, run_tasks, collect}
use refactor_tradeoffs.Pipeline.Run.Interleaving.{
  System, working, view, after_unit, takes, processes, Reach, here, next, submitted,
}
use refactor_tradeoffs.Pipeline.Run.Interleaving.Isolation.{IsOutside, submitted-isolated}
use refactor_tradeoffs.Pipeline.Run.Interleaving.Ends.{IsDone, CanStep, submitted-CanStep}
use refactor_tradeoffs.Pipeline.Run.Interleaving.Collected.{failures, submitted-collect}
use refactor_tradeoffs.Pipeline.Run.ByFile.{units_in}
use refactor_tradeoffs.Pipeline.Run.Interleaving.Sequential.{rested, run_tasks-Reach}
use refactor_tradeoffs.Tests.{World, settings, run_name}
use refactor_tradeoffs.Tests.Runner.{
  setup, quiet, pool_state, run_path, run_unit, merged_state, merged_result,
}
use refactor_tradeoffs.Tests.Runner.Runs.{setup-LeavesIndex}

abbrev other_path : FilePath
other_path = run_path ++ src_dir ++ (codes "b.c" ∷ [])

abbrev other_unit : RefactorUnit
other_unit = record run_unit { file_path = other_path }

abbrev first_task : FileUnits
first_task = (run_unit.file_path, run_unit ∷ [])

abbrev second_task : FileUnits
second_task = (other_path, other_unit ∷ [])

abbrev both_tasks : List FileUnits
both_tasks = first_task ∷ second_task ∷ []

abbrev Pool : Type 0
Pool = System World

abbrev all_submitted : Pool
all_submitted = submitted 2 both_tasks pool_state.files tt

-- Thread 0 has the first task.
abbrev one_works : Pool
one_works = record all_submitted {
  held = hold 0 (some 0) all_submitted.held;
  queue = 1 ∷ [];
  tasks = second_task ∷ [];
  doing = hold 0 (working first_task 0 first_task.1 []) all_submitted.doing;
}

one_works-Reach : Reach setup run_path (λ t. t < 2) all_submitted one_works
unfolding start claim_worker_index
one_works-Reach =
    next {t = 0} here (omega arith)
      (takes first_task (second_task ∷ []) 0 (some 0) (1 ∷ []) refl refl refl)

-- And then thread 1 the second, of which it processes the unit.
abbrev both_work : Pool
both_work = record one_works {
  held = hold 1 (some 1) one_works.held;
  queue = [];
  tasks = [];
  doing = hold 1 (working second_task 1 second_task.1 []) one_works.doing;
}

abbrev one_processed : Pool
one_processed =
    after_unit 1 second_task 1 [] []
      (process_rebased setup run_path 1 other_unit (view both_work 1)) both_work

others-Reach : Reach setup run_path (λ t. (t < 2) × (t ≢ 0)) one_works one_processed
unfolding start claim_worker_index nat_eq
others-Reach =
    next {t = 1}
      (next {t = 1} here (omega arith, λ e. omega arith)
        (takes second_task [] 1 (some 1) [] refl refl refl))
      (omega arith, λ e. omega arith) (processes second_task 1 other_unit [] [] refl)

run_name-apart : (k : ℕ) → run_name ≢ worker_name k
run_name-apart k e = cc

outside : (name : FilePath) → IsOutside settings (run_path ++ src_dir ++ name)
unfolding to_path nat_eq list_eq
outside name k = run_src-apart settings run_name run_name-apart k name

submitted-isolated_example :
    one_processed.files (worker_src settings 0 ++ (codes "a.c" ∷ []))
    ≡ one_works.files (worker_src settings 0 ++ (codes "a.c" ∷ []))
unfolding nat_eq
submitted-isolated_example =
    submitted-isolated setup run_path quiet refl setup-LeavesIndex 2 both_tasks pool_state.files tt
      0 first_task 0 first_task.1 [] (codes "a.c" ∷ [])
      ((outside (codes "a.c" ∷ []), tt), ((outside (codes "b.c" ∷ []), tt), tt)) tt one_works-Reach
      refl others-Reach

submitted-CanStep_example : IsDone 2 one_works ⊎ CanStep setup run_path 2 one_works
submitted-CanStep_example =
    submitted-CanStep setup run_path 2 both_tasks pool_state.files tt setup-LeavesIndex
      (omega arith) one_works-Reach

-- The first task alone, on the only thread.
abbrev futures : List Completed
futures = (run_unit.file_path, ok (merged_result ∷ [])) ∷ []

first_task_ran :
    run_tasks setup run_path ((0, first_task) ∷ []) (start 1) pool_state
    ≡ some (futures, merged_state)
unfolding run_tasks start process_file_units list_eq nat_eq path_str relative_to first_message
    to_path show refactor start_session close_session correctness_loop syntax_loop attempt ask
    code_to_check judge relocate_function splice_function parse_refactored_code check_syntax
    check_correctness write_if_traditional after_check read_text process_unit get_worker_repo write
first_task_ran = refl

pool_ran :
    (after : Threads) × Reach setup run_path
      (λ t. t < 1)
      (submitted 1 (first_task ∷ []) pool_state.files tt)
      (rested after merged_state [] futures)
pool_ran =
    run_tasks-Reach setup run_path (λ t. t < 1) ((0, first_task) ∷ []) 1 pool_state
      (omega arith, tt) first_task_ran

submitted-collect_example :
    (length (collect futures) ≤ units_in (first_task ∷ []))
    × (failures futures ≡ 0 → length (collect futures) ≡ units_in (first_task ∷ []))
submitted-collect_example =
    submitted-collect setup run_path 1 (first_task ∷ []) pool_state.files tt pool_ran.1
      (refl, λ t below. refl)
