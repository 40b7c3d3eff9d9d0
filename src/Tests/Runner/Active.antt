-- ===== src/Tests/Runner/Active.antt =====
-- The theorem on the threads of an active run at a concrete input: an issue in each of two files, on two
-- threads.
use refactor_tradeoffs.Base.{
  ◌<◌, ◌≡◌, ◌≢◌, refl, some, none, List, [], ◌∷◌, ◌++◌, codes, Str, FilePath, ◌==◌, if◌then◌else◌,
  All, IsPlain, list_eq, nat_eq, to_path, show, ok, arith,
}
use refactor_tradeoffs.Pipeline.State.{State}
use refactor_tradeoffs.Pipeline.WorkerContext.{claim_worker_index}
use refactor_tradeoffs.Pipeline.WorkerContext.Pool.{start, hold}
use refactor_tradeoffs.Pipeline.WorkerContext.Provision.{worker_src}
use refactor_tradeoffs.Pipeline.Units.{
  SonarQubeIssue, build_units_active, active_task, function_reference, process_rebased,
  relative_path, behind_colon,
}
use refactor_tradeoffs.Pipeline.Refactor.{RefactorUnit}
use refactor_tradeoffs.Pipeline.Run.{FileUnits, group_by_file}
use refactor_tradeoffs.Pipeline.Run.Interleaving.{
  System, view, after_unit, working, takes, processes, Reach, here, next, submitted,
}
use refactor_tradeoffs.Pipeline.Run.Interleaving.Active.{run_dir, active-isolated}
use refactor_tradeoffs.Tests.{World, settings, source, f}
use refactor_tradeoffs.Tests.Runner.{setup, quiet, issue, run_path, run_state}
use refactor_tradeoffs.Tests.Runner.Runs.{setup-LeavesIndex}

-- A second file, with the same text.
abbrev run_file : Str → FilePath
run_file name = run_path ++ (codes "src" ∷ name ∷ [])

abbrev two_files : State World
two_files = record run_state {
  files = λ q.
      if q == run_file (codes "a.c")
      then some source
      else (if q == run_file (codes "b.c") then some source else none);
}

abbrev other_issue : SonarQubeIssue
other_issue = record (issue 0) { file_path = codes "key:b.c" }

abbrev unit_of : Str → SonarQubeIssue → RefactorUnit
unit_of name about = record {
  task = active_task [] (function_reference f) (about ∷ []);
  file_path = run_file name;
  function_info = f;
}

abbrev units : List RefactorUnit
units = unit_of (codes "a.c") (issue 0) ∷ unit_of (codes "b.c") other_issue ∷ []

units_built :
    build_units_active setup (run_dir setup 1) (issue 0 ∷ other_issue ∷ []) two_files
    ≡ (ok units, two_files)
unfolding build_units_active list_eq nat_eq to_path show
units_built = refl

abbrev all_submitted : System World
all_submitted = submitted 2 (group_by_file units []) two_files.files tt

abbrev first_task : FileUnits
first_task = (run_file (codes "a.c"), unit_of (codes "a.c") (issue 0) ∷ [])

abbrev second_task : FileUnits
second_task = (run_file (codes "b.c"), unit_of (codes "b.c") other_issue ∷ [])

abbrev one_works : System World
one_works = record all_submitted {
  held = hold 0 (some 0) all_submitted.held;
  queue = 1 ∷ [];
  tasks = second_task ∷ [];
  doing = hold 0 (working first_task 0 first_task.1 []) all_submitted.doing;
}

one_works-Reach : Reach setup (run_dir setup 1) (λ t. t < 2) all_submitted one_works
unfolding start claim_worker_index group_by_file to_path show nat_eq list_eq
one_works-Reach =
    next {t = 0} here (omega arith)
      (takes first_task (second_task ∷ []) 0 (some 0) (1 ∷ []) refl refl refl)

abbrev both_work : System World
both_work = record one_works {
  held = hold 1 (some 1) one_works.held;
  queue = [];
  tasks = [];
  doing = hold 1 (working second_task 1 second_task.1 []) one_works.doing;
}

abbrev one_processed : System World
one_processed =
    after_unit 1 second_task 1 [] []
      (process_rebased setup (run_dir setup 1) 1 (unit_of (codes "b.c") other_issue)
        (view both_work 1))
      both_work

others-Reach : Reach setup (run_dir setup 1) (λ t. (t < 2) × (t ≢ 0)) one_works one_processed
unfolding start claim_worker_index nat_eq
others-Reach =
    next {t = 1}
      (next {t = 1} here (omega arith, λ e. omega arith)
        (takes second_task [] 1 (some 1) [] refl refl refl))
      (omega arith, λ e. omega arith)
      (processes second_task 1 (unit_of (codes "b.c") other_issue) [] [] refl)

two_issues-IsPlain : All (λ i. IsPlain (relative_path i)) (issue 0 ∷ other_issue ∷ [])
unfolding relative_path to_path behind_colon nat_eq list_eq
two_issues-IsPlain = ((((λ e. cc), λ e. cc), tt), ((((λ e. cc), λ e. cc), tt), tt))

active-isolated_example :
    one_processed.files (worker_src settings 0 ++ (codes "a.c" ∷ []))
    ≡ one_works.files (worker_src settings 0 ++ (codes "a.c" ∷ []))
unfolding nat_eq
active-isolated_example =
    active-isolated setup 1 quiet refl setup-LeavesIndex (issue 0 ∷ other_issue ∷ []) two_files
      two_files units 2 0 first_task 0 first_task.1 [] (codes "a.c" ∷ []) two_issues-IsPlain
      units_built tt one_works-Reach refl others-Reach
