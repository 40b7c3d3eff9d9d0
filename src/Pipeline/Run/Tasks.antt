-- ===== src/Pipeline/Run/Tasks.antt =====
-- The tasks of a run's pool, of `perform_run` in src/pipeline/runner.py: they run here one after
-- another, in an order and on threads that are given.
use refactor_tradeoffs.Base.{
  ℕ, Option, none, some, List, [], ◌∷◌, ◌++◌, FilePath, list_eq, nat_eq, Result, ok, raised,
}
use refactor_tradeoffs.Base.Dict.{Dict, append_to}
use refactor_tradeoffs.Globals.{UnitResult}
use refactor_tradeoffs.Pipeline.State.{State}
use refactor_tradeoffs.Pipeline.WorkerContext.Pool.{Threads, hold}
use refactor_tradeoffs.Pipeline.Refactor.{RefactorUnit, Setup}
use refactor_tradeoffs.Pipeline.Units.{process_file_units}

-- The units of one file.
abbrev pub FileUnits : Type 0
FileUnits = FilePath × List RefactorUnit

-- The loop that fills `by_file`.
unfoldable pub group_by_file :
    List RefactorUnit → Dict FilePath (List RefactorUnit) → Dict FilePath (List RefactorUnit)
unfolding append_to
group_by_file [] by_file = by_file
group_by_file (unit ∷ units) by_file = group_by_file units (append_to unit.file_path unit by_file)

-- A future that is done.
abbrev pub Completed : Type 0
Completed = FilePath × Result (List UnitResult)

-- The loop over `as_completed`: a task that raised is only logged.
unfoldable pub collect : List Completed → List UnitResult
collect [] = []
collect ((file_path, ok results) ∷ futures) = results ++ collect futures
collect ((file_path, raised e) ∷ futures) = collect futures

module _ {World : Type 0} (setup : Setup World) (run_repo : FilePath) where
  -- The tasks with the number of the thread that runs each, in the order in which they run. `none` is
  -- a thread that blocks for good.
  unfoldable pub run_tasks :
      List (ℕ × FileUnits) → Threads → State World → Option (List Completed × State World)
  unfolding process_file_units
  run_tasks [] threads s = some ([], s)
  run_tasks ((thread, (file_path, units)) ∷ tasks) threads s =
      elim (process_file_units setup units run_repo threads.queue
        (record s { worker_index = threads.held thread })) [
          | none ↦ none
          | some ((result, t), queue) ↦
              elim (run_tasks tasks
                (record { held = hold thread t.worker_index threads.held; queue = queue }) t) [
                  | none ↦ none
                  | some (futures, u) ↦ some ((file_path, result) ∷ futures, u)
                ]
        ]
