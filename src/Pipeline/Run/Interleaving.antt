-- ===== src/Pipeline/Run/Interleaving.antt =====
-- The threads of a run's pool at once, of `_process_file_units` and `perform_run` in
-- src/pipeline/runner.py. In one step a thread takes the next task of the pool and claims its index, processes
-- one unit, or merges its file; the threads take their steps in any order. Within a step of a
-- thread no other thread acts.
pub mod Turns
pub mod Indices
pub mod Owned
pub mod Isolation
pub mod Ends
pub mod Results
pub mod Collected
pub mod Active
pub mod Alone
pub mod Sequential
use refactor_tradeoffs.Base.{
  ℕ, ◌≡◌, Option, none, some, List, [], ◌∷◌, ◌++◌, FilePath, nat_eq, Result, ok, raised, ◌<◌,
}
use refactor_tradeoffs.Globals.{UnitResult}
use refactor_tradeoffs.Pipeline.State.{State, Files}
use refactor_tradeoffs.Pipeline.WorkerContext.{claim_worker_index}
use refactor_tradeoffs.Pipeline.WorkerContext.Pool.{Threads, hold, start}
use refactor_tradeoffs.Pipeline.Refactor.{RefactorUnit, Setup}
use refactor_tradeoffs.Pipeline.Units.{process_rebased, merge_back}
use refactor_tradeoffs.Pipeline.Run.{FileUnits, Completed}

-- What a thread does: nothing, or a task for the worker `index`, with the units that are left and
-- the results so far.
pub data Doing : Type 0 where
  idle : Doing
  working :
      (task : FileUnits) (index : ℕ) (left : List RefactorUnit) (results : List UnitResult) → Doing

-- The files and the world are shared; each thread has its own index.
pub record System (World : Type 0) : Type 0 where
  pub files : Files
  pub world : World
  pub held : ℕ → Option ℕ
  pub queue : List ℕ
  pub tasks : List FileUnits
  pub doing : ℕ → Doing
  pub completed : List Completed

module _ {World : Type 0} where
  -- What the thread `t` sees.
  abbrev pub view : System World → ℕ → State World
  view s t = record { files = s.files; worker_index = s.held t; world = s.world }

  -- The thread `t` has left `u` behind, and goes on with `next`.
  abbrev pub goes_on : ℕ → Doing → State World → System World → System World
  goes_on t next u s = record s {
    files = u.files;
    world = u.world;
    held = hold t u.worker_index s.held;
    doing = hold t next s.doing;
  }

  -- The future of the task of `t` is done.
  abbrev pub ends :
      ℕ → FilePath → Result (List UnitResult) → State World → System World → System World
  ends t file_path result u s = record (goes_on t idle u s) {
    completed = s.completed ++ ((file_path, result) ∷ []);
  }

  -- A unit has been processed; an exception ends the task.
  unfoldable pub after_unit :
      ℕ
      → FileUnits
      → ℕ
      → List RefactorUnit
      → List UnitResult
      → Result UnitResult × State World
      → System World
      → System World
  after_unit t task index left results (ok result, u) s =
      goes_on t (working task index left (results ++ (result ∷ []))) u s
  after_unit t task index left results (raised e, u) s = ends t task.0 (raised e) u s

  unfoldable pub after_merge :
      ℕ
      → FileUnits
      → List UnitResult
      → Result (Unit {0}) × State World
      → System World
      → System World
  after_merge t task results (ok _, u) s = ends t task.0 (ok results) u s
  after_merge t task results (raised e, u) s = ends t task.0 (raised e) u s

  module _ (setup : Setup World) (run_repo : FilePath) where
    -- A step of the thread `t`.
    pub data Step (t : ℕ) (s : System World) : System World → Type 0 where
      takes :
          (task : FileUnits) (tasks : List FileUnits) (index : ℕ) (own : Option ℕ) (queue : List ℕ)
          → s.doing t ≡ idle
          → s.tasks ≡ task ∷ tasks
          → claim_worker_index (s.held t) s.queue ≡ some (index, own, queue)
          → Step t s (record s {
            held = hold t own s.held;
            queue = queue;
            tasks = tasks;
            doing = hold t (working task index task.1 []) s.doing;
          })
      processes :
          (task : FileUnits) (index : ℕ) (unit : RefactorUnit) (left : List RefactorUnit)
          (results : List UnitResult)
          → s.doing t ≡ working task index (unit ∷ left) results
          → Step t s (
              after_unit t task index left results
                (process_rebased setup run_repo index unit (view s t))
                s)
      merges :
          (task : FileUnits) (index : ℕ) (results : List UnitResult)
          → s.doing t ≡ working task index [] results
          → Step t s
              (after_merge t task results (merge_back setup run_repo index task.1 (view s t)) s)

    -- Any number of steps of the threads that `May` allows, in any order.
    pub data Reach (May : ℕ → Type 0) (s : System World) : System World → Type 0 where
      here : Reach May s s
      next : {u v : System World} {t : ℕ} → Reach May s u → May t → Step t u v → Reach May s v

-- The pool of `n` threads when all its tasks have been submitted.
abbrev pub submitted : {World : Type 0} → ℕ → List FileUnits → Files → World → System World
submitted n tasks files world = record {
  files = files;
  world = world;
  held = (start n).held;
  queue = (start n).queue;
  tasks = tasks;
  doing = λ t. idle;
  completed = [];
}
