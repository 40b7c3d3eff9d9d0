-- ===== src/Pipeline/Run/Interleaving/Turns.antt =====
-- The steps of a thread of the pool without what they run: each begins a task, goes on with it or
-- ends it.
use refactor_tradeoffs.Base.{
  ℕ, ◌≡◌, ◌≢◌, refl, Option, none, some, List, [], ◌∷◌, ◌++◌, FilePath, relative_to,
  relative_to-append, All, Result, ok, raised,
}
use refactor_tradeoffs.Globals.{UnitResult, traditional}
use refactor_tradeoffs.Pipeline.State.{State}
use refactor_tradeoffs.Pipeline.WorkerContext.{claim_worker_index, get_worker_repo, src_dir}
use refactor_tradeoffs.Pipeline.WorkerContext.Pool.{hold}
use refactor_tradeoffs.Pipeline.WorkerContext.Provision.{worker_src}
use refactor_tradeoffs.Pipeline.Refactor.{RefactorUnit, Setup}
use refactor_tradeoffs.Pipeline.Refactor.Verified.{LeavesFiles}
use refactor_tradeoffs.Pipeline.Refactor.Invariant.{Stays}
use refactor_tradeoffs.Pipeline.Refactor.Index.{LeavesIndex, HasIndex, HasIndex-Stays}
use refactor_tradeoffs.Pipeline.Refactor.Frame.{HasAt, HasAt-Stays}
use refactor_tradeoffs.Pipeline.Units.{process_rebased, merge_back}
use refactor_tradeoffs.Pipeline.Units.Invariant.{any_All, process_rebased-Keeps, merge_back-Keeps}
use refactor_tradeoffs.Pipeline.Run.{FileUnits}
use refactor_tradeoffs.Pipeline.Run.Interleaving.{
  idle, working, System, view, goes_on, ends, after_unit, after_merge, Step, takes, processes,
  merges,
}

-- A path that is not below `dir`.
pub relative_to-ne : (q dir rel : FilePath) → relative_to q dir ≡ none → q ≢ dir ++ rel
relative_to-ne q dir rel outside e =
    let below : relative_to q dir ≡ some rel = rw e (relative_to-append dir rel) in cc

module _ {World : Type 0} (setup : Setup World) (run_repo : FilePath) where
  -- What a thread runs for the task: a unit, or the merge.
  pub data Ran (task : FileUnits) (index : ℕ) (s : State World) : State World → Type 0 where
    unit_ran :
        (unit : RefactorUnit) → Ran task index s (process_rebased setup run_repo index unit s).1
    merge_ran : Ran task index s (merge_back setup run_repo index task.1 s).1

  pub Ran-keeps :
      (P : State World → Type 0) {Written : FilePath → Type 0} (task : FileUnits) (index : ℕ)
      → Stays setup (get_worker_repo setup.settings index) Written P
      → ((rel : FilePath) → Written (get_worker_repo setup.settings index ++ src_dir ++ rel))
      → All (λ unit. Written unit.file_path) task.1
      → {s u : State World} → Ran task index s u
      → P s
      → P u
  Ran-keeps P task index stays worker_files own {s} (unit_ran unit) p =
      process_rebased-Keeps setup run_repo index P stays worker_files unit s p
  Ran-keeps P task index stays worker_files own {s} merge_ran p =
      merge_back-Keeps setup run_repo index P stays worker_files task.1 own s p

  -- A task ends with an exception, or when all its units have been processed.
  abbrev pub IsOutcome : List RefactorUnit → List UnitResult → Result (List UnitResult) → Type 0
  IsOutcome left results (raised x) = Unit
  IsOutcome left results (ok all) = (left ≡ []) × (all ≡ results)

  pub data Turn (t : ℕ) (s : System World) : System World → Type 0 where
    begun :
        (task : FileUnits) (tasks : List FileUnits) (index : ℕ) (own : Option ℕ) (queue : List ℕ)
        → s.doing t ≡ idle
        → s.tasks ≡ task ∷ tasks
        → claim_worker_index (s.held t) s.queue ≡ some (index, own, queue)
        → Turn t s (record s {
          held = hold t own s.held;
          queue = queue;
          tasks = tasks;
          doing = hold t (working task index task.1 []) s.doing;
        })
    continued :
        (task : FileUnits) (index : ℕ) (unit : RefactorUnit) (left : List RefactorUnit)
        (results : List UnitResult) (result : UnitResult) (u : State World)
        → s.doing t ≡ working task index (unit ∷ left) results
        → Ran task index (view s t) u
        → Turn t s (goes_on t (working task index left (results ++ (result ∷ []))) u s)
    ended :
        (task : FileUnits) (index : ℕ) (left : List RefactorUnit) (results : List UnitResult)
        (result : Result (List UnitResult)) (u : State World)
        → s.doing t ≡ working task index left results
        → Ran task index (view s t) u
        → IsOutcome left results result
        → Turn t s (ends t task.0 result u s)

  after_unit-Turn :
      {t : ℕ} {s : System World} (task : FileUnits) (index : ℕ) (unit : RefactorUnit)
      (left : List RefactorUnit) (results : List UnitResult) (r : Result UnitResult × State World)
      → s.doing t ≡ working task index (unit ∷ left) results
      → Ran task index (view s t) r.1
      → Turn t s (after_unit t task index left results r s)
  unfolding after_unit
  after_unit-Turn task index unit left results (ok result, u) e ran =
      continued task index unit left results result u e ran
  after_unit-Turn task index unit left results (raised x, u) e ran =
      ended task index (unit ∷ left) results (raised x) u e ran tt

  after_merge-Turn :
      {t : ℕ} {s : System World} (task : FileUnits) (index : ℕ) (results : List UnitResult)
      (r : Result (Unit {0}) × State World)
      → s.doing t ≡ working task index [] results
      → Ran task index (view s t) r.1
      → Turn t s (after_merge t task results r s)
  unfolding after_merge
  after_merge-Turn task index results (ok _, u) e ran =
      ended task index [] results (ok results) u e ran (refl, refl)
  after_merge-Turn task index results (raised x, u) e ran =
      ended task index [] results (raised x) u e ran tt

  pub Step-Turn : {t : ℕ} {s v : System World} → Step setup run_repo t s v → Turn t s v
  Step-Turn (takes task tasks index own queue e f g) = begun task tasks index own queue e f g
  Step-Turn {t} {s} (processes task index unit left results e) =
      after_unit-Turn task index unit left results
        (process_rebased setup run_repo index unit (view s t)) e (unit_ran unit)
  Step-Turn {t} {s} (merges task index results e) =
      after_merge-Turn task index results (merge_back setup run_repo index task.1 (view s t)) e
        merge_ran

  pub Ran-HasIndex :
      {task : FileUnits} {index : ℕ} {s u : State World}
      → LeavesIndex setup
      → Ran task index s u
      → s.worker_index ≡ some index
      → u.worker_index ≡ some index
  Ran-HasIndex {task} {index} leaves ran e =
      Ran-keeps (HasIndex index) task index (HasIndex-Stays setup index leaves) (λ rel. tt)
        (any_All task.1) ran e

  -- A file that is neither below the worker's `src` nor one of the task's is left alone.
  pub Ran-files :
      {Kept : FilePath → Type 0} {task : FileUnits} {index : ℕ} {s u : State World} (q : FilePath)
      → LeavesFiles setup.profile Kept
      → setup.settings.ai_type ≡ traditional
      → Kept q
      → relative_to q (worker_src setup.settings index) ≡ none
      → All (λ unit. q ≢ unit.file_path) task.1
      → Ran task index s u
      → u.files q ≡ s.files q
  Ran-files {task} {index} {s} q quiet mode kept outside own ran =
      Ran-keeps (HasAt q (s.files q)) task index
        (HasAt-Stays setup quiet (get_worker_repo setup.settings index) q (s.files q) mode kept)
        (λ rel. relative_to-ne q (worker_src setup.settings index) rel outside) own ran refl
