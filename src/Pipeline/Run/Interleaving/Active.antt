-- ===== src/Pipeline/Run/Interleaving/Active.antt =====
-- The threads of an active run, whose tasks are made of the units that were built.
use refactor_tradeoffs.Base.{
  ℕ, ◌<◌, ◌≡◌, ◌≢◌, ap, ◌∙◌, List, [], ◌∷◌, ◌++◌, FilePath, to_path, relative_to, All, All-map,
  IsPlain, ok, list_eq, nat_eq, Str, arith,
}
use refactor_tradeoffs.Globals.{UnitResult, traditional}
use refactor_tradeoffs.Pipeline.State.{State}
use refactor_tradeoffs.Pipeline.WorkerContext.{worker_name}
use refactor_tradeoffs.Pipeline.WorkerContext.Provision.{worker_src, run_src-apart}
use refactor_tradeoffs.Pipeline.Refactor.{RefactorUnit, Setup}
use refactor_tradeoffs.Pipeline.Refactor.Verified.{LeavesFiles}
use refactor_tradeoffs.Pipeline.Refactor.Index.{LeavesIndex}
use refactor_tradeoffs.Pipeline.Units.{SonarQubeIssue, relative_path, build_units_active}
use refactor_tradeoffs.Pipeline.Units.Below.{IsBelow, build_units_active-IsBelow}
use refactor_tradeoffs.Pipeline.Run.{FileUnits, group_by_file, run_name}
use refactor_tradeoffs.Pipeline.Run.ByFile.{group_by_file-All}
use refactor_tradeoffs.Pipeline.Run.Interleaving.{working, System, Reach, submitted}
use refactor_tradeoffs.Pipeline.Run.Interleaving.Isolation.{IsOutside, submitted-isolated}

abbrev first_code : Str → ℕ
first_code [] = 0
first_code (c ∷ s) = c

run_name-apart : (run_index k : ℕ) → run_name run_index ≢ worker_name k
run_name-apart run_index k e = omega (arith, ap first_code e)

module _ {World : Type 0} (setup : Setup World) (run_index : ℕ) where
  abbrev pub run_dir : FilePath
  run_dir = to_path setup.settings.job_dir ++ (run_name run_index ∷ [])

  below-IsOutside : (path : FilePath) → IsBelow run_dir path → IsOutside setup.settings path
  below-IsOutside path (rel, e) k =
      ap (λ q. relative_to q (worker_src setup.settings k)) e
      ∙ run_src-apart setup.settings (run_name run_index) (run_name-apart run_index) k rel

  -- In an active run of the type `traditional`, where what is run for the repository leaves the thread's index
  -- alone, and where the issues' paths are relative and have no part `..`: let the tasks be those of the
  -- units that were built, and let a thread work for a worker after any steps of the `n` threads of the
  -- pool. However many steps the other threads then take, each file of that worker's `src` that the
  -- checks leave alone is as it was.
  pub active-isolated :
      {Kept : FilePath → Type 0}
      → LeavesFiles setup.profile Kept
      → setup.settings.ai_type ≡ traditional
      → LeavesIndex setup
      → (issues : List SonarQubeIssue) (before after : State World) (units : List RefactorUnit)
        (n v : ℕ) {s u : System World} (task : FileUnits) (index : ℕ) (left : List RefactorUnit)
        (results : List UnitResult) (rel : FilePath)
      → All (λ issue. IsPlain (relative_path issue)) issues
      → build_units_active setup run_dir issues before ≡ (ok units, after)
      → Kept (worker_src setup.settings index ++ rel)
      → Reach setup run_dir
          (λ t. t < n)
          (submitted n (group_by_file units []) after.files after.world)
          s
      → s.doing v ≡ working task index left results
      → Reach setup run_dir (λ t. (t < n) × (t ≢ v)) s u
      → u.files (worker_src setup.settings index ++ rel)
        ≡ s.files (worker_src setup.settings index ++ rel)
  active-isolated quiet mode leaves issues before after units n v task index left results rel plain
        built kept =
      submitted-isolated setup run_dir quiet mode leaves n (group_by_file units []) after.files
        after.world v task index left results rel
        (group_by_file-All (λ unit. IsOutside setup.settings unit.file_path) units []
          (All-map units (λ unit. below-IsOutside unit.file_path)
            (build_units_active-IsBelow setup run_dir issues before after units plain built))
          tt)
        kept
