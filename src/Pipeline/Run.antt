-- ===== src/Pipeline/Run.antt =====
-- `perform_run` of src/pipeline/runner.py. Summary has the result of a run, and Tasks the
-- tasks of its pool, in an order and on threads that a schedule chooses.
-- Floats and the services of the standard library that read the outside are parameters.
mod Summary
mod Tasks
pub mod ByFile
pub mod Totals
pub mod NoUnits
pub mod Experiment
pub mod Returns
pub mod Interleaving
unfoldable pub use Summary.*
unfoldable pub use Tasks.*
use refactor_tradeoffs.Base.{
  ℕ, zero, suc, ◌+◌, ◌≡◌, refl, Bool, true, false, not, Option, none, some, List, [], ◌∷◌, ◌++◌,
  map, Str, codes, show, FilePath, to_path, length, keep, min, is_empty, ◌==◌, list_eq, nat_eq,
  if◌then◌else◌, Result, ok, raised, os_error, value_error, Exec, pure, raise, ◌>>=◌, ◌>>◌,
}
use refactor_tradeoffs.Base.Dict.{Dict, append_to}
use refactor_tradeoffs.Base.Int.{ℤ}
use refactor_tradeoffs.Globals.{
  name_of_ai, name_of_experiment, Settings, AiType, traditional, agent, ExperimentType, passive,
  active, UnitResult,
}
use refactor_tradeoffs.Pipeline.State.{State, Files, read_text, write_text}
use refactor_tradeoffs.Pipeline.WorkerContext.{copytree, provision_worker_repos, src_dir}
use refactor_tradeoffs.Pipeline.WorkerContext.Pool.{Threads, hold, start}
use refactor_tradeoffs.Pipeline.Refactor.{RefactorUnit, Setup}
use refactor_tradeoffs.Pipeline.Units.{
  SonarQubeIssue, build_units_passive, build_units_active, process_file_units,
}
use refactor_tradeoffs.Pipeline.Energy.Gpu
use refactor_tradeoffs.Pipeline.Energy.Gpu.{GpuEnergyMeter}
use refactor_tradeoffs.Pipeline.Energy.Cpu
use refactor_tradeoffs.Pipeline.Energy.Cpu.{CpuEnergyMeter}

-- What a run works on: the main thread's view of the files, and the two meters.
pub record Lab (World : Type 0) : Type 0 where
  pub state : State World
  pub cpu : CpuEnergyMeter
  pub gpu : GpuEnergyMeter

-- What a run calls and does not implement. `schedule` stands for the pool's choice of order and threads.
pub record RunServices (World : Type 0) (Float : Type 0) : Type 0 where
  pub floats : Floats Float
  pub exists : FilePath → State World → Bool
  pub rglob : FilePath → Str → State World → List FilePath
  pub loads_issues : Str → Result (List SonarQubeIssue)
  pub dumps : RunResult Float → Str
  pub seconds_between : State World → State World → Float
  pub package_polls : State World → List (Option (List ℕ))
  pub package_energy : State World → Option (List ℕ)
  pub gpu_counters : State World → List ℕ
  pub schedule : ℕ → List FileUnits → List (ℕ × FileUnits)

module _ {World Float : Type 0} (setup : Setup World) (services : RunServices World Float)
    (issues_path results_dir : FilePath) where
  open setup use {settings, profile}

  unfoldable pub on_state : {A : Type 0} → Exec (State World) A → Exec (Lab World) A
  on_state m lab = let r = m lab.state in (r.0, record lab { state = r.1 })

  -- `copytree(src, dst, dirs_exist_ok=False)`
  unfoldable pub copy_new : FilePath → FilePath → Exec (Lab World) (Unit {0})
  unfolding copytree
  copy_new src dst lab = if services.exists dst lab.state then (raised os_error, lab) else (
    ok tt,
    record lab { state = record lab.state { files = copytree src dst lab.state.files } },
  )

  provision : FilePath → Exec (Lab World) (Unit {0})
  unfolding provision_worker_repos
  provision run_repo lab = (
    ok tt,
    record lab {
      state = record lab.state { files = provision_worker_repos settings run_repo lab.state.files };
    },
  )

  unfoldable pub start_meters : Exec (Lab World) (Unit {0})
  unfolding Cpu.start Gpu.start
  start_meters lab = (
    ok tt,
    record lab {
      cpu = Cpu.start lab.cpu;
      gpu = Gpu.start (services.gpu_counters lab.state) lab.gpu;
    },
  )

  unfoldable pub stop_cpu : Exec (Lab World) ℕ
  unfolding Cpu.stop Cpu.poll_loop
  stop_cpu lab =
      let r =
        Cpu.stop (services.package_energy lab.state)
          (Cpu.poll_loop (services.package_polls lab.state) lab.cpu) in
      (ok (r.0), record lab { cpu = r.1 })

  unfoldable pub stop_gpu : Exec (Lab World) ℤ
  unfolding Gpu.stop
  stop_gpu lab =
      let r = Gpu.stop (services.gpu_counters lab.state) lab.gpu in
      (ok (r.0), record lab { gpu = r.1 })

  abbrev pub run_repo_of : ℕ → FilePath
  run_repo_of run_index = to_path settings.job_dir ++ (run_name run_index ∷ [])

  unfoldable pub build_units : ExperimentType → FilePath → Exec (State World) (List RefactorUnit)
  unfolding build_units_passive build_units_active read_text
  build_units passive run_repo s =
      build_units_passive setup (run_repo ++ src_dir)
        (services.rglob (run_repo ++ src_dir) profile.language_extension s) s
  build_units active run_repo s =
      (read_text issues_path >>= λ text.
      (λ t. (services.loads_issues text, t)) >>= λ issues. build_units_active setup run_repo issues)
        s

  abbrev pub max_workers : List FileUnits → ℕ
  max_workers by_file = min (length by_file) settings.max_parallel_units

  -- `ThreadPoolExecutor(max_workers=max_workers)`
  unfoldable pub open_pool : List FileUnits → Exec (Lab World) (Unit {0})
  open_pool by_file = if max_workers by_file == 0 then raise value_error else pure tt

  -- Up to `wall_start`.
  unfoldable pub set_up : ℕ → FilePath → Exec (Lab World) (Unit {0})
  unfolding copy_new provision start_meters
  set_up run_index base_repo = do
    copy_new base_repo (run_repo_of run_index)
    provision (run_repo_of run_index)
    start_meters

  -- Up to the pool: the state at `wall_start`, and `by_file`.
  unfoldable pub prepare : ℕ → FilePath → Exec (Lab World) (State World × List FileUnits)
  unfolding set_up on_state build_units group_by_file open_pool
  prepare run_index base_repo = do
    set_up run_index base_repo
    begun ← λ lab. (ok (lab.state), lab)
    units ← on_state (build_units settings.experiment_type (run_repo_of run_index))
    open_pool (group_by_file units [])
    pure (begun, group_by_file units [])

  abbrev pub out_dir : ℕ → FilePath
  out_dir = results_of results_dir settings.experiment_type settings.ai_type

  -- From the stop of the meters to the `result`. `begun` is the state at `wall_start`.
  unfoldable pub measure : ℕ → State World → List UnitResult → Exec (Lab World) (RunResult Float)
  unfolding stop_cpu stop_gpu summarise
  measure run_index begun all_unit_results = do
    now ← λ lab. (ok (lab.state), lab)
    cpu_energy ← stop_cpu
    gpu_energy ← stop_gpu
    pure (
        summarise services.floats settings run_index profile.language_name
          (services.seconds_between begun now) cpu_energy gpu_energy all_unit_results)

  unfoldable pub save : ℕ → RunResult Float → Exec (Lab World) (Unit {0})
  unfolding on_state write_text copy_new
  save run_index result = do
    on_state
        (write_text (out_dir run_index ++ (result_name run_index ∷ [])) (services.dumps result))
    copy_new (run_repo_of run_index) (out_dir run_index ++ (codes "repo" ∷ []))

  unfoldable pub finish : ℕ → State World → List UnitResult → Exec (Lab World) (RunResult Float)
  unfolding measure save
  finish run_index begun all_unit_results = do
    result ← measure run_index begun all_unit_results
    save run_index result
    pure result

  -- The run from the pool on.
  unfoldable pub run_pool :
      ℕ
      → Result (State World × List FileUnits)
      → Lab World
      → Option (Result (RunResult Float) × Lab World)
  unfolding run_tasks start collect finish
  run_pool run_index (raised e) lab = some (raised e, lab)
  run_pool run_index (ok (begun, by_file)) lab =
      let workers = max_workers by_file in
      elim (run_tasks setup (run_repo_of run_index) (services.schedule workers by_file)
        (start workers) lab.state) [
          | none ↦ none
          | some (futures, t) ↦
              some (finish run_index begun (collect futures) (record lab { state = t }))
        ]

  -- The result that is written, or an exception; `none` is a run that never ends.
  unfoldable pub perform_run :
      ℕ → FilePath → Lab World → Option (Result (RunResult Float) × Lab World)
  unfolding prepare run_pool
  perform_run run_index base_repo lab =
      let prepared = prepare run_index base_repo lab in run_pool run_index prepared.0 prepared.1
