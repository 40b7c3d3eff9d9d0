-- ===== src/Pipeline/Run/Experiment.antt =====
-- `runner` of src/pipeline/runner.py: the runs of an experiment, one after another.
use refactor_tradeoffs.Base.{
  ℕ, zero, suc, ◌+◌, ◌≡◌, refl, ap, inl, inr, Bool, false, Option-cases, Option, none, some, List,
  [], ◌∷◌, map, if◌then◌else◌, Result, Str, arith, to_path, FilePath,
}
use refactor_tradeoffs.Pipeline.Refactor.{Setup}
use refactor_tradeoffs.Pipeline.Energy.Gpu
use refactor_tradeoffs.Pipeline.Energy.Gpu.{GpuEnergyMeter}
use refactor_tradeoffs.Pipeline.Energy.Cpu
use refactor_tradeoffs.Pipeline.Energy.Cpu.{CpuEnergyMeter, accumulate}
use refactor_tradeoffs.Pipeline.VllmServer.{
  Health, healthy_after, not_healthy, Action, start_vllm_server, stop_vllm_server,
}
use refactor_tradeoffs.Pipeline.Refactor.Index.{LeavesIndex}
use refactor_tradeoffs.Pipeline.Run.Returns.{UsesItsThreads, perform_run-returns}
use refactor_tradeoffs.Pipeline.VllmServer.Polling.{start_vllm_server-First, stop_vllm_server-First}
use refactor_tradeoffs.Pipeline.VllmServer.{sigterm, wait, kill}
use refactor_tradeoffs.Pipeline.Run.{Lab, RunServices, RunResult, stop_cpu, stop_gpu, perform_run}

abbrev pub numbers_from : ℕ → ℕ → List ℕ
numbers_from zero first = []
numbers_from (suc n) first = first ∷ numbers_from n (first + 1)

module _ {World Float : Type 0} (setup : Setup World) (services : RunServices World Float)
    (issues_path results_dir : FilePath) where
  open setup use {settings}

  -- The `finally` block.
  unfoldable pub stop_meters : Lab World → Lab World
  unfolding stop_cpu stop_gpu
  stop_meters lab =
      let cpu_off =
        if lab.cpu.running then (stop_cpu setup services issues_path results_dir lab).1 else lab in
      if cpu_off.gpu.running
      then (stop_gpu setup services issues_path results_dir cpu_off).1
      else cpu_off

  -- A run by its number, with its result or the exception that is logged.
  abbrev pub Log : Type 0
  Log = List (ℕ × Result (RunResult Float))

  -- The rounds from `run_index` on, with `left` of them to go; `none` is a run that never ends.
  unfoldable pub run_rounds : ℕ → ℕ → Lab World → Option (Log × Lab World)
  unfolding perform_run stop_meters
  run_rounds zero run_index lab = some ([], lab)
  run_rounds (suc left) run_index lab =
      elim (perform_run setup services issues_path results_dir run_index
        (to_path settings.path_to_repository) lab) [
          | none ↦ none
          | some (result, after) ↦ elim (run_rounds left (run_index + 1) (stop_meters after)) [
            | none ↦ none
            | some (log, end) ↦ some ((run_index, result) ∷ log, end)
          ]
        ]

  -- How an experiment ends: the server does not start, or the runs are done and it has been stopped.
  pub data Experiment : Type 0 where
    no_server : List Action → Experiment
    done : Log → Lab World → List Action → Experiment

  unfoldable pub runner : (Str → ℕ → Health) → Bool → (ℕ → ℕ × Str) → Lab World → Option Experiment
  unfolding start_vllm_server stop_vllm_server run_rounds
  runner requests_get exits nvidia_smi lab = elim (start_vllm_server settings requests_get) [
    | none ↦ none
    | some (not_healthy, actions) ↦ some (no_server actions)
    | some (healthy_after elapsed, actions) ↦ elim (run_rounds settings.run_size 1 lab) [
      | none ↦ none
      | some (log, end) ↦ elim (stop_vllm_server exits nvidia_smi) [
        | none ↦ none
        | some (freed, stops) ↦ some (done log end stops)
      ]
    ]
  ]

  -- Neither meter is running.
  abbrev pub AreOff : Lab World → Type 0
  AreOff lab = (lab.cpu.running ≡ false) × (lab.gpu.running ≡ false)

  cpu-off :
      (lab : Lab World)
      → ((stop_cpu setup services issues_path results_dir lab).1.cpu.running ≡ false)
        × ((stop_cpu setup services issues_path results_dir lab).1.gpu ≡ lab.gpu)
  unfolding stop_cpu Cpu.stop accumulate
  cpu-off lab = (off (services.package_energy lab.state), refl)
    where
      off :
          (pkg : Option (List ℕ))
          → (Cpu.stop pkg (Cpu.poll_loop (services.package_polls lab.state) lab.cpu)).1.running
            ≡ false
      off none = refl
      off (some pkg) = refl

  stop_meters-AreOff : (lab : Lab World) → AreOff (stop_meters lab)
  unfolding stop_meters stop_gpu Gpu.stop
  stop_meters-AreOff lab = ground (arith, cpu-off lab)

  -- From meters that are off, the rounds that come to an end are the numbers in their order, whatever
  -- each of them has raised, and no meter is left running.
  run_rounds-lem :
      (left run_index : ℕ) (lab end : Lab World) (log : Log)
      → AreOff lab
      → run_rounds left run_index lab ≡ some (log, end)
      → (map (λ entry. entry.0) log ≡ numbers_from left run_index) × AreOff end
  unfolding run_rounds
  run_rounds-lem zero run_index lab end log off e = ground arith
  run_rounds-lem (suc left) run_index lab end log off e =
      elim (Option-cases (
        perform_run setup services issues_path results_dir run_index
          (to_path settings.path_to_repository) lab)) [
            | inl never ↦ absurd (ground arith)
            | inr ((result, after), ran) ↦
                elim (Option-cases (run_rounds left (run_index + 1) (stop_meters after))) [
                  | inl never ↦ absurd (ground arith)
                  | inr ((rest, last), later) ↦
                      let (same, off') =
                        run_rounds-lem left (run_index + 1) (stop_meters after) last rest
                          (stop_meters-AreOff after) later in
                      let all : (run_index, result) ∷ rest ≡ log = ground arith in
                      let stop : last ≡ end = ground arith in
                      rw (← all, ← stop) (ap (◌∷◌ run_index) same, off')
                ]
          ]

  -- If the meters are off at first and the experiment comes to its end: it has performed the runs 1 to
  -- `run_size`, each once and in this order, and no meter is running.
  runner-done :
      (requests_get : Str → ℕ → Health) (exits : Bool) (nvidia_smi : ℕ → ℕ × Str)
      (lab end : Lab World) (log : Log) (stops : List Action)
      → AreOff lab
      → runner requests_get exits nvidia_smi lab ≡ some (done log end stops)
      → (map (λ entry. entry.0) log ≡ numbers_from settings.run_size 1) × AreOff end
  unfolding runner
  runner-done requests_get exits nvidia_smi lab end log stops off e =
      elim (Option-cases (start_vllm_server settings requests_get)) [
        | inl never ↦ absurd (ground arith)
        | inr ((not_healthy, actions), began) ↦ absurd (ground arith)
        | inr ((healthy_after elapsed, actions), began) ↦
            elim (Option-cases (run_rounds settings.run_size 1 lab)) [
              | inl never ↦ absurd (ground arith)
              | inr ((log', end'), ran) ↦ elim (Option-cases (stop_vllm_server exits nvidia_smi)) [
                | inl never ↦ absurd (ground arith)
                | inr ((freed, stops'), stopped) ↦
                    let same : log' ≡ log = ground arith in
                    let last : end' ≡ end = ground arith in
                    rw (← same, ← last) (run_rounds-lem settings.run_size 1 lab end' log' off ran)
              ]
            ]
      ]

  run_rounds-returns :
      LeavesIndex setup
      → UsesItsThreads setup services issues_path results_dir
      → (left run_index : ℕ) (lab : Lab World)
      → (r : Log × Lab World) × (run_rounds left run_index lab ≡ some r)
  unfolding run_rounds
  run_rounds-returns leaves uses zero run_index lab = (([], lab), refl)
  run_rounds-returns leaves uses (suc left) run_index lab =
      let ((result, after), ran) =
        perform_run-returns setup services issues_path results_dir run_index
          (to_path settings.path_to_repository) lab leaves uses in
      let ((log, end), later) =
        run_rounds-returns leaves uses left (run_index + 1) (stop_meters after) in
      (((run_index, result) ∷ log, end), rw (ran, run_rounds) (rw later refl))

  -- What holds of an experiment at its end.
  abbrev pub IsFinished : Experiment → Type 0
  IsFinished (no_server actions) = Unit
  IsFinished (done log end stops) =
      (map (λ entry. entry.0) log ≡ numbers_from settings.run_size 1) × AreOff end

  runner-returns :
      (requests_get : Str → ℕ → Health) (exits : Bool) (nvidia_smi : ℕ → ℕ × Str) (lab : Lab World)
      → LeavesIndex setup
      → UsesItsThreads setup services issues_path results_dir
      → (end : Experiment) × (runner requests_get exits nvidia_smi lab ≡ some end)
  unfolding runner
  runner-returns requests_get exits nvidia_smi lab leaves uses =
      let (polled, starts, first, killed) = start_vllm_server-First settings requests_get in
      let (freed, stops, quiet) = stop_vllm_server-First exits nvidia_smi in
      let ((log, after), ran) = run_rounds-returns leaves uses settings.run_size 1 lab in
      elim (Option-cases (start_vllm_server settings requests_get)) [
        | inl never ↦ absurd (ground arith)
        | inr ((not_healthy, actions), began) ↦ (no_server actions, rw (began, runner) refl)
        | inr ((healthy_after elapsed, actions), began) ↦ (
          done log after (sigterm ∷ wait ∷ (if exits then [] else kill ∷ wait ∷ [])),
          rw (began, runner) (rw ran (rw stops refl)),
        )
      ]

  -- Where the meters are off at first, what is run for the repository leaves the thread's index alone, and
  -- each task is given to one of the pool's threads: the experiment comes to its end. If the server has
  -- started, the runs 1 to `run_size` have then been performed, each once and in this order, whatever they
  -- raised, and no meter is running.
  pub runner-IsFinished :
      (requests_get : Str → ℕ → Health) (exits : Bool) (nvidia_smi : ℕ → ℕ × Str) (lab : Lab World)
      → AreOff lab
      → LeavesIndex setup
      → UsesItsThreads setup services issues_path results_dir
      → (end : Experiment) × (runner requests_get exits nvidia_smi lab ≡ some end) × IsFinished end
  unfolding runner
  runner-IsFinished requests_get exits nvidia_smi lab off leaves uses =
      let (end, ended) = runner-returns requests_get exits nvidia_smi lab leaves uses in
      (end, ended, finished end ended)
    where
      finished :
          (end : Experiment) → runner requests_get exits nvidia_smi lab ≡ some end → IsFinished end
      finished (no_server actions) ended = tt
      finished (done log end stops) ended =
          runner-done requests_get exits nvidia_smi lab end log stops off ended
