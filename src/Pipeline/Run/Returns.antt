-- ===== src/Pipeline/Run/Returns.antt =====
-- A run comes to its end: no thread of its pool blocks.
use refactor_tradeoffs.Base.{
  ℕ, ◌<◌, ◌≡◌, refl, sym, ◌∙◌, inl, inr, some, Option-cases, List, [], ◌∷◌, FilePath, All,
  Bool-cases, ◌==◌, nat_eq, arith, Result, ok, raised, Exec, pure, ◌>>=◌,
}
use refactor_tradeoffs.Globals.{UnitResult}
use refactor_tradeoffs.Pipeline.State.{State}
use refactor_tradeoffs.Pipeline.WorkerContext.{claim_worker_index}
use refactor_tradeoffs.Pipeline.WorkerContext.Pool.{
  Threads, Reach, claims, here, next, hold, start, claimed-own,
}
use refactor_tradeoffs.Pipeline.WorkerContext.Pool.Progress.{Reach-claim-ne-none}
use refactor_tradeoffs.Pipeline.Refactor.{RefactorUnit, Setup}
use refactor_tradeoffs.Pipeline.Refactor.Index.{LeavesIndex, HasIndex, HasIndex-Stays}
use refactor_tradeoffs.Pipeline.Units.Invariant.{any_All, process_claimed-Keeps}
use refactor_tradeoffs.Pipeline.Refactor.Rules.{Holds, Holds-bind, Holds-any}
use refactor_tradeoffs.Pipeline.Units.{process_claimed, process_file_units}
use refactor_tradeoffs.Pipeline.Run.{
  RunResult, RunServices, Lab, FileUnits, Completed, run_tasks, run_pool, perform_run, prepare,
  max_workers, run_repo_of, open_pool, set_up, on_state, build_units, group_by_file, finish,
  collect,
}

module _ {World : Type 0} (setup : Setup World) (leaves : LeavesIndex setup) (run_repo : FilePath)
    (n : ℕ) where
  -- A thread of the pool processes the units of a file, and the pool is then in a state that its claims reach.
  process_file_units-returns :
      (units : List RefactorUnit) (threads : Threads) (thread : ℕ) (s : State World)
      → Reach n (start n) threads
      → thread < n
      → (result : Result (List UnitResult)) × (t : State World) × (queue : List ℕ)
        × (process_file_units setup units run_repo threads.queue
              (record s { worker_index = threads.held thread })
            ≡ some ((result, t), queue))
        × Reach n
            (start n)
            (record { held = hold thread t.worker_index threads.held; queue = queue })
  unfolding process_file_units
  process_file_units-returns units threads thread s reached below =
      elim (Option-cases (claim_worker_index (threads.held thread) threads.queue)) [
        | inl blocked ↦ absurd (Reach-claim-ne-none n threads thread reached below blocked)
        | inr ((index, own, queue), claimed) ↦
            let is_own = claimed-own (threads.held thread) threads.queue claimed in
            let ran =
              process_claimed setup run_repo index units (record s { worker_index = own }) in
            let kept =
              process_claimed-Keeps setup run_repo index (HasIndex index)
                (HasIndex-Stays setup index leaves) (λ rel. tt) units (any_All units)
                (record s { worker_index = own }) is_own
              ∙ sym is_own in
            (
              ran.0,
              ran.1,
              queue,
              rw (claimed, process_file_units) refl,
              rw kept (next reached (claims thread index own queue below claimed)),
            )
      ]

  run_tasks-returns :
      (tasks : List (ℕ × FileUnits)) (threads : Threads) (s : State World)
      → Reach n (start n) threads
      → All (λ task. task.0 < n) tasks
      → (r : List Completed × State World) × (run_tasks setup run_repo tasks threads s ≡ some r)
  unfolding run_tasks
  run_tasks-returns [] threads s reached below = (([], s), refl)
  run_tasks-returns ((thread, (file_path, units)) ∷ tasks) threads s reached (own, others) =
      let (result, t, queue, done, later) =
        process_file_units-returns units threads thread s reached own in
      let ((futures, u), ended) =
        run_tasks-returns tasks
          (record { held = hold thread t.worker_index threads.held; queue = queue }) t later
          others in
      (((file_path, result) ∷ futures, u), rw (done, run_tasks) (rw ended refl))

module _ {World Float : Type 0} (setup : Setup World) (services : RunServices World Float)
    (issues_path results_dir : FilePath) where
  -- The schedule gives each task to one of the pool's threads.
  abbrev pub UsesItsThreads : Type 0
  UsesItsThreads =
      (workers : ℕ) (by_file : List FileUnits)
      → 0 < workers
      → All (λ task. task.0 < workers) (services.schedule workers by_file)

  module _ (run_index : ℕ) where
    open_pool-Holds :
        (by_file : List FileUnits) (lab : Lab World)
        → Holds
            (λ _ _. 0 < max_workers setup services issues_path results_dir by_file)
            (open_pool setup services issues_path results_dir by_file lab)
    unfolding open_pool
    open_pool-Holds by_file lab =
        elim (Bool-cases (max_workers setup services issues_path results_dir by_file == 0)) [
          | inl empty ↦ rw (empty, open_pool) tt
          | inr some_workers ↦ rw (some_workers, open_pool) (ground arith)
        ]

    HasWorkers : State World × List FileUnits → Lab World → Type 0
    HasWorkers (begun, by_file) _ = 0 < max_workers setup services issues_path results_dir by_file

    prepare-HasWorkers :
        (base_repo : FilePath) (lab : Lab World)
        → Holds HasWorkers (prepare setup services issues_path results_dir run_index base_repo lab)
    unfolding prepare HasWorkers
    prepare-HasWorkers base_repo lab =
        let Prepared : Type 0 = State World × List FileUnits in
        let opened : State World → List RefactorUnit → Exec (Lab World) Prepared = λ begun units.
          open_pool setup services issues_path results_dir (group_by_file units []) >>= λ _.
          pure (begun, group_by_file units []) in
        let build : Exec (Lab World) (List RefactorUnit) =
          on_state setup services issues_path results_dir (
            build_units setup services issues_path results_dir setup.settings.experiment_type
              (run_repo_of setup services issues_path results_dir run_index)) in
        let begin : Exec (Lab World) (State World) = λ lab. (ok (lab.state), lab) in
        Holds-bind (λ _ _. Unit {0}) HasWorkers
          (set_up setup services issues_path results_dir run_index base_repo)
          (λ _. begin >>= λ begun. build >>= opened begun) lab (Holds-any _)
          (λ _ t _.
            Holds-bind (λ _ _. Unit {0}) HasWorkers begin (λ begun. build >>= opened begun) t tt
              (λ begun u _.
                Holds-bind (λ _ _. Unit {0}) HasWorkers build (opened begun) u (Holds-any _)
                  (λ units v _.
                    Holds-bind
                      (λ _ _.
                        0
                        < max_workers setup services issues_path results_dir
                            (group_by_file units []))
                      HasWorkers
                      (open_pool setup services issues_path results_dir (group_by_file units []))
                      (λ _. pure (begun, group_by_file units [])) v
                      (open_pool-Holds (group_by_file units []) v) (λ _ w h. h))))

    run_pool-returns :
        LeavesIndex setup
        → UsesItsThreads
        → (m : Result (State World × List FileUnits) × Lab World) → Holds HasWorkers m
        → (r : Result (RunResult Float) × Lab World) × (run_pool setup services issues_path
              results_dir run_index m.0 m.1
            ≡ some r)
    unfolding run_pool HasWorkers
    run_pool-returns leaves uses (raised e, lab) h = ((raised e, lab), refl)
    run_pool-returns leaves uses (ok (begun, by_file), lab) h =
        let workers = max_workers setup services issues_path results_dir by_file in
        let (r, ran) =
          run_tasks-returns setup leaves
            (run_repo_of setup services issues_path results_dir run_index) workers
            (services.schedule workers by_file) (start workers) lab.state here
            (uses workers by_file h) in
        (
          finish setup services issues_path results_dir run_index begun (collect r.0)
              (record lab { state = r.1 }),
          rw (ran, run_pool) refl,
        )

    -- Where what is run for the repository leaves the thread's index alone, and each task is given to one of
    -- the pool's threads: a run comes to its end, with a result or an exception; no thread blocks for good.
    pub perform_run-returns :
        (base_repo : FilePath) (lab : Lab World)
        → LeavesIndex setup
        → UsesItsThreads
        → (r : Result (RunResult Float) × Lab World) × (perform_run setup services issues_path
              results_dir run_index base_repo lab
            ≡ some r)
    unfolding perform_run
    perform_run-returns base_repo lab leaves uses =
        run_pool-returns leaves uses
          (prepare setup services issues_path results_dir run_index base_repo lab)
          (prepare-HasWorkers base_repo lab)
