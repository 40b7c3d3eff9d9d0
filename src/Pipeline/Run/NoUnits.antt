-- ===== src/Pipeline/Run/NoUnits.antt =====
-- A run that finds no units.
use refactor_tradeoffs.Base.{
  ℕ, ◌≡◌, some, [], FilePath, list_eq, nat_eq, ok, raised, value_error, arith,
}
use refactor_tradeoffs.Pipeline.State.{State}
use refactor_tradeoffs.Pipeline.Refactor.{Setup}
use refactor_tradeoffs.Pipeline.Run.{
  RunServices, Lab, group_by_file, run_pool, run_repo_of, set_up, on_state, prepare, perform_run,
  build_units, open_pool,
}

module _ {World Float : Type 0} (setup : Setup World) (services : RunServices World Float)
    (issues_path results_dir : FilePath) where
  open setup use {settings, profile}

  -- A run that has been set up and then finds no units ends with a `ValueError`, since the pool cannot
  -- be opened for no workers. The meters are left as they were set up, and no result is written: the
  -- files are those that the building of the units has left.
  pub perform_run-no_units :
      (run_index : ℕ) (base_repo : FilePath) (lab ready : Lab World) (built : State World)
      → set_up setup services issues_path results_dir run_index base_repo lab ≡ (ok tt, ready)
      → build_units setup services issues_path results_dir settings.experiment_type
          (run_repo_of setup services issues_path results_dir run_index)
          ready.state
        ≡ (ok [], built)
      → perform_run setup services issues_path results_dir run_index base_repo lab
        ≡ some (raised value_error, record ready { state = built })
  unfolding perform_run prepare run_pool on_state open_pool group_by_file
  perform_run-no_units run_index base_repo lab ready built s e = rw s (rw e (ground arith))
