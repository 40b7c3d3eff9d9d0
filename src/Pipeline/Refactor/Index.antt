-- ===== src/Pipeline/Refactor/Index.antt =====
-- A thread that works for a worker keeps the worker's index, in an agent's session too.
use refactor_tradeoffs.Base.{ℕ, ◌≡◌, ap, ◌∙◌, Option, some, Str}
use refactor_tradeoffs.Pipeline.State.{State}
use refactor_tradeoffs.Pipeline.WorkerContext.{get_worker_repo}
use refactor_tradeoffs.Pipeline.WorkerContext.Names.{worker_index_from_repo-get_worker_repo}
use refactor_tradeoffs.Pipeline.Refactor.{Setup}
use refactor_tradeoffs.Pipeline.Refactor.Invariant.{Stays}

-- What is run for the repository does not set the thread's index.
pub record LeavesIndex {World : Type 0} (setup : Setup World) : Type 0 where
  pub syntax_check_leaves :
      (code : Str) (s : State World)
      → (setup.profile.syntax_check code s).1.worker_index ≡ s.worker_index
  pub correctness_check_leaves :
      (index : Option ℕ) (s : State World)
      → (setup.profile.correctness_check index s).1.worker_index ≡ s.worker_index
  pub converse_leaves :
      (working_dir message : Str) (s : State World)
      → (setup.services.converse working_dir message s).1.worker_index ≡ s.worker_index

abbrev pub HasIndex : {World : Type 0} → ℕ → State World → Type 0
HasIndex index s = s.worker_index ≡ some index

pub HasIndex-Stays :
    {World : Type 0} (setup : Setup World) (index : ℕ)
    → LeavesIndex setup
    → Stays setup (get_worker_repo setup.settings index) (λ _. Unit {0}) (HasIndex index)
HasIndex-Stays setup index leaves = record {
  writes = λ path text s own e. e;
  completes = λ world s e. e;
  opens = λ mode s e. ap some (worker_index_from_repo-get_worker_repo setup.settings index);
  converses = λ mode working_dir message s e. leaves.converse_leaves working_dir message s ∙ e;
  syntax_checks = λ code s e. leaves.syntax_check_leaves code s ∙ e;
  correctness_checks = λ i s e. leaves.correctness_check_leaves i s ∙ e;
}
