-- ===== src/Pipeline/Units.antt =====
-- `_build_units_passive`, `_build_units_active` and `_process_file_units` of src/pipeline/runner.py.
-- The list of source files (`rglob`) and the issues that `json_loads` reads are arguments. The count
-- of processed units, which is only logged, is left out.
mod Issues
pub mod Grouping
pub mod Below
pub mod Merging
pub mod Invariant
unfoldable pub use Issues.*
use refactor_tradeoffs.Base.{
  flatten, ℕ, ◌+◌, Bool, ◌&&◌, Option, none, some, List, [], ◌∷◌, ◌++◌, Str, codes, is_space,
  is_empty, join, concat, show, FilePath, joined, path_str, relative_to, ◌==◌, list_eq, nat_eq,
  if◌then◌else◌, Result, value_error, Exec, pure, raise, ◌>>=◌,
}
use refactor_tradeoffs.Globals.{AiType, traditional, agent, UnitResult}
use refactor_tradeoffs.Pipeline.State.{State, read_text, copyfile}
use refactor_tradeoffs.Pipeline.Registry.{parsing_of}
use refactor_tradeoffs.Pipeline.WorkerContext.{claim_worker_index, get_worker_repo, src_dir}
use refactor_tradeoffs.Pipeline.TreeParser.{
  FunctionInfo, extract_functions, Enclosing, enclosed, around, global_scope,
  find_enclosing_function, newline,
}
use refactor_tradeoffs.Pipeline.Refactor.{RefactorUnit, Setup, process_unit}

-- The results of `f` over a list, in order; an exception ends the loop.
unfoldable pub for_each {ℓ κ μ} :
    {S : Type ℓ} {A : Type κ} {B : Type μ} → (A → Exec S B) → List A → Exec S (List B)
for_each f [] = pure []
for_each f (a ∷ rest) = do b ← f a; bs ← for_each f rest; pure (b ∷ bs)

-- `path.relative_to(dir)`
unfoldable pub relative_or_raise {ℓ} : {S : Type ℓ} → FilePath → FilePath → Exec S FilePath
relative_or_raise path dir = elim (relative_to path dir) [
  | none ↦ raise value_error
  | some rel ↦ pure rel
]

-- Where the function is, which only an agent is told.
unfoldable pub location {ℓ} : {S : Type ℓ} → AiType → FilePath → FilePath → Exec S Str
unfolding relative_or_raise path_str concat
location traditional path dir = pure []
location agent path dir = do
  rel ← relative_or_raise path dir
  pure (concat (codes "in file `" ∷ path_str rel ∷ codes "` " ∷ []))

unfoldable pub passive_unit {ℓ} :
    {S : Type ℓ} → AiType → FilePath → FilePath → FunctionInfo → Exec S RefactorUnit
unfolding location concat
passive_unit ai_type repo_path source_file fn = do
  place ← location ai_type source_file repo_path
  pure (record {
    task = concat (
        codes "Refactor the function `"
        ∷ fn.name
        ∷ codes "` "
        ∷ place
        ∷ codes "to be more efficient and green, while maintaining its "
        ∷ codes "functionality and function signature."
        ∷ []);
    file_path = source_file;
    function_info = fn;
  })

unfoldable pub active_unit {ℓ} : {S : Type ℓ} → AiType → FilePath → Group → Exec S RefactorUnit
unfolding location active_task function_reference
active_unit ai_type repo_path group = do
  place ← location ai_type group.absolute_path (repo_path ++ src_dir)
  pure (record {
    task = active_task place (function_reference group.fn_info) group.issues;
    file_path = group.absolute_path;
    function_info = group.fn_info;
  })

module _ {World : Type 0} (setup : Setup World) where
  open setup use {settings, profile}

  unfoldable pub build_units_passive :
      FilePath → List FilePath → Exec (State World) (List RefactorUnit)
  unfolding for_each flatten read_text extract_functions passive_unit
  build_units_passive repo_path source_files = do
    units ←
        for_each
          (λ source_file. read_text source_file >>= λ source.
            for_each (passive_unit settings.ai_type repo_path source_file)
              (extract_functions (parsing_of profile) source settings.min_function_loc))
          source_files
    pure (flatten units)

  -- The first loop.
  unfoldable pub group_issues :
      FilePath → List SonarQubeIssue → List Group → Exec (State World) (List Group)
  unfolding read_text add_enclosed joined relative_path find_enclosing_function
  group_issues repo_path [] groups = pure groups
  group_issues repo_path (issue ∷ issues) groups =
      let absolute_path = joined (repo_path ++ src_dir) (relative_path issue) in
      read_text absolute_path >>= λ source. group_issues repo_path issues (
        add_enclosed absolute_path (find_enclosing_function (parsing_of profile) source issue.line)
          issue groups)

  unfoldable pub build_units_active :
      FilePath → List SonarQubeIssue → Exec (State World) (List RefactorUnit)
  unfolding group_issues for_each active_unit
  build_units_active repo_path issues = do
    groups ← group_issues repo_path issues []
    for_each (active_unit settings.ai_type repo_path) groups

  -- `_rebase_to_worker`
  unfoldable pub rebase_to_worker : FilePath → FilePath → ℕ → Exec (State World) FilePath
  unfolding relative_or_raise get_worker_repo
  rebase_to_worker file_path run_repo worker_index = do
    rel ← relative_or_raise file_path (run_repo ++ src_dir)
    pure (get_worker_repo settings worker_index ++ src_dir ++ rel)

  -- The body of the loop.
  unfoldable pub process_rebased : FilePath → ℕ → RefactorUnit → Exec (State World) UnitResult
  unfolding rebase_to_worker process_unit get_worker_repo
  process_rebased run_repo worker_index unit = do
    worker_path ← rebase_to_worker unit.file_path run_repo worker_index
    process_unit setup (record unit { file_path = worker_path })
        (get_worker_repo settings worker_index)

  -- The copy of the worker's file back to the run's repository.
  unfoldable pub merge_back : FilePath → ℕ → List RefactorUnit → Exec (State World) (Unit {0})
  unfolding rebase_to_worker copyfile
  merge_back run_repo worker_index [] = pure tt
  merge_back run_repo worker_index (unit ∷ units) = do
    worker_file ← rebase_to_worker unit.file_path run_repo worker_index
    copyfile worker_file unit.file_path

  unfoldable pub process_claimed :
      FilePath → ℕ → List RefactorUnit → Exec (State World) (List UnitResult)
  unfolding for_each process_rebased merge_back
  process_claimed run_repo worker_index units = do
    results ← for_each (process_rebased run_repo worker_index) units
    merged ← merge_back run_repo worker_index units
    pure results

  -- The results and the queue after the claim; `none` where the claim blocks.
  unfoldable pub process_file_units :
      List RefactorUnit
      → FilePath
      → List ℕ
      → State World
      → Option ((Result (List UnitResult) × State World) × List ℕ)
  unfolding claim_worker_index process_claimed
  process_file_units units run_repo worker_index_pool s =
      elim (claim_worker_index s.worker_index worker_index_pool) [
        | none ↦ none
        | some (worker_index, held, queue) ↦
            some (
              process_claimed run_repo worker_index units (record s { worker_index = held }),
              queue,
            )
      ]
