-- ===== src/Pipeline/WorkerContext.antt =====
-- src/pipeline/worker_context.py. The thread-local `_state` is the `worker_index` of the state; the
-- queue of free indices is a list, and a `get` on an empty queue, which blocks, is `none`.
pub mod Names
pub mod Pool
pub mod Provision
use refactor_tradeoffs.Base.{
  ℕ, zero, suc, ◌+◌, ◌≡◌, refl, Bool, Option, none, some, List, [], ◌∷◌, ◌++◌, Str, codes, FilePath,
  to_path, path_name, relative_to, starts_with, show, isdigit, digits_value, length, drop,
  if◌then◌else◌, Result, ok, Exec,
}
use refactor_tradeoffs.Globals.{Settings}
use refactor_tradeoffs.Pipeline.State.{State, Files}

abbrev pub or_zero : Option ℕ → ℕ
or_zero none = 0
or_zero (some index) = index

module _ {World : Type 0} where
  unfoldable pub set_worker_index : ℕ → Exec (State World) (Unit {0})
  set_worker_index index s = (ok tt, record s { worker_index = some index })

  unfoldable pub get_worker_index : Exec (State World) ℕ
  get_worker_index s = (ok (or_zero s.worker_index), s)

abbrev pub worker_prefix : Str
worker_prefix = codes "worker_"

unfoldable pub worker_index_from_repo : Str → ℕ
worker_index_from_repo repo_path =
    let name = path_name (to_path repo_path) in
    let suffix = drop (length worker_prefix) name in
    if starts_with name worker_prefix
    then (if isdigit suffix then digits_value suffix else 0)
    else 0

-- The calling thread's index and the queue, with the index that is claimed.
unfoldable pub claim_worker_index : Option ℕ → List ℕ → Option (ℕ × Option ℕ × List ℕ)
claim_worker_index (some cached) queue = some (cached, some cached, queue)
claim_worker_index none [] = none
claim_worker_index none (index ∷ queue) = some (index, some index, queue)

abbrev pub worker_name : ℕ → Str
worker_name index = worker_prefix ++ show index

unfoldable pub get_worker_repo : Settings → ℕ → FilePath
get_worker_repo settings index = to_path settings.job_dir ++ (worker_name index ∷ [])

abbrev pub src_dir : FilePath
src_dir = codes "src" ∷ []

-- All below `dir` goes.
unfoldable pub clear : FilePath → Files → Files
clear dir files q = elim (relative_to q dir) [ some _ ↦ none | none ↦ files q ]

-- `copytree(src, dst, dirs_exist_ok=True)`: what `src` has is written over what `dst` has.
unfoldable pub copytree : FilePath → FilePath → Files → Files
copytree src dst files q = elim (relative_to q dst) [
  | none ↦ files q
  | some rel ↦ elim (files (src ++ rel)) [ some text ↦ some text | none ↦ files q ]
]

-- One round of the loop.
unfoldable pub refresh : Settings → FilePath → ℕ → Files → Files
unfolding clear copytree get_worker_repo
refresh settings run_repo index files =
    let worker_src = get_worker_repo settings index ++ src_dir in
    copytree (run_repo ++ src_dir) worker_src (clear worker_src files)

-- The rounds from `index` on, with `left` of them to go.
unfoldable pub refresh_from : Settings → FilePath → ℕ → ℕ → Files → Files
unfolding refresh
refresh_from settings run_repo index zero files = files
refresh_from settings run_repo index (suc left) files =
    refresh_from settings run_repo (index + 1) left (refresh settings run_repo index files)

unfoldable pub provision_worker_repos : Settings → FilePath → Files → Files
unfolding refresh_from
provision_worker_repos settings run_repo files =
    refresh_from settings run_repo 0 settings.max_parallel_units files
