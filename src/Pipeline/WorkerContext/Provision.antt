-- ===== src/Pipeline/WorkerContext/Provision.antt =====
-- What a worker's working copy holds after `provision_worker_repos`.
use mathlib.Core.List.{append_assoc}
use refactor_tradeoffs.Base.{
  ℕ, zero, suc, ◌+◌, ◌<◌, ◌≤◌, ◌≡◌, ◌≢◌, refl, ◌∙◌, ℕ_discrete, none, [], ◌∷◌, ◌++◌, Str, FilePath,
  to_path, relative_to, relative_to-append, list_eq, nat_eq, arith,
}
use refactor_tradeoffs.Globals.{Settings}
use refactor_tradeoffs.Pipeline.State.{Files}
use refactor_tradeoffs.Pipeline.WorkerContext.{
  worker_name, get_worker_repo, src_dir, clear, copytree, refresh, refresh_from,
  provision_worker_repos,
}
use refactor_tradeoffs.Pipeline.WorkerContext.Names.{worker_name-ne}

-- Paths that part below `base` do not lie under one another.
pub relative_to-apart :
    (base p q : FilePath) (a b : Str)
    → a ≢ b
    → relative_to (base ++ (a ∷ p)) (base ++ (b ∷ q)) ≡ none
unfolding relative_to
relative_to-apart [] p q a b h = ground arith
relative_to-apart (c ∷ base) p q a b h = ground (arith, relative_to-apart base p q a b h)

module _ (settings : Settings) where
  abbrev pub worker_src : ℕ → FilePath
  worker_src index = get_worker_repo settings index ++ src_dir

  module _ (run_repo : FilePath) where
    refresh-in :
        (index : ℕ) (files : Files) (rel : FilePath)
        → relative_to ((run_repo ++ src_dir) ++ rel) (worker_src index) ≡ none
        → refresh settings run_repo index files (worker_src index ++ rel)
          ≡ files ((run_repo ++ src_dir) ++ rel)
    unfolding refresh clear copytree
    refresh-in index files rel h = ground (arith, relative_to-append (worker_src index) rel)

    refresh-out :
        (index : ℕ) (files : Files) (q : FilePath)
        → relative_to q (worker_src index) ≡ none
        → refresh settings run_repo index files q ≡ files q
    unfolding refresh clear copytree
    refresh-out index files q h = ground arith

    refresh_from-out :
        (index left : ℕ) (files : Files) (q : FilePath)
        → ((k : ℕ) → index ≤ k → k < index + left → relative_to q (worker_src k) ≡ none)
        → refresh_from settings run_repo index left files q ≡ files q
    unfolding refresh_from
    refresh_from-out index zero files q h = refl
    refresh_from-out index (suc left) files q h = ground (
      arith,
      refresh_from-out (index + 1) left (refresh settings run_repo index files) q
          (λ k a b. h k (omega arith) (omega arith)),
      refresh-out index files q (h index (omega arith) (omega arith)),
    )

  copies-apart :
      (a b : Str) (rel : FilePath)
      → a ≢ b
      → relative_to
          (((to_path settings.job_dir ++ (a ∷ [])) ++ src_dir) ++ rel)
          ((to_path settings.job_dir ++ (b ∷ [])) ++ src_dir)
        ≡ none
  copies-apart a b rel h =
      simp append_assoc
        (relative_to-apart (to_path settings.job_dir) (src_dir ++ rel) src_dir a b h)

  pub worker_src-apart :
      (i j : ℕ) (rel : FilePath) → i ≢ j → relative_to (worker_src i ++ rel) (worker_src j) ≡ none
  unfolding get_worker_repo
  worker_src-apart i j rel h =
      copies-apart (worker_name i) (worker_name j) rel (worker_name-ne i j h)

  -- A run's directory `run_name` beside those of the workers.
  module _ (run_name : Str) (other : (k : ℕ) → run_name ≢ worker_name k) where
    abbrev pub run_repo : FilePath
    run_repo = to_path settings.job_dir ++ (run_name ∷ [])

    pub run_src-apart :
        (k : ℕ) (rel : FilePath) → relative_to ((run_repo ++ src_dir) ++ rel) (worker_src k) ≡ none
    unfolding get_worker_repo
    run_src-apart k rel = copies-apart run_name (worker_name k) rel (other k)

    refresh_from-in :
        (index left : ℕ) (files : Files) (k : ℕ) (rel : FilePath)
        → index ≤ k
        → k < index + left
        → refresh_from settings run_repo index left files (worker_src k ++ rel)
          ≡ files ((run_repo ++ src_dir) ++ rel)
    unfolding refresh_from
    refresh_from-in index zero files k rel a b = absurd (omega arith)
    refresh_from-in index (suc left) files k rel a b =
        let once = refresh settings run_repo index files in
        elim (ℕ_discrete k index) [
          | yes here ↦
              refresh_from-out run_repo (index + 1) left once (worker_src k ++ rel)
                (λ j lo hi. worker_src-apart k j rel (omega arith))
              ∙ rw here (refresh-in run_repo index files rel (run_src-apart index rel))
          | no later ↦
              refresh_from-in (index + 1) left once k rel (omega arith) (omega arith)
              ∙ refresh-out run_repo index files ((run_repo ++ src_dir) ++ rel)
                  (run_src-apart index rel)
        ]

    -- For a run's directory with the name of no worker's: after provisioning, below the `src` of each
    -- worker of the pool there is exactly what the run's `src` held.
    pub provision_worker_repos-in :
        (files : Files) (k : ℕ) (rel : FilePath)
        → k < settings.max_parallel_units
        → provision_worker_repos settings run_repo files (worker_src k ++ rel)
          ≡ files ((run_repo ++ src_dir) ++ rel)
    unfolding provision_worker_repos
    provision_worker_repos-in files k rel h =
        refresh_from-in 0 settings.max_parallel_units files k rel (omega arith) (omega arith)

    -- For a run's directory with the name of no worker's: a file outside of every worker's `src` is
    -- left alone.
    pub provision_worker_repos-out :
        (files : Files) (q : FilePath)
        → ((k : ℕ) → relative_to q (worker_src k) ≡ none)
        → provision_worker_repos settings run_repo files q ≡ files q
    unfolding provision_worker_repos
    provision_worker_repos-out files q h =
        refresh_from-out run_repo 0 settings.max_parallel_units files q (λ k _ _. h k)
