-- ===== src/Tests/Workers.antt =====
-- The theorems on the workers, their pool and the registry at concrete inputs.
use refactor_tradeoffs.Base.{
  ℕ, ◌<◌, none, some, to_path, relative_to, ◌≡◌, ◌≢◌, refl, List, [], ◌∷◌, ◌++◌, codes, list_eq,
  nat_eq, ok, arith,
}
use refactor_tradeoffs.Base.Dict.{lookup}
use refactor_tradeoffs.Pipeline.Registry.{get_parser, get_repository_profile}
use refactor_tradeoffs.Pipeline.Registry.Coherence.{
  Event, registers, parses, Modules, initial, run, fresh_parser, get_parser-run,
  get_repository_profile-run,
}
use refactor_tradeoffs.Pipeline.WorkerContext.{
  get_worker_repo, claim_worker_index, provision_worker_repos, worker_name, src_dir,
}
use refactor_tradeoffs.Pipeline.WorkerContext.Provision.{
  worker_src, run_repo, provision_worker_repos-in, provision_worker_repos-out,
}
use refactor_tradeoffs.Pipeline.WorkerContext.Pool.{Threads, claims, Reach, here, next, start, hold}
use refactor_tradeoffs.Pipeline.WorkerContext.Pool.Unshared.{Reach-unshared}
use refactor_tradeoffs.Tests.{World, profile, settings, run_name, run_files}

run_name-ne : (k : ℕ) → run_name ≢ worker_name k
run_name-ne k e = cc

provision_worker_repos-in_example :
    provision_worker_repos settings
      (run_repo settings run_name run_name-ne)
      run_files
      (worker_src settings 1 ++ (codes "a.c" ∷ []))
    ≡ run_files ((run_repo settings run_name run_name-ne ++ src_dir) ++ (codes "a.c" ∷ []))
provision_worker_repos-in_example =
    provision_worker_repos-in settings run_name run_name-ne run_files 1 (codes "a.c" ∷ [])
      (omega arith)

elsewhere : (k : ℕ) → relative_to (codes "b.c" ∷ []) (worker_src settings k) ≡ none
unfolding relative_to get_worker_repo to_path list_eq nat_eq
elsewhere k = refl

provision_worker_repos-out_example :
    provision_worker_repos settings
      (run_repo settings run_name run_name-ne)
      run_files
      (codes "b.c" ∷ [])
    ≡ run_files (codes "b.c" ∷ [])
provision_worker_repos-out_example =
    provision_worker_repos-out settings run_name run_name-ne run_files (codes "b.c" ∷ []) elsewhere

-- Thread 1 claims first, and then thread 0.
abbrev one_claim : Threads
one_claim = record { held = hold 1 (some 0) (start 2).held; queue = 1 ∷ [] }

abbrev two_claims : Threads
two_claims = record { held = hold 0 (some 1) one_claim.held; queue = [] }

two_claims-Reach : Reach 2 (start 2) two_claims
unfolding start claim_worker_index nat_eq
two_claims-Reach =
    next (next here (claims 1 0 (some 0) (1 ∷ []) (omega arith) refl))
      (claims 0 1 (some 1) [] (omega arith) refl)

Reach-unshared_example : (◌≡◌ {A = ℕ} 0 0) × (1 < 2)
unfolding nat_eq
Reach-unshared_example = Reach-unshared 2 0 0 1 two_claims-Reach refl refl

abbrev history_of_events : List (Event World)
history_of_events = parses (codes "x") ∷ registers (codes "x") profile ∷ []

get_parser-run_example :
    (get_parser
      (codes "x")
      (run history_of_events initial).registry
      (run history_of_events initial).cache).0
    ≡ fresh_parser (get_repository_profile (codes "x") (run history_of_events initial).registry)
get_parser-run_example = get_parser-run history_of_events (codes "x")

abbrev registered : Modules World
registered = record { registry = (codes "x", profile) ∷ []; cache = [] }

registered_profile : get_repository_profile (codes "x") registered.registry ≡ ok profile
unfolding get_repository_profile lookup list_eq nat_eq
registered_profile = refl

get_repository_profile-run_example :
    get_repository_profile (codes "x") (run history_of_events registered).registry ≡ ok profile
get_repository_profile-run_example =
    get_repository_profile-run history_of_events registered (codes "x") profile registered_profile
