-- ===== src/Pipeline/Units/Invariant.antt =====
-- What the services and the writes of files keep is kept by the processing of a file's units.
use refactor_tradeoffs.Base.{
  ℕ, inl, inr, Option-cases, List, [], ◌∷◌, ◌++◌, FilePath, relative_to, All, Exec,
}
use refactor_tradeoffs.Pipeline.State.{State, copyfile}
use refactor_tradeoffs.Pipeline.WorkerContext.{get_worker_repo, src_dir}
use refactor_tradeoffs.Pipeline.Refactor.{RefactorUnit, Setup}
use refactor_tradeoffs.Pipeline.Refactor.Keeps.{Keeps, Keeps-bind}
use refactor_tradeoffs.Pipeline.Refactor.Invariant.{Stays, process_unit-Keeps}
use refactor_tradeoffs.Pipeline.Units.{
  for_each, relative_or_raise, rebase_to_worker, process_rebased, merge_back, process_claimed,
}

pub any_All : (units : List RefactorUnit) → All (λ unit. Unit {0}) units
any_All [] = tt
any_All (unit ∷ units) = (tt, any_All units)

module _ {ℓ κ} {World : Type 0} {A : Type ℓ} {B : Type κ} (P : State World → Type 0) where
  pub for_each-Keeps :
      (g : A → Exec (State World) B) (xs : List A)
      → ((x : A) → Keeps P (g x))
      → Keeps P (for_each g xs)
  unfolding for_each
  for_each-Keeps g [] k = λ s e. e
  for_each-Keeps g (x ∷ xs) k =
      Keeps-bind P (g x) _ (k x)
        (λ y. Keeps-bind P (for_each g xs) _ (for_each-Keeps g xs k) (λ _ t e. e))

module _ {World : Type 0} (setup : Setup World) (run_repo : FilePath) (index : ℕ)
    {Written : FilePath → Type 0} (P : State World → Type 0)
    (stays : Stays setup (get_worker_repo setup.settings index) Written P)
    (worker_files : (rel : FilePath)
      → Written (get_worker_repo setup.settings index ++ src_dir ++ rel)) where
  relative_or_raise-Keeps :
      (path dir : FilePath) → Keeps {World = World} P (relative_or_raise path dir)
  unfolding relative_or_raise
  relative_or_raise-Keeps path dir = elim (Option-cases (relative_to path dir)) [
    | inl e ↦ rw (e, relative_or_raise) (λ s h. h)
    | inr (rel, e) ↦ rw (e, relative_or_raise) (λ s h. h)
  ]

  rebase_to_worker-Keeps : (path : FilePath) → Keeps P (rebase_to_worker setup path run_repo index)
  unfolding rebase_to_worker
  rebase_to_worker-Keeps path =
      Keeps-bind P (relative_or_raise path (run_repo ++ src_dir)) _
        (relative_or_raise-Keeps path (run_repo ++ src_dir)) (λ _ t e. e)

  pub process_rebased-Keeps :
      (unit : RefactorUnit) → Keeps P (process_rebased setup run_repo index unit)
  unfolding process_rebased rebase_to_worker
  process_rebased-Keeps unit =
      elim (Option-cases (relative_to unit.file_path (run_repo ++ src_dir))) [
        | inl e ↦ rw (e, relative_or_raise) (λ s h. h)
        | inr (rel, e) ↦
            rw (e, relative_or_raise)
              (process_unit-Keeps setup P stays
                (record unit { file_path = get_worker_repo setup.settings index ++ src_dir ++ rel })
                (worker_files rel))
      ]

  copyfile-Keeps : (src dst : FilePath) → Written dst → Keeps P (copyfile src dst)
  unfolding copyfile
  copyfile-Keeps src dst own s e = elim (Option-cases (s.files src)) [
    | inl absent ↦ rw (absent, copyfile) e
    | inr (text, found) ↦ rw (found, copyfile) (stays.writes dst text s own e)
  ]

  pub merge_back-Keeps :
      (units : List RefactorUnit)
      → All (λ unit. Written unit.file_path) units
      → Keeps P (merge_back setup run_repo index units)
  unfolding merge_back
  merge_back-Keeps [] own = λ s e. e
  merge_back-Keeps (unit ∷ units) own =
      Keeps-bind P (rebase_to_worker setup unit.file_path run_repo index) _
        (rebase_to_worker-Keeps unit.file_path) (λ path. copyfile-Keeps path unit.file_path own.0)

  pub process_claimed-Keeps :
      (units : List RefactorUnit)
      → All (λ unit. Written unit.file_path) units
      → Keeps P (process_claimed setup run_repo index units)
  unfolding process_claimed
  process_claimed-Keeps units own =
      Keeps-bind P (for_each (process_rebased setup run_repo index) units) _
        (for_each-Keeps P (process_rebased setup run_repo index) units process_rebased-Keeps)
        (λ results.
          Keeps-bind P (merge_back setup run_repo index units) _ (merge_back-Keeps units own)
            (λ _ t e. e))
