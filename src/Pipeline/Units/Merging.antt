-- ===== src/Pipeline/Units/Merging.antt =====
-- What `_process_file_units` leaves behind: a result for each unit, and the worker's file in the run's
-- repository.
use refactor_tradeoffs.Base.{
  ℕ, suc, ◌≡◌, refl, sym, ap, ◌∙◌, inl, inr, Option-cases, Option, some, List, [], ◌∷◌, ◌++◌, Str,
  FilePath, relative_to, length, list_eq, nat_eq, Result, ok,
}
use refactor_tradeoffs.Globals.{UnitResult}
use refactor_tradeoffs.Pipeline.State.{State, copyfile, write}
use refactor_tradeoffs.Pipeline.WorkerContext.{get_worker_repo, src_dir, claim_worker_index}
use refactor_tradeoffs.Pipeline.Refactor.{RefactorUnit, Setup}
use refactor_tradeoffs.Pipeline.Refactor.Rules.{
  Holds, Holds-bind, Holds-any, Holds-returned, Holds-self, Holds-weaken,
}
use refactor_tradeoffs.Pipeline.Units.{
  for_each, relative_or_raise, rebase_to_worker, process_rebased, merge_back, process_claimed,
  process_file_units,
}

module _ {ℓ κ μ} {S : Type ℓ} {A : Type κ} {B : Type μ} where
  for_each-length :
      (g : A → S → Result B × S) (xs : List A) (s : S)
      → Holds (λ ys _. length ys ≡ length xs) (for_each g xs s)
  unfolding for_each
  for_each-length g [] s = refl
  for_each-length g (x ∷ xs) s =
      Holds-bind (λ _ _. Unit {0}) (λ ys _. length ys ≡ length (x ∷ xs)) (g x) _ s (Holds-any _)
        (λ y t _.
          Holds-bind (λ ys _. length ys ≡ length xs) (λ ys _. length ys ≡ length (x ∷ xs))
            (for_each g xs) _ t (for_each-length g xs t) (λ ys u e. ap suc e))

relative_or_raise-Holds :
    {World : Type 0} (path dir : FilePath) (s : State World)
    → Holds (λ rel t. (t ≡ s) × (relative_to path dir ≡ some rel)) (relative_or_raise path dir s)
unfolding relative_or_raise
relative_or_raise-Holds path dir s = elim (Option-cases (relative_to path dir)) [
  | inl e ↦ rw (e, relative_or_raise) tt
  | inr (rel, e) ↦ rw (e, relative_or_raise) (refl, refl)
]

module _ {World : Type 0} (setup : Setup World) (run_repo : FilePath) (worker_index : ℕ) where
  -- From `before` to `after`, the file of the unit, below the run's `src`, has become what the worker's file of
  -- that name was, and no other file has changed.
  pub record Merged (unit : RefactorUnit) (before after : State World) : Type 0 where
    pub rel : FilePath
    pub below : relative_to unit.file_path (run_repo ++ src_dir) ≡ some rel
    pub text : Str
    pub worker_file :
        before.files (get_worker_repo setup.settings worker_index ++ src_dir ++ rel) ≡ some text
    pub written : after.files ≡ write unit.file_path text before.files

  -- Nothing to merge for a file without units.
  abbrev pub MergedFirst : List RefactorUnit → State World → State World → Type 0
  MergedFirst [] before after = after.files ≡ before.files
  MergedFirst (unit ∷ units) before after = Merged unit before after

  -- The units are processed in order, which ends in the state `worked`, and then the file is merged.
  pub record ProcessedAll (units : List RefactorUnit) (results : List UnitResult)
      (before after : State World) : Type 0 where
    pub worked : State World
    pub processed :
        for_each (process_rebased setup run_repo worker_index) units before ≡ (ok results, worked)
    pub one_each : length results ≡ length units
    pub merged : MergedFirst units worked after

  rebase_to_worker-Holds :
      (path : FilePath) (s : State World)
      → Holds
          (λ w t.
            (t ≡ s)
            × (rel : FilePath) × (relative_to path (run_repo ++ src_dir) ≡ some rel)
            × (w ≡ get_worker_repo setup.settings worker_index ++ src_dir ++ rel))
          (rebase_to_worker setup path run_repo worker_index s)
  unfolding rebase_to_worker
  rebase_to_worker-Holds path s =
      Holds-bind (λ rel t. (t ≡ s) × (relative_to path (run_repo ++ src_dir) ≡ some rel))
        (λ w t.
          (t ≡ s)
          × (rel : FilePath) × (relative_to path (run_repo ++ src_dir) ≡ some rel)
          × (w ≡ get_worker_repo setup.settings worker_index ++ src_dir ++ rel))
        (relative_or_raise path (run_repo ++ src_dir)) _ s
        (relative_or_raise-Holds path (run_repo ++ src_dir) s)
        (λ rel t (same, e). (same, rel, e, refl))

  abbrev Copied : FilePath → FilePath → State World → State World → Type 0
  Copied src dst s t = (text : Str) × (s.files src ≡ some text) × (t.files ≡ write dst text s.files)

  copyfile-Holds :
      (src dst : FilePath) (s : State World)
      → Holds (λ _ t. Copied src dst s t) (copyfile src dst s)
  unfolding copyfile
  copyfile-Holds src dst s = elim (Option-cases (s.files src)) [
    | inl e ↦ rw (e, copyfile) tt
    | inr (text, e) ↦ rw (e, copyfile) (text, refl, refl)
  ]

  merge_back-Holds :
      (units : List RefactorUnit) (s : State World)
      → Holds (λ _ t. MergedFirst units s t) (merge_back setup run_repo worker_index units s)
  unfolding merge_back
  merge_back-Holds [] s = refl
  merge_back-Holds (unit ∷ units) s =
      Holds-bind _ (λ _ t. Merged unit s t)
        (rebase_to_worker setup unit.file_path run_repo worker_index) _ s
        (rebase_to_worker-Holds unit.file_path s)
        (λ w t (same, rel, below, e).
          Holds-weaken (λ _ u. Copied w unit.file_path t u) (λ _ u. Merged unit s u) _
            (λ _ u (text, held, written). record {
              rel = rel;
              below = below;
              text = text;
              worker_file = ap s.files (sym e) ∙ ap (λ v. v.files w) (sym same) ∙ held;
              written = written ∙ ap (λ v. write unit.file_path text v.files) same;
            })
            (copyfile-Holds w unit.file_path t))

  pub process_claimed-Holds :
      (units : List RefactorUnit) (s : State World)
      → Holds
          (λ results t. ProcessedAll units results s t)
          (process_claimed setup run_repo worker_index units s)
  unfolding process_claimed
  process_claimed-Holds units s =
      let all = for_each (process_rebased setup run_repo worker_index) units in
      Holds-bind (λ results u. all s ≡ (ok results, u))
        (λ results t. ProcessedAll units results s t) all _ s (Holds-self (all s))
        (λ results worked e.
          Holds-bind _ (λ results t. ProcessedAll units results s t)
            (merge_back setup run_repo worker_index units) _ worked (merge_back-Holds units worked)
            (λ _ t merged. record {
              worked = worked;
              processed = e;
              one_each =
                  Holds-returned (λ ys _. length ys ≡ length units) _
                    (for_each-length (process_rebased setup run_repo worker_index) units s) e;
              merged = merged;
            }))

-- Where the claim does not block and no exception ends it, `_process_file_units` has processed the units in order,
-- each in the repository of the worker whose index is claimed, with one result for each; then the file of
-- the first unit, which lies below the run's `src`, has become what the worker's file of that name was
-- after the last unit, and the merge changes no other file, the worker's copy included.
pub process_file_units-Merged :
    {World : Type 0} (setup : Setup World) (run_repo : FilePath) (units : List RefactorUnit)
    (pool queue : List ℕ) (s t : State World) (results : List UnitResult) (index : ℕ)
    (held : Option ℕ)
    → claim_worker_index s.worker_index pool ≡ some (index, held, queue)
    → process_file_units setup units run_repo pool s ≡ some ((ok results, t), queue)
    → ProcessedAll setup run_repo index units results (record s { worker_index = held }) t
unfolding process_file_units
process_file_units-Merged setup run_repo units pool queue s t results index held claimed e =
    Holds-returned
      (λ results t.
        ProcessedAll setup run_repo index units results (record s { worker_index = held }) t)
      _ (process_claimed-Holds setup run_repo index units (record s { worker_index = held })) cc
