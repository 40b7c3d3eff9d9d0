-- ===== src/Pipeline/Run/Interleaving/Isolation.antt =====
-- What the threads of the pool leave alone: one another's working copies, and the files of the run
-- that have no task.
use refactor_tradeoffs.Base.{
  ℕ, ◌<◌, ◌≡◌, ◌≢◌, refl, sym, ap, ◌∙◌, none, some, List, ◌∷◌, ◌++◌, FilePath, relative_to, All,
  nat_eq, arith,
}
use refactor_tradeoffs.Globals.{UnitResult, Settings, traditional}
use refactor_tradeoffs.Pipeline.State.{Files}
use refactor_tradeoffs.Pipeline.WorkerContext.Pool.Unshared.{Reach-unshared}
use refactor_tradeoffs.Pipeline.WorkerContext.Provision.{worker_src, worker_src-apart}
use refactor_tradeoffs.Pipeline.Refactor.{RefactorUnit, Setup}
use refactor_tradeoffs.Pipeline.Refactor.Verified.{LeavesFiles}
use refactor_tradeoffs.Pipeline.Refactor.Index.{LeavesIndex}
use refactor_tradeoffs.Pipeline.Run.{FileUnits}
use refactor_tradeoffs.Pipeline.Run.Interleaving.{working, System, Reach, here, next, submitted}
use refactor_tradeoffs.Pipeline.Run.Interleaving.Turns.{
  relative_to-ne, Ran-files, Turn, begun, continued, ended, Step-Turn,
}
use refactor_tradeoffs.Pipeline.Run.Interleaving.Owned.{
  FilesOf, Owned, FilesOf-map, submitted-Owned, Reach-Owned,
}
use refactor_tradeoffs.Pipeline.Run.Interleaving.Indices.{
  HasIndices, submitted-HasIndices, Reach-HasIndices,
}

-- Below the `src` of no worker.
abbrev pub IsOutside : Settings → FilePath → Type 0
IsOutside settings q = (k : ℕ) → relative_to q (worker_src settings k) ≡ none

-- The task of the thread, if it has one, has nothing to do with the file `q`.
abbrev Spares : {World : Type 0} → Settings → FilePath → ℕ → System World → Type 0
Spares settings q t s =
    (task : FileUnits) (index : ℕ) (left : List RefactorUnit) (results : List UnitResult)
    → s.doing t ≡ working task index left results
    → (relative_to q (worker_src settings index) ≡ none) × FilesOf (λ path. q ≢ path) task

module _ {World : Type 0} (setup : Setup World) (run_repo : FilePath) {Kept : FilePath → Type 0}
    (quiet : LeavesFiles setup.profile Kept) (mode : setup.settings.ai_type ≡ traditional) where
  Turn-files :
      {t : ℕ} {s v : System World} (q : FilePath)
      → Kept q
      → Turn setup run_repo t s v
      → Spares setup.settings q t s
      → v.files q ≡ s.files q
  Turn-files q kept (begun task tasks index own queue e f g) spared = refl
  Turn-files q kept (continued task index unit left results result u e ran) spared =
      let (outside, own) = spared task index (unit ∷ left) results e in
      Ran-files setup run_repo q quiet mode kept outside own ran
  Turn-files q kept (ended task index left results result u e ran outcome) spared =
      let (outside, own) = spared task index left results e in
      Ran-files setup run_repo q quiet mode kept outside own ran

  -- Of the type `traditional`: whatever the threads do, a file that lies in no worker's `src` and of which no
  -- unit of a task is keeps its text, where the checks leave it alone.
  pub Reach-untouched :
      {May : ℕ → Type 0} {s v : System World} (q : FilePath)
      → Kept q
      → IsOutside setup.settings q
      → Owned (FilesOf (λ path. q ≢ path)) s
      → Reach setup run_repo May s v
      → v.files q ≡ s.files q
  Reach-untouched q kept outside own here = refl
  Reach-untouched q kept outside own (next {u = u} {t = t} r may step) =
      Turn-files q kept (Step-Turn setup run_repo step) (λ task index left results e. (
        outside index,
        (Reach-Owned setup run_repo (FilesOf (λ path. q ≢ path)) r own).worked t task index left
            results e,
      ))
      ∙ Reach-untouched q kept outside own r

  module _ (leaves : LeavesIndex setup) (n v : ℕ) where
    -- A thread of the pool other than `v`.
    abbrev pub IsOther : ℕ → Type 0
    IsOther t = (t < n) × (t ≢ v)

    Turn-doing :
        {t : ℕ} {s u : System World} → t ≢ v → Turn setup run_repo t s u → u.doing v ≡ s.doing v
    Turn-doing h (begun task tasks index own queue e f g) = ground arith
    Turn-doing h (continued task index unit left results result u e ran) = ground arith
    Turn-doing h (ended task index left results result u e ran outcome) = ground arith

    Reach-doing : {s u : System World} → Reach setup run_repo IsOther s u → u.doing v ≡ s.doing v
    Reach-doing here = refl
    Reach-doing (next r (below, other) step) =
        Turn-doing other (Step-Turn setup run_repo step) ∙ Reach-doing r

    others-Spares :
        {t : ℕ} {u : System World} (task : FileUnits) (index : ℕ) (left : List RefactorUnit)
        (results : List UnitResult) (rel : FilePath)
        → t ≢ v
        → HasIndices n u
        → Owned (FilesOf (IsOutside setup.settings)) u
        → u.doing v ≡ working task index left results
        → Spares setup.settings (worker_src setup.settings index ++ rel) t u
    others-Spares {t} task index left results rel other indices own e task' index' left' results'
          d =
        (
          worker_src-apart setup.settings index index' rel (λ same.
              other
                (Reach-unshared n t v index indices.pool
                  (indices.owns t task' index' left' results' d ∙ ap some (sym same))
                  (indices.owns v task index left results e)).0),
          FilesOf-map task'
              (λ path outside same.
                relative_to-ne path (worker_src setup.settings index) rel (outside index)
                  (sym same))
              (own.worked t task' index' left' results' d),
        )

    Reach-isolated :
        {s u : System World} (task : FileUnits) (index : ℕ) (left : List RefactorUnit)
        (results : List UnitResult) (rel : FilePath)
        → Kept (worker_src setup.settings index ++ rel)
        → HasIndices n s
        → Owned (FilesOf (IsOutside setup.settings)) s
        → s.doing v ≡ working task index left results
        → Reach setup run_repo IsOther s u
        → u.files (worker_src setup.settings index ++ rel)
          ≡ s.files (worker_src setup.settings index ++ rel)
    Reach-isolated task index left results rel kept indices own e here = refl
    Reach-isolated {s} task index left results rel kept indices own e
          (next {u = u} {t = t} r (below, other) step) =
        Turn-files (worker_src setup.settings index ++ rel) kept (Step-Turn setup run_repo step) (
          others-Spares task index left results rel other
            (Reach-HasIndices setup run_repo n leaves (λ _ may. may.0) indices r)
            (Reach-Owned setup run_repo (FilesOf (IsOutside setup.settings)) r own)
            (Reach-doing r ∙ e))
        ∙ Reach-isolated task index left results rel kept indices own e r

  -- Of the type `traditional`, where what is run for the repository leaves the thread's index alone, and for
  -- tasks whose files, their paths compared part by part, lie in no worker's `src`: after any steps of the `n` threads of the pool, let one of
  -- them work for a worker. However many steps the other threads then take, each file of that worker's
  -- `src` that the checks leave alone is as it was.
  pub submitted-isolated :
      LeavesIndex setup
      → (n : ℕ) (tasks : List FileUnits) (files : Files) (world : World) {s u : System World}
        (v : ℕ) (task : FileUnits) (index : ℕ) (left : List RefactorUnit)
        (results : List UnitResult) (rel : FilePath)
      → All (FilesOf (IsOutside setup.settings)) tasks
      → Kept (worker_src setup.settings index ++ rel)
      → Reach setup run_repo (λ t. t < n) (submitted n tasks files world) s
      → s.doing v ≡ working task index left results
      → Reach setup run_repo (λ t. (t < n) × (t ≢ v)) s u
      → u.files (worker_src setup.settings index ++ rel)
        ≡ s.files (worker_src setup.settings index ++ rel)
  submitted-isolated leaves n tasks files world v task index left results rel outside kept r e
        others =
      Reach-isolated leaves n v task index left results rel kept
        (Reach-HasIndices setup run_repo n leaves (λ t below. below)
          (submitted-HasIndices setup run_repo n tasks files world) r)
        (Reach-Owned setup run_repo (FilesOf (IsOutside setup.settings)) r
          (submitted-Owned (FilesOf (IsOutside setup.settings)) n tasks files world outside))
        e others
