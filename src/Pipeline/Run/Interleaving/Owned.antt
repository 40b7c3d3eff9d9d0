-- ===== src/Pipeline/Run/Interleaving/Owned.antt =====
-- What holds of all tasks that were submitted holds of those that wait and of those that threads work on.
use refactor_tradeoffs.Base.{ℕ, ◌≡◌, List, ◌∷◌, FilePath, All, All-map, nat_eq, arith}
use mathlib.Core.Path.{subst}
use refactor_tradeoffs.Globals.{UnitResult}
use refactor_tradeoffs.Pipeline.State.{Files}
use refactor_tradeoffs.Pipeline.Refactor.{RefactorUnit, Setup}
use refactor_tradeoffs.Pipeline.Run.{FileUnits}
use refactor_tradeoffs.Pipeline.Run.Interleaving.{working, System, Reach, here, next, submitted}
use refactor_tradeoffs.Pipeline.Run.Interleaving.Turns.{Turn, begun, continued, ended, Step-Turn}

abbrev pub FilesOf : (FilePath → Type 0) → FileUnits → Type 0
FilesOf P task = All (λ unit. P unit.file_path) task.1

pub FilesOf-map :
    {P Q : FilePath → Type 0} (task : FileUnits)
    → ((path : FilePath) → P path → Q path)
    → FilesOf P task
    → FilesOf Q task
FilesOf-map task f h = All-map task.1 (λ unit. f unit.file_path) h

pub record Owned {World : Type 0} (Q : FileUnits → Type 0) (s : System World) : Type 0 where
  pub waiting : All Q s.tasks
  pub worked :
      (t : ℕ) (task : FileUnits) (index : ℕ) (left : List RefactorUnit) (results : List UnitResult)
      → s.doing t ≡ working task index left results
      → Q task

pub submitted-Owned :
    {World : Type 0} (Q : FileUnits → Type 0) (n : ℕ) (tasks : List FileUnits) (files : Files)
    (world : World)
    → All Q tasks
    → Owned Q (submitted n tasks files world)
submitted-Owned Q n tasks files world own = record {
  waiting = own;
  worked = λ t task index left results e. cc;
}

module _ {World : Type 0} (setup : Setup World) (run_repo : FilePath) (Q : FileUnits → Type 0) where
  Turn-Owned : {t : ℕ} {s v : System World} → Turn setup run_repo t s v → Owned Q s → Owned Q v
  Turn-Owned {t} {s} (begun task tasks index own queue e f g) h =
      let both : All Q (task ∷ tasks) = subst (All Q) f h.waiting in
      record {
        waiting = both.1;
        worked =
            λ u other i left results d. ground (arith, h.worked u other i left results, both.0);
      }
  Turn-Owned {t} (continued task index unit left results result u e ran) h = record {
    waiting = h.waiting;
    worked = λ v other i rest more d.
        ground (arith, h.worked v other i rest more, h.worked t task index (unit ∷ left) results e);
  }
  Turn-Owned (ended task index left results result u e ran outcome) h = record {
    waiting = h.waiting;
    worked = λ v other i rest more d. ground (arith, h.worked v other i rest more);
  }

  pub Reach-Owned :
      {May : ℕ → Type 0} {s v : System World} → Reach setup run_repo May s v → Owned Q s → Owned Q v
  Reach-Owned here h = h
  Reach-Owned (next r may step) h = Turn-Owned (Step-Turn setup run_repo step) (Reach-Owned r h)
