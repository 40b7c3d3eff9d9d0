-- ===== src/Pipeline/Run/Interleaving/Results.antt =====
-- What the futures of the pool return.
use refactor_tradeoffs.Base.{
  ℕ, ◌+◌, ◌≡◌, refl, ap, List, [], ◌∷◌, length, length-append, All, All-In, All-append_one, In,
  FilePath, nat_eq, arith, Result, ok, raised,
}
use refactor_tradeoffs.Globals.{UnitResult}
use refactor_tradeoffs.Pipeline.State.{Files}
use refactor_tradeoffs.Pipeline.Refactor.{RefactorUnit, Setup}
use refactor_tradeoffs.Pipeline.Run.{FileUnits, Completed}
use refactor_tradeoffs.Pipeline.Run.Interleaving.{working, System, Reach, here, next, submitted}
use refactor_tradeoffs.Pipeline.Run.Interleaving.Turns.{
  Turn, begun, continued, ended, IsOutcome, Step-Turn,
}
use refactor_tradeoffs.Pipeline.Run.Interleaving.Owned.{Owned, submitted-Owned, Reach-Owned}

module _ (Q : FileUnits → Type 0) where
  -- The future is one of a task of `Q`: it has raised, or has a result for each unit of the task.
  abbrev pub IsAnswered : Completed → Type 0
  IsAnswered (path, raised x) = (task : FileUnits) × Q task × (path ≡ task.0)
  IsAnswered (path, ok results) =
      (task : FileUnits) × Q task × (path ≡ task.0) × (length results ≡ length task.1)

  pub record HasResults {World : Type 0} (s : System World) : Type 0 where
    pub owned : Owned Q s
    pub counted :
        (t : ℕ) (task : FileUnits) (index : ℕ) (left : List RefactorUnit)
        (results : List UnitResult)
        → s.doing t ≡ working task index left results
        → length results + length left ≡ length task.1
    pub answered : All IsAnswered s.completed

  module _ {World : Type 0} (setup : Setup World) (run_repo : FilePath) where
    outcome-IsAnswered :
        (task : FileUnits) (left : List RefactorUnit) (results : List UnitResult)
        (result : Result (List UnitResult))
        → Q task
        → length results + length left ≡ length task.1
        → IsOutcome setup run_repo left results result
        → IsAnswered (task.0, result)
    outcome-IsAnswered task left results (raised x) q count outcome = (task, q, refl)
    outcome-IsAnswered task left results (ok all) q count (none_left, same) =
        (task, q, refl, omega (arith, ap length none_left, ap length same))

    Turn-HasResults :
        {t : ℕ} {s v : System World}
        → Turn setup run_repo t s v
        → Owned Q v
        → HasResults s
        → HasResults v
    Turn-HasResults {t} {s} (begun task tasks index own queue e f g) owned h = record {
      owned = owned;
      counted = λ u other i left results d. ground (arith, h.counted u other i left results);
      answered = h.answered;
    }
    Turn-HasResults {t} {s} (continued task index unit left results result u e ran) owned h =
        record {
          owned = owned;
          counted = λ v other i rest more d. ground (
            arith,
            h.counted v other i rest more,
            h.counted t task index (unit ∷ left) results e,
            length-append results (result ∷ []),
          );
          answered = h.answered;
        }
    Turn-HasResults {t} {s} (ended task index left results result u e ran outcome) owned h =
        record {
          owned = owned;
          counted = λ v other i rest more d. ground (arith, h.counted v other i rest more);
          answered =
              All-append_one IsAnswered s.completed (task.0, result) h.answered
                (outcome-IsAnswered task left results result
                  (h.owned.worked t task index left results e)
                  (h.counted t task index left results e) outcome);
        }

    pub Reach-HasResults :
        {May : ℕ → Type 0} {s v : System World}
        → HasResults s
        → Reach setup run_repo May s v
        → HasResults v
    Reach-HasResults h here = h
    Reach-HasResults h (next r may step) =
        Turn-HasResults (Step-Turn setup run_repo step)
          (Reach-Owned setup run_repo Q (next r may step) h.owned) (Reach-HasResults h r)

pub submitted-HasResults :
    {World : Type 0} (n : ℕ) (tasks : List FileUnits) (files : Files) (world : World)
    → HasResults (λ task. In task tasks) (submitted n tasks files world)
submitted-HasResults n tasks files world = record {
  owned = submitted-Owned (λ task. In task tasks) n tasks files world (All-In tasks);
  counted = λ t task index left results e. cc;
  answered = tt;
}

-- Whatever the threads of the pool do: a future that is done is that of a submitted task, and it has raised or
-- has exactly one result for each of the task's units.
submitted-IsAnswered :
    {World : Type 0} (setup : Setup World) (run_repo : FilePath) (n : ℕ) (tasks : List FileUnits)
    (files : Files) (world : World) {May : ℕ → Type 0} {s : System World}
    → Reach setup run_repo May (submitted n tasks files world) s
    → All (IsAnswered (λ task. In task tasks)) s.completed
submitted-IsAnswered setup run_repo n tasks files world r =
    (Reach-HasResults (λ task. In task tasks) setup run_repo
      (submitted-HasResults n tasks files world) r).answered
