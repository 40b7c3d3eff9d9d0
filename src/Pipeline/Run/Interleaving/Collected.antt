-- ===== src/Pipeline/Run/Interleaving/Collected.antt =====
-- How many results the pool returns, whatever the order of its threads.
use refactor_tradeoffs.Base.{
  ℕ, ◌+◌, ◌<◌, ◌≤◌, ◌≡◌, refl, ap, ◌∙◌, List, [], ◌∷◌, ◌++◌, length, length-append, In, FilePath,
  nat_eq, arith, Result, ok, raised,
}
use refactor_tradeoffs.Globals.{UnitResult}
use refactor_tradeoffs.Pipeline.State.{Files}
use refactor_tradeoffs.Pipeline.WorkerContext.Pool.Sums.{total, total-hold, total-nothing}
use refactor_tradeoffs.Pipeline.Refactor.{RefactorUnit, Setup}
use refactor_tradeoffs.Pipeline.Run.{FileUnits, Completed, collect}
use refactor_tradeoffs.Pipeline.Run.ByFile.{units_in}
use refactor_tradeoffs.Pipeline.Run.Interleaving.{
  Doing, idle, working, System, Reach, here, next, submitted,
}
use refactor_tradeoffs.Pipeline.Run.Interleaving.Turns.{
  Turn, begun, continued, ended, IsOutcome, Step-Turn,
}
use refactor_tradeoffs.Pipeline.Run.Interleaving.Ends.{IsDone}
use refactor_tradeoffs.Pipeline.Run.Interleaving.Results.{
  HasResults, submitted-HasResults, Reach-HasResults,
}

abbrev units_of : Doing → ℕ
units_of idle = 0
units_of (working task index left results) = length task.1

-- The futures that raised.
unfoldable pub failures : List Completed → ℕ
failures [] = 0
failures ((path, ok results) ∷ futures) = failures futures
failures ((path, raised e) ∷ futures) = 1 + failures futures

collect-append_one :
    (futures : List Completed) (future : Completed)
    → (length (collect (futures ++ (future ∷ [])))
        ≡ length (collect futures) + length (collect (future ∷ [])))
      × (failures (futures ++ (future ∷ [])) ≡ failures futures + failures (future ∷ []))
unfolding collect failures
collect-append_one [] future = (omega arith, omega arith)
collect-append_one ((path, ok results) ∷ futures) future =
    let (collected, failed) = collect-append_one futures future in
    (
      omega (
        arith,
        collected,
        length-append results (collect (futures ++ (future ∷ []))),
        length-append results (collect futures),
      ),
      failed,
    )
collect-append_one ((path, raised e) ∷ futures) future =
    let (collected, failed) = collect-append_one futures future in
    (collected, omega (arith, failed))

module _ {World : Type 0} (n : ℕ) where
  -- The units that wait or are worked on, and the results that are there.
  units_here : System World → ℕ
  units_here s = units_in s.tasks + total units_of s.doing n + length (collect s.completed)

  -- Units are lost with a task that raises only.
  record Loses (s v : System World) : Type 0 where
    bounded : units_here v ≤ units_here s
    none_lost : failures v.completed ≡ 0 → units_here v ≡ units_here s
    failed : failures s.completed ≤ failures v.completed

  module _ (setup : Setup World) (run_repo : FilePath) (Q : FileUnits → Type 0) where
    outcome-length :
        (left : List RefactorUnit) (results : List UnitResult) (result : Result (List UnitResult))
        (path : FilePath) (count : ℕ)
        → length results + length left ≡ count
        → IsOutcome setup run_repo left results result
        → (length (collect ((path, result) ∷ [])) ≤ count)
          × (failures ((path, result) ∷ []) ≡ 0 → length (collect ((path, result) ∷ [])) ≡ count)
    unfolding collect failures
    outcome-length left results (raised e) path count h outcome = (omega arith, λ f. omega arith)
    outcome-length left results (ok all) path count h (none_left, same) =
        let answered : length (all ++ []) ≡ count =
          omega (arith, length-append all [], ap length none_left, ap length same) in
        (omega arith, λ f. answered)

    Turn-Loses :
        {t : ℕ} {s v : System World}
        → t < n
        → HasResults Q s
        → Turn setup run_repo t s v
        → Loses s v
    unfolding units_here
    Turn-Loses {t} {s} below h (begun task tasks index own queue e f g) =
        let same = total-hold units_of s.doing t (working task index task.1 []) n below in
        record {
          bounded = omega (arith, same, ap units_of e, ap units_in f);
          none_lost = λ _. omega (arith, same, ap units_of e, ap units_in f);
          failed = omega arith;
        }
    Turn-Loses {t} {s} below h (continued task index unit left results result u e ran) =
        let same =
          total-hold units_of s.doing t (working task index left (results ++ (result ∷ []))) n
            below in
        record {
          bounded = omega (arith, same, ap units_of e);
          none_lost = λ _. omega (arith, same, ap units_of e);
          failed = omega arith;
        }
    Turn-Loses {t} {s} below h (ended task index left results result u e ran outcome) =
        let same = total-hold units_of s.doing t idle n below in
        let (collected, failed) = collect-append_one s.completed (task.0, result) in
        let (most, all) =
          outcome-length left results result task.0 (length task.1)
            (h.counted t task index left results e) outcome in
        record {
          bounded = omega (arith, same, ap units_of e, collected, most);
          none_lost = λ ok_all.
              omega (arith, same, ap units_of e, collected, all (omega (arith, failed, ok_all)));
          failed = omega (arith, failed);
        }

    Reach-Loses :
        {s v : System World} → HasResults Q s → Reach setup run_repo (λ t. t < n) s v → Loses s v
    Reach-Loses h here = record {
      bounded = omega arith;
      none_lost = λ _. refl;
      failed = omega arith;
    }
    Reach-Loses {s} h (next {u = u} r below step) =
        let earlier : Loses s u = Reach-Loses h r in
        let later =
          Turn-Loses below (Reach-HasResults Q setup run_repo h r)
            (Step-Turn setup run_repo step) in
        record {
          bounded = omega (arith, earlier.bounded, later.bounded);
          none_lost = λ ok_all.
              later.none_lost ok_all ∙ earlier.none_lost (omega (arith, later.failed, ok_all));
          failed = omega (arith, earlier.failed, later.failed);
        }

-- However the `n` threads of the pool take turns: when all is done, the results that `perform_run` collects are at
-- most as many as the units of the tasks, and exactly as many where no task has raised.
pub submitted-collect :
    {World : Type 0} (setup : Setup World) (run_repo : FilePath) (n : ℕ) (tasks : List FileUnits)
    (files : Files) (world : World) {s : System World}
    → Reach setup run_repo (λ t. t < n) (submitted n tasks files world) s
    → IsDone n s
    → (length (collect s.completed) ≤ units_in tasks)
      × (failures s.completed ≡ 0 → length (collect s.completed) ≡ units_in tasks)
unfolding units_here collect
submitted-collect setup run_repo n tasks files world {s} r (no_task, all_idle) =
    let lost =
      Reach-Loses n setup run_repo (λ task. In task tasks)
        (submitted-HasResults n tasks files world) r in
    let ends = total-nothing units_of s.doing n (λ t below. ap units_of (all_idle t below)) in
    let begins = total-nothing units_of (λ t. idle) n (λ t below. refl) in
    (
      omega (arith, lost.bounded, ends, begins, ap units_in no_task),
      λ ok_all. omega (arith, lost.none_lost ok_all, ends, begins, ap units_in no_task),
    )
