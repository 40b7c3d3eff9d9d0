-- ===== src/Pipeline/Run/Totals.antt =====
-- The numbers that a run writes, against the units that it was given.
use mathlib.Core.List.{Permᴰ}
use refactor_tradeoffs.Base.{
  ℕ, ◌+◌, ◌≤◌, ◌≡◌, refl, ap, ◌∙◌, inl, inr, Option-cases, some, List, [], ◌∷◌, map, FilePath,
  length, length-append, All, list_eq, nat_eq, Result, ok, raised, pure, ◌>>=◌, arith,
}
use refactor_tradeoffs.Globals.{UnitResult}
use refactor_tradeoffs.Pipeline.State.{State}
use refactor_tradeoffs.Pipeline.WorkerContext.{claim_worker_index}
use refactor_tradeoffs.Pipeline.WorkerContext.Pool.{Threads, hold, start}
use refactor_tradeoffs.Pipeline.Refactor.{RefactorUnit, Setup}
use refactor_tradeoffs.Pipeline.Refactor.Rules.{Holds, Holds-bind, Holds-any, Holds-returned}
use refactor_tradeoffs.Pipeline.Units.{process_file_units}
use refactor_tradeoffs.Pipeline.Units.Merging.{process_claimed-Holds, ProcessedAll}
use refactor_tradeoffs.Pipeline.Run.{
  RunResult, RunServices, Lab, FileUnits, Completed, accepted_of, rejected_of, summarise,
  group_by_file, collect, run_tasks, finish, measure, save, run_pool, max_workers, run_repo_of,
  stop_cpu, stop_gpu,
}
use refactor_tradeoffs.Pipeline.Run.ByFile.{units_in, group_by_file-units}

units_in-Perm : {a b : List FileUnits} → Permᴰ a b → units_in a ≡ units_in b
units_in-Perm Permᴰ.nil = refl
units_in-Perm (Permᴰ.cons e p) = ground (arith, units_in-Perm p, ap (λ t. length t.1) e)
units_in-Perm (Permᴰ.swap e f) = omega (arith, ap (λ t. length t.1) e, ap (λ t. length t.1) f)
units_in-Perm (Permᴰ.trans p q) = units_in-Perm p ∙ units_in-Perm q

-- A task that did not raise.
abbrev pub IsReturned : Completed → Type 0
IsReturned (file_path, ok results) = Unit
IsReturned (file_path, raised e) = ⊥

split-lengths :
    (rs : List UnitResult) → length (accepted_of rs) + length (rejected_of rs) ≡ length rs
split-lengths [] = refl
split-lengths (r ∷ rs) = ground (arith, split-lengths rs)

-- What the results of some futures say of the number of units that were given to them.
abbrev Collected : List Completed → ℕ → Type 0
Collected futures n =
    (length (collect futures) ≤ n) × (All IsReturned futures → length (collect futures) ≡ n)

Collected-cons :
    (path : FilePath) (result : Result (List UnitResult)) (futures : List Completed) (m n : ℕ)
    → ((results : List UnitResult) → result ≡ ok results → length results ≡ m)
    → Collected futures n
    → Collected ((path, result) ∷ futures) (m + n)
unfolding collect
Collected-cons path (ok results) futures m n h c = (
  omega (arith, length-append results (collect futures), h results refl, c.0),
  λ (tt, all). omega (arith, length-append results (collect futures), h results refl, c.1 all),
)
Collected-cons path (raised e) futures m n h c =
    (omega (arith, c.0), λ (failed, all). absurd failed)

module _ {World : Type 0} (setup : Setup World) (run_repo : FilePath) where
  process_file_units-length :
      (units : List RefactorUnit) (pool queue : List ℕ) (s t : State World)
      (results : List UnitResult)
      → process_file_units setup units run_repo pool s ≡ some ((ok results, t), queue)
      → length results ≡ length units
  unfolding process_file_units
  process_file_units-length units pool queue s t results e =
      elim (Option-cases (claim_worker_index s.worker_index pool)) [
        | inl blocked ↦ cc
        | inr ((index, held, rest), claimed) ↦
            let processed : ProcessedAll setup run_repo index units results
                (record s { worker_index = held }) t =
              Holds-returned
                (λ results t.
                  ProcessedAll setup run_repo index units results (record s { worker_index = held })
                    t)
                _ {a = results} {t = t}
                (process_claimed-Holds setup run_repo index units
                  (record s { worker_index = held }))
                (cc) in
            processed.one_each
      ]

  run_tasks-Collected :
      (tasks : List (ℕ × FileUnits)) (threads : Threads) (s t : State World)
      (futures : List Completed)
      → run_tasks setup run_repo tasks threads s ≡ some (futures, t)
      → Collected futures (units_in (map (λ task. task.1) tasks))
  unfolding run_tasks collect
  run_tasks-Collected [] threads s t futures e =
      let none_left : [] ≡ futures = cc in rw (← none_left) nothing
    where
      nothing : Collected [] 0
      nothing = (omega arith, λ all. refl)
  run_tasks-Collected ((thread, (file_path, units)) ∷ tasks) threads s t futures e =
      elim (Option-cases (
        process_file_units setup units run_repo threads.queue
          (record s { worker_index = threads.held thread }))) [
            | inl blocked ↦ absurd (ground arith)
            | inr (((result, u), queue), done) ↦
                let next : Threads = record {
                  held = hold thread u.worker_index threads.held;
                  queue = queue;
                } in
                elim (Option-cases (run_tasks setup run_repo tasks next u)) [
                  | inl blocked ↦ absurd (ground arith)
                  | inr ((rest, v), later) ↦
                      let all : (file_path, result) ∷ rest ≡ futures = ground arith in
                      rw (← all) (
                        Collected-cons file_path result rest (length units) _
                          (λ results is.
                            process_file_units-length units threads.queue queue
                              (record s { worker_index = threads.held thread }) u results
                              (ground arith))
                          (run_tasks-Collected tasks next u v rest later))
                ]
          ]

module _ {World Float : Type 0} (setup : Setup World) (services : RunServices World Float)
    (issues_path results_dir : FilePath) where
  open setup use {settings, profile}

  workers_of : List FileUnits → ℕ
  workers_of = max_workers setup services issues_path results_dir

  -- What the result of a run says of the units that it was given.
  pub record AddsUp (run_index : ℕ) (units : List RefactorUnit) (lab : Lab World)
      (result : RunResult Float) : Type 0 where
    pub split :
        result.total_accepted_units + result.total_rejected_units ≡ result.total_processed_units
    pub listed : length result.per_unit_results ≡ result.total_processed_units
    pub at_most : result.total_processed_units ≤ length units
    pub futures : List Completed
    pub after : State World
    pub ran :
        run_tasks setup
          (run_repo_of setup services issues_path results_dir run_index)
          (services.schedule
            (max_workers setup services issues_path results_dir (group_by_file units []))
            (group_by_file units []))
          (start (max_workers setup services issues_path results_dir (group_by_file units [])))
          lab.state
        ≡ some (futures, after)
    pub all : All IsReturned futures → result.total_processed_units ≡ length units

  Counts : List UnitResult → RunResult Float → Lab World → Type 0
  Counts rs result _ =
      (result.per_unit_results ≡ rs)
      × (result.total_processed_units ≡ length rs)
      × (result.total_accepted_units ≡ length (accepted_of rs))
      × (result.total_rejected_units ≡ length (rejected_of rs))

  measure-Counts :
      (run_index : ℕ) (begun : State World) (rs : List UnitResult) (lab : Lab World)
      → Holds (Counts rs) (measure setup services issues_path results_dir run_index begun rs lab)
  unfolding measure stop_cpu stop_gpu summarise Counts
  measure-Counts run_index begun rs lab = (refl, refl, refl, refl)

  finish-Counts :
      (run_index : ℕ) (begun : State World) (rs : List UnitResult) (lab : Lab World)
      → Holds (Counts rs) (finish setup services issues_path results_dir run_index begun rs lab)
  unfolding finish Counts
  finish-Counts run_index begun rs lab =
      Holds-bind (Counts rs) (Counts rs)
        (measure setup services issues_path results_dir run_index begun rs)
        (λ result.
          save setup services issues_path results_dir run_index result >>= λ _. pure result)
        lab (measure-Counts run_index begun rs lab)
        (λ result t h.
          Holds-bind (λ _ _. Unit {0}) (Counts rs)
            (save setup services issues_path results_dir run_index result) (λ _. pure result) t
            (Holds-any _) (λ _ u _. h))

  -- If the schedule has each file of the run once, then for a run that returns: the accepted and the
  -- rejected units are the processed ones, each has its result, there are no more of them than units,
  -- and when no task raised there are as many.
  pub run_pool-AddsUp :
      (run_index : ℕ) (begun : State World) (units : List RefactorUnit) (lab t : Lab World)
      (result : RunResult Float)
      → Permᴰ
          (map
            (λ task. task.1)
            (services.schedule
              (max_workers setup services issues_path results_dir (group_by_file units []))
              (group_by_file units [])))
          (group_by_file units [])
      → run_pool setup services issues_path results_dir run_index
          (ok (begun, group_by_file units []))
          lab
        ≡ some (ok result, t)
      → AddsUp run_index units lab result
  unfolding run_pool Counts
  run_pool-AddsUp run_index begun units lab t result once e =
      elim (Option-cases (
        run_tasks setup (run_repo_of setup services issues_path results_dir run_index)
          (services.schedule
            (max_workers setup services issues_path results_dir (group_by_file units []))
            (group_by_file units []))
          (start (max_workers setup services issues_path results_dir (group_by_file units [])))
          lab.state)) [
            | inl blocked ↦ absurd (ground arith)
            | inr ((futures, u), ran) ↦
                let counts =
                  Holds-returned (Counts (collect futures))
                    (finish setup services issues_path results_dir run_index begun (collect futures)
                      (record lab { state = u }))
                    {a = result} {t = t}
                    (finish-Counts run_index begun (collect futures) (record lab { state = u }))
                    (ground arith) in
                let collected =
                  run_tasks-Collected setup
                    (run_repo_of setup services issues_path results_dir run_index)
                    (services.schedule
                      (max_workers setup services issues_path results_dir (group_by_file units []))
                      (group_by_file units []))
                    (start
                      (max_workers setup services issues_path results_dir (group_by_file units [])))
                    lab.state u futures ran in
                let same = units_in-Perm once ∙ group_by_file-units units [] in
                record {
                  split = omega (arith, counts, split-lengths (collect futures));
                  listed = omega (arith, counts, ap length (counts.0));
                  at_most = omega (arith, counts, collected.0, same);
                  futures = futures;
                  after = u;
                  ran = ran;
                  all = λ returned. omega (arith, counts, collected.1 returned, same);
                }
          ]
