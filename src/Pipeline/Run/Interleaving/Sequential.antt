-- ===== src/Pipeline/Run/Interleaving/Sequential.antt =====
-- The tasks one after another, as `run_tasks` has them, are one of the orders in which the threads of
-- the pool can take turns.
use mathlib.Core.List.{append_assoc, append-nil}
use mathlib.Core.Path.{subst, fun_ext}
use refactor_tradeoffs.Base.{
  ℕ, ◌≡◌, refl, sym, ap, ◌∙◌, inl, inr, Option, none, some, Option-cases, List, [], ◌∷◌, ◌++◌, map,
  All, FilePath, nat_eq, arith, Result,
}
use refactor_tradeoffs.Globals.{UnitResult}
use refactor_tradeoffs.Pipeline.State.{State}
use refactor_tradeoffs.Pipeline.WorkerContext.{claim_worker_index}
use refactor_tradeoffs.Pipeline.WorkerContext.Pool.{Threads, hold, start}
use refactor_tradeoffs.Pipeline.Refactor.{Setup}
use refactor_tradeoffs.Pipeline.Units.{process_claimed, process_file_units}
use refactor_tradeoffs.Pipeline.Run.{FileUnits, Completed, run_tasks}
use refactor_tradeoffs.Pipeline.Run.Interleaving.Alone.{remaining, Reach-remaining}
use refactor_tradeoffs.Pipeline.Run.Interleaving.{idle, System, takes, Reach, here, next, submitted}

-- The pool between two tasks, when no thread works.
abbrev pub rested :
    {World : Type 0} → Threads → State World → List FileUnits → List Completed → System World
rested threads s tasks completed = record {
  files = s.files;
  world = s.world;
  held = threads.held;
  queue = threads.queue;
  tasks = tasks;
  doing = λ t. idle;
  completed = completed;
}

module _ {World : Type 0} (setup : Setup World) (run_repo : FilePath) (May : ℕ → Type 0) where
  -- The threads after a task of `t` that leaves `u` behind.
  abbrev threads_after : ℕ → State World → List ℕ → Threads → Threads
  threads_after t u queue threads = record {
    held = hold t u.worker_index threads.held;
    queue = queue;
  }

  Reach-task :
      {first : System World} (t : ℕ) (task : FileUnits) (rest : List FileUnits) (threads : Threads)
      (s : State World) (completed : List Completed) {index : ℕ} {own : Option ℕ} {queue : List ℕ}
      → May t
      → claim_worker_index (threads.held t) threads.queue ≡ some (index, own, queue)
      → Reach setup run_repo May first (rested threads s (task ∷ rest) completed)
      → let r = process_claimed setup run_repo index task.1 (record s { worker_index = own }) in
        Reach setup run_repo May first
          (rested (threads_after t r.1 queue threads) r.1 rest (completed ++ ((task.0, r.0) ∷ [])))
  unfolding process_claimed remaining
  Reach-task {first} t task rest threads s completed {index} {own} {queue} may claimed reached =
      let r = process_claimed setup run_repo index task.1 (record s { worker_index = own }) in
      let before : System World =
        rested (record { held = threads.held; queue = queue }) s rest completed in
      subst
        (λ doing.
          Reach setup run_repo May first
            (record (rested (threads_after t r.1 queue threads) r.1 rest
              (completed ++ ((task.0, r.0) ∷ []))) { doing = doing }))
        (fun_ext (λ u. hold-idle t u))
        (Reach-remaining setup run_repo May t may task index before task.1 []
          (record s { worker_index = own })
          (next reached may (takes task rest index own queue refl refl claimed)))
    where
      hold-idle : (t u : ℕ) → hold t idle (λ v. idle) u ≡ idle
      hold-idle t u = ground arith

  -- The first of the tasks has run, and then the others.
  abbrev RanFirst :
      ℕ
      → FileUnits
      → List (ℕ × FileUnits)
      → Threads
      → State World
      → List Completed
      → State World
      → Type 0
  RanFirst t task tasks threads s futures u =
      (index : ℕ) × (own : Option ℕ) × (queue : List ℕ) × (later : List Completed)
      × (claim_worker_index (threads.held t) threads.queue ≡ some (index, own, queue))
      × (let r = process_claimed setup run_repo index task.1 (record s { worker_index = own }) in
          (run_tasks setup run_repo tasks (threads_after t r.1 queue threads) r.1 ≡ some (later, u))
          × (futures ≡ (task.0, r.0) ∷ later))

  run_tasks-RanFirst :
      (t : ℕ) (task : FileUnits) (tasks : List (ℕ × FileUnits)) (threads : Threads)
      (s : State World) {futures : List Completed} {u : State World}
      → run_tasks setup run_repo ((t, task) ∷ tasks) threads s ≡ some (futures, u)
      → RanFirst t task tasks threads s futures u
  unfolding run_tasks process_file_units
  run_tasks-RanFirst t task tasks threads s {futures} {u} e =
      elim (Option-cases (claim_worker_index (threads.held t) threads.queue)) [
        | inl blocked ↦
            let computed : run_tasks setup run_repo ((t, task) ∷ tasks) threads s ≡ none =
              rw (blocked, run_tasks, process_file_units) refl in
            cc
        | inr ((index, own, queue), claimed) ↦
            let r : Result (List UnitResult) × State World =
              process_claimed setup run_repo index task.1 (record s { worker_index = own }) in
            elim (Option-cases
              (run_tasks setup run_repo tasks (threads_after t r.1 queue threads) r.1)) [
                | inl stuck ↦
                    let computed : run_tasks setup run_repo ((t, task) ∷ tasks) threads s ≡ none =
                      rw (claimed, run_tasks, process_file_units) (rw stuck refl) in
                    cc
                | inr ((later, v), ran) ↦
                    let computed : run_tasks setup run_repo ((t, task) ∷ tasks) threads s
                        ≡ some ((task.0, r.0) ∷ later, v) =
                      rw (claimed, run_tasks, process_file_units) (rw ran refl) in
                    let end : v ≡ u = cc in
                    let all : futures ≡ (task.0, r.0) ∷ later = cc in
                    (index, own, queue, later, claimed, (ran ∙ ap (λ w. some (later, w)) end, all))
              ]
      ]

  Reach-tasks :
      {first : System World} (tasks : List (ℕ × FileUnits)) (threads : Threads) (s : State World)
      (completed : List Completed) {futures : List Completed} {u : State World}
      → All (λ task. May task.0) tasks
      → run_tasks setup run_repo tasks threads s ≡ some (futures, u)
      → Reach setup run_repo May first (rested threads s (map (λ task. task.1) tasks) completed)
      → (after : Threads) × Reach setup run_repo May first
          (rested after u [] (completed ++ futures))
  unfolding run_tasks
  Reach-tasks {first} [] threads s completed {futures} {u} may e reached =
      let none_left : futures ≡ [] = cc in
      let same : s ≡ u = cc in
      (
        threads,
        rw (none_left, append-nil completed)
            (subst (λ v. Reach setup run_repo May first (rested threads v [] completed)) same
              reached),
      )
  Reach-tasks {first} ((t, task) ∷ tasks) threads s completed {futures} {u} (may, others) e
        reached =
      let (index, own, queue, later, claimed, (ran, all)) =
        run_tasks-RanFirst t task tasks threads s e in
      let r : Result (List UnitResult) × State World =
        process_claimed setup run_repo index task.1 (record s { worker_index = own }) in
      let (after, done) =
        Reach-tasks tasks (threads_after t r.1 queue threads) r.1
          (completed ++ ((task.0, r.0) ∷ [])) others ran
          (Reach-task t task (map (λ task. task.1) tasks) threads s completed may claimed
            reached) in
      let all_done : (completed ++ ((task.0, r.0) ∷ [])) ++ later ≡ completed ++ futures =
        append_assoc completed ((task.0, r.0) ∷ []) later ∙ ap (λ l. completed ++ l) (sym all) in
      (after, subst (λ l. Reach setup run_repo May first (rested after u [] l)) all_done done)

  -- For tasks on threads that `May` allows: where `run_tasks` comes to an end, the threads of the pool can take
  -- their turns so that they end in the same futures, in the same order, and leave the same files and world.
  pub run_tasks-Reach :
      (tasks : List (ℕ × FileUnits)) (n : ℕ) (s : State World) {futures : List Completed}
      {u : State World}
      → All (λ task. May task.0) tasks
      → run_tasks setup run_repo tasks (start n) s ≡ some (futures, u)
      → (after : Threads) × Reach setup run_repo May
          (submitted n (map (λ task. task.1) tasks) s.files s.world)
          (rested after u [] futures)
  run_tasks-Reach tasks n s may e = Reach-tasks tasks (start n) s [] may e here
