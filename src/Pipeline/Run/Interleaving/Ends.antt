-- ===== src/Pipeline/Run/Interleaving/Ends.antt =====
-- The pool never waits for good, however its threads take turns.
use refactor_tradeoffs.Base.{
  ℕ, zero, suc, ◌<◌, ◌≡◌, refl, Option-cases, inl, inr, ◌⊎◌, List, [], ◌∷◌, FilePath, nat_eq, arith,
}
use refactor_tradeoffs.Globals.{UnitResult}
use refactor_tradeoffs.Pipeline.State.{Files}
use refactor_tradeoffs.Pipeline.WorkerContext.{claim_worker_index}
use refactor_tradeoffs.Pipeline.WorkerContext.Pool.Progress.{Reach-claim-ne-none}
use refactor_tradeoffs.Pipeline.Refactor.{RefactorUnit, Setup}
use refactor_tradeoffs.Pipeline.Refactor.Index.{LeavesIndex}
use refactor_tradeoffs.Pipeline.Run.{FileUnits}
use refactor_tradeoffs.Pipeline.Run.Interleaving.{
  Doing, idle, working, System, Step, takes, processes, merges, Reach, submitted,
}
use refactor_tradeoffs.Pipeline.Run.Interleaving.Indices.{
  threads_of, HasIndices, submitted-HasIndices, Reach-HasIndices,
}

-- No task waits, and no thread works.
abbrev pub IsDone : {World : Type 0} → ℕ → System World → Type 0
IsDone n s = (s.tasks ≡ []) × ((t : ℕ) → t < n → s.doing t ≡ idle)

abbrev Works : (ℕ → Doing) → ℕ → Type 0
Works doing t =
    (task : FileUnits) × (index : ℕ) × (left : List RefactorUnit) × (results : List UnitResult)
    × (doing t ≡ working task index left results)

Doing-cases : (d : Doing) → (d ≡ idle) ⊎ Works (λ t. d) 0
Doing-cases idle = inl refl
Doing-cases (working task index left results) = inr (task, index, left, results, refl)

find_working :
    (doing : ℕ → Doing) (n : ℕ)
    → ((t : ℕ) → t < n → doing t ≡ idle) ⊎ ((t : ℕ) × (t < n) × Works doing t)
find_working doing zero = inl (λ t h. absurd (omega arith))
find_working doing (suc n) = elim (find_working doing n) [
  | inr (t, h, w) ↦ inr (t, omega arith, w)
  | inl below_idle ↦ elim (Doing-cases (doing n)) [
    | inr w ↦ inr (n, omega arith, w)
    | inl e ↦ inl (λ t h. ground (arith, below_idle t))
  ]
]

module _ {World : Type 0} (setup : Setup World) (run_repo : FilePath) where
  abbrev pub CanStep : ℕ → System World → Type 0
  CanStep n s = (t : ℕ) × (t < n) × (v : System World) × Step setup run_repo t s v

  working-steps :
      (t : ℕ) (s : System World) → Works s.doing t → (v : System World) × Step setup run_repo t s v
  working-steps t s (task, index, [], results, e) = (_, merges task index results e)
  working-steps t s (task, index, unit ∷ left, results, e) =
      (_, processes task index unit left results e)

  taking-steps :
      (n t : ℕ) (s : System World) (task : FileUnits) (tasks : List FileUnits)
      → HasIndices n s
      → t < n
      → s.doing t ≡ idle
      → s.tasks ≡ task ∷ tasks
      → (v : System World) × Step setup run_repo t s v
  taking-steps n t s task tasks h below e f =
      elim (Option-cases (claim_worker_index (s.held t) s.queue)) [
        | inl blocked ↦ absurd (Reach-claim-ne-none n (threads_of s) t h.pool below blocked)
        | inr ((index, own, queue), claimed) ↦ (_, takes task tasks index own queue e f claimed)
      ]

  HasIndices-CanStep :
      (n : ℕ) (s : System World) → 0 < n → HasIndices n s → IsDone n s ⊎ CanStep n s
  HasIndices-CanStep n s some_thread h = elim (find_working s.doing n) [
    | inr (t, below, w) ↦ let (v, step) = working-steps t s w in inr (t, below, v, step)
    | inl all_idle ↦ go s.tasks refl all_idle
  ]
    where
      go :
          (tasks : List FileUnits)
          → s.tasks ≡ tasks
          → ((t : ℕ) → t < n → s.doing t ≡ idle)
          → IsDone n s ⊎ CanStep n s
      go [] e all_idle = inl (e, all_idle)
      go (task ∷ tasks) e all_idle =
          let (v, step) = taking-steps n 0 s task tasks h some_thread (all_idle 0 some_thread) e in
          inr (0, some_thread, v, step)

  -- Where what is run for the repository leaves the thread's index alone, the pool of at least one thread never
  -- waits for good: after any steps, either all its tasks are done or one of its threads can take a step.
  pub submitted-CanStep :
      (n : ℕ) (tasks : List FileUnits) (files : Files) (world : World) {s : System World}
      → LeavesIndex setup
      → 0 < n
      → Reach setup run_repo (λ t. t < n) (submitted n tasks files world) s
      → IsDone n s ⊎ CanStep n s
  submitted-CanStep n tasks files world {s} leaves some_thread r =
      HasIndices-CanStep n s some_thread (
        Reach-HasIndices setup run_repo n leaves (λ t below. below)
          (submitted-HasIndices setup run_repo n tasks files world) r)
