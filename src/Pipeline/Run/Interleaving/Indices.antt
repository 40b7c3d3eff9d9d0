-- ===== src/Pipeline/Run/Interleaving/Indices.antt =====
-- Between any two steps of the pool a thread that works has the index of its task's worker, and no two
-- threads have the same.
use refactor_tradeoffs.Base.{ℕ, ◌<◌, ◌≡◌, refl, some, List, ◌∷◌, FilePath, nat_eq, arith}
use refactor_tradeoffs.Globals.{UnitResult}
use refactor_tradeoffs.Pipeline.State.{State, Files}
use refactor_tradeoffs.Pipeline.WorkerContext.{claim_worker_index}
use refactor_tradeoffs.Pipeline.WorkerContext.Pool
use refactor_tradeoffs.Pipeline.WorkerContext.Pool.{Threads, start, claims, hold, claimed-own}
use refactor_tradeoffs.Pipeline.Refactor.{RefactorUnit, Setup}
use refactor_tradeoffs.Pipeline.Refactor.Index.{LeavesIndex}
use refactor_tradeoffs.Pipeline.Run.{FileUnits}
use refactor_tradeoffs.Pipeline.Run.Interleaving.{
  Doing, idle, working, System, goes_on, Reach, here, next, submitted,
}
use refactor_tradeoffs.Pipeline.Run.Interleaving.Turns.{
  Ran-HasIndex, Turn, begun, continued, ended, Step-Turn,
}

abbrev pub threads_of : {World : Type 0} → System World → Threads
threads_of s = record { held = s.held; queue = s.queue }

pub record HasIndices {World : Type 0} (n : ℕ) (s : System World) : Type 0 where
  pub pool : Pool.Reach n (start n) (threads_of s)
  pub owns :
      (t : ℕ) (task : FileUnits) (index : ℕ) (left : List RefactorUnit) (results : List UnitResult)
      → s.doing t ≡ working task index left results
      → s.held t ≡ some index

module _ {World : Type 0} (setup : Setup World) (run_repo : FilePath) (n : ℕ) where
  pub submitted-HasIndices :
      (tasks : List FileUnits) (files : Files) (world : World)
      → HasIndices n (submitted n tasks files world)
  submitted-HasIndices tasks files world = record {
    pool = Pool.here;
    owns = λ t task index left results e. cc;
  }

  goes_on-HasIndices :
      {t : ℕ} {s : System World} (index : ℕ) (after : Doing) (u : State World)
      → t < n
      → s.held t ≡ some index
      → u.worker_index ≡ some index
      → ((task : FileUnits) (i : ℕ) (left : List RefactorUnit) (results : List UnitResult)
          → after ≡ working task i left results
          → i ≡ index)
      → HasIndices n s
      → HasIndices n (goes_on t after u s)
  unfolding claim_worker_index
  goes_on-HasIndices {t} {s} index after u below own kept same h = record {
    pool = rw kept (
        Pool.next h.pool
          (claims t index (some index) s.queue below (rw (own, claim_worker_index) refl)));
    owns = λ v task i left results d.
        ground (arith, h.owns v task i left results, same task i left results);
  }

  Turn-HasIndices :
      {t : ℕ} {s v : System World}
      → LeavesIndex setup
      → t < n
      → Turn setup run_repo t s v
      → HasIndices n s
      → HasIndices n v
  Turn-HasIndices {t} {s} leaves below (begun task tasks index own queue e f g) h = record {
    pool = Pool.next h.pool (claims t index own queue below g);
    owns = λ u other i left results d.
        ground (arith, h.owns u other i left results, claimed-own (s.held t) s.queue g);
  }
  Turn-HasIndices {t} leaves below (continued task index unit left results result u e ran) h =
      let own = h.owns t task index (unit ∷ left) results e in
      goes_on-HasIndices index _ u below own (Ran-HasIndex setup run_repo leaves ran own)
        (λ other i rest more d. cc) h
  Turn-HasIndices {t} leaves below (ended task index left results result u e ran outcome) h =
      let own = h.owns t task index left results e in
      let now =
        goes_on-HasIndices index idle u below own (Ran-HasIndex setup run_repo leaves ran own)
          (λ other i rest more d. cc) h in
      record { pool = now.pool; owns = now.owns }

  pub Reach-HasIndices :
      {May : ℕ → Type 0} {s v : System World}
      → LeavesIndex setup
      → ((t : ℕ) → May t → t < n)
      → HasIndices n s
      → Reach setup run_repo May s v
      → HasIndices n v
  Reach-HasIndices leaves below h here = h
  Reach-HasIndices leaves below h (next {t = t} r may step) =
      Turn-HasIndices leaves (below t may) (Step-Turn setup run_repo step)
        (Reach-HasIndices leaves below h r)
