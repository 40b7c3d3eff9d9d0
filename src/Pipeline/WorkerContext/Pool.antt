-- ===== src/Pipeline/WorkerContext/Pool.antt =====
-- The threads of the pool claiming indices, in any order.
pub mod Unshared
pub mod Sums
pub mod Progress
use mathlib.Core.Path.{subst}
use refactor_tradeoffs.Base.{
  ℕ, zero, suc, ◌+◌, ◌-◌, ◌<◌, ◌≤◌, ◌≡◌, ◌≢◌, refl, ap, sym, ◌∙◌, Bool, true, false, Option, none,
  some, inl, inr, Option-cases, List, [], ◌∷◌, ◌++◌, length, length-append, All, ◌==◌, nat_eq, ◌⊎◌,
  if◌then◌else◌, arith,
}
use refactor_tradeoffs.Pipeline.WorkerContext.{claim_worker_index}

-- The worker index of each thread, by the thread's number, and the shared queue.
pub record Threads : Type 0 where
  pub held : ℕ → Option ℕ
  pub queue : List ℕ

abbrev pub hold {ℓ} : {A : Type ℓ} → ℕ → A → (ℕ → A) → ℕ → A
hold t own held u = if u == t then own else held u

-- One of the `n` threads calls `claim_worker_index`. A thread that blocks takes no step.
pub data Step (n : ℕ) (s : Threads) : Threads → Type 0 where
  claims :
      (t index : ℕ) (own : Option ℕ) (queue : List ℕ)
      → t < n
      → claim_worker_index (s.held t) s.queue ≡ some (index, own, queue)
      → Step n s (record { held = hold t own s.held; queue = queue })

pub data Reach (n : ℕ) (s : Threads) : Threads → Type 0 where
  here : Reach n s s
  next : {t u : Threads} → Reach n s t → Step n t u → Reach n s u

range_from : ℕ → ℕ → List ℕ
range_from first zero = []
range_from first (suc n) = first ∷ range_from (suc first) n

-- No thread has an index yet, and the queue holds `range(max_workers)`.
unfoldable pub start : ℕ → Threads
unfolding range_from
start max_workers = record { held = λ t. none; queue = range_from 0 max_workers }

-- A claim that returns gives the thread's own index, or else takes the first one of the queue.
pub claim-cases :
    (held : Option ℕ) (queue : List ℕ) {index : ℕ} {own : Option ℕ} {rest : List ℕ}
    → claim_worker_index held queue ≡ some (index, own, rest)
    → ((held ≡ some index) × (own ≡ some index) × (rest ≡ queue))
      ⊎ ((held ≡ none) × (own ≡ some index) × (queue ≡ index ∷ rest))
unfolding claim_worker_index
claim-cases (some i) queue e = inl (cc, cc, cc)
claim-cases none [] e = cc
claim-cases none (i ∷ queue) e = inr (refl, cc, cc)

-- The thread keeps the index that it is given.
pub claimed-own :
    (held : Option ℕ) (queue : List ℕ) {index : ℕ} {own : Option ℕ} {rest : List ℕ}
    → claim_worker_index held queue ≡ some (index, own, rest)
    → own ≡ some index
claimed-own held queue e = elim (claim-cases held queue e) [ inl (h, o, q) ↦ o | inr (h, o, q) ↦ o ]

-- A property of pool states that both kinds of claim keep holds after any claims.
module _ {ℓ} (n : ℕ) (P : Threads → Type ℓ)
    (cached : (t i : ℕ) (held : ℕ → Option ℕ) (queue : List ℕ)
      → t < n
      → held t ≡ some i
      → P (record { held = held; queue = queue })
      → P (record { held = hold t (some i) held; queue = queue }))
    (fresh : (t i : ℕ) (held : ℕ → Option ℕ) (queue : List ℕ)
      → t < n
      → held t ≡ none
      → P (record { held = held; queue = i ∷ queue })
      → P (record { held = hold t (some i) held; queue = queue })) where
  Step-keeps : {s t : Threads} → Step n s t → P s → P t
  Step-keeps {s} (claims t index own queue below e) p = elim (claim-cases (s.held t) s.queue e) [
    | inl (h, o, q) ↦ rw (o, q) (cached t index s.held s.queue below h p)
    | inr (h, o, q) ↦ rw o (
        fresh t index s.held queue below h
          (subst (λ l. P (record { held = s.held; queue = l })) q p))
  ]

  pub Reach-keeps : {s t : Threads} → Reach n s t → P s → P t
  Reach-keeps here p = p
  Reach-keeps (next r st) p = Step-keeps st (Reach-keeps r p)
