-- ===== src/Pipeline/VllmServer/Polling.antt =====
-- The polling loops end, at the first poll that succeeds or at their limit.
use refactor_tradeoffs.Base.{
  ℕ, zero, suc, ◌+◌, ◌*◌, ◌<◌, ◌≤◌, ◌≡◌, refl, inl, inr, Bool, true, false, Bool-cases, Option,
  none, some, [], ◌∷◌, Str, ltb, if◌then◌else◌, arith,
}
use refactor_tradeoffs.Globals.{Settings}
use refactor_tradeoffs.Pipeline.VllmServer.{
  poll_every, Health, is_healthy, health_url, command, spawned, kill, wait, sigterm, not_healthy,
  started, start_vllm_server, stop_vllm_server, is_released,
}

-- What a loop that began at `from` has found: the first multiple of ten seconds at which it was ready
-- or, when none lies below the limit, nothing.
abbrev pub First : ℕ → (ℕ → Bool) → ℕ → Option ℕ → Type 0
First limit ready from (some elapsed) =
    (k : ℕ) × (elapsed ≡ from + 10 * k)
    × (elapsed < limit)
    × (ready elapsed ≡ true)
    × ((j : ℕ) → j < k → ready (from + 10 * j) ≡ false)
First limit ready from none = (j : ℕ) → from + 10 * j < limit → ready (from + 10 * j) ≡ false

module _ (limit : ℕ) (ready : ℕ → Bool) where
  First-later :
      (from : ℕ) (end : Option ℕ)
      → ready from ≡ false
      → First limit ready (from + 10) end
      → First limit ready from end
  First-later from (some elapsed) no_yet (k, at, below, is, before) =
      (suc k, omega arith, below, is, earlier)
    where
      earlier : (j : ℕ) → j < suc k → ready (from + 10 * j) ≡ false
      earlier zero h = let e : from + 10 * 0 ≡ from = omega arith in rw e no_yet
      earlier (suc j) h =
          let e : from + 10 * suc j ≡ from + 10 + 10 * j = omega arith in
          rw e (before j (omega arith))
  First-later from none no_yet h = later
    where
      later : (j : ℕ) → from + 10 * j < limit → ready (from + 10 * j) ≡ false
      later zero b = let e : from + 10 * 0 ≡ from = omega arith in rw e no_yet
      later (suc j) b =
          let e : from + 10 * suc j ≡ from + 10 + 10 * j = omega arith in rw e (h j (omega arith))

  poll_every-First :
      (fuel elapsed : ℕ)
      → limit ≤ elapsed + fuel
      → (end : Option ℕ) × (poll_every (suc fuel) limit ready elapsed ≡ some end)
        × First limit ready elapsed end
  unfolding poll_every
  poll_every-First zero elapsed h =
      let over : ltb elapsed limit ≡ false = ground arith in
      (none, rw over refl, λ j b. absurd (omega arith))
  poll_every-First (suc fuel) elapsed h = elim (Bool-cases (ltb elapsed limit)) [
    | inr over ↦ (none, rw over refl, λ j b. ground arith)
    | inl under ↦ elim (Bool-cases (ready elapsed)) [
      | inl is ↦ (
        some elapsed,
        rw (under, is) refl,
        (0, omega arith, ground arith, is, λ j b. absurd (omega arith)),
      )
      | inr is_not ↦
          let (end, e, first) = poll_every-First fuel (elapsed + 10) (omega arith) in
          (end, rw (under, is_not) e, First-later elapsed end is_not first)
    ]
  ]

pub start_vllm_server-First :
    (settings : Settings) (requests_get : Str → ℕ → Health)
    → (end : Option ℕ) × (start_vllm_server settings requests_get ≡ some (started settings end))
      × First settings.vllm_server_timeout
          (λ t. is_healthy (requests_get (health_url settings) t))
          0
          end
      × (end ≡ none
          → started settings end ≡ (not_healthy, spawned (command settings) ∷ kill ∷ wait ∷ []))
unfolding start_vllm_server started
start_vllm_server-First settings requests_get =
    let (end, e, first) =
      poll_every-First settings.vllm_server_timeout
        (λ t. is_healthy (requests_get (health_url settings) t)) settings.vllm_server_timeout 0
        (omega arith) in
    (end, rw (e, start_vllm_server) refl, first, λ none_yet. rw none_yet refl)

-- Stopping the server ends too, after at most 600 seconds of polling and at the first poll that shows
-- no process on the GPU. The process gets one SIGTERM, and is killed when it does not exit.
pub stop_vllm_server-First :
    (exits : Bool) (nvidia_smi : ℕ → ℕ × Str)
    → (end : Option ℕ) × (stop_vllm_server exits nvidia_smi
        ≡ some (end, sigterm ∷ wait ∷ (if exits then [] else kill ∷ wait ∷ [])))
      × First 600 (λ t. is_released (nvidia_smi t)) 0 end
unfolding stop_vllm_server
stop_vllm_server-First exits nvidia_smi =
    let (end, e, first) =
      poll_every-First 600 (λ t. is_released (nvidia_smi t)) 600 0 (omega arith) in
    (end, rw (e, stop_vllm_server) refl, first)
