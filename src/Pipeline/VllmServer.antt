-- ===== src/Pipeline/VllmServer.antt =====
-- src/pipeline/llm_providers/vllm_server.py. The answers to a poll are a function of the seconds that
-- have been slept before it; a process is what has been done to it.
pub mod Polling
use refactor_tradeoffs.Base.{
  ℕ, zero, suc, ◌+◌, Bool, true, false, ◌&&◌, Option, none, some, List, [], ◌∷◌, ◌++◌, Str, codes,
  concat, show, strip, is_empty, ltb, ◌==◌, nat_eq, if◌then◌else◌,
}
use refactor_tradeoffs.Globals.{Settings}

-- `while elapsed < limit: if ready: return; sleep(10); elapsed += 10`, for either of the two loops:
-- the seconds after which it returned, or `some none` where it has run to its end. `none` stands for
-- fuel that has run out.
unfoldable pub poll_every : ℕ → ℕ → (ℕ → Bool) → ℕ → Option (Option ℕ)
poll_every zero limit ready elapsed = none
poll_every (suc fuel) limit ready elapsed =
    let more = poll_every fuel limit ready (elapsed + 10) in
    if ltb elapsed limit then (if ready elapsed then some (some elapsed) else more) else some none

-- A health check: a status code, or a `RequestException`.
pub data Health : Type 0 where
  status_code : ℕ → Health
  request_exception : Health

unfoldable pub is_healthy : Health → Bool
is_healthy (status_code code) = code == 200
is_healthy request_exception = false

unfoldable pub command : Settings → List Str
unfolding show
command settings =
    codes "python"
    ∷ codes "-m"
    ∷ codes "vllm.entrypoints.openai.api_server"
    ∷ codes "--model"
    ∷ settings.vllm_model
    ∷ codes "--enable-prefix-caching"
    ∷ codes "--tensor-parallel-size"
    ∷ show settings.vllm_tensor_parallel_size
    ∷ codes "--max-model-len"
    ∷ show settings.vllm_max_model_len
    ∷ codes "--port"
    ∷ show settings.vllm_server_port
    ∷ codes "--tool-call-parser"
    ∷ codes "mistral"
    ∷ codes "--enable-auto-tool-choice"
    ∷ []

unfoldable pub health_url : Settings → Str
unfolding show concat
health_url settings =
    concat (codes "http://localhost:" ∷ show settings.vllm_server_port ∷ codes "/health" ∷ [])

-- What is done to the process.
pub data Action : Type 0 where
  spawned : List Str → Action
  sigterm kill wait : Action

-- How `start_vllm_server` ends: it returns the process, or raises a `RuntimeError`.
pub data Started : Type 0 where
  healthy_after : ℕ → Started
  not_healthy : Started

unfoldable pub started : Settings → Option ℕ → Started × List Action
unfolding command
started settings (some elapsed) = (healthy_after elapsed, spawned (command settings) ∷ [])
started settings none = (not_healthy, spawned (command settings) ∷ kill ∷ wait ∷ [])

-- The fuel is enough, since `elapsed` grows in each round.
unfoldable pub start_vllm_server : Settings → (Str → ℕ → Health) → Option (Started × List Action)
unfolding poll_every is_healthy started health_url
start_vllm_server settings requests_get =
    elim (poll_every (suc settings.vllm_server_timeout) settings.vllm_server_timeout
      (λ elapsed. is_healthy (requests_get (health_url settings) elapsed)) 0) [
        | none ↦ none
        | some end ↦ some (started settings end)
      ]

-- A run of `nvidia-smi`: its return code and what it prints.
unfoldable pub is_released : ℕ × Str → Bool
unfolding strip is_empty
is_released (returncode, stdout) = returncode == 0 && is_empty (strip stdout)

-- The seconds after which the memory was free, or `none`, and what has been done to the process.
unfoldable pub stop_vllm_server : Bool → (ℕ → ℕ × Str) → Option (Option ℕ × List Action)
unfolding poll_every is_released
stop_vllm_server exits nvidia_smi =
    let actions = sigterm ∷ wait ∷ (if exits then [] else kill ∷ wait ∷ []) in
    elim (poll_every (suc 600) 600 (λ elapsed. is_released (nvidia_smi elapsed)) 0) [
      | none ↦ none
      | some end ↦ some (end, actions)
    ]
