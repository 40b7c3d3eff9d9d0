-- ===== src/Pipeline/Checks/Tools.antt =====
-- src/pipeline/llm_providers/tools/check_tools.py: the checks as the agent's tools. The profile is
-- the one that `get_repository_profile` returns, and a conversation is its workspace's directory.
use refactor_tradeoffs.Base.{
  ℕ, ◌≡◌, refl, Bool, Option, none, some, List, [], ◌∷◌, Str, codes, concat, path_str,
  if◌then◌else◌, Exec, pure, ◌>>=◌,
}
use refactor_tradeoffs.Globals.{Settings}
use refactor_tradeoffs.Pipeline.State.{State}
use refactor_tradeoffs.Pipeline.Registry.{Profile, Node}
use refactor_tradeoffs.Pipeline.WorkerContext.{
  worker_index_from_repo, get_worker_repo, get_worker_index,
}
use refactor_tradeoffs.Pipeline.WorkerContext.Names.{worker_index_from_repo-get_worker_repo}
use refactor_tradeoffs.Pipeline.Checks.Engineblock.{TestScript, correctness_check_eb, resolve_index}
use refactor_tradeoffs.Pipeline.Checks.Php.{LintScript}
use refactor_tradeoffs.Pipeline.Checks.EbProfile.{engineblock}

-- `SyntaxCheckObservation` and `CorrectnessCheckObservation`
pub record CheckObservation : Type 0 where
  pub passed : Bool
  pub output : Str

status : Bool → Str
status passed = if passed then codes "PASSED" else codes "FAILED"

unfoldable pub syntax_content : CheckObservation → Str
unfolding status concat
syntax_content o = concat (codes "Syntax check " ∷ status o.passed ∷ codes ".\n" ∷ o.output ∷ [])

unfoldable pub correctness_content : CheckObservation → Str
unfolding status concat
correctness_content o = concat (codes "Test suite " ∷ status o.passed ∷ codes ".\n" ∷ o.output ∷ [])

observed : Bool × Str → CheckObservation
observed (passed, output) = record { passed = passed; output = output }

unfoldable pub tool_index : Option Str → Option ℕ
tool_index none = none
tool_index (some working_dir) = some (worker_index_from_repo working_dir)

unfoldable pub as_observation :
    {World : Type 0} → Exec (State World) (Bool × Str) → Exec (State World) CheckObservation
unfolding observed
as_observation check = do r ← check; pure (observed r)

module _ {World : Type 0} (profile : Profile World) where
  -- `SyntaxCheckExecutor.__call__`
  unfoldable pub syntax_tool : Str → Exec (State World) CheckObservation
  unfolding as_observation
  syntax_tool code = as_observation (profile.syntax_check code)

  -- `CorrectnessCheckExecutor.__call__`
  unfoldable pub correctness_tool : Option Str → Exec (State World) CheckObservation
  unfolding as_observation tool_index
  correctness_tool conversation =
      as_observation (profile.correctness_check (tool_index conversation))

-- What an agent is offered: what it is told of a tool, and what a call runs.
pub record ToolDefinition (World : Type 0) (Action : Type 0) : Type 0 where
  pub description : Str
  pub executor : Action → Exec (State World) CheckObservation

-- `SyntaxCheckTool.create`. The action is the code.
unfoldable pub create_syntax_tool :
    {World : Type 0} → Profile World → List (ToolDefinition World Str)
unfolding concat syntax_tool
create_syntax_tool profile =
    record {
      description = concat (
          codes "Checks whether a "
          ∷ profile.language_name
          ∷ codes " snippet is "
          ∷ codes "syntactically valid. Call this after editing code to "
          ∷ codes "verify there are no syntax errors. Returns whether the "
          ∷ codes "check passed and any error messages."
          ∷ []);
      executor = syntax_tool profile;
    }
    ∷ []

-- `CorrectnessCheckTool.create`. The action is empty; what a call is given is its conversation.
unfoldable pub create_correctness_tool :
    {World : Type 0} → Profile World → List (ToolDefinition World (Option Str))
unfolding concat correctness_tool
create_correctness_tool profile =
    record {
      description = concat (
          codes "Runs the test suite over the entire code repository. "
          ∷ codes "Call this after completing a refactor to verify no "
          ∷ codes "existing behaviour was broken. Returns whether all tests "
          ∷ codes "passed and details of any failures."
          ∷ []);
      executor = correctness_tool profile;
    }
    ∷ []

module _ {World : Type 0} (lint : LintScript World) (tests : TestScript World)
    (language_php : Str → Node) (max_reported : ℕ) where
  -- In a conversation about the working copy of a worker, the agent's tool runs the tests for that
  -- worker, whatever index the thread holds on which the tool is called; and that is the check which
  -- the pipeline runs, with no index given, on a thread that has claimed the worker's.
  pub correctness_tool-worker :
      (settings : Settings) (index : ℕ) (s t : State World)
      → t.worker_index ≡ some index
      → (correctness_tool
            (engineblock lint tests language_php max_reported)
            (some (path_str (get_worker_repo settings index)))
            s
          ≡ as_observation (correctness_check_eb tests max_reported (some index)) s)
        × (correctness_check_eb tests max_reported none t
            ≡ correctness_check_eb tests max_reported (some index) t)
  unfolding correctness_tool as_observation correctness_check_eb resolve_index get_worker_index
  correctness_tool-worker settings index s t claimed =
      (rw (worker_index_from_repo-get_worker_repo settings index) refl, rw claimed refl)
