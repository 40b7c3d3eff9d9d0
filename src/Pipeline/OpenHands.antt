-- ===== src/Pipeline/OpenHands.antt =====
-- src/pipeline/llm_providers/openhands.py. The conversation is a parameter: a turn of it edits
-- files, emits events and adds to the accumulated token usage.
use refactor_tradeoffs.Base.{
  ℕ, suc, ◌+◌, ◌-◌, Bool, Option, none, some, List, [], ◌∷◌, Str, ok, raised, llm_call_failed, Exec,
  if◌then◌else◌,
}
use refactor_tradeoffs.Pipeline.State.{State}
use refactor_tradeoffs.Pipeline.WorkerContext.{set_worker_index, worker_index_from_repo}
use refactor_tradeoffs.Pipeline.VllmClient.{TokenUsage, no_tokens}

pub data Event : Type 0 where
  action_event other_event : Event

-- A turn: its events, whether `run` raised, and what it added to `accumulated_token_usage`, which
-- is `none` where the metrics are not available after it.
pub record Turn : Type 0 where
  pub events : List Event
  pub failed : Bool
  pub growth : Option TokenUsage

pub record Session : Type 0 where
  pub working_dir : Str
  pub tool_call_count : ℕ
  pub metrics : Option TokenUsage

-- The callback `_on_event`, over the events of a turn.
unfoldable pub count_events : List Event → ℕ → ℕ
count_events [] count = count
count_events (action_event ∷ events) count = count_events events (suc count)
count_events (other_event ∷ events) count = count_events events count

abbrev pub tokens_of : Option TokenUsage → TokenUsage
tokens_of none = no_tokens
tokens_of (some usage) = usage

abbrev pub accumulated : Option TokenUsage → Option TokenUsage → Option TokenUsage
accumulated before none = none
accumulated before (some growth) = some (record {
  prompt_tokens = (tokens_of before).prompt_tokens + growth.prompt_tokens;
  completion_tokens = (tokens_of before).completion_tokens + growth.completion_tokens;
})

-- The usage of a turn from the metrics before and after it. What is accumulated never falls.
abbrev pub turn_usage : Option TokenUsage → Option TokenUsage → TokenUsage
turn_usage before none = no_tokens
turn_usage before (some usage) = record {
  prompt_tokens = usage.prompt_tokens - (tokens_of before).prompt_tokens;
  completion_tokens = usage.completion_tokens - (tokens_of before).completion_tokens;
}

module _ {World : Type 0} where
  unfoldable pub open_session : Str → Exec (State World) Session
  unfolding set_worker_index
  open_session working_dir s =
      let r = set_worker_index (worker_index_from_repo working_dir) s in
      (ok (record { working_dir = working_dir; tool_call_count = 0; metrics = none }), r.1)

module _ {World : Type 0} (converse : Str → Str → State World → Turn × State World) where
  unfoldable pub send : Session → Str → Exec (State World) (Session × TokenUsage)
  unfolding count_events
  send session message s =
      let r = converse session.working_dir message s in
      let turn = r.0 in
      let metrics = accumulated session.metrics turn.growth in
      let session' = record session {
        tool_call_count = count_events turn.events session.tool_call_count;
        metrics = metrics;
      } in
      (
        if turn.failed
            then raised llm_call_failed
            else ok (session', turn_usage session.metrics metrics),
        r.1,
      )
