-- ===== src/Pipeline/VllmClient.antt =====
-- src/pipeline/llm_providers/vllm_client.py. The client library's call is a parameter.
use refactor_tradeoffs.Base.{
  ℕ, Option, none, some, List, [], ◌∷◌, ◌++◌, Str, Result, ok, raised, llm_call_failed, Exec,
}
use refactor_tradeoffs.Pipeline.State.{State}
use refactor_tradeoffs.Pipeline.Utils.{parse_refactored_code}

pub data Role : Type 0 where
  system user assistant : Role

pub record Message : Type 0 where
  pub role : Role
  pub content : Str

abbrev pub History : Type 0
History = List Message

pub record TokenUsage : Type 0 where
  pub prompt_tokens : ℕ
  pub completion_tokens : ℕ

abbrev pub no_tokens : TokenUsage
no_tokens = record { prompt_tokens = 0; completion_tokens = 0 }

-- The first choice of a completion, as far as it is read.
pub record Completion : Type 0 where
  pub content : Option Str
  pub usage : Option TokenUsage

-- How the client's call ends: by one of its exceptions, or with a completion.
pub data Response : Type 0 where
  api_timeout api_connection api_status unexpected : Response
  completed : Completion → Response

abbrev pub reply_of : Completion → Str
reply_of c = elim c.content [ none ↦ [] | some reply ↦ reply ]

abbrev pub usage_of : Completion → TokenUsage
usage_of c = elim c.usage [ none ↦ no_tokens | some usage ↦ usage ]

abbrev pub with_user : History → Str → History
with_user history message = history ++ (record { role = user; content = message } ∷ [])

-- What `chat` makes of the response to the history `sent`.
unfoldable pub answer : History → Response → Result (History × Str × TokenUsage)
answer sent (completed c) = ok (
  sent ++ (record { role = assistant; content = reply_of c } ∷ []),
  parse_refactored_code (reply_of c),
  usage_of c,
)
answer sent _ = raised llm_call_failed

module _ {World : Type 0} (complete : History → World → Response × World) where
  unfoldable pub chat : History → Str → Exec (State World) (History × Str × TokenUsage)
  unfolding answer
  chat history user_message s =
      let sent = with_user history user_message in
      let r = complete sent s.world in (answer sent r.0, record s { world = r.1 })
