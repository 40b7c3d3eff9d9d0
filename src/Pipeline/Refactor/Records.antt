-- ===== src/Pipeline/Refactor/Records.antt =====
-- What `_refactor` of src/pipeline/runner.py works on: a unit, the local variables that change, and
-- how the loops end.
use refactor_tradeoffs.Base.{
  ℕ, ◌+◌, Option, Str, FilePath, list_eq, nat_eq, Result, ok, raised, llm_call_failed, Exec,
}
use refactor_tradeoffs.Globals.{Settings, UnitResult}
use refactor_tradeoffs.Pipeline.State.{State}
use refactor_tradeoffs.Pipeline.Registry.{Profile}
use refactor_tradeoffs.Pipeline.TreeParser.{FunctionInfo}
use refactor_tradeoffs.Pipeline.VllmClient.{History, Response, TokenUsage}
use refactor_tradeoffs.Pipeline.OpenHands.{Session, Turn}

-- `Unit` of the source.
pub record RefactorUnit : Type 0 where
  pub task : Str
  pub file_path : FilePath
  pub function_info : FunctionInfo

-- What the pipeline calls and does not implement.
pub record Services (World : Type 0) : Type 0 where
  pub complete : History → World → Response × World
  pub converse : Str → Str → State World → Turn × State World
  pub close : World → World

-- The local variables that `_refactor` assigns to.
pub record Progress : Type 0 where
  pub history : History
  pub message : Str
  pub session : Option Session
  pub syntax_retries_total : ℕ
  pub correctness_retries_total : ℕ
  pub total_llm_calls : ℕ
  pub total_tokens_in : ℕ
  pub total_tokens_out : ℕ
  pub total_tool_calls : ℕ

-- How one pass of the inner loop's body ends.
pub data Attempt : Type 0 where
  returned : UnitResult → Attempt
  checked : Progress → Str → Attempt
  retry : Progress → Attempt

-- How the inner loop ends: by a `return`, by its `break`, or by its `else`.
pub data SyntaxEnd : Type 0 where
  syntax_returned : UnitResult → SyntaxEnd
  syntax_checked : Progress → Str → SyntaxEnd
  syntax_exhausted : Progress → SyntaxEnd

abbrev pub lift {ℓ κ} : {S : Type ℓ} {A : Type κ} → Result A → Exec S A
lift r s = (r, s)

-- `try: m except LLMCallFailed: handler else: k`
abbrev pub on_llm_failure {ℓ κ μ} :
    {S : Type ℓ} {A : Type κ} {B : Type μ} → Result A → Exec S B → (A → Exec S B) → Exec S B
on_llm_failure (ok a) handler k s = k a s
on_llm_failure (raised llm_call_failed) handler k s = handler s
on_llm_failure (raised e) handler k s = (raised e, s)

abbrev pub counted : Progress → TokenUsage → Progress
counted p usage = record p {
  total_llm_calls = p.total_llm_calls + 1;
  total_tokens_in = p.total_tokens_in + usage.prompt_tokens;
  total_tokens_out = p.total_tokens_out + usage.completion_tokens;
}

abbrev pub start_progress : History → Str → Option Session → Progress
start_progress history message session = record {
  history = history;
  message = message;
  session = session;
  syntax_retries_total = 0;
  correctness_retries_total = 0;
  total_llm_calls = 0;
  total_tokens_in = 0;
  total_tokens_out = 0;
  total_tool_calls = 0;
}

-- The surroundings of a run: the configuration, the services and the repository's profile.
pub record Setup (World : Type 0) : Type 0 where
  pub settings : Settings
  pub services : Services World
  pub profile : Profile World

-- What stays the same during a call of `_refactor`.
pub record Job (World : Type 0) : Type 0 where
  pub setup : Setup World
  pub open setup use *
  pub unit : RefactorUnit
  pub original_source : Str
