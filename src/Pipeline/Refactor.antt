-- ===== src/Pipeline/Refactor.antt =====
-- `_refactor` and `_process_unit` of src/pipeline/runner.py. The language model, the agent and the
-- profile's checks are parameters; the local variables that change are a record, `Progress`.
pub mod Messages
mod Records
pub mod Rules
pub mod Stages
pub mod Counters
pub mod Verified
pub mod Attempts
pub mod Outcome
pub mod Keeps
pub mod Invariant
pub mod Frame
pub mod Index
unfoldable pub use Records.*
use refactor_tradeoffs.Base.{
  ℕ, zero, suc, ◌+◌, ◌-◌, ◌≡◌, refl, Bool, true, false, Option, none, some, List, [], ◌∷◌, ◌++◌,
  Str, FilePath, path_str, ◌==◌, list_eq, nat_eq, if◌then◌else◌, Exn, Result, ok, raised,
  llm_call_failed, assertion_error, Exec, pure, raise, ◌>>=◌, ◌>>◌,
}
use refactor_tradeoffs.Base.Dict.{Dict}
use refactor_tradeoffs.Globals.{Settings, AiType, traditional, agent, UnitResult}
use refactor_tradeoffs.Pipeline.State.{State, read_text, write_text}
use refactor_tradeoffs.Pipeline.Registry.{Profile, Parsing, parsing_of, get_repository_profile}
use refactor_tradeoffs.Pipeline.TreeParser.{FunctionInfo, relocate_function, splice_function}
use refactor_tradeoffs.Pipeline.VllmClient.{History, Message, system, Response, TokenUsage, chat}
use refactor_tradeoffs.Pipeline.OpenHands.{Session, Turn, open_session, send}
use Messages.{syntax_feedback, correctness_feedback, initial_message, system_prompt}

module _ {World : Type 0} (job : Job World) where
  open job.setup use {settings, services, profile}
  open job use {unit, original_source}

  abbrev pub result : Bool → Bool → Progress → UnitResult
  result accepted equal_to_original p = record {
    name = unit.function_info.name;
    file = path_str unit.file_path;
    accepted = accepted;
    equal_to_original = equal_to_original;
    syntax_retries = p.syntax_retries_total;
    correctness_retries = p.correctness_retries_total;
    llm_calls = p.total_llm_calls;
    tokens_in = p.total_tokens_in;
    tokens_out = p.total_tokens_out;
    tool_calls = p.total_tool_calls;
  }

  unfoldable pub rejected_result : Progress → Exec (State World) UnitResult
  unfolding write_text
  rejected_result p = do write_text unit.file_path original_source; pure (result false true p)

  -- The `try` block: the language model's turn.
  unfoldable pub ask : AiType → Progress → Exec (State World) (Progress × Str × TokenUsage)
  unfolding chat send read_text
  ask traditional p = do
    (history, refactored_code, usage) ← chat services.complete p.history p.message
    pure (record p { history = history }, refactored_code, usage)
  ask agent p = elim p.session [
    | none ↦ raise assertion_error
    | some session ↦ do
      (session', usage) ← send services.converse session p.message
      refactored_code ← read_text unit.file_path
      pure (
        record p {
          session = some session';
          total_tool_calls =
              p.total_tool_calls + (session'.tool_call_count - session.tool_call_count);
        },
        refactored_code,
        usage,
      )
  ]

  -- `code_to_check`, or `none` where the function cannot be relocated.
  unfoldable pub code_to_check : AiType → Str → Exec (State World) (Option Str)
  unfolding read_text
  code_to_check traditional refactored_code = do
    file_source ← read_text unit.file_path
    pure (elim (relocate_function (parsing_of profile) file_source unit.function_info) [
      | none ↦ none
      | some current_info ↦ some (splice_function file_source current_info refactored_code)
    ])
  code_to_check agent refactored_code = pure (some refactored_code)

  -- The syntax check and what follows it.
  unfoldable pub check_syntax : Progress → Str → Exec (State World) Attempt
  check_syntax p code = do
    (passed, check_output) ← profile.syntax_check code
    pure (
        if passed
        then checked p code
        else retry (record p {
          message = syntax_feedback settings.ai_type profile.language_extension check_output;
          syntax_retries_total = p.syntax_retries_total + 1;
        }))

  unfoldable pub judge : Progress → Option Str → Exec (State World) Attempt
  judge p none = do r ← rejected_result p; pure (returned r)
  judge p (some code) =
      if code == original_source then pure (returned (result true true p)) else check_syntax p code

  -- The body of the inner loop.
  unfoldable pub attempt : Progress → Exec (State World) Attempt
  attempt p s =
      let asked = ask settings.ai_type p s in
      on_llm_failure asked.0 (do r ← rejected_result p; pure (returned r))
        (λ (p', refactored_code, usage). do
          candidate ← code_to_check settings.ai_type refactored_code
          judge (counted p' usage) candidate)
        asked.1

  -- The inner loop, with `left` rounds to go: `max_syntax_retries + 1 - syntax_retries`.
  unfoldable pub syntax_loop : ℕ → Progress → Exec (State World) SyntaxEnd
  syntax_loop zero p = pure (syntax_exhausted p)
  syntax_loop (suc left) p = attempt p >>= λ a. elim a [
    | returned r ↦ pure (syntax_returned r)
    | checked p' code ↦ pure (syntax_checked p' code)
    | retry p' ↦ syntax_loop left p'
  ]

  -- The file is written before the correctness check, and restored after one that failed.
  unfoldable pub write_if_traditional : AiType → Str → Exec (State World) (Unit {0})
  unfolding write_text
  write_if_traditional traditional text = write_text unit.file_path text
  write_if_traditional agent text = pure tt

  -- The local variables after a correctness check that failed.
  abbrev pub next_round : Progress → Str → Progress
  next_round p test_output = record p {
    message = correctness_feedback settings.ai_type profile.language_extension test_output;
    correctness_retries_total = p.correctness_retries_total + 1;
  }

  -- What follows the correctness check; `again` is the rest of the loop.
  unfoldable pub after_check :
      (Progress → Exec (State World) UnitResult)
      → Progress
      → Bool × Str
      → Exec (State World) UnitResult
  after_check again p (passed, test_output) =
      if passed
      then pure (result true false p)
      else (write_if_traditional settings.ai_type original_source
          >> again (next_round p test_output))

  unfoldable pub check_correctness :
      (Progress → Exec (State World) UnitResult) → Progress → Str → Exec (State World) UnitResult
  check_correctness again p checked_source = do
    write_if_traditional settings.ai_type checked_source
    checks ← profile.correctness_check none
    after_check again p checks

  -- The outer loop, with `left` rounds to go:
  -- `max_correctness_retries + 1 - correctness_retries_total`.
  unfoldable pub correctness_loop : ℕ → Progress → Exec (State World) UnitResult
  correctness_loop zero p = rejected_result p
  correctness_loop (suc left) p = syntax_loop (suc settings.max_syntax_retries) p >>= λ end.
      elim end [
        | syntax_returned r ↦ pure r
        | syntax_exhausted p' ↦ rejected_result p'
        | syntax_checked p' checked_source ↦
            check_correctness (correctness_loop left) p' checked_source
      ]

module _ {World : Type 0} (setup : Setup World) where
  open setup use {settings, services, profile}

  unfoldable pub start_session : AiType → FilePath → Exec (State World) (Option Session)
  unfolding open_session
  start_session traditional repo_path = pure none
  start_session agent repo_path = do
    session ← open_session (path_str repo_path)
    pure (some session)

  -- The `finally` block.
  unfoldable pub close_session {ℓ} :
      {A : Type ℓ} → Option Session → Result A × State World → Result A × State World
  close_session none (r, s) = (r, s)
  close_session (some session) (r, s) = (r, record s { world = services.close s.world })

  unfoldable pub refactor : History → Str → FilePath → RefactorUnit → Exec (State World) UnitResult
  refactor history message repo_path unit = do
    original_source ← read_text unit.file_path
    session ← start_session settings.ai_type repo_path
    λ s. close_session session (
        correctness_loop (record { setup = setup; unit = unit; original_source = original_source })
          (suc settings.max_correctness_retries) (start_progress history message session) s)

  unfoldable pub first_message : AiType → RefactorUnit → Exec (State World) Str
  unfolding read_text
  first_message agent unit = pure unit.task
  first_message traditional unit = do
    file_source ← read_text unit.file_path
    pure (initial_message profile.language_extension file_source unit.task)

  abbrev first_history : History
  first_history =
      record {
        role = system;
        content =
            system_prompt settings.experiment_type profile.language_name profile.language_extension;
      }
      ∷ []

  -- `_process_unit`, from the profile on.
  unfoldable pub process_unit : RefactorUnit → FilePath → Exec (State World) UnitResult
  process_unit unit repo_path = do
    message ← first_message settings.ai_type unit
    refactor first_history message repo_path unit
