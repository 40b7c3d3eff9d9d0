-- ===== src/Pipeline/Refactor/Invariant.antt =====
-- A predicate on the state of a thread that the services and the writes of a file keep is kept by
-- `_refactor` and `_process_unit`, of either type.
use refactor_tradeoffs.Base.{
  ℕ, zero, suc, ◌≡◌, refl, Bool, true, false, Option, none, some, Str, FilePath, path_str, Result,
  ok, raised, llm_call_failed, Exec, pure, ◌>>=◌, arith,
}
use refactor_tradeoffs.Globals.{AiType, traditional, agent, UnitResult}
use refactor_tradeoffs.Pipeline.State.{State, read_text, write_text}
use refactor_tradeoffs.Pipeline.WorkerContext.{worker_index_from_repo, set_worker_index}
use refactor_tradeoffs.Pipeline.VllmClient.{TokenUsage, History, chat}
use refactor_tradeoffs.Pipeline.OpenHands.{Session, send, open_session}
use refactor_tradeoffs.Pipeline.Refactor.{
  Setup, start_session, close_session, refactor, start_progress, RefactorUnit, Job, Progress,
  returned, checked, retry, syntax_returned, syntax_checked, syntax_exhausted, rejected_result, ask,
  counted, code_to_check, check_syntax, write_if_traditional, judge, attempt, syntax_loop,
  correctness_loop, check_correctness, after_check, next_round, on_llm_failure, first_message,
  process_unit,
}
use refactor_tradeoffs.Pipeline.State.{write}
use refactor_tradeoffs.Pipeline.Refactor.Keeps.{Keeps, Keeps-bind, read_text-Keeps}

-- What is run for a unit keeps the predicate: writes of the files `Written`, the language model, and for
-- an agent the start of a session about `repo_path` and its turns; and both checks.
pub record Stays {World : Type 0} (setup : Setup World) (repo_path : FilePath)
    (Written : FilePath → Type 0) (P : State World → Type 0) : Type 0 where
  pub writes :
      (path : FilePath) (text : Str) (s : State World)
      → Written path
      → P s
      → P (record s { files = write path text s.files })
  pub completes : (world : World) (s : State World) → P s → P (record s { world = world })
  pub opens :
      setup.settings.ai_type ≡ agent
      → (s : State World) → P s
      → P (record s { worker_index = some (worker_index_from_repo (path_str repo_path)) })
  pub converses :
      setup.settings.ai_type ≡ agent
      → (working_dir message : Str)
      → Keeps P (λ s. let r = setup.services.converse working_dir message s in (ok r.0, r.1))
  pub syntax_checks : (code : Str) → Keeps P (setup.profile.syntax_check code)
  pub correctness_checks : (index : Option ℕ) → Keeps P (setup.profile.correctness_check index)

module _ {World : Type 0} (job : Job World) {repo_path : FilePath} {Written : FilePath → Type 0}
    (P : State World → Type 0) (stays : Stays job.setup repo_path Written P)
    (own : Written job.unit.file_path) where
  rejected_result-Keeps : (p : Progress) → Keeps P (rejected_result job p)
  unfolding rejected_result write_text
  rejected_result-Keeps p s e = stays.writes job.unit.file_path job.original_source s own e

  send-Keeps :
      job.settings.ai_type ≡ agent
      → (session : Session) (message : Str) → Keeps P (send job.services.converse session message)
  unfolding send
  send-Keeps mode session message s e = stays.converses mode session.working_dir message s e

  chat-Keeps :
      (history : History) (message : Str) → Keeps P (chat job.services.complete history message)
  unfolding chat
  chat-Keeps history message s e = stays.completes _ s e

  session-Keeps :
      job.settings.ai_type ≡ agent
      → (o : Option Session) (p : Progress) → p.session ≡ o
      → Keeps P (ask job agent p)
  unfolding ask
  session-Keeps mode none p h = λ s e. rw h e
  session-Keeps mode (some session) p h =
      rw (h, ask)
        (Keeps-bind P (send job.services.converse session p.message) _
          (send-Keeps mode session p.message)
          (λ _.
            Keeps-bind P (read_text job.unit.file_path) _ (read_text-Keeps P job.unit.file_path)
              (λ _ t e. e)))

  ask-Keeps : (t : AiType) (p : Progress) → job.settings.ai_type ≡ t → Keeps P (ask job t p)
  unfolding ask
  ask-Keeps traditional p mode =
      Keeps-bind P (chat job.services.complete p.history p.message) _
        (chat-Keeps p.history p.message) (λ _ t e. e)
  ask-Keeps agent p mode = session-Keeps mode p.session p refl

  code_to_check-Keeps : (t : AiType) (code : Str) → Keeps P (code_to_check job t code)
  unfolding code_to_check
  code_to_check-Keeps traditional code =
      Keeps-bind P (read_text job.unit.file_path) _ (read_text-Keeps P job.unit.file_path)
        (λ _ t e. e)
  code_to_check-Keeps agent code = λ s e. e

  check_syntax-Keeps : (p : Progress) (code : Str) → Keeps P (check_syntax job p code)
  unfolding check_syntax
  check_syntax-Keeps p code =
      Keeps-bind P (job.profile.syntax_check code) _ (stays.syntax_checks code) (λ _ t e. e)

  judge-Keeps : (p : Progress) (candidate : Option Str) → Keeps P (judge job p candidate)
  unfolding judge
  judge-Keeps p none = Keeps-bind P (rejected_result job p) _ (rejected_result-Keeps p) (λ _ t e. e)
  judge-Keeps p (some code) = λ s e. ground (arith, check_syntax-Keeps p code s e)

  attempt-Keeps : (p : Progress) → Keeps P (attempt job p)
  unfolding attempt
  attempt-Keeps p s e =
      go (ask job job.settings.ai_type p s).0 (ask job job.settings.ai_type p s).1
        (ask-Keeps job.settings.ai_type p refl s e)
    where
      go :
          (r : Result (Progress × Str × TokenUsage)) (t : State World)
          → P t
          → P
              (on_llm_failure r
                (rejected_result job p >>= λ r. pure (returned r))
                (λ (p', code, usage). code_to_check job job.settings.ai_type code >>= λ candidate.
                  judge job (counted p' usage) candidate)
                t).1
      go (ok (p', code, usage)) =
          Keeps-bind P (code_to_check job job.settings.ai_type code) _
            (code_to_check-Keeps job.settings.ai_type code)
            (λ candidate. judge-Keeps (counted p' usage) candidate)
      go (raised llm_call_failed) =
          Keeps-bind P (rejected_result job p) _ (rejected_result-Keeps p) (λ _ u e. e)
      go (raised _) = λ t e. e

  syntax_loop-Keeps : (left : ℕ) (p : Progress) → Keeps P (syntax_loop job left p)
  unfolding syntax_loop
  syntax_loop-Keeps zero p = λ s e. e
  syntax_loop-Keeps (suc left) p = Keeps-bind P (attempt job p) _ (attempt-Keeps p) (elim [
    | returned r ↦ λ t e. e
    | checked p' code ↦ λ t e. e
    | retry p' ↦ syntax_loop-Keeps left p'
  ])

  write_if-Keeps : (t : AiType) (text : Str) → Keeps P (write_if_traditional job t text)
  unfolding write_if_traditional write_text
  write_if-Keeps traditional text = λ s e. stays.writes job.unit.file_path text s own e
  write_if-Keeps agent text = λ s e. e

  after_check-Keeps :
      (again : Progress → Exec (State World) UnitResult) (p : Progress) (passed : Bool)
      (output : Str)
      → ((p' : Progress) → Keeps P (again p'))
      → Keeps P (after_check job again p (passed, output))
  unfolding after_check
  after_check-Keeps again p true output k = λ s e. e
  after_check-Keeps again p false output k =
      Keeps-bind P (write_if_traditional job job.settings.ai_type job.original_source) _
        (write_if-Keeps job.settings.ai_type job.original_source) (λ _. k (next_round job p output))

  correctness_loop-Keeps : (left : ℕ) (p : Progress) → Keeps P (correctness_loop job left p)
  unfolding correctness_loop check_correctness
  correctness_loop-Keeps zero p = rejected_result-Keeps p
  correctness_loop-Keeps (suc left) p =
      Keeps-bind P (syntax_loop job (suc job.settings.max_syntax_retries) p) _
        (syntax_loop-Keeps (suc job.settings.max_syntax_retries) p)
        (elim [
          | syntax_returned r ↦ λ t e. e
          | syntax_exhausted p' ↦ rejected_result-Keeps p'
          | syntax_checked p' code ↦
              Keeps-bind P (write_if_traditional job job.settings.ai_type code) _
                (write_if-Keeps job.settings.ai_type code)
                (λ _.
                  Keeps-bind P (job.profile.correctness_check none)
                    (after_check job (correctness_loop job left) p') (stays.correctness_checks none)
                    (λ (passed, output).
                      after_check-Keeps (correctness_loop job left) p' passed output
                        (correctness_loop-Keeps left)))
        ])

module _ {World : Type 0} (setup : Setup World) {repo_path : FilePath} {Written : FilePath → Type 0}
    (P : State World → Type 0) (stays : Stays setup repo_path Written P) where
  start_session-Keeps :
      (t : AiType) → setup.settings.ai_type ≡ t → Keeps P (start_session setup t repo_path)
  unfolding start_session open_session set_worker_index
  start_session-Keeps traditional mode = λ s e. e
  start_session-Keeps agent mode = stays.opens mode

  close_session-Keeps :
      (session : Option Session) (m : Result UnitResult × State World)
      → P m.1
      → P (close_session setup session m).1
  unfolding close_session
  close_session-Keeps none m h = h
  close_session-Keeps (some session) m h = stays.completes _ m.1 h

  pub refactor-Keeps_each :
      (history : History) (message : Str) (unit : RefactorUnit)
      → Written unit.file_path
      → Keeps P (refactor setup history message repo_path unit)
  unfolding refactor
  refactor-Keeps_each history message unit own =
      Keeps-bind P (read_text unit.file_path) _ (read_text-Keeps P unit.file_path) (λ original.
        Keeps-bind P (start_session setup setup.settings.ai_type repo_path) _
          (start_session-Keeps setup.settings.ai_type refl)
          (λ session u e. close_session-Keeps session _ (
            correctness_loop-Keeps
              (record { setup = setup; unit = unit; original_source = original }) P stays own
              (suc setup.settings.max_correctness_retries) (start_progress history message session)
              u e)))

  first_message-Keeps : (t : AiType) (unit : RefactorUnit) → Keeps P (first_message setup t unit)
  unfolding first_message
  first_message-Keeps agent unit = λ s e. e
  first_message-Keeps traditional unit =
      Keeps-bind P (read_text unit.file_path) _ (read_text-Keeps P unit.file_path) (λ _ t e. e)

  pub process_unit-Keeps :
      (unit : RefactorUnit) → Written unit.file_path → Keeps P (process_unit setup unit repo_path)
  unfolding process_unit
  process_unit-Keeps unit own =
      Keeps-bind P (first_message setup setup.settings.ai_type unit) _
        (first_message-Keeps setup.settings.ai_type unit)
        (λ message. refactor-Keeps_each _ message unit own)
