-- ===== src/Pipeline/Refactor/Counters.antt =====
-- What the counters of a result add up to.
use refactor_tradeoffs.Base.{
  ℕ, zero, suc, ◌+◌, ◌*◌, ◌≤◌, ◌≡◌, true, false, Option, none, some, Option-cases, inl, inr, Str,
  FilePath, list_eq, nat_eq, Result, ok, raised, llm_call_failed, Exec, pure, ◌>>=◌, arith,
}
use refactor_tradeoffs.Globals.{Settings, AiType, traditional, agent, UnitResult}
use refactor_tradeoffs.Pipeline.State.{State, read_text}
use refactor_tradeoffs.Pipeline.VllmClient.{TokenUsage, History}
use refactor_tradeoffs.Pipeline.OpenHands.{Session}
use refactor_tradeoffs.Pipeline.Refactor.{
  Job, Setup, RefactorUnit, Progress, returned, checked, retry, syntax_returned, syntax_checked,
  syntax_exhausted, rejected_result, ask, counted, code_to_check, check_syntax,
  write_if_traditional, judge, attempt, syntax_loop, correctness_loop, check_correctness,
  after_check, next_round, result, on_llm_failure, refactor, close_session, start_session,
  start_progress,
}
use refactor_tradeoffs.Pipeline.Refactor.Stages.{
  Same, Closes, Advances, Advances-Same, Within, Within-retry, Concludes,
}
use refactor_tradeoffs.Pipeline.Refactor.Rules.{
  Holds, Holds-bind, Holds-any, Holds-if, Holds-weaken, Holds-returned,
}

module _ {World : Type 0} (job : Job World) where
  ask-Same :
      (t : AiType) (p : Progress) (s : State World) → Holds (λ r _. Same p r.0) (ask job t p s)
  unfolding ask
  ask-Same traditional p s = ground arith
  ask-Same agent p s = elim (Option-cases p.session) [
    | inl e ↦ rw (e, ask) tt
    | inr (session, e) ↦ rw (e, ask) (ground arith)
  ]

  rejected_result-Closes :
      (p : Progress) (s : State World) → Holds (λ r _. Closes p r) (rejected_result job p s)
  unfolding rejected_result
  rejected_result-Closes p s = ground arith

  judge-Advances :
      (p : Progress) (usage : TokenUsage) (code : Option Str) (s : State World)
      → Holds (λ a _. Advances p a) (judge job (counted p usage) code s)
  unfolding judge rejected_result check_syntax
  judge-Advances p usage none s = ground arith
  judge-Advances p usage (some code) s = ground arith

  attempt-Advances :
      (p : Progress) (s : State World) → Holds (λ a _. Advances p a) (attempt job p s)
  unfolding attempt rejected_result
  attempt-Advances p s = go _ _ (ask-Same job.settings.ai_type p s)
    where
      go :
          (r : Result (Progress × Str × TokenUsage)) (t : State World)
          → Holds (λ r _. Same p r.0) (r, t)
          → Holds
              (λ a _. Advances p a)
              (on_llm_failure r
                (rejected_result job p >>= λ r. pure (returned r))
                (λ (q, code, usage). code_to_check job job.settings.ai_type code >>= λ candidate.
                  judge job (counted q usage) candidate)
                t)
      go (ok (q, code, usage)) t h =
          Holds-bind (λ _ _. Unit {0}) (λ a _. Advances p a)
            (code_to_check job job.settings.ai_type code) _ t (Holds-any _)
            (λ candidate u _.
              Holds-weaken _ _ _ (λ a v k. Advances-Same p q a h k)
                (judge-Advances q usage candidate u))
      go (raised llm_call_failed) t h = ground arith
      go (raised _) t h = tt

  syntax_loop-Within :
      (left : ℕ) (p : Progress) (s : State World)
      → Holds (λ e _. Within left p e) (syntax_loop job left p s)
  unfolding syntax_loop
  syntax_loop-Within zero p s = omega arith
  syntax_loop-Within (suc left) p s =
      Holds-bind (λ a _. Advances p a) (λ e _. Within (suc left) p e) (attempt job p) _ s
        (attempt-Advances p s)
        (elim [
          | returned r ↦ λ t h. ground arith
          | checked q code ↦ λ t h. omega arith
          | retry q ↦ λ t h.
              Holds-weaken _ _ _ (λ e u k. Within-retry left p q e h k)
                (syntax_loop-Within left q t)
        ])

  abbrev calls : ℕ
  calls = suc job.settings.max_syntax_retries

  check_correctness-Holds :
      (Q : UnitResult → Type 0) (again : Progress → Exec (State World) UnitResult) (p : Progress)
      (code : Str) (s : State World)
      → Q (result job true false p)
      → ((output : Str) (t : State World) → Holds (λ r _. Q r) (again (next_round job p output) t))
      → Holds (λ r _. Q r) (check_correctness job again p code s)
  unfolding check_correctness after_check
  check_correctness-Holds Q again p code s h k =
      Holds-bind (λ _ _. Unit {0}) (λ r _. Q r) (write_if_traditional job job.settings.ai_type code)
        _ s (Holds-any _)
        (λ _ t _.
          Holds-bind (λ _ _. Unit {0}) (λ r _. Q r) (job.profile.correctness_check none)
            (after_check job again p) t (Holds-any _)
            (λ (passed, output) u _.
              Holds-if (λ r _. Q r) passed _ _ u h
                (Holds-bind (λ _ _. Unit {0}) (λ r _. Q r)
                  (write_if_traditional job job.settings.ai_type job.original_source)
                  (λ _. again (next_round job p output)) u (Holds-any _) (λ _ v _. k output v))))

  correctness_loop-Concludes :
      (left : ℕ) (p : Progress) (s : State World)
      → Holds (λ r _. Concludes calls left p r) (correctness_loop job left p s)
  unfolding correctness_loop rejected_result
  correctness_loop-Concludes zero p s = ground arith
  correctness_loop-Concludes (suc left) p s =
      Holds-bind (λ e _. Within calls p e) (λ r _. Concludes calls (suc left) p r)
        (syntax_loop job calls p) _ s (syntax_loop-Within calls p s)
        (elim [
          | syntax_returned r ↦ λ t h. ground arith
          | syntax_exhausted q ↦ λ t h. ground arith
          | syntax_checked q code ↦ λ t h.
              check_correctness-Holds (Concludes calls (suc left) p) (correctness_loop job left) q
                code t (ground arith)
                (λ output u.
                  Holds-weaken _ (λ r _. Concludes calls (suc left) p r) _ (λ r v k. ground arith)
                    (correctness_loop-Concludes left (next_round job q output) u))
        ])

-- How the counters of a result bound and explain one another.
pub record AddUp (settings : Settings) (r : UnitResult) : Type 0 where
  pub calls_bounded :
      r.llm_calls ≤ suc settings.max_correctness_retries * suc settings.max_syntax_retries
  pub retries_bounded : r.correctness_retries ≤ suc settings.max_correctness_retries
  pub calls_at_least : r.syntax_retries + r.correctness_retries ≤ r.llm_calls
  pub calls_at_most : r.llm_calls ≤ r.syntax_retries + r.correctness_retries + 1
  pub accepted_calls :
      r.accepted ≡ true
      → (r.llm_calls ≡ r.syntax_retries + r.correctness_retries + 1)
        × (r.correctness_retries ≤ settings.max_correctness_retries)

Concludes-AddUp :
    (settings : Settings) (history : History) (message : Str) (session : Option Session)
    (r : UnitResult)
    → Concludes
        (suc settings.max_syntax_retries)
        (suc settings.max_correctness_retries)
        (start_progress history message session)
        r
    → AddUp settings r
Concludes-AddUp settings history message session r h = ground arith

module _ {World : Type 0} (setup : Setup World) where
  close_session-Holds :
      (Q : UnitResult → Type 0) (session : Option Session) (r : Result UnitResult × State World)
      → Holds (λ r _. Q r) r
      → Holds (λ r _. Q r) (close_session setup session r)
  unfolding close_session
  close_session-Holds Q none (ok r, s) h = h
  close_session-Holds Q none (raised e, s) h = tt
  close_session-Holds Q (some session) (ok r, s) h = h
  close_session-Holds Q (some session) (raised e, s) h = tt

  refactor-Holds :
      (history : History) (message : Str) (repo_path : FilePath) (unit : RefactorUnit)
      (s : State World)
      → Holds (λ r _. AddUp setup.settings r) (refactor setup history message repo_path unit s)
  unfolding refactor
  refactor-Holds history message repo_path unit s =
      Holds-bind (λ _ _. Unit {0}) (λ r _. AddUp setup.settings r) (read_text unit.file_path) _ s
        (Holds-any _)
        (λ original_source t _.
          Holds-bind (λ _ _. Unit {0}) (λ r _. AddUp setup.settings r)
            (start_session setup setup.settings.ai_type repo_path) _ t (Holds-any _)
            (λ session u _. close_session-Holds (AddUp setup.settings) session _ (
              Holds-weaken _ (λ r _. AddUp setup.settings r) _
                (λ r _ h. Concludes-AddUp setup.settings history message session r h)
                (correctness_loop-Concludes
                  (record { setup = setup; unit = unit; original_source = original_source })
                  (suc setup.settings.max_correctness_retries)
                  (start_progress history message session) u))))

  -- Whatever the language model, the agent and the checks answer: a result of `_refactor` has made
  -- at most `(max_correctness_retries + 1) * (max_syntax_retries + 1)` calls, at most
  -- `max_correctness_retries + 1` of its attempts have failed the correctness check, and its calls
  -- are its retries or one more. An accepted result has made exactly one call more than it has
  -- retries, and at most `max_correctness_retries` correctness retries.
  pub refactor-AddUp :
      (history : History) (message : Str) (repo_path : FilePath) (unit : RefactorUnit)
      (s t : State World) (r : UnitResult)
      → refactor setup history message repo_path unit s ≡ (ok r, t)
      → AddUp setup.settings r
  refactor-AddUp history message repo_path unit s t r e =
      Holds-returned (λ r _. AddUp setup.settings r) _
        (refactor-Holds history message repo_path unit s) e
