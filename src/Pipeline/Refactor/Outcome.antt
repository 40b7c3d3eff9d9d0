-- ===== src/Pipeline/Refactor/Outcome.antt =====
-- What the file of a unit holds when `_refactor` returns, and what has been checked of it.
use refactor_tradeoffs.Base.{
  ℕ, zero, suc, ◌≡◌, ◌≢◌, refl, ap, sym, ◌∙◌, Bool, true, false, Option, none, some, Str, FilePath,
  list_eq, nat_eq, Result, ok, raised, Exec,
}
use refactor_tradeoffs.Globals.{AiType, traditional, agent, UnitResult}
use refactor_tradeoffs.Pipeline.State.{
  State, read_text, write_self, text_at, text_at-same, text_at-write, text_at-IsRead,
}
use refactor_tradeoffs.Base.Newlines.{universal_newlines}
use refactor_tradeoffs.Pipeline.Registry.{Profile}
use refactor_tradeoffs.Pipeline.VllmClient.{History}
use refactor_tradeoffs.Pipeline.OpenHands.{Session}
use refactor_tradeoffs.Pipeline.Refactor.{
  Setup, start_session, close_session, refactor, start_progress, RefactorUnit, Job, Progress,
  checked, syntax_returned, syntax_checked, syntax_exhausted, write_if_traditional, syntax_loop,
  correctness_loop, check_correctness, after_check, next_round,
}
use refactor_tradeoffs.Pipeline.Refactor.Rules.{Holds, Holds-bind, Holds-self, Holds-returned}
use refactor_tradeoffs.Pipeline.Refactor.Verified.{LeavesFiles, HasCode, SyntaxPassed, Settled}
use refactor_tradeoffs.Pipeline.Refactor.Attempts.{
  Ends, Leaves, LeavesEnd, Reads, Restored, path, rejected_result-Ends, syntax_loop-Leaves,
}

HasCode-same :
    {World : Type 0} (t : AiType) (file : FilePath) (code : Str) (s u : State World)
    → u.files file ≡ s.files file
    → HasCode t file code s
    → HasCode t file code u
HasCode-same traditional file code s u e h = e ∙ h
HasCode-same agent file code s u e h = text_at-same file u.files s.files e ∙ h

module _ {World : Type 0} (job : Job World) {Kept : FilePath → Type 0}
    (quiet : LeavesFiles job.profile Kept) (own : Kept job.unit.file_path)
    (normal : universal_newlines job.original_source ≡ job.original_source) where
  -- The file has the code that is to be tested.
  written :
      (t : AiType) (code : Str) (s : State World)
      → (Reads job quiet own normal) t code s
      → Holds
          (λ _ u. HasCode t (path job quiet own normal) code u)
          (write_if_traditional job t code s)
  unfolding write_if_traditional
  written traditional code s h = write_self (path job quiet own normal) code s.files
  written agent code s h = h.1 refl

  restored :
      (t : AiType) (s : State World)
      → Holds
          (λ _ u. (Restored job quiet own normal) t u)
          (write_if_traditional job t job.original_source s)
  unfolding write_if_traditional
  restored traditional s =
      λ _. text_at-write (path job quiet own normal) job.original_source s.files normal
  restored agent s = λ c. cc

  tested-Ends :
      (again : Progress → Exec (State World) UnitResult) (p : Progress) (code : Str)
      (s u : State World) (passed : Bool) (output : Str)
      → HasCode job.settings.ai_type (path job quiet own normal) code s
      → code ≢ job.original_source
      → SyntaxPassed job.profile code
      → job.profile.correctness_check none s ≡ (ok (passed, output), u)
      → ((q : Progress) (v : State World)
          → (Restored job quiet own normal) job.settings.ai_type v
          → Holds (Ends job quiet own normal) (again q v))
      → Holds (Ends job quiet own normal) (after_check job again p (passed, output) u)
  unfolding after_check
  tested-Ends again p code s u true output found new syntax e k =
      let same : (q : FilePath) → Kept q → u.files q ≡ s.files q =
        λ q kept. sym (ap (λ r. r.1.files q) e) ∙ quiet.correctness_check_leaves none s q kept in
      record {
        rejected = λ c. cc;
        unchanged = λ c. cc;
        verified = λ _ _. record {
          code = code;
          held =
              HasCode-same job.settings.ai_type (path job quiet own normal) code s u (same _ own)
                found;
          changed = new;
          syntax_passed = syntax;
          correctness_passed = record {
            before = s;
            after = u;
            output = output;
            passed = e;
            same_files = λ q kept. sym (same q kept);
          };
        };
      }
  tested-Ends again p code s u false output found new syntax e k =
      Holds-bind (λ _ v. (Restored job quiet own normal) job.settings.ai_type v)
        (Ends job quiet own normal)
        (write_if_traditional job job.settings.ai_type job.original_source) _ u
        (restored job.settings.ai_type u) (λ _ v h. k (next_round job p output) v h)

  check_correctness-Ends :
      (again : Progress → Exec (State World) UnitResult) (p : Progress) (code : Str)
      (s : State World)
      → (Leaves job quiet own normal) (checked p code) s
      → ((q : Progress) (v : State World)
          → (Restored job quiet own normal) job.settings.ai_type v
          → Holds (Ends job quiet own normal) (again q v))
      → Holds (Ends job quiet own normal) (check_correctness job again p code s)
  unfolding check_correctness
  check_correctness-Ends again p code s (reads, new, syntax) k =
      Holds-bind (λ _ u. HasCode job.settings.ai_type (path job quiet own normal) code u)
        (Ends job quiet own normal) (write_if_traditional job job.settings.ai_type code) _ s
        (written job.settings.ai_type code s reads)
        (λ _ t found.
          Holds-bind (λ a u. job.profile.correctness_check none t ≡ (ok a, u))
            (Ends job quiet own normal) (job.profile.correctness_check none)
            (after_check job again p) t (Holds-self (job.profile.correctness_check none t))
            (λ (passed, output) u e.
              tested-Ends again p code t u passed output found new syntax e k))

  correctness_loop-Ends :
      (left : ℕ) (p : Progress) (s : State World)
      → (Restored job quiet own normal) job.settings.ai_type s
      → Holds (Ends job quiet own normal) (correctness_loop job left p s)
  unfolding correctness_loop
  correctness_loop-Ends zero p s h = (rejected_result-Ends job quiet own normal) p s
  correctness_loop-Ends (suc left) p s h =
      Holds-bind (LeavesEnd job quiet own normal) (Ends job quiet own normal)
        (syntax_loop job (suc job.settings.max_syntax_retries) p) _ s
        ((syntax_loop-Leaves job quiet own normal) (suc job.settings.max_syntax_retries) p s h)
        (elim [
          | syntax_returned r ↦ λ t k. k
          | syntax_exhausted q ↦ λ t k. (rejected_result-Ends job quiet own normal) q t
          | syntax_checked q code ↦ λ t k.
              check_correctness-Ends (correctness_loop job left) q code t k
                (λ q' v h'. correctness_loop-Ends left q' v h')
        ])

Settled-files :
    {World : Type 0} (profile : Profile World) (Kept : FilePath → Type 0) (t : AiType)
    (file : FilePath) (original : Str) (r : UnitResult) (s u : State World)
    → u.files ≡ s.files
    → Settled profile Kept t file original r s
    → Settled profile Kept t file original r u
Settled-files profile Kept t file original r s u e h = record {
  rejected = λ a. ap (λ f. f file) e ∙ h.rejected a;
  unchanged = λ a. ap (λ f. text_at f file) e ∙ h.unchanged a;
  verified = λ a b.
      let v = h.verified a b in
      let c = v.correctness_passed in
      record {
        code = v.code;
        held = HasCode-same t file v.code s u (ap (λ f. f file) e) v.held;
        changed = v.changed;
        syntax_passed = v.syntax_passed;
        correctness_passed = record {
          before = c.before;
          after = c.after;
          output = c.output;
          passed = c.passed;
          same_files = λ q kept. c.same_files q kept ∙ sym (ap (λ f. f q) e);
        };
      };
}

module _ {World : Type 0} (setup : Setup World) {Kept : FilePath → Type 0}
    (quiet : LeavesFiles setup.profile Kept) where
  start_session-files :
      (t : AiType) (repo_path : FilePath) (s : State World)
      → Holds (λ _ u. u.files ≡ s.files) (start_session setup t repo_path s)
  unfolding start_session
  start_session-files traditional repo_path s = refl
  start_session-files agent repo_path s = refl

  close_session-Settled :
      (file : FilePath) (original : Str) (session : Option Session)
      (m : Result UnitResult × State World)
      → Holds (Settled setup.profile Kept setup.settings.ai_type file original) m
      → Holds
          (Settled setup.profile Kept setup.settings.ai_type file original)
          (close_session setup session m)
  unfolding close_session
  close_session-Settled file original none (ok r, s) h = h
  close_session-Settled file original none (raised e, s) h = tt
  close_session-Settled file original (some session) (ok r, s) h =
      Settled-files setup.profile Kept setup.settings.ai_type file original r s _ refl h
  close_session-Settled file original (some session) (raised e, s) h = tt

  refactor-Holds :
      (history : History) (message : Str) (repo_path : FilePath) (unit : RefactorUnit)
      (original : Str) (s : State World)
      → Kept unit.file_path
      → text_at s.files unit.file_path ≡ some original
      → Holds
          (Settled setup.profile Kept setup.settings.ai_type unit.file_path original)
          (refactor setup history message repo_path unit s)
  unfolding refactor read_text
  refactor-Holds history message repo_path unit original s own found =
      Holds-bind (λ text u. (text ≡ original) × (u.files ≡ s.files))
        (Settled setup.profile Kept setup.settings.ai_type unit.file_path original)
        (read_text unit.file_path) _ s (rw (found, read_text) (refl, refl))
        (λ text t (same, e). rw same (
          Holds-bind (λ _ u. u.files ≡ t.files)
            (Settled setup.profile Kept setup.settings.ai_type unit.file_path original)
            (start_session setup setup.settings.ai_type repo_path) _ t
            (start_session-files setup.settings.ai_type repo_path t)
            (λ session u f. close_session-Settled unit.file_path original session _ (
              correctness_loop-Ends
                (record { setup = setup; unit = unit; original_source = original }) quiet own
                (text_at-IsRead unit.file_path s.files found)
                (suc setup.settings.max_correctness_retries)
                (start_progress history message session) u
                (λ _. ap (λ g. text_at g unit.file_path) (f ∙ e) ∙ found)))))

  -- Where the checks leave a set of files alone, the unit's own among them, and the unit's file can be read as
  -- text, the original (its ends of lines read as "\n"), a result of `_refactor` says what has become of the
  -- file. Rejected: it holds just this text. Accepted as equal to the original: it is read as the original.
  -- Accepted otherwise: it holds code other than the original (of the type agent: it is read as such code), which
  -- has passed the syntax check, and the correctness check has passed over files that, in that set, are
  -- as they are now.
  pub refactor-Settled :
      (history : History) (message : Str) (repo_path : FilePath) (unit : RefactorUnit)
      (original : Str) (s t : State World) (r : UnitResult)
      → Kept unit.file_path
      → text_at s.files unit.file_path ≡ some original
      → refactor setup history message repo_path unit s ≡ (ok r, t)
      → Settled setup.profile Kept setup.settings.ai_type unit.file_path original r t
  refactor-Settled history message repo_path unit original s t r own found e =
      Holds-returned (Settled setup.profile Kept setup.settings.ai_type unit.file_path original) _
        (refactor-Holds history message repo_path unit original s own found) e
