-- ===== src/Pipeline/Refactor/Attempts.antt =====
-- What an attempt, and the inner loop of `_refactor`, leave in the file of a unit.
use mathlib.Core.Logic.{if_pos, if_neg}
use refactor_tradeoffs.Base.{
  ℕ, zero, suc, ◌≡◌, ◌≢◌, refl, ap, sym, ◌∙◌, ◌⊎◌, Bool, true, false, Option, none, some,
  Option-cases, inl, inr, Str, FilePath, list_eq, nat_eq, if◌then◌else◌, Result, ok, raised,
  llm_call_failed, pure, ◌>>=◌, arith,
}
use refactor_tradeoffs.Globals.{AiType, traditional, agent, UnitResult}
use refactor_tradeoffs.Pipeline.State.{
  State, read_text, write_self, text_at, text_at-same, text_at-write,
}
use refactor_tradeoffs.Base.Newlines.{universal_newlines}
use refactor_tradeoffs.Pipeline.VllmClient.{TokenUsage, History, chat}
use refactor_tradeoffs.Pipeline.OpenHands.{send}
use refactor_tradeoffs.Pipeline.Refactor.{
  Job, Progress, Attempt, returned, checked, retry, SyntaxEnd, syntax_returned, syntax_checked,
  syntax_exhausted, rejected_result, ask, counted, code_to_check, check_syntax, judge, attempt,
  syntax_loop, result, on_llm_failure,
}
use refactor_tradeoffs.Pipeline.Refactor.Rules.{Holds, Holds-bind, Holds-any, Holds-self}
use refactor_tradeoffs.Pipeline.Refactor.Verified.{LeavesFiles, SyntaxPassed, Settled}

module _ {World : Type 0} (job : Job World) {Kept : FilePath → Type 0}
    (quiet : LeavesFiles job.profile Kept) (own : Kept job.unit.file_path)
    (normal : universal_newlines job.original_source ≡ job.original_source) where
  abbrev pub path : FilePath
  path = job.unit.file_path

  abbrev pub Ends : UnitResult → State World → Type 0
  Ends = Settled job.profile Kept job.settings.ai_type path job.original_source

  -- Between the attempts a traditional run has the original file.
  abbrev pub Restored : AiType → State World → Type 0
  Restored t s = t ≡ traditional → text_at s.files path ≡ some job.original_source

  -- The file is the original, or what the agent wrote and the runner has read.
  abbrev pub Reads : AiType → Str → State World → Type 0
  Reads t code s = Restored t s × (t ≡ agent → text_at s.files path ≡ some code)

  read_text-Holds :
      (p : FilePath) (s : State World)
      → Holds (λ text u. (text_at u.files p ≡ some text) × (u.files ≡ s.files)) (read_text p s)
  unfolding read_text
  read_text-Holds p s = elim (Option-cases (text_at s.files p)) [
    | inl e ↦ rw (e, read_text) tt
    | inr (text, e) ↦ rw (e, read_text) (e, refl)
  ]

  chat-Holds :
      (history : History) (message : Str) (s : State World)
      → Holds (λ _ u. u.files ≡ s.files) (chat job.services.complete history message s)
  unfolding chat
  chat-Holds history message s = ground arith

  ask-Reads :
      (t : AiType) (p : Progress) (s : State World)
      → Restored t s
      → Holds (λ r u. Reads t r.1 u) (ask job t p s)
  unfolding ask
  ask-Reads traditional p s h =
      Holds-bind (λ _ u. u.files ≡ s.files) (λ r u. Reads traditional r.1 u)
        (chat job.services.complete p.history p.message) _ s (chat-Holds p.history p.message s)
        (λ r u e. ((λ _. ap (λ f. text_at f path) e ∙ h refl), λ c. cc))
  ask-Reads agent p s h = elim (Option-cases p.session) [
    | inl e ↦ rw (e, ask) tt
    | inr (session, e) ↦
        rw (e, ask)
          (Holds-bind (λ _ _. Unit {0}) (λ r u. Reads agent r.1 u)
            (send job.services.converse session p.message) _ s (Holds-any _)
            (λ r u _.
              Holds-bind (λ text v. (text_at v.files path ≡ some text) × (v.files ≡ u.files))
                (λ r u. Reads agent r.1 u) (read_text path) _ u (read_text-Holds path u)
                (λ text v (found, _). ((λ c. cc), λ _. found))))
  ]

  -- The candidate is what the agent wrote.
  abbrev Offers : AiType → Option Str → State World → Type 0
  Offers t candidate u =
      Restored t u
      × ((code : Str) → candidate ≡ some code → t ≡ agent → text_at u.files path ≡ some code)

  code_to_check-Offers :
      (t : AiType) (code : Str) (s : State World)
      → Reads t code s
      → Holds (λ c u. Offers t c u) (code_to_check job t code s)
  unfolding code_to_check
  code_to_check-Offers traditional code s h =
      Holds-bind (λ text v. (text_at v.files path ≡ some text) × (v.files ≡ s.files))
        (λ c u. Offers traditional c u) (read_text path) _ s (read_text-Holds path s)
        (λ text v (found, e). ((λ _. ap (λ f. text_at f path) e ∙ h.0 refl), λ _ _ c. cc))
  code_to_check-Offers agent code s h = ((λ c. cc), λ d e _. h.1 refl ∙ e)

  pub rejected_result-Ends : (p : Progress) (s : State World) → Holds Ends (rejected_result job p s)
  unfolding rejected_result
  rejected_result-Ends p s = record {
    rejected = λ _. write_self path job.original_source s.files;
    unchanged = λ _. text_at-write path job.original_source s.files normal;
    verified = λ e _. cc;
  }

  -- What an attempt leaves behind.
  abbrev pub Leaves : Attempt → State World → Type 0
  Leaves (returned r) u = Ends r u
  Leaves (checked q code) u =
      Reads job.settings.ai_type code u
      × (code ≢ job.original_source)
      × SyntaxPassed job.profile code
  Leaves (retry q) u = Restored job.settings.ai_type u

  Reads-same :
      (t : AiType) (code : Str) (s u : State World)
      → u.files path ≡ s.files path
      → Reads t code s
      → Reads t code u
  Reads-same t code s u e h =
      let same = text_at-same path u.files s.files e in ((λ c. same ∙ h.0 c), λ c. same ∙ h.1 c)

  decided-Leaves :
      (passed : Bool) (output : Str) (p q : Progress) (code : Str) (s u : State World)
      → job.profile.syntax_check code s ≡ (ok (passed, output), u)
      → Reads job.settings.ai_type code u
      → code ≢ job.original_source
      → Leaves (if passed then checked p code else retry q) u
  decided-Leaves true output p q code s u e h new =
      (h, new, record { before = s; after = u; output = output; passed = e })
  decided-Leaves false output p q code s u e h new = h.0

  check_syntax-Leaves :
      (p : Progress) (code : Str) (s : State World)
      → Reads job.settings.ai_type code s
      → code ≢ job.original_source
      → Holds Leaves (check_syntax job p code s)
  unfolding check_syntax
  check_syntax-Leaves p code s h new =
      let m = job.profile.syntax_check code s in
      Holds-bind (λ a u. m ≡ (ok a, u)) Leaves (job.profile.syntax_check code) _ s (Holds-self m)
        (λ (passed, output) u e.
          decided-Leaves passed output p _ code s u e
            (Reads-same job.settings.ai_type code s u
              (sym (ap (λ r. r.1.files path) e) ∙ quiet.syntax_check_leaves code s path own) h)
            new)

  AiType-cases : (t : AiType) → (t ≡ traditional) ⊎ (t ≡ agent)
  AiType-cases traditional = inl refl
  AiType-cases agent = inr refl

  same_text-Ends :
      (p : Progress) (code : Str) (s : State World)
      → Reads job.settings.ai_type code s
      → code ≡ job.original_source
      → Ends (result job true true p) s
  same_text-Ends p code s h e = record {
    rejected = λ c. cc;
    unchanged =
        λ _. elim (AiType-cases job.settings.ai_type) [ inl t ↦ h.0 t | inr t ↦ h.1 t ∙ ap some e ];
    verified = λ _ c. cc;
  }

  judge-Leaves :
      (p : Progress) (candidate : Option Str) (s : State World)
      → Offers job.settings.ai_type candidate s
      → Holds Leaves (judge job p candidate s)
  unfolding judge
  judge-Leaves p none s h =
      Holds-bind Ends Leaves (rejected_result job p) _ s (rejected_result-Ends p s) (λ r u k. k)
  judge-Leaves p (some code) s h = elim (list_eq.dec code job.original_source) [
    | yes e ↦ rw (if_pos _ e) (same_text-Ends p code s (h.0, h.1 code refl) e)
    | no n ↦ rw (if_neg _ n) (check_syntax-Leaves p code s (h.0, h.1 code refl) n)
  ]

  attempt-Leaves :
      (p : Progress) (s : State World)
      → Restored job.settings.ai_type s
      → Holds Leaves (attempt job p s)
  unfolding attempt
  attempt-Leaves p s h = go _ _ (ask-Reads job.settings.ai_type p s h)
    where
      go :
          (r : Result (Progress × Str × TokenUsage)) (t : State World)
          → Holds (λ r u. Reads job.settings.ai_type r.1 u) (r, t)
          → Holds Leaves (
              on_llm_failure r
                (rejected_result job p >>= λ r. pure (returned r))
                (λ (q, code, usage). code_to_check job job.settings.ai_type code >>= λ candidate.
                  judge job (counted q usage) candidate)
                t)
      go (ok (q, code, usage)) t k =
          Holds-bind (λ c u. Offers job.settings.ai_type c u) Leaves
            (code_to_check job job.settings.ai_type code) _ t
            (code_to_check-Offers job.settings.ai_type code t k)
            (λ candidate u o. judge-Leaves (counted q usage) candidate u o)
      go (raised llm_call_failed) t k =
          Holds-bind Ends Leaves (rejected_result job p) _ t (rejected_result-Ends p t) (λ r u e. e)
      go (raised _) t k = tt

  -- How the inner loop leaves the file.
  abbrev pub LeavesEnd : SyntaxEnd → State World → Type 0
  LeavesEnd (syntax_returned r) u = Ends r u
  LeavesEnd (syntax_checked q code) u = Leaves (checked q code) u
  LeavesEnd (syntax_exhausted q) u = Unit

  pub syntax_loop-Leaves :
      (left : ℕ) (p : Progress) (s : State World)
      → Restored job.settings.ai_type s
      → Holds LeavesEnd (syntax_loop job left p s)
  unfolding syntax_loop
  syntax_loop-Leaves zero p s h = tt
  syntax_loop-Leaves (suc left) p s h =
      Holds-bind Leaves LeavesEnd (attempt job p) _ s (attempt-Leaves p s h) (elim [
        | returned r ↦ λ t k. k
        | checked q code ↦ λ t k. k
        | retry q ↦ λ t k. syntax_loop-Leaves left q t k
      ])
