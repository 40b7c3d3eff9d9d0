-- ===== src/Pipeline/Refactor/Frame.antt =====
-- A traditional run touches no file but the unit's own, however it ends.
use refactor_tradeoffs.Base.{◌≡◌, ◌≢◌, refl, ◌∙◌, Option, Str, FilePath}
use refactor_tradeoffs.Globals.{AiType, traditional, agent}
use refactor_tradeoffs.Pipeline.State.{State, write_ne}
use refactor_tradeoffs.Pipeline.VllmClient.{History}
use refactor_tradeoffs.Pipeline.Refactor.{Setup, refactor, RefactorUnit}
use refactor_tradeoffs.Pipeline.Refactor.Verified.{LeavesFiles}
use refactor_tradeoffs.Pipeline.Refactor.Invariant.{Stays, refactor-Keeps_each}

-- At `q` the files are as they were.
abbrev pub HasAt : {World : Type 0} → FilePath → Option Str → State World → Type 0
HasAt q text s = s.files q ≡ text

not_agent : {t : AiType} → t ≡ traditional → t ≢ agent
not_agent e f = cc

module _ {World : Type 0} (setup : Setup World) {Kept : FilePath → Type 0}
    (quiet : LeavesFiles setup.profile Kept) where
  pub HasAt-Stays :
      (repo_path q : FilePath) (text : Option Str)
      → setup.settings.ai_type ≡ traditional
      → Kept q
      → Stays setup repo_path (λ path. q ≢ path) (HasAt q text)
  HasAt-Stays repo_path q text mode kept = record {
    writes = λ path new s other e. write_ne path new s.files q other ∙ e;
    completes = λ world s e. e;
    opens = λ other. absurd (not_agent mode other);
    converses = λ other. absurd (not_agent mode other);
    syntax_checks = λ code s e. quiet.syntax_check_leaves code s q kept ∙ e;
    correctness_checks = λ index s e. quiet.correctness_check_leaves index s q kept ∙ e;
  }

  -- Of the type `traditional`, `_refactor` changes no file but the unit's own among those that the checks
  -- leave alone, whether it returns a result or raises.
  pub refactor-Keeps :
      (history : History) (message : Str) (repo_path : FilePath) (unit : RefactorUnit)
      (s : State World) (q : FilePath)
      → setup.settings.ai_type ≡ traditional
      → Kept q
      → q ≢ unit.file_path
      → (refactor setup history message repo_path unit s).1.files q ≡ s.files q
  refactor-Keeps history message repo_path unit s q mode kept other =
      refactor-Keeps_each setup (HasAt q (s.files q))
        (HasAt-Stays repo_path q (s.files q) mode kept) history message unit other s refl
