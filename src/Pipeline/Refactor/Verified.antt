-- ===== src/Pipeline/Refactor/Verified.antt =====
-- What the runner promises of the file of a unit.
use refactor_tradeoffs.Base.{
  ℕ, ◌≡◌, ◌≢◌, true, false, Option, none, some, Str, FilePath, list_eq, nat_eq, ok,
}
use refactor_tradeoffs.Globals.{AiType, traditional, agent, UnitResult}
use refactor_tradeoffs.Pipeline.State.{State, text_at}
use refactor_tradeoffs.Pipeline.Registry.{Profile}

-- The checks of a profile change none of the files that matter, `Kept`.
pub record LeavesFiles {World : Type 0} (profile : Profile World) (Kept : FilePath → Type 0)
    : Type 0 where
  pub syntax_check_leaves :
      (code : Str) (s : State World) (q : FilePath)
      → Kept q
      → (profile.syntax_check code s).1.files q ≡ s.files q
  pub correctness_check_leaves :
      (index : Option ℕ) (s : State World) (q : FilePath)
      → Kept q
      → (profile.correctness_check index s).1.files q ≡ s.files q

-- A traditional run wrote the code to the file; an agent's was read from it.
abbrev pub HasCode : {World : Type 0} → AiType → FilePath → Str → State World → Type 0
HasCode traditional path code s = s.files path ≡ some code
HasCode agent path code s = text_at s.files path ≡ some code

module _ {World : Type 0} (profile : Profile World) where
  -- A run of the syntax check has accepted the code.
  pub record SyntaxPassed (code : Str) : Type 0 where
    pub before : State World
    pub after : State World
    pub output : Str
    pub passed : profile.syntax_check code before ≡ (ok (true, output), after)

module _ {World : Type 0} (profile : Profile World) (Kept : FilePath → Type 0) where
  -- A run of the correctness check has passed over files that, as far as they are `Kept`, are as in `s`.
  pub record CorrectnessPassed (s : State World) : Type 0 where
    pub before : State World
    pub after : State World
    pub output : Str
    pub passed : profile.correctness_check none before ≡ (ok (true, output), after)
    pub same_files : (q : FilePath) → Kept q → before.files q ≡ s.files q

-- The file holds code that is new and has passed both checks.
pub record Verified {World : Type 0} (profile : Profile World) (Kept : FilePath → Type 0)
    (t : AiType) (path : FilePath) (original : Str) (s : State World) : Type 0 where
  pub code : Str
  pub held : HasCode t path code s
  pub changed : code ≢ original
  pub syntax_passed : SyntaxPassed profile code
  pub correctness_passed : CorrectnessPassed profile Kept s

pub record Settled {World : Type 0} (profile : Profile World) (Kept : FilePath → Type 0)
    (t : AiType) (path : FilePath) (original : Str) (r : UnitResult) (s : State World)
    : Type 0 where
  pub rejected : r.accepted ≡ false → s.files path ≡ some original
  pub unchanged : r.equal_to_original ≡ true → text_at s.files path ≡ some original
  pub verified :
      r.accepted ≡ true → r.equal_to_original ≡ false → Verified profile Kept t path original s
