-- ===== src/Pipeline/Units/Issues.antt =====
-- The issues of an active run: their groups by function, and what is asked for a group. From
-- `_build_units_active` of src/pipeline/runner.py.
use refactor_tradeoffs.Base.{
  ℕ, ◌+◌, Bool, ◌&&◌, List, [], ◌∷◌, ◌++◌, Str, codes, is_space, is_empty, join, concat, show,
  FilePath, to_path, ◌==◌, list_eq, nat_eq, if◌then◌else◌,
}
use refactor_tradeoffs.Pipeline.TreeParser.{
  FunctionInfo, Enclosing, enclosed, around, global_scope, newline,
}

pub record SonarQubeIssue : Type 0 where
  pub rule_key : Str
  pub severity : Str
  pub file_path : Str
  pub line : ℕ
  pub debt_minutes : ℕ
  pub message : Str

-- The part behind the first colon, and the whole where there is none.
unfoldable pub behind_colon : Str → Str → Str
behind_colon whole [] = whole
behind_colon whole (c ∷ s) = if c == b':' then s else behind_colon whole s

-- The issue's path in the repository.
unfoldable pub relative_path : SonarQubeIssue → FilePath
unfolding behind_colon to_path
relative_path issue = to_path (behind_colon issue.file_path issue.file_path)

-- An entry of `groups`, which keeps `group_order` too: its key is the path and the name and first
-- line of the function.
pub record Group : Type 0 where
  pub absolute_path : FilePath
  pub fn_info : FunctionInfo
  pub issues : List SonarQubeIssue

unfoldable pub same_group : FilePath → FunctionInfo → Group → Bool
same_group path fn g =
    (g.absolute_path == path)
    && ((g.fn_info.name == fn.name) && (g.fn_info.start_line == fn.start_line))

unfoldable pub add_issue : FilePath → FunctionInfo → SonarQubeIssue → List Group → List Group
unfolding same_group
add_issue path fn issue [] = record { absolute_path = path; fn_info = fn; issues = issue ∷ [] } ∷ []
add_issue path fn issue (g ∷ groups) =
    if same_group path fn g
    then record g { issues = g.issues ++ (issue ∷ []) } ∷ groups
    else g ∷ add_issue path fn issue groups

unfoldable pub add_enclosed : FilePath → Enclosing → SonarQubeIssue → List Group → List Group
unfolding add_issue
add_enclosed path (around _ _ _) issue groups = groups
add_enclosed path (enclosed fn) issue groups =
    if fn.name == global_scope then groups else add_issue path fn issue groups

-- `1. At line 3: ...` and so on.
unfoldable pub numbered : ℕ → List SonarQubeIssue → List Str
unfolding concat show
numbered i [] = []
numbered i (issue ∷ issues) =
    concat (show i ∷ codes ". At line " ∷ show issue.line ∷ codes ": " ∷ issue.message ∷ [])
    ∷ numbered (i + 1) issues

unfoldable pub rstrip : Str → Str
unfolding is_space is_empty
rstrip [] = []
rstrip (c ∷ s) = let rest = rstrip s in if is_empty rest && is_space c then [] else c ∷ rest

unfoldable pub active_task : Str → Str → List SonarQubeIssue → Str
unfolding concat show rstrip numbered join
active_task place reference (issue ∷ []) = concat (
    codes "Fix the SonarQube issue: "
    ∷ issue.message
    ∷ codes " "
    ∷ place
    ∷ codes "at line "
    ∷ show issue.line
    ∷ reference
    ∷ codes ". Do not change the function "
    ∷ codes "signature of affected functions."
    ∷ [])
active_task place reference issues = concat (
    rstrip (codes "Fix the following SonarQube issues " ++ place)
    ∷ reference
    ∷ codes ":\n"
    ∷ join newline (numbered 1 issues)
    ∷ codes "\n\n"
    ∷ codes "Do not change the function signature of affected "
    ∷ codes "functions."
    ∷ [])

unfoldable pub function_reference : FunctionInfo → Str
unfolding concat
function_reference fn =
    if fn.name == global_scope
    then []
    else concat (codes " inside the function `" ∷ fn.name ∷ codes "`" ∷ [])
