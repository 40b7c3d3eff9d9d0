-- ===== src/Pipeline/Checks/EbProfile.antt =====
-- src/pipeline/repository_registry/repositories/engineblock.py: the profile that the pipeline runs
-- with, of the two checks beside this file.
use refactor_tradeoffs.Base.{ℕ, ◌≡◌, ◌≢◌, none, some, Option, List, [], ◌∷◌, Str, codes, FilePath}
use refactor_tradeoffs.Base.Dict.{Dict}
use refactor_tradeoffs.Pipeline.State.{State}
use refactor_tradeoffs.Pipeline.WorkerContext.{get_worker_index}
use refactor_tradeoffs.Pipeline.Refactor.Verified.{LeavesFiles}
use refactor_tradeoffs.Pipeline.Registry.{Profile, Node, register_repository}
use refactor_tradeoffs.Pipeline.Checks.Engineblock.{
  TestScript, correctness_check_eb, run_eb_tests, resolve_index, parse_and_format_eb_test_results,
}
use refactor_tradeoffs.Pipeline.Checks.Php.{LintScript, syntax_check_php, syntax_check_php-leaves}

abbrev pub php_function_nodes : List Str
php_function_nodes =
    codes "function_definition"
    ∷ codes "method_declaration"
    ∷ codes "anonymous_function"
    ∷ codes "arrow_function"
    ∷ []

abbrev pub engineblock_key : Str
engineblock_key = codes "engineblock"

module _ {World : Type 0} (lint : LintScript World) (tests : TestScript World)
    (language_php : Str → Node) (max_reported : ℕ) where
  abbrev pub engineblock : Profile World
  engineblock = record {
    language_name = codes "PHP";
    language_extension = codes "php";
    syntax_check = syntax_check_php lint;
    correctness_check = correctness_check_eb tests max_reported;
    tree_sitter_language = language_php;
    function_node_types = php_function_nodes;
  }

  -- What the module does when it is imported.
  unfoldable pub register_engineblock : Dict Str (Profile World) → Dict Str (Profile World)
  unfolding register_repository
  register_engineblock = register_repository engineblock_key engineblock

  -- The two scripts leave the files that matter alone, and the temporary file is none of them.
  pub record ScriptsLeaveFiles (Kept : FilePath → Type 0) : Type 0 where
    pub temp_apart : (s : State World) (q : FilePath) → Kept q → q ≢ lint.temp_path s
    pub lint_leaves :
        (path : FilePath) (s : State World) (q : FilePath)
        → Kept q
        → (lint.execute path s).1.files q ≡ s.files q
    pub tests_leave :
        (index : ℕ) (s : State World) (q : FilePath)
        → Kept q
        → (tests.execute index s).1.files q ≡ s.files q

  correctness_check_eb-files :
      {Kept : FilePath → Type 0}
      → ScriptsLeaveFiles Kept
      → (index : Option ℕ) (s : State World) (q : FilePath) → Kept q
      → (correctness_check_eb tests max_reported index s).1.files q ≡ s.files q
  unfolding correctness_check_eb run_eb_tests resolve_index parse_and_format_eb_test_results
      get_worker_index
  correctness_check_eb-files h none s q kept = h.tests_leave _ s q kept
  correctness_check_eb-files h (some index) s q kept = h.tests_leave index s q kept

  -- Where the two scripts leave the files that matter alone, and the temporary file of the syntax check is
  -- none of these, the checks of the profile leave them alone, as `_refactor` relies on.
  pub engineblock-LeavesFiles :
      (Kept : FilePath → Type 0) → ScriptsLeaveFiles Kept → LeavesFiles engineblock Kept
  engineblock-LeavesFiles Kept h = record {
    syntax_check_leaves = λ code s q kept.
        syntax_check_php-leaves lint code s q (h.temp_apart s q kept)
          (λ path t. h.lint_leaves path t q kept);
    correctness_check_leaves = λ index s q kept. correctness_check_eb-files h index s q kept;
  }
