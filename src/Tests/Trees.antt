-- ===== src/Tests/Trees.antt =====
-- The theorems on the tree parser and the parsing of replies at concrete inputs.
use refactor_tradeoffs.Base.{
  ◌≤◌, ◌≡◌, refl, inl, inr, ◌⊎◌, ◌↔◌, some, [], ◌∷◌, ◌++◌, codes, concat, splitlines_keepends,
  splitlines, In, All, take, drop, list_eq, nat_eq, arith,
}
use refactor_tradeoffs.Pipeline.TreeParser.{
  FunctionInfo, collect_functions, extract_functions, splice_function, replacement,
  relocate_function, find_enclosing_function, enclosing_name, global_scope,
}
use refactor_tradeoffs.Pipeline.TreeParser.Splice.{splitlines_keepends-splice_function}
use refactor_tradeoffs.Pipeline.TreeParser.Relocate.{
  IsOnly, candidates, same_source, same_name, relocate_function-IsOnly,
}
use refactor_tradeoffs.Pipeline.TreeParser.Outermost.{Outermost, collect_functions-Outermost}
use refactor_tradeoffs.Pipeline.TreeParser.Rows.{Nested, IsOrdered, extract_functions-IsOrdered}
use refactor_tradeoffs.Pipeline.TreeParser.Lines.{
  Answers, find_enclosing_function-Answers, find_enclosing_function-last_line,
}
use refactor_tradeoffs.Pipeline.Utils.{parse_refactored_code}
use refactor_tradeoffs.Pipeline.Utils.{fence}
use refactor_tradeoffs.Pipeline.Utils.Fences.{parse_refactored_code-tagged}
use refactor_tradeoffs.Tests.{source, tree, parsing, f}

splitlines_keepends-splice_function_example :
    splitlines_keepends (splice_function source f (codes "k"))
    ≡ take 0 (splitlines_keepends source)
      ++ (splitlines_keepends (replacement (codes "k")) ++ drop 2 (splitlines_keepends source))
unfolding splitlines_keepends concat nat_eq
splitlines_keepends-splice_function_example =
    splitlines_keepends-splice_function source f (codes "k") (inr refl) (inl (codes "f\ng", refl))

relocate_finds : relocate_function parsing source f ≡ some f
unfolding relocate_function list_eq nat_eq
relocate_finds = refl

relocate_function-IsOnly_example :
    IsOnly (same_source parsing source f) f (candidates parsing source f)
    ⊎ (IsOnly (same_name parsing source f) f (candidates parsing source f)
        × ((g : FunctionInfo)
            → ¬ IsOnly (same_source parsing source f) g (candidates parsing source f)))
relocate_function-IsOnly_example = relocate_function-IsOnly parsing source f f relocate_finds

collect_functions-Outermost_example :
    In f (collect_functions (codes "function" ∷ []) (splitlines source) tree [])
    ↔ Outermost (codes "function" ∷ []) (splitlines source) tree f
collect_functions-Outermost_example =
    collect_functions-Outermost (codes "function" ∷ []) (splitlines source) tree f

tree-Nested : Nested 0 2 tree
unfolding Nested
tree-Nested = (
  omega arith,
  omega arith,
  omega arith,
  ((omega arith, omega arith, omega arith, omega arith), omega arith),
)

extract_functions-IsOrdered_example :
    IsOrdered 0 2 (extract_functions parsing source 1)
    × All (λ g. 1 ≤ g.loc) (extract_functions parsing source 1)
extract_functions-IsOrdered_example = extract_functions-IsOrdered parsing source 1 2 tree-Nested

find_enclosing_function-Answers_example :
    Answers (extract_functions parsing source 0) 1 (find_enclosing_function parsing source 1)
find_enclosing_function-Answers_example = find_enclosing_function-Answers parsing source 1

f_extracted : extract_functions parsing source 0 ≡ f ∷ []
unfolding extract_functions list_eq nat_eq
f_extracted = refl

find_enclosing_function-last_line_example :
    enclosing_name (find_enclosing_function parsing source 2) ≡ global_scope
find_enclosing_function-last_line_example =
    find_enclosing_function-last_line parsing source f f_extracted

parse_refactored_code-tagged_example :
    parse_refactored_code (fence ++ (codes "c\n" ++ (codes "f\ng" ++ (b'\n' ∷ fence))))
    ≡ codes "f\ng"
parse_refactored_code-tagged_example =
    parse_refactored_code-tagged b'c' [] (codes "f\ng")
      (((λ e. omega arith), (λ e. omega arith)), tt)
      ((λ e. omega arith), ((λ e. omega arith), ((λ e. omega arith), tt)))
