-- ===== src/Pipeline/TreeParser.antt =====
-- src/pipeline/llm_context/tree_parser.py. The tree-sitter parser is a parameter: the function from
-- a text to its tree, in a `Parsing`.
pub mod FullLines
pub mod Splice
pub mod Relocate
pub mod Outermost
pub mod Rows
pub mod Lines
use refactor_tradeoffs.Base.{
  ℕ, zero, suc, ◌+◌, ◌-◌, ◌≡◌, refl, Bool, true, false, ◌&&◌, not, Option, none, some, List, [],
  ◌∷◌, ◌++◌, Str, codes, is_empty, strip, join, concat, ends_with, splitlines, splitlines_keepends,
  length, take, drop, keep, leb, min, ◌==◌, contains, list_eq, nat_eq, if◌then◌else◌,
}
use refactor_tradeoffs.Pipeline.Registry.{Node, node, Nodes, nil, cons, Parsing}

pub record FunctionInfo : Type 0 where
  pub name : Str
  pub start_line : ℕ
  pub end_line : ℕ
  pub source : Str
  pub loc : ℕ

-- `lines[start : stop]`
abbrev pub slice {ℓ} : {A : Type ℓ} → ℕ → ℕ → List A → List A
slice start stop lines = take (stop - start) (drop start lines)

abbrev pub newline : Str
newline = b'\n' ∷ []

-- `name_node.text.decode()`, where there is a name node with a text.
unfoldable pub function_name : Option Str → Str
unfolding is_empty
function_name none = codes "anonymous"
function_name (some text) = if is_empty text then codes "anonymous" else text

unfoldable pub sloc : List Str → ℕ
unfolding is_empty strip
sloc lines = length (keep (λ line. not (is_empty (strip line))) lines)

-- What is recorded of a function's node.
unfoldable pub function_info : Option Str → ℕ → ℕ → List Str → FunctionInfo
unfolding function_name sloc join
function_info name start_row end_row lines = record {
  name = function_name name;
  start_line = start_row;
  end_line = end_row;
  source = join newline (slice start_row (end_row + 1) lines);
  loc = sloc (slice start_row (end_row + 1) lines);
}

module _ (function_node_types : List Str) (lines : List Str) where
  unfoldable mutual
    unfolding function_info

    pub collect_functions : Node → List FunctionInfo → List FunctionInfo
    collect_functions (node kind name start_row end_row children) results =
        let below = collect_children children results in
        if contains function_node_types kind
        then results ++ (function_info name start_row end_row lines ∷ [])
        else below

    pub collect_children : Nodes → List FunctionInfo → List FunctionInfo
    collect_children nil results = results
    collect_children (cons child children) results =
        collect_children children (collect_functions child results)

unfoldable pub extract_functions : Parsing → Str → ℕ → List FunctionInfo
unfolding collect_functions splitlines
extract_functions parsing source min_loc =
    keep (λ f. leb min_loc f.loc)
      (collect_functions parsing.function_node_types (splitlines source) (parsing.parse source) [])

unfoldable pub replacement : Str → Str
unfolding ends_with
replacement new_function =
    if ends_with new_function newline then new_function else new_function ++ newline

unfoldable pub splice_function : Str → FunctionInfo → Str → Str
unfolding splitlines_keepends concat replacement
splice_function source function_info new_function =
    let lines = splitlines_keepends source in
    let before = take function_info.start_line lines in
    let after = drop (function_info.end_line + 1) lines in
    concat before ++ replacement new_function ++ concat after

-- The one element of a list that has one.
abbrev pub single {ℓ} : {A : Type ℓ} → List A → Option A
single [] = none
single (a ∷ []) = some a
single (a ∷ b ∷ more) = none

abbrev pub by_source : FunctionInfo → List FunctionInfo → List FunctionInfo
by_source function_info = keep (λ fn. fn.source == function_info.source)

abbrev pub by_name : FunctionInfo → List FunctionInfo → List FunctionInfo
by_name function_info = keep (λ fn. fn.name == function_info.name)

unfoldable pub relocate_function : Parsing → Str → FunctionInfo → Option FunctionInfo
unfolding extract_functions
relocate_function parsing source function_info =
    let candidates = extract_functions parsing source 0 in
    elim (single (by_source function_info candidates)) [
      | some fn ↦ some fn
      | none ↦ single (by_name function_info candidates)
    ]

-- What `find_enclosing_function` returns: a function, or the text around the line under the name
-- `global_scope`. `stop_line` is its `end_line + 1`, which is 0 for an empty file.
pub data Enclosing : Type 0 where
  enclosed : FunctionInfo → Enclosing
  around : (start_line stop_line : ℕ) (source : Str) → Enclosing

abbrev pub global_scope : Str
global_scope = codes "global_scope"

abbrev pub enclosing_name : Enclosing → Str
enclosing_name (enclosed fn) = fn.name
enclosing_name (around start_line stop_line source) = global_scope

unfoldable pub first_enclosing : ℕ → List FunctionInfo → Option FunctionInfo
first_enclosing line_number [] = none
first_enclosing line_number (fn ∷ functions) =
    if leb fn.start_line line_number && leb line_number fn.end_line
    then some fn
    else first_enclosing line_number functions

unfoldable pub find_enclosing_function : Parsing → Str → ℕ → Enclosing
unfolding extract_functions first_enclosing splitlines join
find_enclosing_function parsing source line_number =
    elim (first_enclosing line_number (extract_functions parsing source 0)) [
      | some fn ↦ enclosed fn
      | none ↦
          let lines = splitlines source in
          let start_line = line_number - 10 in
          let stop_line = min (length lines) (line_number + 11) in
          around start_line stop_line (join newline (slice start_line stop_line lines))
    ]
