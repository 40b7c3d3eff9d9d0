-- ===== src/Pipeline/TreeParser/Lines.antt =====
-- Which function `find_enclosing_function` takes a line number to.
use refactor_tradeoffs.Base.{
  ℕ, ◌+◌, ◌≤◌, ◌≡◌, inl, inr, none, some, Option-cases, Bool-cases, ◌&&◌, leb, In, List, [], ◌∷◌,
  All, Str, arith,
}
use refactor_tradeoffs.Pipeline.Registry.{Parsing}
use refactor_tradeoffs.Pipeline.TreeParser.{
  FunctionInfo, Enclosing, enclosed, around, enclosing_name, global_scope, extract_functions,
  first_enclosing, find_enclosing_function,
}

abbrev pub Covers : ℕ → FunctionInfo → Type 0
Covers line_number fn = (fn.start_line ≤ line_number) × (line_number ≤ fn.end_line)

first_enclosing-some :
    (line_number : ℕ) (fns : List FunctionInfo) (fn : FunctionInfo)
    → first_enclosing line_number fns ≡ some fn
    → In fn fns × Covers line_number fn
unfolding first_enclosing
first_enclosing-some line_number [] fn h = cc
first_enclosing-some line_number (f ∷ fns) fn h =
    elim (Bool-cases (leb f.start_line line_number && leb line_number f.end_line)) [
      | inl hit ↦ (inl (ground arith), ground arith)
      | inr miss ↦
          let (member, covers) = first_enclosing-some line_number fns fn (ground arith) in
          (inr member, covers)
    ]

first_enclosing-none :
    (line_number : ℕ) (fns : List FunctionInfo)
    → first_enclosing line_number fns ≡ none
    → All (λ f. ¬ Covers line_number f) fns
unfolding first_enclosing
first_enclosing-none line_number [] h = tt
first_enclosing-none line_number (f ∷ fns) h = ground (arith, first_enclosing-none line_number fns)

-- The answer is a function of the file whose rows hold the number or, under the name
-- `global_scope`, says that no function's rows do.
abbrev pub Answers : List FunctionInfo → ℕ → Enclosing → Type 0
Answers fns line_number (enclosed fn) = In fn fns × Covers line_number fn
Answers fns line_number (around start_line stop_line source) = All (λ f. ¬ Covers line_number f) fns

module _ (parsing : Parsing) (source : Str) where
  -- For every line number the answer is a function of the file whose rows hold the number, or is
  -- global scope and then no function's rows hold it.
  pub find_enclosing_function-Answers :
      (line_number : ℕ)
      → Answers
          (extract_functions parsing source 0)
          line_number
          (find_enclosing_function parsing source line_number)
  unfolding find_enclosing_function
  find_enclosing_function-Answers line_number =
      elim (Option-cases (first_enclosing line_number (extract_functions parsing source 0))) [
        | inl e ↦ rw (e, find_enclosing_function) (first_enclosing-none line_number _ e)
        | inr (fn, e) ↦ rw (e, find_enclosing_function) (first_enclosing-some line_number _ fn e)
      ]

  -- Rows count from 0 and the lines of an issue from 1, so the last line of a file's only function
  -- has the number `end_line + 1`: it is taken for global scope.
  pub find_enclosing_function-last_line :
      (fn : FunctionInfo)
      → extract_functions parsing source 0 ≡ fn ∷ []
      → enclosing_name (find_enclosing_function parsing source (fn.end_line + 1)) ≡ global_scope
  unfolding find_enclosing_function first_enclosing
  find_enclosing_function-last_line fn h = rw (h, find_enclosing_function) (ground arith)
