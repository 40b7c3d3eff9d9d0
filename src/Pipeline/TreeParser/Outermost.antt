-- ===== src/Pipeline/TreeParser/Outermost.antt =====
-- `_collect_functions` records the outermost function nodes of a tree.
use mathlib.Core.List.{append-nil, append_assoc}
use mathlib.Core.Path.{subst}
use mathlib.Core.Logic.{◌↔◌}
use refactor_tradeoffs.Base.{
  ℕ, ◌≡◌, refl, ap, sym, ◌∙◌, inl, inr, true, false, Bool-cases, Option, List, [], ◌∷◌, ◌++◌, Str,
  contains, list_eq, nat_eq, In, In-append, In-append_left, In-append_right, arith,
}
use refactor_tradeoffs.Pipeline.Registry.{Node, node, Nodes, nil, cons}
use refactor_tradeoffs.Pipeline.TreeParser.{
  FunctionInfo, function_info, collect_functions, collect_children,
}

only : (f g : FunctionInfo) → In f (g ∷ []) → f ≡ g
only f g (inl e) = e
only f g (inr h) = elim h [ ]

module _ (function_node_types : List Str) (lines : List Str) where
  -- The tree has a function's node with this information, and no function's node is above it.
  mutual
    pub data Outermost : Node → FunctionInfo → Type 0 where
      here :
          {kind : Str} {name : Option Str} {start_row end_row : ℕ} {children : Nodes}
          → contains function_node_types kind ≡ true
          → Outermost
              (node kind name start_row end_row children)
              (function_info name start_row end_row lines)
      inside :
          {kind : Str} {name : Option Str} {start_row end_row : ℕ} {children : Nodes}
          {f : FunctionInfo}
          → contains function_node_types kind ≡ false
          → OutermostIn children f
          → Outermost (node kind name start_row end_row children) f

    pub data OutermostIn : Nodes → FunctionInfo → Type 0 where
      first :
          {child : Node} {children : Nodes} {f : FunctionInfo}
          → Outermost child f
          → OutermostIn (cons child children) f
      later :
          {child : Node} {children : Nodes} {f : FunctionInfo}
          → OutermostIn children f
          → OutermostIn (cons child children) f

  abbrev functions : Node → List FunctionInfo → List FunctionInfo
  functions = collect_functions function_node_types lines

  abbrev child_functions : Nodes → List FunctionInfo → List FunctionInfo
  child_functions = collect_children function_node_types lines

  -- The list that is passed along only grows.
  mutual
    unfolding collect_functions

    collect_functions-append_onto :
        (n : Node) (results : List FunctionInfo) → functions n results ≡ results ++ functions n []
    collect_functions-append_onto (node kind name s e children) results =
        ground (arith, collect_children-append_onto children results)

    collect_children-append_onto :
        (ns : Nodes) (results : List FunctionInfo)
        → child_functions ns results ≡ results ++ child_functions ns []
    collect_children-append_onto nil results = sym (append-nil results)
    collect_children-append_onto (cons n ns) results =
        collect_children-append_onto ns (functions n results)
        ∙ ap (λ l. l ++ child_functions ns []) (collect_functions-append_onto n results)
        ∙ append_assoc results (functions n []) (child_functions ns [])
        ∙ ap (◌++◌ results) (sym (collect_children-append_onto ns (functions n [])))

  pub collect_functions-append :
      (n : Node) (results : List FunctionInfo) → functions n results ≡ results ++ functions n []
  collect_functions-append n results = collect_functions-append_onto n results

  pub collect_children-cons :
      (n : Node) (ns : Nodes)
      → child_functions (cons n ns) [] ≡ functions n [] ++ child_functions ns []
  unfolding collect_functions
  collect_children-cons n ns = collect_children-append_onto ns (functions n [])

  mutual
    unfolding collect_functions

    Outermost-sound : (n : Node) (f : FunctionInfo) → In f (functions n []) → Outermost n f
    Outermost-sound (node kind name s e children) f h =
        elim (Bool-cases (contains function_node_types kind)) [
          | inl is_function ↦
              subst (Outermost (node kind name s e children)) (sym (only f _ (rw is_function at h)))
                (here is_function)
          | inr other ↦ inside other (Outermost-sound_below children f (rw other at h))
        ]

    Outermost-sound_below :
        (ns : Nodes) (f : FunctionInfo) → In f (child_functions ns []) → OutermostIn ns f
    Outermost-sound_below nil f h = elim h [ ]
    Outermost-sound_below (cons n ns) f h =
        elim (In-append f (functions n []) (child_functions ns [])
          (rw (collect_children-cons n ns) at h)) [
            | inl k ↦ first (Outermost-sound n f k)
            | inr k ↦ later (Outermost-sound_below ns f k)
          ]

  mutual
    unfolding collect_functions

    Outermost-complete : (n : Node) (f : FunctionInfo) → Outermost n f → In f (functions n [])
    Outermost-complete n f (here is_function) = rw is_function (inl refl)
    Outermost-complete n f (inside {children} other below) =
        rw other (Outermost-complete_below children f below)

    Outermost-complete_below :
        (ns : Nodes) (f : FunctionInfo) → OutermostIn ns f → In f (child_functions ns [])
    Outermost-complete_below ns f (first {child} {children} h) =
        rw (collect_children-cons child children)
          (In-append_left f (functions child []) _ (Outermost-complete child f h))
    Outermost-complete_below ns f (later {child} {children} h) =
        rw (collect_children-cons child children)
          (In-append_right f (functions child []) _ (Outermost-complete_below children f h))

  -- What is collected is exactly the information on the tree's outermost function nodes.
  pub collect_functions-Outermost :
      (n : Node) (f : FunctionInfo) → In f (functions n []) ↔ Outermost n f
  collect_functions-Outermost n f = (Outermost-sound n f, Outermost-complete n f)
