-- ===== src/Pipeline/TreeParser/Rows.antt =====
-- The functions of a file come in the order of its rows and do not overlap.
use refactor_tradeoffs.Base.{
  ℕ, ◌≤◌, Bool, Bool-cases, inl, inr, List, [], ◌∷◌, ◌++◌, Str, contains, list_eq, nat_eq, keep,
  All, leb, arith,
}
use refactor_tradeoffs.Pipeline.Registry.{Node, node, Nodes, nil, cons, Parsing}
use refactor_tradeoffs.Pipeline.TreeParser.{
  FunctionInfo, function_info, collect_functions, collect_children, extract_functions,
}
use refactor_tradeoffs.Pipeline.TreeParser.Outermost.{collect_children-cons}

abbrev pub end_row_of : Node → ℕ
end_row_of (node kind name start_row end_row children) = end_row

-- What tree-sitter documents of the rows of a node: it ends no sooner than it begins, its children
-- lie inside it, and one child begins no sooner than the one before it ends.
unfoldable mutual
  pub Nested : ℕ → ℕ → Node → Type 0
  Nested lo hi (node kind name start_row end_row children) =
      (lo ≤ start_row)
      × (start_row ≤ end_row)
      × (end_row ≤ hi)
      × NestedIn start_row end_row children

  pub NestedIn : ℕ → ℕ → Nodes → Type 0
  NestedIn lo hi nil = lo ≤ hi
  NestedIn lo hi (cons child children) =
      Nested lo (end_row_of child) child × NestedIn (end_row_of child) hi children

-- Functions between the rows `lo` and `hi`, one behind the other.
abbrev pub IsOrdered : ℕ → ℕ → List FunctionInfo → Type 0
IsOrdered lo hi [] = lo ≤ hi
IsOrdered lo hi (f ∷ fs) =
    (lo ≤ f.start_line) × (f.start_line ≤ f.end_line) × IsOrdered f.end_line hi fs

IsOrdered-widen :
    (lo lo' hi hi' : ℕ) (fs : List FunctionInfo)
    → lo' ≤ lo
    → hi ≤ hi'
    → IsOrdered lo hi fs
    → IsOrdered lo' hi' fs
IsOrdered-widen lo lo' hi hi' [] a b h = omega arith
IsOrdered-widen lo lo' hi hi' (f ∷ fs) a b h =
    (omega arith, h.1, IsOrdered-widen f.end_line f.end_line hi hi' fs (omega arith) b h.2)

IsOrdered-append :
    (lo mid hi : ℕ) (fs gs : List FunctionInfo)
    → IsOrdered lo mid fs
    → IsOrdered mid hi gs
    → IsOrdered lo hi (fs ++ gs)
IsOrdered-append lo mid hi [] gs h k = IsOrdered-widen mid lo hi hi gs h (omega arith) k
IsOrdered-append lo mid hi (f ∷ fs) gs h k =
    (h.0, h.1, IsOrdered-append f.end_line mid hi fs gs h.2 k)

IsOrdered-keep :
    (p : FunctionInfo → Bool) (lo hi : ℕ) (fs : List FunctionInfo)
    → IsOrdered lo hi fs
    → IsOrdered lo hi (keep p fs)
IsOrdered-keep p lo hi [] h = h
IsOrdered-keep p lo hi (f ∷ fs) h = elim (Bool-cases (p f)) [
  | inl e ↦ rw e (h.0, h.1, IsOrdered-keep p f.end_line hi fs h.2)
  | inr e ↦ rw e (
      IsOrdered-widen f.end_line lo hi hi (keep p fs) (omega arith) (omega arith)
        (IsOrdered-keep p f.end_line hi fs h.2))
]

keep-All :
    (min_loc : ℕ) (fs : List FunctionInfo)
    → All (λ f. min_loc ≤ f.loc) (keep (λ f. leb min_loc f.loc) fs)
keep-All min_loc [] = tt
keep-All min_loc (f ∷ fs) = ground (arith, keep-All min_loc fs)

module _ (types : List Str) (lines : List Str) where
  mutual
    unfolding collect_functions Nested function_info

    collect_functions-IsOrdered :
        (lo hi : ℕ) (n : Node)
        → Nested lo hi n
        → IsOrdered lo hi (collect_functions types lines n [])
    collect_functions-IsOrdered lo hi (node kind name s e children) h =
        elim (Bool-cases (contains types kind)) [
          | inl t ↦ rw t (h.0, h.1, h.2)
          | inr t ↦
              rw t
                (IsOrdered-widen s lo e hi _ h.0 h.2 (collect_children-IsOrdered s e children h.3))
        ]

    collect_children-IsOrdered :
        (lo hi : ℕ) (ns : Nodes)
        → NestedIn lo hi ns
        → IsOrdered lo hi (collect_children types lines ns [])
    collect_children-IsOrdered lo hi nil h = h
    collect_children-IsOrdered lo hi (cons n ns) h = rw (collect_children-cons types lines n ns) (
        IsOrdered-append lo (end_row_of n) hi (collect_functions types lines n []) _
          (collect_functions-IsOrdered lo (end_row_of n) n h.0)
          (collect_children-IsOrdered (end_row_of n) hi ns h.1))

-- If the tree of a file is nested as tree-sitter's are, the functions that are extracted have at
-- least `min_loc` lines of code, and each begins no sooner than the one before it ends.
pub extract_functions-IsOrdered :
    (parsing : Parsing) (source : Str) (min_loc hi : ℕ)
    → Nested 0 hi (parsing.parse source)
    → IsOrdered 0 hi (extract_functions parsing source min_loc)
      × All (λ f. min_loc ≤ f.loc) (extract_functions parsing source min_loc)
unfolding extract_functions
extract_functions-IsOrdered parsing source min_loc hi h = (
  IsOrdered-keep _ 0 hi _
      (collect_functions-IsOrdered parsing.function_node_types _ 0 hi (parsing.parse source) h),
  keep-All min_loc _,
)
