-- ===== src/Pipeline/Units/Grouping.antt =====
-- What the grouping of `_build_units_active` promises: one unit for a function.
use mathlib.Core.Path.{subst}
use refactor_tradeoffs.Base.{
  ◌≡◌, ◌≢◌, refl, sym, inl, inr, false, Bool-cases, List, [], ◌∷◌, map, FilePath, All, ◌==◌,
  list_eq, nat_eq, ok, arith,
}
use refactor_tradeoffs.Globals.{AiType}
use refactor_tradeoffs.Pipeline.State.{State, read_text}
use refactor_tradeoffs.Pipeline.TreeParser.{FunctionInfo, Enclosing, enclosed, around, global_scope}
use refactor_tradeoffs.Pipeline.Refactor.{RefactorUnit, Setup}
use refactor_tradeoffs.Pipeline.Refactor.Rules.{
  Holds, Holds-bind, Holds-any, Holds-weaken, Holds-returned,
}
use refactor_tradeoffs.Pipeline.Units.{
  SonarQubeIssue, Group, same_group, add_issue, add_enclosed, active_unit, group_issues,
  build_units_active, for_each, location,
}

-- A function of a file.
abbrev pub Place : Type 0
Place = FilePath × FunctionInfo

-- The same path, name and first line.
abbrev pub SamePlace : Place → Place → Type 0
SamePlace (path, fn) (path', fn') =
    (path ≡ path') × (fn.name ≡ fn'.name) × (fn.start_line ≡ fn'.start_line)

abbrev pub Distinct : List Place → Type 0
Distinct [] = Unit
Distinct (k ∷ ks) = All (λ j. ¬ SamePlace k j) ks × Distinct ks

abbrev pub unit_place : RefactorUnit → Place
unit_place u = (u.file_path, u.function_info)

abbrev pub group_place : Group → Place
group_place g = (g.absolute_path, g.fn_info)

abbrev IsNamed : Place → Type 0
IsNamed k = k.1.name ≢ global_scope

same_group-false :
    (path : FilePath) (fn : FunctionInfo) (g : Group)
    → same_group path fn g ≡ false
    → ¬ SamePlace (group_place g) (path, fn)
unfolding same_group
same_group-false path fn g e (p, n, l) = ground arith

module _ (path : FilePath) (fn : FunctionInfo) (issue : SonarQubeIssue) where
  pub add_issue-All :
      (P : Place → Type 0) (groups : List Group)
      → P (path, fn)
      → All P (map group_place groups)
      → All P (map group_place (add_issue path fn issue groups))
  unfolding add_issue
  add_issue-All P [] p h = (p, tt)
  add_issue-All P (g ∷ groups) p h = elim (Bool-cases (same_group path fn g)) [
    | inl same ↦ rw same h
    | inr other ↦ rw other (h.0, add_issue-All P groups p h.1)
  ]

  add_issue-Distinct :
      (groups : List Group)
      → Distinct (map group_place groups)
      → Distinct (map group_place (add_issue path fn issue groups))
  unfolding add_issue
  add_issue-Distinct [] h = (tt, tt)
  add_issue-Distinct (g ∷ groups) h = elim (Bool-cases (same_group path fn g)) [
    | inl same ↦ rw same h
    | inr other ↦ rw other (
      add_issue-All (λ j. ¬ SamePlace (group_place g) j) groups (same_group-false path fn g other)
          h.0,
      add_issue-Distinct groups h.1,
    )
  ]

-- The groups are of functions that are not global scope, and one for each.
abbrev pub IsGrouped : List Place → Type 0
IsGrouped ks = Distinct ks × All IsNamed ks

add_enclosed-IsGrouped :
    (path : FilePath) (found : Enclosing) (issue : SonarQubeIssue) (groups : List Group)
    → IsGrouped (map group_place groups)
    → IsGrouped (map group_place (add_enclosed path found issue groups))
unfolding add_enclosed
add_enclosed-IsGrouped path (around _ _ _) issue groups h = h
add_enclosed-IsGrouped path (enclosed fn) issue groups h =
    elim (Bool-cases (fn.name == global_scope)) [
      | inl skipped ↦ rw skipped h
      | inr other ↦ rw other (
        add_issue-Distinct path fn issue groups h.0,
        add_issue-All path fn issue IsNamed groups (λ e. ground arith) h.1,
      )
    ]

module _ {World : Type 0} where
  active_unit-place :
      (ai_type : AiType) (repo_path : FilePath) (g : Group) (s : State World)
      → Holds (λ u _. unit_place u ≡ group_place g) (active_unit ai_type repo_path g s)
  unfolding active_unit
  active_unit-place ai_type repo_path g s =
      Holds-bind (λ _ _. Unit {0}) (λ u _. unit_place u ≡ group_place g)
        (location ai_type g.absolute_path _) _ s (Holds-any _) (λ place t _. refl)

  pub for_each-place :
      (ai_type : AiType) (repo_path : FilePath) (groups : List Group) (s : State World)
      → Holds
          (λ units _. map unit_place units ≡ map group_place groups)
          (for_each (active_unit ai_type repo_path) groups s)
  unfolding for_each
  for_each-place ai_type repo_path [] s = refl
  for_each-place ai_type repo_path (g ∷ groups) s =
      Holds-bind (λ u _. unit_place u ≡ group_place g)
        (λ units _. map unit_place units ≡ map group_place (g ∷ groups))
        (active_unit ai_type repo_path g) _ s (active_unit-place ai_type repo_path g s)
        (λ u t e.
          Holds-bind (λ units _. map unit_place units ≡ map group_place groups)
            (λ units _. map unit_place units ≡ map group_place (g ∷ groups))
            (for_each (active_unit ai_type repo_path) groups) _ t
            (for_each-place ai_type repo_path groups t) (λ units v es. cc))

module _ {World : Type 0} (setup : Setup World) (repo_path : FilePath) where
  group_issues-IsGrouped :
      (issues : List SonarQubeIssue) (groups : List Group) (s : State World)
      → IsGrouped (map group_place groups)
      → Holds
          (λ gs _. IsGrouped (map group_place gs))
          (group_issues setup repo_path issues groups s)
  unfolding group_issues
  group_issues-IsGrouped [] groups s h = h
  group_issues-IsGrouped (issue ∷ issues) groups s h =
      Holds-bind (λ _ _. Unit {0}) (λ gs _. IsGrouped (map group_place gs)) (read_text _) _ s
        (Holds-any _)
        (λ source t _.
          group_issues-IsGrouped issues _ t (add_enclosed-IsGrouped _ _ issue groups h))

  build_units_active-Holds :
      (issues : List SonarQubeIssue) (s : State World)
      → Holds
          (λ units _. IsGrouped (map unit_place units))
          (build_units_active setup repo_path issues s)
  unfolding build_units_active
  build_units_active-Holds issues s =
      Holds-bind (λ gs _. IsGrouped (map group_place gs))
        (λ units _. IsGrouped (map unit_place units)) (group_issues setup repo_path issues []) _ s
        (group_issues-IsGrouped issues [] s (tt, tt))
        (λ gs t h.
          Holds-weaken (λ units _. map unit_place units ≡ map group_place gs) _ _
            (λ units v e. subst IsGrouped (sym e) h)
            (for_each-place setup.settings.ai_type repo_path gs t))

  -- When the units of an active run are built from issues in any order, no two of them are of one
  -- function (a path, a name and a first line), and none is of a function named `global_scope`.
  pub build_units_active-IsGrouped :
      (issues : List SonarQubeIssue) (s t : State World) (units : List RefactorUnit)
      → build_units_active setup repo_path issues s ≡ (ok units, t)
      → IsGrouped (map unit_place units)
  build_units_active-IsGrouped issues s t units e =
      Holds-returned (λ units _. IsGrouped (map unit_place units)) _
        (build_units_active-Holds issues s) e
