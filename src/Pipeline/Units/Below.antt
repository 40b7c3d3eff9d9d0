-- ===== src/Pipeline/Units/Below.antt =====
-- The units of an active run are all of files below the run's `src`, and so are those of each of its tasks.
use mathlib.Core.Path.{subst}
use refactor_tradeoffs.Base.{
  ◌≡◌, sym, inl, inr, Bool-cases, List, [], ◌∷◌, ◌++◌, map, FilePath, All, ◌==◌, list_eq, nat_eq,
  ok, IsPlain, joined-IsPlain,
}
use refactor_tradeoffs.Pipeline.State.{State, read_text}
use refactor_tradeoffs.Pipeline.WorkerContext.{src_dir}
use refactor_tradeoffs.Pipeline.TreeParser.{Enclosing, enclosed, around, global_scope}
use refactor_tradeoffs.Pipeline.Refactor.{RefactorUnit, Setup}
use refactor_tradeoffs.Pipeline.Refactor.Rules.{
  Holds, Holds-bind, Holds-any, Holds-weaken, Holds-returned,
}
use refactor_tradeoffs.Pipeline.Units.{
  SonarQubeIssue, Group, add_enclosed, relative_path, group_issues, build_units_active,
}
use refactor_tradeoffs.Pipeline.Units.Grouping.{
  Place, unit_place, group_place, add_issue-All, for_each-place,
}

abbrev pub IsBelow : FilePath → FilePath → Type 0
IsBelow repo_path path = (rel : FilePath) × (path ≡ (repo_path ++ src_dir) ++ rel)

abbrev AllBelow : FilePath → List Place → Type 0
AllBelow repo_path places = All (λ place. IsBelow repo_path place.0) places

module _ {World : Type 0} (setup : Setup World) (repo_path : FilePath) where
  add_enclosed-IsBelow :
      (path : FilePath) (found : Enclosing) (issue : SonarQubeIssue) (groups : List Group)
      → IsBelow repo_path path
      → AllBelow repo_path (map group_place groups)
      → AllBelow repo_path (map group_place (add_enclosed path found issue groups))
  unfolding add_enclosed
  add_enclosed-IsBelow path (around _ _ _) issue groups b h = h
  add_enclosed-IsBelow path (enclosed fn) issue groups b h =
      elim (Bool-cases (fn.name == global_scope)) [
        | inl skipped ↦ rw skipped h
        | inr other ↦
            rw other (add_issue-All path fn issue (λ place. IsBelow repo_path place.0) groups b h)
      ]

  group_issues-IsBelow :
      (issues : List SonarQubeIssue) (groups : List Group) (s : State World)
      → All (λ issue. IsPlain (relative_path issue)) issues
      → AllBelow repo_path (map group_place groups)
      → Holds
          (λ gs _. AllBelow repo_path (map group_place gs))
          (group_issues setup repo_path issues groups s)
  unfolding group_issues
  group_issues-IsBelow [] groups s plain h = h
  group_issues-IsBelow (issue ∷ issues) groups s plain h =
      Holds-bind (λ _ _. Unit {0}) (λ gs _. AllBelow repo_path (map group_place gs)) (read_text _) _
        s (Holds-any _)
        (λ source t _. group_issues-IsBelow issues _ t plain.1 (
          add_enclosed-IsBelow _ _ issue groups
            (relative_path issue, joined-IsPlain (repo_path ++ src_dir) _ plain.0) h))

  places-IsBelow :
      (units : List RefactorUnit)
      → AllBelow repo_path (map unit_place units)
      → All (λ unit. IsBelow repo_path unit.file_path) units
  places-IsBelow [] h = tt
  places-IsBelow (unit ∷ units) h = (h.0, places-IsBelow units h.1)

  -- Where the issues' paths are relative and do not go up, the units of an active run that are built are of
  -- files below the run's `src`.
  pub build_units_active-IsBelow :
      (issues : List SonarQubeIssue) (s t : State World) (units : List RefactorUnit)
      → All (λ issue. IsPlain (relative_path issue)) issues
      → build_units_active setup repo_path issues s ≡ (ok units, t)
      → All (λ unit. IsBelow repo_path unit.file_path) units
  unfolding build_units_active
  build_units_active-IsBelow issues s t units plain e =
      Holds-returned (λ us _. All (λ unit. IsBelow repo_path unit.file_path) us) _
        (Holds-bind (λ gs _. AllBelow repo_path (map group_place gs))
          (λ us _. All (λ unit. IsBelow repo_path unit.file_path) us)
          (group_issues setup repo_path issues []) _ s (group_issues-IsBelow issues [] s plain tt)
          (λ gs u h.
            Holds-weaken (λ us _. map unit_place us ≡ map group_place gs) _ _
              (λ us v same. places-IsBelow us (subst (AllBelow repo_path) (sym same) h))
              (for_each-place setup.settings.ai_type repo_path gs u)))
        e
