-- ===== src/Pipeline/Run/ByFile.antt =====
-- The units of a run, by their files.
use mathlib.Core.List.{append_assoc, append-nil}
use refactor_tradeoffs.Base.{
  ℕ, ◌+◌, ◌≡◌, refl, sym, ap, ◌∙◌, List, [], ◌∷◌, ◌++◌, FilePath, All, All-append_one, length,
  length-append, keep, ◌==◌, list_eq, nat_eq, arith,
}
use refactor_tradeoffs.Base.Dict.{append_to, lookup, lookup_or, lookup_or-append_to}
use refactor_tradeoffs.Pipeline.Refactor.{RefactorUnit}
use refactor_tradeoffs.Pipeline.Run.{FileUnits, group_by_file}

abbrev pub units_in : List FileUnits → ℕ
units_in [] = 0
units_in ((file_path, units) ∷ tasks) = length units + units_in tasks

append_to-units :
    (path : FilePath) (unit : RefactorUnit) (d : List FileUnits)
    → units_in (append_to path unit d) ≡ units_in d + 1
unfolding append_to
append_to-units path unit [] = refl
append_to-units path unit ((p, us) ∷ d) =
    ground (arith, append_to-units path unit d, length-append us (unit ∷ []))

pub group_by_file-units :
    (units : List RefactorUnit) (d : List FileUnits)
    → units_in (group_by_file units d) ≡ units_in d + length units
unfolding group_by_file
group_by_file-units [] d = omega arith
group_by_file-units (unit ∷ units) d = omega (
  arith,
  group_by_file-units units (append_to unit.file_path unit d),
  append_to-units unit.file_path unit d,
)

abbrev pub units_of : FilePath → List RefactorUnit → List RefactorUnit
units_of path = keep (λ unit. path == unit.file_path)

group_by_file-lookup :
    (path : FilePath) (units : List RefactorUnit) (d : List FileUnits)
    → lookup_or [] path (group_by_file units d) ≡ lookup_or [] path d ++ units_of path units
unfolding group_by_file
group_by_file-lookup path [] d = sym (append-nil (lookup_or [] path d))
group_by_file-lookup path (unit ∷ units) d =
    group_by_file-lookup path units (append_to unit.file_path unit d)
    ∙ elim (list_eq.dec path unit.file_path) [
      | yes same ↦ ground (
        arith,
        lookup_or-append_to path unit.file_path unit d,
        append_assoc (lookup_or [] path d) (unit ∷ []) (units_of path units),
      )
      | no other ↦ ground (arith, lookup_or-append_to path unit.file_path unit d)
    ]

lookup-nothing : (path : FilePath) → lookup_or {V = List RefactorUnit} [] path [] ≡ []
unfolding lookup_or lookup
lookup-nothing path = refl

-- `by_file` holds for each file the units of that file, in the order in which they were built, and no
-- others: there are as many units in it as were built.
pub group_by_file-lem :
    (units : List RefactorUnit) (path : FilePath)
    → (lookup_or [] path (group_by_file units []) ≡ units_of path units)
      × (units_in (group_by_file units []) ≡ length units)
group_by_file-lem units path = (
  group_by_file-lookup path units [] ∙ ap (λ us. us ++ units_of path units) (lookup-nothing path),
  omega (arith, group_by_file-units units []),
)

module _ (Q : RefactorUnit → Type 0) where
  append_to-All :
      (path : FilePath) (unit : RefactorUnit) (d : List FileUnits)
      → Q unit
      → All (λ task. All Q task.1) d
      → All (λ task. All Q task.1) (append_to path unit d)
  unfolding append_to
  append_to-All path unit [] q h = ((q, tt), tt)
  append_to-All path unit ((p, us) ∷ d) q h =
      ground (arith, append_to-All path unit d q h.1, All-append_one Q us unit h.0 q, h)

  -- What holds of all units holds of those of each file.
  pub group_by_file-All :
      (units : List RefactorUnit) (d : List FileUnits)
      → All Q units
      → All (λ task. All Q task.1) d
      → All (λ task. All Q task.1) (group_by_file units d)
  unfolding group_by_file
  group_by_file-All [] d q h = h
  group_by_file-All (unit ∷ units) d q h =
      group_by_file-All units (append_to unit.file_path unit d) q.1
        (append_to-All unit.file_path unit d q.0 h)
