-- ===== src/RepositoryAnalysis/OutputParser/Violations.antt =====
-- How the violations of PHPMD are shared out among the methods of PDepend.
use refactor_tradeoffs.Base.{
  ℕ, ◌+◌, ◌≤◌, ◌<◌, ◌≡◌, ◌↔◌, ◌⊎◌, refl, ap, inl, inr, true, ◌&&◌, Bool-cases, List, [], ◌∷◌, map,
  Str, length, leb, All, In, ◌==◌, list_eq, nat_eq, if◌then◌else◌, arith,
}
use refactor_tradeoffs.Base.Dict.{Dict, lookup_or}
use refactor_tradeoffs.RepositoryAnalysis.OutputParser.{
  PDependOutput, PhpmdOutput, PDependWithPhpmd, violations_within, append_side_phpmd_to_base,
}

module _ {Float : Type 0} where
  abbrev pub IsWithin : PDependOutput Float → PhpmdOutput → Type 0
  IsWithin output v = (output.start_line ≤ v.line) × (v.line ≤ output.end_line)

  violations_within-In :
      (output : PDependOutput Float) (vs : List PhpmdOutput) (v : PhpmdOutput)
      → In v (violations_within output vs)
      → In v vs × IsWithin output v
  unfolding violations_within
  violations_within-In output [] v h = elim h [ ]
  violations_within-In output (w ∷ vs) v h =
      elim (Bool-cases (leb output.start_line w.line && leb w.line output.end_line)) [
        | inl here ↦ pick here (violations_within-In output vs v) (rw here at h)
        | inr elsewhere ↦
            let (member, within) = violations_within-In output vs v (rw elsewhere at h) in
            (inr member, within)
      ]
    where
      pick :
          (leb output.start_line w.line && leb w.line output.end_line) ≡ true
          → (In v (violations_within output vs) → In v vs × IsWithin output v)
          → (v ≡ w) ⊎ In v (violations_within output vs)
          → In v (w ∷ vs) × IsWithin output v
      pick here ih (inl e) = (inl e, ground arith)
      pick here ih (inr m) = let (member, within) = ih m in (inr member, within)

  In-violations_within :
      (output : PDependOutput Float) (vs : List PhpmdOutput) (v : PhpmdOutput)
      → In v vs
      → IsWithin output v
      → In v (violations_within output vs)
  unfolding violations_within
  In-violations_within output [] v h w = elim h [ ]
  In-violations_within output (x ∷ vs) v (inl e) w =
      let here : (leb output.start_line x.line && leb x.line output.end_line) ≡ true =
        ground arith in
      rw here (inl e)
  In-violations_within output (x ∷ vs) v (inr m) w =
      elim (Bool-cases (leb output.start_line x.line && leb x.line output.end_line)) [
        | inl here ↦ rw here (inr (In-violations_within output vs v m w))
        | inr elsewhere ↦ rw elsewhere (In-violations_within output vs v m w)
      ]

  -- A row has the violations of its file whose line is one of the method's, and no others.
  abbrev pub HasItsOwn : Dict Str (List PhpmdOutput) → PDependWithPhpmd Float → Type 0
  HasItsOwn side row =
      (v : PhpmdOutput)
      → In v row.phpmd_violations
        ↔ (In v (lookup_or [] row.base.file_path side) × IsWithin row.base v)

  -- The combination keeps the methods as they were, in their order, and gives each the violations of
  -- its file whose line is one of the method's, and no others.
  append_side_phpmd_to_base-lem :
      (base : List (PDependOutput Float)) (side : Dict Str (List PhpmdOutput))
      → (map (λ row. row.base) (append_side_phpmd_to_base base side) ≡ base)
        × All (HasItsOwn side) (append_side_phpmd_to_base base side)
  unfolding append_side_phpmd_to_base
  append_side_phpmd_to_base-lem [] side = (refl, tt)
  append_side_phpmd_to_base-lem (output ∷ base) side =
      let vs = lookup_or [] output.file_path side in
      let (same, all) = append_side_phpmd_to_base-lem base side in
      (
        ap (◌∷◌ output) same,
        (
          (λ v. (violations_within-In output vs v, λ (m, w). In-violations_within output vs v m w)),
          all,
        ),
      )

  -- The rows of one file.
  abbrev pub attributed : Str → List (PDependWithPhpmd Float) → ℕ
  attributed path [] = 0
  attributed path (row ∷ rows) =
      (if path == row.base.file_path then length row.phpmd_violations else 0) + attributed path rows

  -- No two methods of one file have a line in common.
  abbrev pub IsApart : PDependOutput Float → PDependOutput Float → Type 0
  IsApart a b =
      a.file_path ≡ b.file_path → (a.end_line < b.start_line) ⊎ (b.end_line < a.start_line)

  abbrev pub AreApart : List (PDependOutput Float) → Type 0
  AreApart [] = Unit
  AreApart (output ∷ outputs) = All (IsApart output) outputs × AreApart outputs

  -- How many of the methods of a file have the violation.
  holders : Str → PhpmdOutput → List (PDependOutput Float) → ℕ
  holders path v [] = 0
  holders path v (output ∷ outputs) =
      (if path == output.file_path && (leb output.start_line v.line && leb v.line output.end_line)
        then 1
        else 0)
      + holders path v outputs

  holders-none :
      (path : Str) (v : PhpmdOutput) (output : PDependOutput Float)
      (outputs : List (PDependOutput Float))
      → path ≡ output.file_path
      → IsWithin output v
      → All (IsApart output) outputs
      → holders path v outputs ≡ 0
  unfolding holders
  holders-none path v output [] e w h = refl
  holders-none path v output (o ∷ outputs) e w h =
      ground (arith, h.0, holders-none path v output outputs e w h.1)

  holders-le-1 :
      (path : Str) (v : PhpmdOutput) (outputs : List (PDependOutput Float))
      → AreApart outputs
      → holders path v outputs ≤ 1
  unfolding holders
  holders-le-1 path v [] h = omega arith
  holders-le-1 path v (o ∷ outputs) h =
      ground (arith, holders-none path v o outputs, h.0, holders-le-1 path v outputs h.1)

  -- The violations of a list that the methods of a file have, counted for each method.
  shared : Str → List PhpmdOutput → List (PDependOutput Float) → ℕ
  shared path vs [] = 0
  shared path vs (output ∷ outputs) =
      (if path == output.file_path then length (violations_within output vs) else 0)
      + shared path vs outputs

  shared-nil : (path : Str) (outputs : List (PDependOutput Float)) → shared path [] outputs ≡ 0
  unfolding shared violations_within
  shared-nil path [] = refl
  shared-nil path (o ∷ outputs) = ground (arith, shared-nil path outputs)

  shared-cons :
      (path : Str) (v : PhpmdOutput) (vs : List PhpmdOutput) (outputs : List (PDependOutput Float))
      → shared path (v ∷ vs) outputs ≡ holders path v outputs + shared path vs outputs
  unfolding shared holders violations_within
  shared-cons path v vs [] = omega arith
  shared-cons path v vs (o ∷ outputs) = ground (arith, shared-cons path v vs outputs)

  shared-le :
      (path : Str) (vs : List PhpmdOutput) (outputs : List (PDependOutput Float))
      → AreApart outputs
      → shared path vs outputs ≤ length vs
  shared-le path [] outputs h = omega (arith, shared-nil path outputs)
  shared-le path (v ∷ vs) outputs h = omega (
    arith,
    shared-cons path v vs outputs,
    holders-le-1 path v outputs h,
    shared-le path vs outputs h,
  )

  attributed-shared :
      (path : Str) (side : Dict Str (List PhpmdOutput)) (base : List (PDependOutput Float))
      → attributed path (append_side_phpmd_to_base base side)
        ≡ shared path (lookup_or [] path side) base
  unfolding shared append_side_phpmd_to_base
  attributed-shared path side [] = refl
  attributed-shared path side (o ∷ base) = elim (list_eq.dec path o.file_path) [
    | yes same ↦ ground (
      arith,
      attributed-shared path side base,
      ap (λ q. length (violations_within o (lookup_or [] q side))) same,
    )
    | no other ↦ ground (arith, attributed-shared path side base)
  ]

  -- If no two methods of one file have a line in common, the methods of a file together have at most as
  -- many violations as the report has for the file.
  append_side_phpmd_to_base-le :
      (path : Str) (base : List (PDependOutput Float)) (side : Dict Str (List PhpmdOutput))
      → AreApart base
      → attributed path (append_side_phpmd_to_base base side) ≤ length (lookup_or [] path side)
  append_side_phpmd_to_base-le path base side h =
      omega
        (arith, attributed-shared path side base, shared-le path (lookup_or [] path side) base h)
