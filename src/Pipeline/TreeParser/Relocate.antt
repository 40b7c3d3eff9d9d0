-- ===== src/Pipeline/TreeParser/Relocate.antt =====
-- `relocate_function` finds a function of the file or nothing, and only where the match is unique.
use refactor_tradeoffs.Base.{
  ◌≡◌, refl, ◌⊎◌, inl, inr, ap, Bool-cases, Option-cases, ◌++◌, Bool, true, some, List, [], ◌∷◌,
  Str, keep, ◌==◌, list_eq, nat_eq, arith,
}
use refactor_tradeoffs.Pipeline.Registry.{Parsing}
use refactor_tradeoffs.Pipeline.TreeParser.{
  FunctionInfo, single, by_source, extract_functions, relocate_function,
}

-- `a` stands in the list, satisfies `p`, and nothing else of the list does.
abbrev pub IsOnly {ℓ} : {A : Type ℓ} → (A → Bool) → A → List A → Type ℓ
IsOnly {A} p a xs =
    (before : List A) × (after : List A) × (xs ≡ before ++ (a ∷ after))
    × (p a ≡ true)
    × (keep p before ≡ [])
    × (keep p after ≡ [])

module _ {ℓ} {A : Type ℓ} where
  single-cons : (x a : A) (xs : List A) → single (x ∷ xs) ≡ some a → (xs ≡ []) × (x ≡ a)
  single-cons x a [] h = (refl, ground arith)
  single-cons x a (y ∷ ys) h = cc

module _ {ℓ} {A : Type ℓ} (p : A → Bool) where
  single-keep : (xs : List A) (a : A) → single (keep p xs) ≡ some a → IsOnly p a xs
  single-keep [] a h = cc
  single-keep (x ∷ xs) a h = elim (Bool-cases (p x)) [
    | inl yes_x ↦
        let (none_after, same) = single-cons x a (keep p xs) (ground arith) in
        ([], xs, ap (λ y. y ∷ xs) same, ground arith, refl, none_after)
    | inr no_x ↦
        let (before, after, e, pa, none_before, none_after) = single-keep xs a (ground arith) in
        (x ∷ before, after, ap (◌∷◌ x) e, pa, ground arith, none_after)
  ]

  keep-append : (xs ys : List A) → keep p (xs ++ ys) ≡ keep p xs ++ keep p ys
  keep-append [] ys = refl
  keep-append (x ∷ xs) ys = ground (arith, keep-append xs ys)

  IsOnly-single : (xs : List A) (a : A) → IsOnly p a xs → single (keep p xs) ≡ some a
  IsOnly-single xs a (before, after, e, pa, none_before, none_after) =
      rw (e, keep-append before (a ∷ after), none_before, none_after) (ground arith)

module _ (parsing : Parsing) (source : Str) (fn : FunctionInfo) where
  abbrev pub candidates : List FunctionInfo
  candidates = extract_functions parsing source 0

  abbrev pub same_source : FunctionInfo → Bool
  same_source g = g.source == fn.source

  abbrev pub same_name : FunctionInfo → Bool
  same_name g = g.name == fn.name

  -- Whatever is found is a function of the file's current contents, and the only one with the
  -- recorded text or, where no function is the only one with that text, the only one of that name.
  pub relocate_function-IsOnly :
      (found : FunctionInfo)
      → relocate_function parsing source fn ≡ some found
      → IsOnly same_source found candidates
        ⊎ (IsOnly same_name found candidates
            × ((g : FunctionInfo) → ¬ IsOnly same_source g candidates))
  unfolding relocate_function
  relocate_function-IsOnly found h = elim (Option-cases (single (by_source fn candidates))) [
    | inr (g, e) ↦ inl (single-keep same_source candidates found (ground arith))
    | inl e ↦ inr (
      single-keep same_name candidates found (ground arith),
      λ g only. ground (arith, IsOnly-single same_source candidates g only),
    )
  ]

  -- The function is found by its text wherever that text occurs once.
  relocate_function-of_source :
      (found : FunctionInfo)
      → IsOnly same_source found candidates
      → relocate_function parsing source fn ≡ some found
  unfolding relocate_function
  relocate_function-of_source found only =
      ground (arith, IsOnly-single same_source candidates found only)
