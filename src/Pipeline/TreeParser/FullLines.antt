-- ===== src/Pipeline/TreeParser/FullLines.antt =====
-- The lines of a text, ends kept: none is empty, and the text determines them.
use mathlib.Core.List.{append_cancel_left, reverse, reverse-reverse, reverse-cons}
use mathlib.Core.Path.{ap₂}
use refactor_tradeoffs.Base.{
  ℕ, zero, suc, ◌≡◌, ◌≢◌, refl, ap, sym, ◌∙◌, inl, inr, true, Bool-cases, List, [], ◌∷◌, ◌++◌, Str,
  concat, splitlines_keepends, onto, ends_line, concat-splitlines_keepends, starts_with, ends_with,
  take, All, nat_eq, arith,
}
use refactor_tradeoffs.Pipeline.TreeParser.{newline, replacement}

-- Every line is a text of at least one character.
abbrev pub IsFull : List Str → Type 0
IsFull = All (λ l. (c : ℕ) × (r : Str) × (l ≡ c ∷ r))

pub onto-IsFull : (c : ℕ) (lines : List Str) → IsFull lines → IsFull (onto c lines)
unfolding onto
onto-IsFull c [] h = ((c, [], refl), tt)
onto-IsFull c (l ∷ lines) h = ((c, l, refl), h.1)

pub splitlines_keepends-IsFull : (s : Str) → IsFull (splitlines_keepends s)
unfolding splitlines_keepends
splitlines_keepends-IsFull [] = tt
splitlines_keepends-IsFull (c ∷ s) = elim (Bool-cases (ends_line c s)) [
  | inl e ↦ rw e ((c, [], refl), splitlines_keepends-IsFull s)
  | inr e ↦ rw e (onto-IsFull c _ (splitlines_keepends-IsFull s))
]

pub onto-append : (c : ℕ) (xs ys : List Str) → xs ≢ [] → onto c (xs ++ ys) ≡ onto c xs ++ ys
unfolding onto
onto-append c [] ys h = absurd (h refl)
onto-append c (x ∷ xs) ys h = refl

pub ends_line-append :
    (c : ℕ) (w v : Str) → ends_line c (w ++ (b'\n' ∷ v)) ≡ ends_line c (w ++ newline)
unfolding ends_line starts_with
ends_line-append c [] v = refl
ends_line-append c (d ∷ w) v = refl

pub snoc-ne-nil : (w : Str) → w ++ newline ≢ []
snoc-ne-nil [] e = cc
snoc-ne-nil (c ∷ w) e = cc

pub splitlines_keepends-ne-nil : (w : Str) → splitlines_keepends (w ++ newline) ≢ []
unfolding concat
splitlines_keepends-ne-nil w e =
    snoc-ne-nil w (sym (concat-splitlines_keepends (w ++ newline)) ∙ ap concat e)

-- A text whose first part ends in a newline is split part by part.
pub splitlines_keepends-append :
    (w v : Str)
    → splitlines_keepends (w ++ (b'\n' ∷ v))
      ≡ splitlines_keepends (w ++ newline) ++ splitlines_keepends v
unfolding splitlines_keepends nat_eq
splitlines_keepends-append [] v = refl
splitlines_keepends-append (c ∷ w) v =
    rw (ends_line-append c w v, splitlines_keepends-append w v)
      (ground (
        arith,
        onto-append c (splitlines_keepends (w ++ newline)) (splitlines_keepends v)
            (splitlines_keepends-ne-nil w),
      ))

pub ends_with-newline : (s : Str) → ends_with s newline ≡ true → (w : Str) × (s ≡ w ++ newline)
unfolding ends_with starts_with
ends_with-newline s h = go (reverse s) refl h
  where
    go : (r : Str) → reverse s ≡ r → starts_with r newline ≡ true → (w : Str) × (s ≡ w ++ newline)
    go [] e k = cc
    go (c ∷ r) e k = (
      reverse r,
      sym (reverse-reverse s)
          ∙ ap reverse e
          ∙ reverse-cons c r
          ∙ ap (λ d. reverse r ++ (d ∷ [])) (ground arith),
    )

pub replacement-newline :
    (new_function : Str) → (w : Str) × (replacement new_function ≡ w ++ newline)
unfolding replacement
replacement-newline new_function = elim (Bool-cases (ends_with new_function newline)) [
  | inl e ↦ let (w, f) = ends_with-newline new_function e in (w, ground arith)
  | inr e ↦ (new_function, ground arith)
]

pub lines_unique :
    (xs ys zs ws : List Str)
    → IsFull xs
    → IsFull zs
    → xs ++ ys ≡ zs ++ ws
    → concat xs ≡ concat zs
    → xs ≡ zs
unfolding concat
lines_unique [] ys [] ws f g e h = refl
lines_unique [] ys (z ∷ zs) ws f g e h = ground (arith, g)
lines_unique (x ∷ xs) ys [] ws f g e h = ground (arith, f)
lines_unique (x ∷ xs) ys (z ∷ zs) ws f g e h =
    let same : x ≡ z = cc in
    ap₂ ◌∷◌ same
      (lines_unique xs ys zs ws f.1 g.1 (cc) (append_cancel_left x (concat xs) (concat zs) (cc)))

pub take-IsFull : (n : ℕ) (lines : List Str) → IsFull lines → IsFull (take n lines)
take-IsFull zero lines f = tt
take-IsFull (suc n) [] f = tt
take-IsFull (suc n) (l ∷ lines) f = (f.0, take-IsFull n lines f.1)
