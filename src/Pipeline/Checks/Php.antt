-- ===== src/Pipeline/Checks/Php.antt =====
-- src/pipeline/code_checks/syntax_checks/php.py. The lint script, and the name that
-- `NamedTemporaryFile` picks, are parameters.
use refactor_tradeoffs.Base.{
  ℕ, ◌≡◌, ◌≢◌, ◌↔◌, ◌⊎◌, refl, ap, ◌∙◌, inl, inr, Bool, true, false, ◌||◌, Bool-cases, none, [],
  ◌∷◌, ◌++◌, Str, codes, is_empty, strip, starts_with, FilePath, ◌==◌, list_eq, nat_eq,
  if◌then◌else◌, ok, Exec, pure, arith,
}
use refactor_tradeoffs.Pipeline.State.{State, Files, write, write_ne}

-- How the script ends; its output is decoded.
pub data LintEnd : Type 0 where
  timed_out : LintEnd
  completed : (returncode : ℕ) (stdout stderr : Str) → LintEnd

pub record LintScript (World : Type 0) : Type 0 where
  pub temp_path : State World → FilePath
  pub execute : FilePath → State World → LintEnd × State World

-- The code with a tag in front of it, unless it begins with one.
unfoldable pub with_tag : Str → Str
unfolding starts_with
with_tag code =
    if starts_with (strip code) (codes "<php") || starts_with (strip code) (codes "<?")
    then code
    else codes "<?php\n" ++ code

abbrev pub BeginsWith : Str → Str → Type 0
BeginsWith prefix s = (rest : Str) × (s ≡ prefix ++ rest)

-- The code begins with a PHP tag, but for white space.
abbrev pub IsTagged : Str → Type 0
IsTagged code = BeginsWith (codes "<?") (strip code) ⊎ BeginsWith (codes "<php") (strip code)

-- The content is the code, with a tag in front where it begins with none.
abbrev pub Completes : Str → Str → Type 0
Completes code content =
    (IsTagged code → content ≡ code) × (¬ IsTagged code → content ≡ codes "<?php\n" ++ code)

starts_with-BeginsWith : (s prefix : Str) → starts_with s prefix ≡ true → BeginsWith prefix s
unfolding starts_with
starts_with-BeginsWith s [] h = (s, refl)
starts_with-BeginsWith [] (c ∷ prefix) h = cc
starts_with-BeginsWith (d ∷ s) (c ∷ prefix) h =
    let both : (d ≡ c) × (starts_with s prefix ≡ true) = ground arith in
    let (rest, e) = starts_with-BeginsWith s prefix both.1 in (rest, cc (both.0, e))

starts_with-append : (prefix rest : Str) → starts_with (prefix ++ rest) prefix ≡ true
unfolding starts_with
starts_with-append [] rest = refl
starts_with-append (c ∷ prefix) rest = ground (arith, starts_with-append prefix rest)

with_tag-Completes : (code : Str) → Completes code (with_tag code)
unfolding with_tag
with_tag-Completes code = elim (Bool-cases (starts_with (strip code) (codes "<php"))) [
  | inl php ↦ (
    (λ _. ground arith),
    λ untagged. absurd (untagged (inr (starts_with-BeginsWith _ (codes "<php") php))),
  )
  | inr other ↦ elim (Bool-cases (starts_with (strip code) (codes "<?"))) [
    | inl short ↦ (
      (λ _. ground arith),
      λ untagged. absurd (untagged (inl (starts_with-BeginsWith _ (codes "<?") short))),
    )
    | inr plain ↦ (
      elim [
        | inl (rest, e) ↦ absurd (
            differ plain
              (ap (λ s. starts_with s (codes "<?")) e ∙ starts_with-append (codes "<?") rest))
        | inr (rest, e) ↦ absurd (
            differ other
              (ap (λ s. starts_with s (codes "<php")) e ∙ starts_with-append (codes "<php") rest))
      ],
      λ _. ground arith,
    )
  ]
]
  where
    differ : {b : Bool} → b ≡ false → b ≢ true
    differ e f = cc

unfoldable pub lint_answer : LintEnd → Bool × Str
lint_answer timed_out = (false, codes "PHP syntax check timed out.")
lint_answer (completed returncode stdout stderr) = (returncode == 0, strip (stdout ++ stderr))

-- `unlink(path)`; a path that is gone already is only logged.
unfoldable pub remove : FilePath → Files → Files
remove path files q = if q == path then none else files q

module _ {World : Type 0} (script : LintScript World) where
  -- From the temporary file on.
  unfoldable pub lint : Str → Exec (State World) (Bool × Str)
  unfolding write lint_answer remove
  lint code s =
      let temp = script.temp_path s in
      let run = script.execute temp (record s { files = write temp code s.files }) in
      (ok (lint_answer run.0), record run.1 { files = remove temp run.1.files })

  unfoldable pub syntax_check_php : Str → Exec (State World) (Bool × Str)
  unfolding is_empty lint
  syntax_check_php code =
      if is_empty (strip code) then pure (false, codes "Code is empty.") else lint (with_tag code)

  -- The state in which the script runs for the code.
  abbrev pub linted : Str → State World → State World
  linted code s = record s { files = write (script.temp_path s) (with_tag code) s.files }

  is_empty-true : (t : Str) → is_empty t ≡ true → t ≡ []
  unfolding is_empty
  is_empty-true [] h = refl
  is_empty-true (c ∷ t) h = cc

  is_empty-false : (t : Str) → is_empty t ≡ false → t ≢ []
  unfolding is_empty
  is_empty-false [] h = cc
  is_empty-false (c ∷ t) h = λ e. cc

  lint_answer-passed :
      (e : LintEnd)
      → ((lint_answer e).0 ≡ true)
        ↔ ((stdout : Str) × (stderr : Str) × (e ≡ completed 0 stdout stderr))
  unfolding lint_answer nat_eq
  lint_answer-passed timed_out = ((λ h. cc), (λ (o, e, h). cc))
  lint_answer-passed (completed returncode stdout stderr) =
      ((λ h. (stdout, stderr, ground arith)), (λ (o, e, h). ground arith))

  -- The check returns in every state. It passes exactly the code that is not blank and for which the
  -- script, run on a file that holds just the code where, behind white space, this begins with "<?" or
  -- "<php", and otherwise the line "<?php" and the code, ends with the return code 0.
  pub syntax_check_php-passed :
      (code : Str) (s : State World)
      → (passed : Bool) × (output : Str) × (t : State World) × (syntax_check_php code s
          ≡ (ok (passed, output), t))
        × (content : Str) × Completes code content
        × ((passed ≡ true) ↔ (
            (strip code ≢ [])
            × ((stdout : Str) × (stderr : Str) × ((script.execute
                    (script.temp_path s)
                    (record s { files = write (script.temp_path s) content s.files })).0
                  ≡ completed 0 stdout stderr))))
  unfolding syntax_check_php
  syntax_check_php-passed code s = elim (Bool-cases (is_empty (strip code))) [
    | inl blank ↦ (
      false,
      codes "Code is empty.",
      s,
      rw blank refl,
      with_tag code,
      with_tag-Completes code,
      ((λ h. cc), (λ (nonblank, done). absurd (nonblank (is_empty-true (strip code) blank)))),
    )
    | inr nonblank ↦
        let run = lint (with_tag code) s in
        let answer = lint_answer (script.execute (script.temp_path s) (linted code s)).0 in
        let (there, back) =
          lint_answer-passed (script.execute (script.temp_path s) (linted code s)).0 in
        (
          answer.0,
          answer.1,
          run.1,
          rw nonblank refl,
          with_tag code,
          with_tag-Completes code,
          ((λ h. (is_empty-false (strip code) nonblank, there h)), (λ h. back h.1)),
        )
  ]

  remove-ne :
      (path : FilePath) (files : Files) (q : FilePath) → q ≢ path → remove path files q ≡ files q
  unfolding remove
  remove-ne path files q h = ground (arith, h)

  -- A file that the script leaves alone, and that is not the temporary one, is left alone by the check.
  pub syntax_check_php-leaves :
      (code : Str) (s : State World) (q : FilePath)
      → q ≢ script.temp_path s
      → ((path : FilePath) (t : State World) → (script.execute path t).1.files q ≡ t.files q)
      → (syntax_check_php code s).1.files q ≡ s.files q
  unfolding syntax_check_php lint
  syntax_check_php-leaves code s q other leaves = elim (Bool-cases (is_empty (strip code))) [
    | inl blank ↦ rw blank refl
    | inr nonblank ↦ rw nonblank (
        remove-ne (script.temp_path s) (script.execute (script.temp_path s) (linted code s)).1.files
          q other
        ∙ leaves (script.temp_path s) (linted code s)
        ∙ write_ne (script.temp_path s) (with_tag code) s.files q other)
  ]
