-- ===== src/Pipeline/State.antt =====
-- What a thread of the pipeline sees: the files by path, its own worker index (the thread-local of
-- src/pipeline/worker_context.py), and all else, the world of the language model and the checks.
use refactor_tradeoffs.Base.{
  ℕ, ◌≡◌, ◌≢◌, Option, none, some, Str, FilePath, ◌==◌, list_eq, nat_eq, if◌then◌else◌, Result, ok,
  raised, os_error, Exec, arith, ap, ◌∙◌,
}
use refactor_tradeoffs.Base.Newlines.{universal_newlines, universal_newlines-again}

abbrev pub Files : Type 0
Files = FilePath → Option Str

pub record State (World : Type 0) : Type 0 where
  pub files : Files
  pub worker_index : Option ℕ
  pub world : World

-- The files with `text` at `path`.
unfoldable pub write : FilePath → Str → Files → Files
write path text files q = if q == path then some text else files q

pub write_self :
    (path : FilePath) (text : Str) (files : Files) → write path text files path ≡ some text
unfolding write
write_self path text files = ground arith

pub write_ne :
    (path : FilePath) (text : Str) (files : Files) (q : FilePath)
    → q ≢ path
    → write path text files q ≡ files q
unfolding write
write_ne path text files q h = ground arith

abbrev or_os_error {ℓ} : {A : Type ℓ} → Option A → Result A
or_os_error none = raised os_error
or_os_error (some a) = ok a

as_text : Option Str → Option Str
unfolding universal_newlines
as_text none = none
as_text (some raw) = some (universal_newlines raw)

-- The text that reading the path gives.
unfoldable pub text_at : Files → FilePath → Option Str
unfolding as_text
text_at files path = as_text (files path)

pub text_at-same :
    (path : FilePath) (files before : Files)
    → files path ≡ before path
    → text_at files path ≡ text_at before path
unfolding text_at
text_at-same path files before e = ap as_text e

-- What has been read is written so that it is read again.
pub text_at-write :
    (path : FilePath) (text : Str) (files : Files)
    → universal_newlines text ≡ text
    → text_at (write path text files) path ≡ some text
unfolding text_at as_text
text_at-write path text files e = ap as_text (write_self path text files) ∙ ap some e

as_text-IsRead :
    (raw : Option Str) {text : Str} → as_text raw ≡ some text → universal_newlines text ≡ text
unfolding as_text
as_text-IsRead none e = cc
as_text-IsRead (some raw) e = cc (e, universal_newlines-again raw)

pub text_at-IsRead :
    (path : FilePath) (files : Files) {text : Str}
    → text_at files path ≡ some text
    → universal_newlines text ≡ text
unfolding text_at
text_at-IsRead path files e = as_text-IsRead (files path) e

module _ {World : Type 0} where
  -- `path.read_text()`
  unfoldable pub read_text : FilePath → Exec (State World) Str
  unfolding text_at
  read_text path s = (or_os_error (text_at s.files path), s)

  -- `path.write_text(text)`, for a path whose directory is there.
  unfoldable pub write_text : FilePath → Str → Exec (State World) (Unit {0})
  write_text path text s = (ok tt, record s { files = write path text s.files })

  -- `copyfile(src, dst)`, of what the file holds, as it is.
  unfoldable pub copyfile : FilePath → FilePath → Exec (State World) (Unit {0})
  copyfile src dst s = elim (s.files src) [
    | none ↦ (raised os_error, s)
    | some text ↦ (ok tt, record s { files = write dst text s.files })
  ]
