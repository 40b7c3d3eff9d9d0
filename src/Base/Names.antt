-- ===== src/Base/Names.antt =====
-- Parts of names: `str.removeprefix`, `Path.stem`, `str.split` by a character, and `int`.
use Prim.Native.Nat.{ℕ}
use mathlib.Core.Bool.{◌||◌}
use mathlib.Core.Option.{Option, none, some}
use mathlib.Core.List.{List, [], ◌∷◌}
use refactor_tradeoffs.Base.Tests.{if◌then◌else◌}
use refactor_tradeoffs.Base.Equality.{◌==◌, nat_eq}
use refactor_tradeoffs.Base.Lists.{length, drop}
use refactor_tradeoffs.Base.Text.{Str, is_empty, onto, starts_with, ends_with, strip}
use refactor_tradeoffs.Base.Numerals.{isdigit, digits_value}

unfoldable pub removeprefix : Str → Str → Str
unfolding starts_with
removeprefix s prefix = if starts_with s prefix then drop (length prefix) s else s

-- What stands before the last dot, where there is one.
before_last_dot : Str → Option Str
before_last_dot [] = none
before_last_dot (c ∷ s) = elim (before_last_dot s) [
  | some before ↦ some (c ∷ before)
  | none ↦ if c == b'.' then some [] else none
]

-- The stem of a path's last part.
unfoldable pub stem : Str → Str
unfolding before_last_dot is_empty ends_with
stem name = elim (before_last_dot name) [
  | none ↦ name
  | some before ↦ if is_empty before || ends_with name (b'.' ∷ []) then name else before
]

-- `s.split(c)`
unfoldable pub split_on : ℕ → Str → List Str
unfolding onto
split_on sep [] = [] ∷ []
split_on sep (c ∷ s) = let rest = split_on sep s in if c == sep then [] ∷ rest else onto c rest

-- `int(s)` for a text that has no sign and no underscore; `none` is its `ValueError`.
unfoldable pub int : Str → Option ℕ
unfolding strip isdigit digits_value
int s = let digits = strip s in if isdigit digits then some (digits_value digits) else none
