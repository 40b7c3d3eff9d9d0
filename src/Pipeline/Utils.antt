-- ===== src/Pipeline/Utils.antt =====
-- src/pipeline/utils.py. The two regular expressions are written out as matchers: no choice that one
-- of them makes is ever taken back, since the lazy `.*?` can always run on to the end of the text.
pub mod Fences
use refactor_tradeoffs.Base.{
  ℕ, ◌+◌, Bool, true, false, ◌&&◌, Option, none, some, [], ◌∷◌, Str, is_empty, starts_with, length,
  drop, leb, ◌==◌, nat_eq, if◌then◌else◌,
}

abbrev pub tick : ℕ
tick = b'`'

abbrev pub fence : Str
fence = tick ∷ tick ∷ tick ∷ []

-- The run of backticks that a text begins with.
unfoldable pub ticks : Str → Str
ticks [] = []
ticks (c ∷ s) = let more = ticks s in if c == tick then tick ∷ more else []

-- `[^\n`]+\n`, and what follows it. The flag says that a character of it has been read.
unfoldable pub behind_tag : Bool → Str → Option Str
behind_tag seen [] = none
behind_tag seen (c ∷ s) =
    let more = behind_tag true s in
    if c == b'\n' then (if seen then some s else none) else if c == tick then none else more

-- `\n?`
unfoldable pub skip_newline : Str → Str
skip_newline [] = []
skip_newline (c ∷ s) = if c == b'\n' then s else c ∷ s

-- `(?:[^\n`]+\n(?!\1)|\n?)`, behind the backticks `run`.
unfoldable pub behind_opening : Str → Str → Str
unfolding behind_tag skip_newline starts_with
behind_opening run s = elim (behind_tag false s) [
  | none ↦ skip_newline s
  | some rest ↦ if starts_with rest run then skip_newline s else rest
]

-- `\n?\1`, and what follows it.
unfoldable pub behind_closing : Str → Str → Option Str
unfolding starts_with
behind_closing run [] = if is_empty run then some [] else none
behind_closing run (c ∷ s) =
    if c == b'\n' && starts_with s run
    then some (drop (length run) s)
    else if starts_with (c ∷ s) run
    then some (drop (length run) (c ∷ s))
    else none

-- `$`
unfoldable pub at_end : Str → Bool
at_end [] = true
at_end (c ∷ s) = c == b'\n' && is_empty s

-- `(.*?)(?:\n?\1|$)`: the group, and what follows the match.
unfoldable pub until_closing : Str → Str → Str × Str
unfolding behind_closing at_end
until_closing run [] = ([], [])
until_closing run (c ∷ s) =
    let more = until_closing run s in
    elim (behind_closing run (c ∷ s)) [
      | some rest ↦ ([], rest)
      | none ↦ if at_end (c ∷ s) then ([], c ∷ s) else (c ∷ more.0, more.1)
    ]

-- A match of `_CODE_FENCED`: where it starts, its second group, and the text behind it.
pub record Match : Type 0 where
  pub start : ℕ
  pub group : Str
  pub behind : Str

-- `_CODE_FENCED.search`, from the position `start` on.
unfoldable pub search_fenced : ℕ → Str → Option Match
unfolding ticks behind_opening until_closing
search_fenced start [] = none
search_fenced start (c ∷ s) =
    let run = ticks (c ∷ s) in
    let found = until_closing run (behind_opening run (drop (length run) (c ∷ s))) in
    let more = search_fenced (start + 1) s in
    if leb 3 (length run)
    then some (record { start = start; group = found.0; behind = found.1 })
    else more

-- `_CODE_TRAILING_FENCH.search`, its first group.
unfoldable pub search_trailing : Str → Option Str
unfolding behind_closing
search_trailing [] = none
search_trailing (c ∷ s) =
    let more = search_trailing s in
    elim (behind_closing fence (c ∷ s)) [
      | some _ ↦ some []
      | none ↦ elim more [ none ↦ none | some group ↦ some (c ∷ group) ]
    ]

abbrev pub is_trailing : Match → Bool
is_trailing m = is_empty m.group && leb 1 m.start && is_empty m.behind

unfoldable pub before_trailing : Str → Str
unfolding search_trailing
before_trailing raw_output = elim (search_trailing raw_output) [
  | some group ↦ group
  | none ↦ raw_output
]

unfoldable pub parse_refactored_code : Str → Str
unfolding search_fenced before_trailing is_empty
parse_refactored_code raw_output = elim (search_fenced 0 raw_output) [
  | none ↦ before_trailing raw_output
  | some m ↦ if is_trailing m then before_trailing raw_output else m.group
]
