-- ===== src/Base/Newlines.antt =====
-- How text is read from a file: the ends of lines that are "\r\n" or "\r" become "\n".
use mathlib.Core.Path.{◌≡◌, refl}
use mathlib.Core.Bool.{Bool, false, ◌&&◌}
use mathlib.Core.List.{[], ◌∷◌}
use native.Mathlib.Omega.{arith}
use refactor_tradeoffs.Base.Tests.{if◌then◌else◌}
use refactor_tradeoffs.Base.Equality.{◌==◌, nat_eq}
use refactor_tradeoffs.Base.Text.{Str}

-- Whether the character before was a "\r" is the first argument.
unfoldable pub newlines_after : Bool → Str → Str
newlines_after after_cr [] = []
newlines_after after_cr (c ∷ text) =
    let rest = newlines_after (c == b'\r') text in
    if c == b'\r' then b'\n' ∷ rest else if after_cr && (c == b'\n') then rest else c ∷ rest

unfoldable pub universal_newlines : Str → Str
unfolding newlines_after
universal_newlines text = newlines_after false text

-- Text that has been read so is read again as it is.
newlines_after-again :
    (b : Bool) (text : Str) → newlines_after false (newlines_after b text) ≡ newlines_after b text
unfolding newlines_after nat_eq
newlines_after-again b [] = refl
newlines_after-again b (c ∷ text) = ground (arith, newlines_after-again (c == b'\r') text)

pub universal_newlines-again :
    (text : Str) → universal_newlines (universal_newlines text) ≡ universal_newlines text
unfolding universal_newlines
universal_newlines-again text = newlines_after-again false text
