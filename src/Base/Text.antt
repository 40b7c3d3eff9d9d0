-- ===== src/Base/Text.antt =====
-- Python's `str` as a list of code points, with the methods that the program calls.
use Prim.Native.Nat.{ℕ}
use Prim.Native.Char.{code}
use Prim.Native.String.{String}
use mathlib.Core.Path.{◌≡◌, refl}
use mathlib.Core.Bool.{Bool, true, false, ◌&&◌, ◌||◌, not}
use mathlib.Core.List.{List, [], ◌∷◌, ◌++◌, reverse, reverse_aux, reverse-reverse, append_assoc}
use native.Mathlib.Omega.{arith}
use refactor_tradeoffs.Base.Tests.{if◌then◌else◌, leb}
use refactor_tradeoffs.Base.Equality.{◌==◌, nat_eq}

abbrev pub Str : Type 0
Str = List ℕ

abbrev pub codes : String → Str
codes String.[] = []
codes (String.◌∷◌ c s) = code c ∷ codes s

-- The characters that `str.strip` removes.
unfoldable pub is_space : ℕ → Bool
is_space c =
    (leb 9 c && leb c 13)
    || (leb 28 c && leb c 32)
    || c == 0x85
    || c == 0xa0
    || c == 0x1680
    || (leb 0x2000 c && leb c 0x200a)
    || c == 0x2028
    || c == 0x2029
    || c == 0x202f
    || c == 0x205f
    || c == 0x3000

-- The characters at which `str.splitlines` ends a line.
unfoldable pub is_break : ℕ → Bool
is_break c =
    (leb 10 c && leb c 13) || (leb 28 c && leb c 30) || c == 0x85 || c == 0x2028 || c == 0x2029

abbrev lstrip : Str → Str
lstrip [] = []
lstrip (c ∷ s) = let rest = lstrip s in if is_space c then rest else c ∷ s

-- `s.strip()`
unfoldable pub strip : Str → Str
unfolding is_space
strip s = reverse (lstrip (reverse (lstrip s)))

abbrev pub HasNoSpace : Str → Type 0
HasNoSpace [] = Unit
HasNoSpace (c ∷ s) = (is_space c ≡ false) × HasNoSpace s

lstrip-HasNoSpace : (s : Str) → HasNoSpace s → lstrip s ≡ s
lstrip-HasNoSpace [] h = refl
lstrip-HasNoSpace (c ∷ s) h = rw (h.0) refl

HasNoSpace-reverse_aux :
    (s acc : Str) → HasNoSpace s → HasNoSpace acc → HasNoSpace (reverse_aux s acc)
HasNoSpace-reverse_aux [] acc h k = k
HasNoSpace-reverse_aux (c ∷ s) acc h k = HasNoSpace-reverse_aux s (c ∷ acc) h.1 (h.0, k)

pub strip-HasNoSpace : (s : Str) → HasNoSpace s → strip s ≡ s
unfolding strip
strip-HasNoSpace s h =
    rw (lstrip-HasNoSpace s h, lstrip-HasNoSpace (reverse s) (HasNoSpace-reverse_aux s [] h tt))
      (reverse-reverse s)

unfoldable pub starts_with : Str → Str → Bool
starts_with s [] = true
starts_with [] (p ∷ prefix) = false
starts_with (c ∷ s) (p ∷ prefix) = c == p && starts_with s prefix

unfoldable pub ends_with : Str → Str → Bool
unfolding starts_with
ends_with s suffix = starts_with (reverse s) (reverse suffix)

unfoldable pub is_empty {ℓ} : {A : Type ℓ} → List A → Bool
is_empty [] = true
is_empty (c ∷ s) = false

-- `sep.join(parts)`
unfoldable pub join : Str → List Str → Str
join sep [] = []
join sep (p ∷ []) = p
join sep (p ∷ q ∷ parts) = p ++ (sep ++ join sep (q ∷ parts))

-- `''.join(parts)`
unfoldable pub concat : List Str → Str
concat [] = []
concat (p ∷ parts) = p ++ concat parts

-- A character in front of the first line.
unfoldable pub onto : ℕ → List Str → List Str
onto c [] = (c ∷ []) ∷ []
onto c (l ∷ lines) = (c ∷ l) ∷ lines

-- The line ends at `c`, unless `c` is the first half of a CR LF.
unfoldable pub ends_line : ℕ → Str → Bool
unfolding is_break starts_with
ends_line c s = is_break c && not (c == 13 && starts_with s (10 ∷ []))

-- `s.splitlines(keepends=True)`
unfoldable pub splitlines_keepends : Str → List Str
unfolding ends_line onto
splitlines_keepends [] = []
splitlines_keepends (c ∷ s) =
    let rest = splitlines_keepends s in if ends_line c s then (c ∷ []) ∷ rest else onto c rest

-- `s.splitlines()`. The CR of a CR LF goes with its line end.
unfoldable pub splitlines : Str → List Str
unfolding ends_line onto
splitlines [] = []
splitlines (c ∷ s) =
    let rest = splitlines s in
    if ends_line c s then [] ∷ rest else if is_break c then rest else onto c rest

concat-onto : (c : ℕ) (lines : List Str) → concat (onto c lines) ≡ c ∷ concat lines
unfolding concat onto
concat-onto c [] = refl
concat-onto c (l ∷ lines) = refl

pub concat-splitlines_keepends : (s : Str) → concat (splitlines_keepends s) ≡ s
unfolding splitlines_keepends concat
concat-splitlines_keepends [] = refl
concat-splitlines_keepends (c ∷ s) =
    ground (arith, concat-onto c (splitlines_keepends s), concat-splitlines_keepends s)

pub concat-append : (xs ys : List Str) → concat (xs ++ ys) ≡ concat xs ++ concat ys
unfolding concat
concat-append [] ys = refl
concat-append (x ∷ xs) ys = rw (concat-append xs ys, append_assoc)
