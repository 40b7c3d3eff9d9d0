-- ===== src/Base/Paths.antt =====
-- The part of `pathlib` that the program uses. A path is its parts; an absolute one begins with the
-- part `/`.
use Prim.Native.Nat.{ℕ}
use mathlib.Core.Path.{◌≡◌, refl, ap, sym}
use mathlib.Core.Logic.{◌≢◌}
use mathlib.Core.Bool.{Bool, true, false, ◌&&◌, not}
use mathlib.Core.Option.{Option, none, some}
use mathlib.Core.List.{List, [], ◌∷◌, ◌++◌, append_assoc, append-nil}
use native.Mathlib.Omega.{arith}
use refactor_tradeoffs.Base.Tests.{if◌then◌else◌}
use refactor_tradeoffs.Base.Equality.{◌==◌, contains, nat_eq, list_eq}
use refactor_tradeoffs.Base.Lists.{keep, All}
use refactor_tradeoffs.Base.Text.{Str, is_empty, join, onto, starts_with}

abbrev pub FilePath : Type 0
FilePath = List Str

-- The parts between the slashes.
split_slash : Str → List Str
unfolding onto
split_slash [] = [] ∷ []
split_slash (c ∷ s) = let rest = split_slash s in if c == b'/' then [] ∷ rest else onto c rest

abbrev slash : Str
slash = b'/' ∷ []

is_part : Str → Bool
is_part c = not (is_empty c) && not (c == (b'.' ∷ []))

-- `Path(s)`
unfoldable pub to_path : Str → FilePath
unfolding split_slash is_part starts_with is_empty
to_path s =
    let parts = keep is_part (split_slash s) in if starts_with s slash then slash ∷ parts else parts

-- `p / q`: an absolute `q` stands for itself.
unfoldable pub joined : FilePath → FilePath → FilePath
joined p [] = p
joined p (c ∷ q) = if c == slash then c ∷ q else p ++ c ∷ q

-- The path is relative, and does not go up.
abbrev pub IsPlain : FilePath → Type 0
IsPlain q = All (λ part. (part ≢ slash) × (part ≢ b'.' ∷ b'.' ∷ [])) q

pub joined-IsPlain : (p q : FilePath) → IsPlain q → joined p q ≡ p ++ q
unfolding joined
joined-IsPlain p [] h = sym (append-nil p)
joined-IsPlain p (c ∷ q) h = ground (arith, h.0.0)

-- `str(p)`
unfoldable pub path_str : FilePath → Str
unfolding join
path_str [] = b'.' ∷ []
path_str (c ∷ p) = if c == slash then slash ++ join slash p else join slash (c ∷ p)

-- `p.name`
unfoldable pub path_name : FilePath → Str
path_name [] = []
path_name (c ∷ []) = if c == slash then [] else c
path_name (c ∷ d ∷ p) = path_name (d ∷ p)

-- `p.parent`
unfoldable pub parent : FilePath → FilePath
parent [] = []
parent (c ∷ []) = if c == slash then c ∷ [] else []
parent (c ∷ d ∷ p) = c ∷ parent (d ∷ p)

pub parent-snoc : (p : FilePath) (w : Str) → w ≢ slash → parent (p ++ w ∷ []) ≡ p
unfolding parent
parent-snoc [] w h = ground (arith, h)
parent-snoc (c ∷ []) w h = ap (λ q. c ∷ q) (parent-snoc [] w h)
parent-snoc (c ∷ d ∷ p) w h = ap (λ q. c ∷ q) (parent-snoc (d ∷ p) w h)

-- `p.relative_to(base)`, or `none` for the `ValueError`.
unfoldable pub relative_to : FilePath → FilePath → Option FilePath
relative_to p [] = some p
relative_to [] (b ∷ base) = none
relative_to (c ∷ p) (b ∷ base) = let rest = relative_to p base in if c == b then rest else none

pub relative_to-append : (base p : FilePath) → relative_to (base ++ p) base ≡ some p
unfolding relative_to
relative_to-append [] p = refl
relative_to-append (b ∷ base) p = ground (arith, relative_to-append base p)

pub relative_to-eq-some :
    (p base : FilePath) {r : FilePath} → relative_to p base ≡ some r → p ≡ base ++ r
unfolding relative_to
relative_to-eq-some p [] h = ground arith
relative_to-eq-some [] (b ∷ base) h = cc
relative_to-eq-some (c ∷ p) (b ∷ base) {r} h = ground (arith, relative_to-eq-some p base {r = r})

-- A text that stands for one part of a path.
pub record IsPart (w : Str) : Type 0 where
  pub no_slash : contains w b'/' ≡ false
  pub not_empty : w ≢ []
  pub not_dot : w ≢ b'.' ∷ []

split_slash-cons : (s : Str) → (l : Str) × (ls : List Str) × (split_slash s ≡ l ∷ ls)
unfolding split_slash onto
split_slash-cons [] = ([], [], refl)
split_slash-cons (c ∷ s) = go (c == b'/') (split_slash-cons s)
  where
    go :
        (t : Bool)
        → (l : Str) × (ls : List Str) × (split_slash s ≡ l ∷ ls)
        → (l : Str) × (ls : List Str) × ((if t then [] ∷ split_slash s else onto c (split_slash s))
            ≡ l ∷ ls)
    go true _ = ([], split_slash s, refl)
    go false (l, ls, e) = (c ∷ l, ls, ap (onto c) e)

onto-append :
    (c : ℕ) (s : Str) (more : List Str)
    → onto c (split_slash s ++ more) ≡ onto c (split_slash s) ++ more
unfolding onto
onto-append c s more = let (l, ls, e) = split_slash-cons s in ground arith

split_slash-append : (s w : Str) → split_slash (s ++ b'/' ∷ w) ≡ split_slash s ++ split_slash w
unfolding split_slash nat_eq
split_slash-append [] w = refl
split_slash-append (c ∷ s) w =
    rw (split_slash-append s w) (ground (arith, onto-append c s (split_slash w)))

split_slash-part : (w : Str) → contains w b'/' ≡ false → split_slash w ≡ w ∷ []
unfolding split_slash onto
split_slash-part [] h = refl
split_slash-part (c ∷ w) h = ground (arith, split_slash-part w)

keep-append {ℓ} :
    {A : Type ℓ} (p : A → Bool) (xs ys : List A) → keep p (xs ++ ys) ≡ keep p xs ++ keep p ys
keep-append p [] ys = refl
keep-append p (x ∷ xs) ys = ground (arith, keep-append p xs ys)

keep-part : (w : Str) → IsPart w → keep is_part (split_slash w) ≡ w ∷ []
unfolding is_part is_empty
keep-part [] h = absurd (h.not_empty refl)
keep-part (c ∷ w) h = rw (split_slash-part (c ∷ w) h.no_slash) (ground (arith, h.not_dot))

path_name-snoc : (p : FilePath) (w : Str) → w ≢ slash → path_name (p ++ w ∷ []) ≡ w
unfolding path_name
path_name-snoc [] w h = ground arith
path_name-snoc (c ∷ []) w h = ground arith
path_name-snoc (c ∷ d ∷ p) w h = path_name-snoc (d ∷ p) w h

part-ne-slash : (w : Str) → IsPart w → w ≢ slash
part-ne-slash w h e = ground (arith, h.no_slash, ap (λ v. contains v b'/') e)

name-behind-slash : (s w : Str) → IsPart w → path_name (to_path (s ++ b'/' ∷ w)) ≡ w
unfolding to_path
name-behind-slash s w h =
    rw (split_slash-append s w, keep-append is_part (split_slash s), keep-part w h)
      (ground (
        arith,
        path_name-snoc (keep is_part (split_slash s)) w (part-ne-slash w h),
        path_name-snoc (slash ∷ keep is_part (split_slash s)) w (part-ne-slash w h),
      ))

join-snoc :
    (c : Str) (p : FilePath) (w : Str)
    → join slash (c ∷ p ++ w ∷ []) ≡ join slash (c ∷ p) ++ b'/' ∷ w
unfolding join
join-snoc c [] w = refl
join-snoc c (d ∷ p) w = rw (join-snoc d p w) (simp append_assoc)

path_str-snoc :
    (c : Str) (p : FilePath) (w : Str) → (s : Str) × (path_str (c ∷ p ++ w ∷ []) ≡ s ++ b'/' ∷ w)
unfolding path_str list_eq
path_str-snoc c p w = go (c == slash) p
  where
    go :
        (t : Bool) (p : FilePath)
        → (s : Str) × ((if t
              then slash ++ join slash (p ++ w ∷ [])
              else join slash (c ∷ p ++ w ∷ []))
            ≡ s ++ b'/' ∷ w)
    go false p = (join slash (c ∷ p), join-snoc c p w)
    go true [] = ([], refl)
    go true (d ∷ p) = (slash ++ join slash (d ∷ p), rw (join-snoc d p w) (simp append_assoc))

starts_with-part : (w : Str) → contains w b'/' ≡ false → starts_with w slash ≡ false
unfolding starts_with
starts_with-part [] h = refl
starts_with-part (c ∷ w) h = ground arith

name-alone : (w : Str) → IsPart w → path_name (to_path (path_str (w ∷ []))) ≡ w
unfolding path_str to_path path_name
name-alone w h = ground (
  arith,
  part-ne-slash w h,
  keep-part w h,
  ap path_name (keep-part w h),
  starts_with-part w h.no_slash,
)

-- The last part of a path survives its printing and reading.
pub path_name-to_path-path_str :
    (p : FilePath) (w : Str) → IsPart w → path_name (to_path (path_str (p ++ w ∷ []))) ≡ w
path_name-to_path-path_str [] w h = name-alone w h
path_name-to_path-path_str (c ∷ p) w h =
    let (s, e) = path_str-snoc c p w in rw e (name-behind-slash s w h)
