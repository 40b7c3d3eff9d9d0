-- ===== src/Base/Digits.antt =====
-- The numerals of natural numbers as texts that `int` reads.
use mathlib.Core.Path.{◌≡◌, refl}
use Prim.Native.Nat.{ℕ}
use native.Mathlib.Omega.{arith}
use mathlib.Core.Bool.{true}
use mathlib.Core.Option.{some}
use mathlib.Core.List.{[], ◌∷◌}
use refactor_tradeoffs.Base.Equality.{nat_eq}
use refactor_tradeoffs.Base.Text.{Str, is_space, HasNoSpace, strip-HasNoSpace}
use refactor_tradeoffs.Base.Numerals.{
  show, isdigit, is_digit, all_digits, isdigit-show, digits_value-show,
}
use refactor_tradeoffs.Base.Names.{int}

isdigit-all : (s : Str) → isdigit s ≡ true → all_digits s ≡ true
unfolding isdigit
isdigit-all s h = ground arith

pub show-digits : (n : ℕ) → all_digits (show n) ≡ true
show-digits n = isdigit-all (show n) (isdigit-show n)

pub digits-HasNoSpace : (s : Str) → all_digits s ≡ true → HasNoSpace s
unfolding all_digits is_digit is_space nat_eq
digits-HasNoSpace [] h = tt
digits-HasNoSpace (c ∷ s) h = (ground arith, digits-HasNoSpace s (ground arith))

pub int-show : (n : ℕ) → int (show n) ≡ some n
unfolding int
int-show n =
    rw
      (
        strip-HasNoSpace (show n) (digits-HasNoSpace (show n) (show-digits n)),
        isdigit-show n,
        digits_value-show n,
      )
      refl
