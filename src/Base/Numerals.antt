-- ===== src/Base/Numerals.antt =====
-- Decimal numbers: `f'{n}'`, `str.isdigit` on ASCII, and `int` on a text of digits.
use Prim.Native.Nat.{ℕ, zero, suc, ◌+◌, ◌-◌, ◌*◌, ◌/◌, ◌%◌, ◌<◌}
use mathlib.Core.Path.{◌≡◌, refl}
use mathlib.Core.Bool.{Bool, true, false, ◌&&◌, not}
use mathlib.Core.Logic.{inl, inr}
use mathlib.Core.List.{[], ◌∷◌, ◌++◌, foldl, foldl-append}
use native.Mathlib.Omega.{arith}
use refactor_tradeoffs.Base.Tests.{if◌then◌else◌, leb, ltb, Bool-cases}
use refactor_tradeoffs.Base.Text.{Str, is_empty}

-- The fuel `suc n` is enough, as `n / 10` is less than `n` from 10 on.
digits_of : ℕ → ℕ → Str
digits_of zero n = []
digits_of (suc fuel) n =
    let more = digits_of fuel (n / 10) ++ ((48 + n % 10) ∷ []) in
    if ltb n 10 then (48 + n) ∷ [] else more

-- `str(n)`
unfoldable pub show : ℕ → Str
unfolding digits_of
show n = digits_of (suc n) n

unfoldable pub is_digit : ℕ → Bool
is_digit c = leb 48 c && leb c 57

unfoldable pub all_digits : Str → Bool
unfolding is_digit
all_digits [] = true
all_digits (c ∷ s) = is_digit c && all_digits s

-- `s.isdigit()`
unfoldable pub isdigit : Str → Bool
unfolding all_digits is_empty
isdigit s = not (is_empty s) && all_digits s

abbrev digit_step : ℕ → ℕ → ℕ
digit_step acc c = acc * 10 + (c - 48)

-- `int(s)` for a text of digits.
unfoldable pub digits_value : Str → ℕ
digits_value = foldl digit_step 0

digits_value-digits_of : (fuel n : ℕ) → n < fuel → digits_value (digits_of fuel n) ≡ n
unfolding digits_value digits_of
digits_value-digits_of zero n h = elim h [ ]
digits_value-digits_of (suc fuel) n h = elim (Bool-cases (ltb n 10)) [
  | inl small ↦ rw small (omega arith)
  | inr large ↦
      rw (large, foldl-append) (ground (arith, digits_value-digits_of fuel (n / 10) (ground arith)))
]

-- `int` reads back what `str` writes.
pub digits_value-show : (n : ℕ) → digits_value (show n) ≡ n
unfolding show
digits_value-show n = digits_value-digits_of (suc n) n (omega arith)

all_digits-append :
    (s t : Str) → all_digits s ≡ true → all_digits t ≡ true → all_digits (s ++ t) ≡ true
unfolding all_digits
all_digits-append [] t hs ht = ht
all_digits-append (c ∷ s) t hs ht = ground (arith, all_digits-append s t)

all_digits-digits_of : (fuel n : ℕ) → all_digits (digits_of fuel n) ≡ true
unfolding all_digits digits_of
all_digits-digits_of zero n = refl
all_digits-digits_of (suc fuel) n = ground (
  arith,
  all_digits-digits_of fuel (n / 10),
  all_digits-append (digits_of fuel (n / 10)) ((48 + n % 10) ∷ []),
)

is_empty-snoc : (s : Str) (c : ℕ) → is_empty (s ++ (c ∷ [])) ≡ false
unfolding is_empty
is_empty-snoc [] c = refl
is_empty-snoc (d ∷ s) c = refl

-- What `str` writes is a text of digits, and not empty.
pub isdigit-show : (n : ℕ) → isdigit (show n) ≡ true
unfolding isdigit show
isdigit-show n =
    ground
      (arith, all_digits-digits_of (suc n) n, is_empty-snoc (digits_of n (n / 10)) (48 + n % 10))
