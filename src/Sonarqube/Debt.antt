-- ===== src/Sonarqube/Debt.antt =====
-- What `parse_sonarqube_debt_string` makes of the server's texts.
use refactor_tradeoffs.Base.{
  ℕ, ◌+◌, ◌*◌, ◌≡◌, refl, ap, ◌∙◌, true, false, some, [], ◌∷◌, ◌++◌, Str, codes, is_empty, show,
  is_digit, all_digits, strip-HasNoSpace, starts_with, onto, contains, ◌==◌, nat_eq, list_eq, ok,
  arith,
}
use refactor_tradeoffs.Base.Names.{split_on}
use refactor_tradeoffs.Base.Digits.{show-digits, digits-HasNoSpace, int-show}
use refactor_tradeoffs.Sonarqube.{
  letter_h, minute_mark, has_mark, without_minutes, with_minutes, parse_sonarqube_debt_string,
}

-- A text of digits has no letter.
split_on-digits :
    (s rest : Str)
    → all_digits s ≡ true
    → split_on letter_h (s ++ (letter_h ∷ rest)) ≡ s ∷ split_on letter_h rest
unfolding split_on onto all_digits is_digit
split_on-digits [] rest h = ground arith
split_on-digits (c ∷ s) rest h = ground (arith, split_on-digits s rest)

contains-digits :
    (s rest : Str) → all_digits s ≡ true → contains (s ++ rest) letter_h ≡ contains rest letter_h
unfolding all_digits is_digit
contains-digits [] rest h = refl
contains-digits (c ∷ s) rest h = ground (arith, contains-digits s rest)

has_mark-digits :
    (s rest : Str)
    → all_digits s ≡ true
    → has_mark minute_mark (s ++ rest) ≡ has_mark minute_mark rest
unfolding has_mark starts_with all_digits is_digit
has_mark-digits [] rest h = refl
has_mark-digits (c ∷ s) rest h = ground (arith, has_mark-digits s rest)

not_m : (c : ℕ) → is_digit c ≡ true → (c == b'm') ≡ false
unfolding is_digit
not_m c h = ground arith

head_digit :
    (c : ℕ) (s : Str) → all_digits (c ∷ s) ≡ true → (is_digit c ≡ true) × (all_digits s ≡ true)
unfolding all_digits
head_digit c s h = ground arith

without_minutes-digits : (s : Str) → all_digits s ≡ true → without_minutes (s ++ minute_mark) ≡ s
unfolding without_minutes all_digits is_digit nat_eq
without_minutes-digits [] h = refl
without_minutes-digits (a ∷ []) h = ground arith
without_minutes-digits (a ∷ b ∷ []) h = ground arith
without_minutes-digits (a ∷ b ∷ c ∷ s) h =
    let (digit, digits) = head_digit a (b ∷ c ∷ s) h in
    rw (not_m a digit) (ap (◌∷◌ a) (without_minutes-digits (b ∷ c ∷ s) digits))

minute_mark-marked : has_mark minute_mark minute_mark ≡ true
unfolding has_mark starts_with nat_eq
minute_mark-marked = refl

with_minutes-show : (total n : ℕ) → with_minutes total (show n ++ minute_mark) ≡ ok (total + n)
unfolding with_minutes
with_minutes-show total n =
    let digits = show-digits n in
    rw
      (
        has_mark-digits (show n) minute_mark digits,
        without_minutes-digits (show n) digits,
        strip-HasNoSpace (show n) (digits-HasNoSpace (show n) digits),
        int-show n,
        minute_mark-marked,
      )
      refl

nonempty-snoc : (s rest : Str) (c : ℕ) → is_empty (s ++ (c ∷ rest)) ≡ false
unfolding is_empty
nonempty-snoc [] rest c = refl
nonempty-snoc (d ∷ s) rest c = refl

hours-show :
    (hours : ℕ) (rest : Str)
    → split_on letter_h rest ≡ rest ∷ []
    → parse_sonarqube_debt_string (some (show hours ++ (letter_h ∷ rest)))
      ≡ with_minutes (hours * 60) rest
unfolding parse_sonarqube_debt_string
hours-show hours rest h =
    let digits = show-digits hours in
    let has_h : contains (letter_h ∷ rest) letter_h ≡ true = ground arith in
    rw
      (
        nonempty-snoc (show hours) rest letter_h,
        contains-digits (show hours) (letter_h ∷ rest) digits,
        has_h,
        split_on-digits (show hours) rest digits,
        int-show hours,
      )
      (rw (split_on-digits (show hours) rest digits, h) refl)

minutes-split :
    (s : Str) → all_digits s ≡ true → split_on letter_h (s ++ minute_mark) ≡ (s ++ minute_mark) ∷ []
unfolding split_on onto all_digits is_digit nat_eq
minutes-split [] h = refl
minutes-split (c ∷ s) h = ground (arith, minutes-split s)

no_hours :
    (s : Str)
    → is_empty s ≡ false
    → contains s letter_h ≡ false
    → parse_sonarqube_debt_string (some s) ≡ with_minutes 0 s
unfolding parse_sonarqube_debt_string
no_hours s h k = rw (h, k) refl

no_more : (total : ℕ) (s : Str) → has_mark minute_mark s ≡ false → with_minutes total s ≡ ok total
unfolding with_minutes
no_more total s h = rw h refl

no_letter_h : contains minute_mark letter_h ≡ false
no_letter_h = ground arith

day_mark : (contains (codes "d") letter_h ≡ false) × (has_mark minute_mark (codes "d") ≡ false)
unfolding has_mark starts_with nat_eq
day_mark = (refl, refl)

nothing_split : split_on letter_h [] ≡ [] ∷ []
unfolding split_on
nothing_split = refl

nothing_marked : has_mark minute_mark [] ≡ false
unfolding has_mark
nothing_marked = refl

-- A debt written as "<hours>h<minutes>min", "<minutes>min" or "<hours>h", with decimal numbers, is read as its
-- minutes.
pub parse_sonarqube_debt_string-show :
    (hours minutes : ℕ)
    → (parse_sonarqube_debt_string (some (show hours ++ (letter_h ∷ (show minutes ++ minute_mark))))
        ≡ ok (hours * 60 + minutes))
      × (parse_sonarqube_debt_string (some (show minutes ++ minute_mark)) ≡ ok minutes)
      × (parse_sonarqube_debt_string (some (show hours ++ (letter_h ∷ []))) ≡ ok (hours * 60))
parse_sonarqube_debt_string-show hours minutes = (
  hours-show hours (show minutes ++ minute_mark)
        (minutes-split (show minutes) (show-digits minutes))
      ∙ with_minutes-show (hours * 60) minutes,
  no_hours (show minutes ++ minute_mark) (nonempty-snoc (show minutes) (codes "in") b'm')
        (contains-digits (show minutes) minute_mark (show-digits minutes) ∙ no_letter_h)
      ∙ with_minutes-show 0 minutes
      ∙ ap ok (omega arith),
  hours-show hours [] nothing_split ∙ no_more (hours * 60) [] nothing_marked,
)

-- A debt of whole days has neither an `h` nor a `min` in it: it counts as nothing.
pub parse_sonarqube_debt_string-days :
    (days : ℕ) → parse_sonarqube_debt_string (some (show days ++ codes "d")) ≡ ok 0
parse_sonarqube_debt_string-days days =
    let digits = show-digits days in
    no_hours (show days ++ codes "d") (nonempty-snoc (show days) [] b'd')
      (contains-digits (show days) (codes "d") digits ∙ day_mark.0)
    ∙ no_more 0 (show days ++ codes "d")
        (has_mark-digits (show days) (codes "d") digits ∙ day_mark.1)
