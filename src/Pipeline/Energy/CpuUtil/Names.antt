-- ===== src/Pipeline/Energy/CpuUtil/Names.antt =====
-- The name of a file of measurements tells what was measured.
use refactor_tradeoffs.Base.{
  ℕ, ◌≡◌, refl, true, false, some, [], ◌∷◌, ◌++◌, Str, codes, show, is_digit, all_digits, isdigit,
  isdigit-show, digits_value-show, nat_eq, arith,
}
use refactor_tradeoffs.Base.Digits.{show-digits}
use refactor_tradeoffs.Pipeline.Energy.CpuUtil.{skip, span_digits, number, match_filename}

-- The name that the experiment gives to the file of a measurement.
abbrev pub file_name : ℕ → ℕ → ℕ → Str
file_name hz cpu_load duration =
    codes "cpu_util_hz"
    ++ (show hz
        ++ (codes "_load"
            ++ (show cpu_load ++ (codes "_duration" ++ (show duration ++ codes ".csv")))))

span_digits-append :
    (d : Str) (c : ℕ) (s : Str)
    → all_digits d ≡ true
    → is_digit c ≡ false
    → span_digits (d ++ (c ∷ s)) ≡ (d, c ∷ s)
unfolding span_digits all_digits
span_digits-append [] c s h k = ground arith
span_digits-append (x ∷ d) c s h k = ground (arith, span_digits-append d c s)

number-show :
    (n c : ℕ) (s : Str) → is_digit c ≡ false → number (show n ++ (c ∷ s)) ≡ some (n, c ∷ s)
unfolding number isdigit
number-show n c s k =
    ground (
      arith,
      span_digits-append (show n) c s (show-digits n) k,
      isdigit-show n,
      digits_value-show n,
    )

-- From the name that a file of measurements has, whatever the frequency, the load and the duration are,
-- `FILENAME_RE` reads these back.
pub match_filename-file_name :
    (hz cpu_load duration : ℕ)
    → match_filename (file_name hz cpu_load duration) ≡ some (hz, cpu_load, duration)
unfolding match_filename skip is_digit nat_eq
match_filename-file_name hz cpu_load duration =
    rw
      (
        number-show hz 95
            (codes "load"
              ++ (show cpu_load ++ (codes "_duration" ++ (show duration ++ codes ".csv"))))
            refl,
        number-show cpu_load 95 (codes "duration" ++ (show duration ++ codes ".csv")) refl,
        number-show duration 46 (codes "csv") refl,
      )
      refl
