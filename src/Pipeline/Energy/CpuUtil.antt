-- ===== src/Pipeline/Energy/CpuUtil.antt =====
-- `load_files` of src/pipeline/measuring_energy/cpu_util/experiments/parse_outputs.py: which files of a
-- directory are measurements, and of what. A name has ASCII characters only; the paths that `glob` finds, sorted, are
-- an argument. The reading of a table, and the period of a frequency, a division of floats, are parameters.
pub mod Names
use refactor_tradeoffs.Base.{
  ℕ, ◌+◌, ◌*◌, Bool, true, false, ◌&&◌, Option, none, some, List, [], ◌∷◌, ◌++◌, Str, codes,
  FilePath, path_name, is_empty, is_digit, digits_value, ◌==◌, leb, nat_eq, if◌then◌else◌, Result,
  ok, bind, raised, value_error, concat, show,
}

-- A literal of lower case at the start, in any case: what is behind it.
unfoldable pub skip : Str → Str → Option Str
skip [] s = some s
skip (l ∷ literal) [] = none
skip (l ∷ literal) (c ∷ s) =
    let rest = skip literal s in
    let lowered = if leb 65 c && leb c 90 then c + 32 else c in if lowered == l then rest else none

-- The digits at the start, and the rest.
unfoldable pub span_digits : Str → Str × Str
unfolding is_digit
span_digits [] = ([], [])
span_digits (c ∷ s) =
    let rest = span_digits s in if is_digit c then (c ∷ rest.0, rest.1) else ([], c ∷ s)

-- `(\d+)`
unfoldable pub number : Str → Option (ℕ × Str)
unfolding span_digits digits_value is_empty
number s = let r = span_digits s in if is_empty r.0 then none else some (digits_value r.0, r.1)

-- `$`
unfoldable pub at_end : Str → Bool
at_end [] = true
at_end (c ∷ []) = c == 10
at_end (c ∷ d ∷ s) = false

abbrev and_then {ℓ κ} : {A : Type ℓ} {B : Type κ} → Option A → (A → Option B) → Option B
and_then none f = none
and_then (some a) f = f a

-- `FILENAME_RE.match(name)`: the frequency, the load and the duration.
unfoldable pub match_filename : Str → Option (ℕ × ℕ × ℕ)
unfolding skip number at_end
match_filename name = and_then (skip (codes "cpu_util_hz") name) λ s. and_then (number s) λ hz.
    and_then (skip (codes "_load") (hz.1)) λ t. and_then (number t) λ load.
      and_then (skip (codes "_duration") (load.1)) λ u. and_then (number u) λ duration.
        and_then (skip (codes ".csv") (duration.1))
          λ rest. if at_end rest then some (hz.0, load.0, duration.0) else none

-- The table of a file, with the columns that are added.
pub record Frame (Table : Type 0) : Type 0 where
  pub table : Table
  pub hz : ℕ
  pub cpu_load : ℕ
  pub period_ns : ℕ
  pub expected_measurements : ℕ

module _ {Table : Type 0} (read_csv : FilePath → Result Table) (period_of : ℕ → Result ℕ) where
  load_frame : FilePath → ℕ × ℕ × ℕ → Result (Frame Table)
  unfolding bind
  load_frame path (hz, cpu_load, duration) = bind (read_csv path) λ table.
      bind (period_of hz) λ period_ns. ok (record {
        table = table;
        hz = hz;
        cpu_load = cpu_load;
        period_ns = period_ns;
        expected_measurements = hz * duration;
      })

  -- The loop: a file with another name is skipped.
  unfoldable pub load_frames : List FilePath → Result (List (Frame Table))
  unfolding match_filename path_name load_frame bind
  load_frames [] = ok []
  load_frames (path ∷ paths) =
      let rest = load_frames paths in
      elim (match_filename (path_name path)) [
        | none ↦ rest
        | some found ↦ bind (load_frame path found) λ frame. bind rest λ frames. ok (frame ∷ frames)
      ]

  unfoldable pub load_files : List FilePath → Result (List (Frame Table))
  unfolding load_frames bind is_empty
  load_files paths =
      bind (load_frames paths) λ frames. if is_empty frames then raised value_error else ok frames
