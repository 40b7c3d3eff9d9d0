-- ===== src/ResultAnalysis.antt =====
-- src/result_analysis/create_polar_dataframe.py. A data frame is the list of its rows, `json.load` is a
-- parameter, and a directory is the list of its entries.
pub mod Saved
pub mod ActiveEvaluation
use refactor_tradeoffs.Base.{
  or_value_error, ℕ, ◌+◌, Bool, ◌&&◌, Option, none, some, List, [], ◌∷◌, ◌++◌, map, Str, codes,
  show, starts_with, FilePath, parent, if◌then◌else◌, Result, ok, raised, os_error, value_error,
}
use refactor_tradeoffs.Base.Names.{split_on, int}
use refactor_tradeoffs.Globals.{ExperimentType, AiType, UnitResult, name_of_ai, name_of_experiment}
use refactor_tradeoffs.Pipeline.State.{Files, text_at}
use refactor_tradeoffs.Pipeline.Run.{RunResult, results_of, result_name, run_name}

last_part : List Str → Str
last_part [] = []
last_part (part ∷ []) = part
last_part (part ∷ next ∷ parts) = last_part (next ∷ parts)

-- An entry of a directory: its name, and whether it is a directory.
abbrev pub Entry : Type 0
Entry = Str × Bool

-- `int(d.name.split('_')[-1])`
unfoldable pub run_index_of : Str → Result ℕ
unfolding split_on last_part int
run_index_of name = or_value_error (int (last_part (split_on b'_' name)))

unfoldable pub available_run_indices : List Entry → Result (List ℕ)
unfolding run_index_of
available_run_indices [] = ok []
available_run_indices ((name, is_dir) ∷ entries) =
    let rest = available_run_indices entries in
    if is_dir && starts_with name (codes "run_")
    then elim (run_index_of name) [
      | raised e ↦ raised e
      | ok index ↦ elim rest [ raised e ↦ raised e | ok indices ↦ ok (index ∷ indices) ]
    ]
    else rest

-- `SRC_ROOT / 'results'`, by the directory in which the analysis runs.
unfoldable pub loaded_from : FilePath → FilePath
unfolding parent
loaded_from cwd = parent cwd ++ (codes "results" ∷ [])

unfoldable pub target_json : FilePath → ExperimentType → AiType → ℕ → FilePath
unfolding loaded_from show
target_json cwd experiment_type ai_type run_index =
    loaded_from cwd
    ++ (name_of_experiment experiment_type
        ∷ name_of_ai ai_type
        ∷ (codes "run_" ++ show run_index)
        ∷ (codes "run_" ++ show run_index ++ codes ".json")
        ∷ [])

module _ {Float : Type 0} (json_load : Str → Result (RunResult Float)) (cwd : FilePath)
    (experiment_type : ExperimentType) (ai_type : AiType) where
  unfoldable pub load_run : ℕ → Files → Result (RunResult Float)
  unfolding text_at target_json
  load_run run_index files =
      elim (text_at files (target_json cwd experiment_type ai_type run_index)) [
        | none ↦ raised os_error
        | some text ↦ json_load text
      ]

  unfoldable pub load_runs : List ℕ → Files → Result (List (RunResult Float))
  unfolding load_run
  load_runs [] files = ok []
  load_runs (index ∷ indices) files =
      let rest = load_runs indices files in
      elim (load_run index files) [
        | raised e ↦ raised e
        | ok run ↦ elim rest [ raised e ↦ raised e | ok runs ↦ ok (run ∷ runs) ]
      ]

  unfoldable pub load_all_runs : List Entry → Files → Result (List (RunResult Float))
  unfolding available_run_indices load_runs
  load_all_runs entries files = elim (available_run_indices entries) [
    | raised e ↦ raised e
    | ok indices ↦ load_runs indices files
  ]

-- The columns of a run, without `per_unit_results`, and the sum of the tool calls.
pub record RunRow (Float : Type 0) : Type 0 where
  pub run : RunResult Float
  pub total_tool_calls : ℕ

pub record UnitRow : Type 0 where
  pub unit : UnitResult
  pub run_index : ℕ
  pub experiment_type : ExperimentType
  pub ai_type : AiType
  pub run_uid : Str

unfoldable pub tool_calls_of : List UnitResult → ℕ
tool_calls_of [] = 0
tool_calls_of (u ∷ us) = u.tool_calls + tool_calls_of us

module _ {Float : Type 0} where
  unfoldable pub build_run_level_df : List (RunResult Float) → List (RunRow Float)
  unfolding tool_calls_of
  build_run_level_df runs =
      map (λ r. record { run = r; total_tool_calls = tool_calls_of r.per_unit_results }) runs

  unfoldable pub unit_row : RunResult Float → UnitResult → UnitRow
  unfolding show
  unit_row r u = record {
    unit = u;
    run_index = r.run_index;
    experiment_type = r.experiment_type;
    ai_type = r.ai_type;
    run_uid = name_of_ai r.ai_type ++ (codes "_run_" ++ show r.run_index);
  }

  unfoldable pub build_unit_level_df : List (RunResult Float) → List UnitRow
  unfolding unit_row
  build_unit_level_df [] = []
  build_unit_level_df (r ∷ runs) = map (unit_row r) r.per_unit_results ++ build_unit_level_df runs

module _ {Float : Type 0} (json_load : Str → Result (RunResult Float)) (cwd : FilePath)
    (experiment_type : ExperimentType) (ai_type : AiType) where
  unfoldable pub group_df : List Entry → Files → Result (List (RunRow Float) × List UnitRow)
  unfolding load_all_runs build_run_level_df build_unit_level_df
  group_df entries files =
      elim (load_all_runs json_load cwd experiment_type ai_type entries files) [
        | raised e ↦ raised e
        | ok runs ↦ ok (build_run_level_df runs, build_unit_level_df runs)
      ]
