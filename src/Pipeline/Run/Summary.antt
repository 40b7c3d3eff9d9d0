-- ===== src/Pipeline/Run/Summary.antt =====
-- The result of a run, of `perform_run` in src/pipeline/runner.py and `ResultSchema` in
-- src/globals/types.py.
use refactor_tradeoffs.Base.{
  ℕ, ◌+◌, not, List, [], ◌∷◌, ◌++◌, Str, codes, show, FilePath, parent, length, keep, is_empty,
  list_eq, nat_eq, if◌then◌else◌,
}
use refactor_tradeoffs.Base.Int.{ℤ}
use refactor_tradeoffs.Globals.{
  name_of_ai, name_of_experiment, Settings, AiType, ExperimentType, UnitResult,
}

pub record Floats (Float : Type 0) : Type 0 where
  pub quotient : ℕ → ℕ → Float
  pub rounded : Float → ℕ → Float
  pub plus : Float → Float → Float
  pub joules_of_cpu : ℕ → Float
  pub joules_of_gpu : ℤ → Float
  pub zero_float : Float

-- `ResultSchema`
pub record RunResult (Float : Type 0) : Type 0 where
  pub run_index : ℕ
  pub experiment_type : ExperimentType
  pub ai_type : AiType
  pub model : Str
  pub language : Str
  pub wall_time_seconds : Float
  pub cpu_energy_joules : Float
  pub gpu_energy_joules : Float
  pub total_energy_joules : Float
  pub total_llm_calls : ℕ
  pub total_tokens_in : ℕ
  pub total_tokens_out : ℕ
  pub total_processed_units : ℕ
  pub total_accepted_units : ℕ
  pub total_rejected_units : ℕ
  pub acceptance_rate : Float
  pub per_unit_results : List UnitResult

unfoldable pub total_of : (UnitResult → ℕ) → List UnitResult → ℕ
total_of count [] = 0
total_of count (r ∷ rs) = count r + total_of count rs

abbrev pub accepted_of : List UnitResult → List UnitResult
accepted_of = keep (λ r. r.accepted)

abbrev pub rejected_of : List UnitResult → List UnitResult
rejected_of = keep (λ r. not r.accepted)

module _ {Float : Type 0} (floats : Floats Float) where
  open floats use {quotient, rounded, plus, joules_of_cpu, joules_of_gpu, zero_float}

  -- The `result` of a run.
  unfoldable pub summarise : Settings → ℕ → Str → Float → ℕ → ℤ → List UnitResult → RunResult Float
  unfolding total_of is_empty
  summarise settings run_index language wall_seconds cpu_energy gpu_energy all_unit_results =
      let cpu_joules = joules_of_cpu cpu_energy in
      let gpu_joules = joules_of_gpu gpu_energy in
      let accepted = accepted_of all_unit_results in
      let rejected = rejected_of all_unit_results in
      record {
        run_index = run_index;
        experiment_type = settings.experiment_type;
        ai_type = settings.ai_type;
        model = settings.vllm_model;
        language = language;
        wall_time_seconds = rounded wall_seconds 2;
        cpu_energy_joules = rounded cpu_joules 4;
        gpu_energy_joules = rounded gpu_joules 4;
        total_energy_joules = rounded (plus cpu_joules gpu_joules) 4;
        total_llm_calls = total_of (λ r. r.llm_calls) all_unit_results;
        total_tokens_in = total_of (λ r. r.tokens_in) all_unit_results;
        total_tokens_out = total_of (λ r. r.tokens_out) all_unit_results;
        total_processed_units = length all_unit_results;
        total_accepted_units = length accepted;
        total_rejected_units = length rejected;
        acceptance_rate =
            if is_empty all_unit_results
            then zero_float
            else rounded (quotient (length accepted) (length all_unit_results)) 4;
        per_unit_results = all_unit_results;
      }

-- The directory of a run's results, and the name of the file in it.
abbrev pub run_name : ℕ → Str
run_name run_index = codes "run_" ++ show run_index

-- `Path(__file__).parent.parent / 'results'`
unfoldable pub saved_below : FilePath → FilePath
unfolding parent
saved_below file = parent (parent file) ++ (codes "results" ∷ [])

abbrev pub results_of : FilePath → ExperimentType → AiType → ℕ → FilePath
results_of results_dir experiment_type ai_type run_index =
    results_dir
    ++ (name_of_experiment experiment_type ∷ name_of_ai ai_type ∷ run_name run_index ∷ [])

abbrev pub result_name : ℕ → Str
result_name run_index = run_name run_index ++ codes ".json"
