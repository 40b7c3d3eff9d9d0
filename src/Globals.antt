-- ===== src/Globals.antt =====
-- src/settings.py and src/globals/types.py: the configuration of an experiment, and the records
-- that it writes. The configured numbers are natural numbers; floats are a type of the caller's.
pub mod Sources
use refactor_tradeoffs.Base.{ℕ, Bool, Str, codes}

pub data AiType : Type 0 where
  traditional agent : AiType

pub data ExperimentType : Type 0 where
  passive active : ExperimentType

-- The texts of the two `Literal` types.
abbrev pub name_of_ai : AiType → Str
name_of_ai traditional = codes "traditional"
name_of_ai agent = codes "agent"

abbrev pub name_of_experiment : ExperimentType → Str
name_of_experiment passive = codes "passive"
name_of_experiment active = codes "active"

pub record Settings : Type 0 where
  pub vllm_server_port : ℕ
  pub vllm_model : Str
  pub vllm_api_url : Str
  pub vllm_max_model_len : ℕ
  pub vllm_tensor_parallel_size : ℕ
  pub vllm_server_timeout : ℕ
  pub syntax_check_timeout : ℕ
  pub correctness_check_timeout : ℕ
  pub ai_type : AiType
  pub repository_profile : Str
  pub experiment_type : ExperimentType
  pub run_size : ℕ
  pub max_syntax_retries : ℕ
  pub max_correctness_retries : ℕ
  pub min_function_loc : ℕ
  pub max_parallel_units : ℕ
  pub max_reported_test_failures : ℕ
  pub cooldown_period : ℕ
  pub job_dir : Str
  pub path_to_repository : Str

pub record UnitResult : Type 0 where
  pub name : Str
  pub file : Str
  pub accepted : Bool
  pub equal_to_original : Bool
  pub syntax_retries : ℕ
  pub correctness_retries : ℕ
  pub llm_calls : ℕ
  pub tokens_in : ℕ
  pub tokens_out : ℕ
  pub tool_calls : ℕ
