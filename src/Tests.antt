-- ===== src/Tests.antt =====
-- The theorems at concrete inputs: a file of one function, and a pool of two workers.
mod Runner
mod Checks
mod Analysis
mod Trees
mod Workers
mod Evaluation
use refactor_tradeoffs.Base.{
  true, none, some, [], ◌∷◌, Str, codes, ◌==◌, list_eq, nat_eq, if◌then◌else◌, ok,
}
use refactor_tradeoffs.Globals.{Settings, traditional, passive}
use refactor_tradeoffs.Pipeline.State.{Files}
use refactor_tradeoffs.Pipeline.Registry.{Node, node, nil, cons, Parsing, Profile}
use refactor_tradeoffs.Pipeline.TreeParser.{FunctionInfo}

abbrev World : Type 0
World = Unit {0}

-- A file of the lines `f`, `g` and `h`, whose rows 0 and 1 are a function.
abbrev source : Str
source = codes "f\ng\nh\n"

abbrev function_node : Node
function_node = node (codes "function") (some (codes "f")) 0 1 nil

abbrev tree : Node
tree = node (codes "program") none 0 2 (cons function_node nil)

abbrev parsing : Parsing
parsing = record { parse = λ _. tree; function_node_types = codes "function" ∷ [] }

abbrev f : FunctionInfo
f = record { name = codes "f"; start_line = 0; end_line = 1; source = codes "f\ng"; loc = 2 }

abbrev profile : Profile World
profile = record {
  language_name = codes "C";
  language_extension = codes "c";
  syntax_check = λ code s. (ok (true, []), s);
  correctness_check = λ index s. (ok (true, []), s);
  tree_sitter_language = λ _. tree;
  function_node_types = codes "function" ∷ [];
}

abbrev settings : Settings
settings = record {
  vllm_server_port = 8000;
  vllm_model = [];
  vllm_api_url = [];
  vllm_max_model_len = 1;
  vllm_tensor_parallel_size = 1;
  vllm_server_timeout = 1;
  syntax_check_timeout = 1;
  correctness_check_timeout = 1;
  ai_type = traditional;
  repository_profile = codes "engineblock";
  experiment_type = passive;
  run_size = 1;
  max_syntax_retries = 1;
  max_correctness_retries = 1;
  min_function_loc = 1;
  max_parallel_units = 2;
  max_reported_test_failures = 1;
  cooldown_period = 0;
  job_dir = codes "job";
  path_to_repository = [];
}

abbrev run_name : Str
run_name = codes "run_1"

-- One file, in the repository of the run.
abbrev run_files : Files
run_files q =
    if q == (codes "job" ∷ run_name ∷ codes "src" ∷ codes "a.c" ∷ []) then some source else none
