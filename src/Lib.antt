-- ===== src/Lib.antt =====
-- RefactorTradeoffs lets a language model refactor the functions of a repository, checks what comes
-- back, and measures the energy of it. This library models the pipeline that does the refactoring.
--
-- A run builds units (a task, a file and a function of it), groups them by file and hands each file
-- to a thread of a pool. The thread claims a worker index, works in that worker's copy of the
-- repository, and copies the file back. For one unit the runner asks a language model, or an agent,
-- for new code, splices the code into the file, checks its syntax, writes the file and runs the
-- tests; it repeats with the errors as feedback, and restores the file when it gives up.
--
-- Files, with the code that they model:
--   Base               helpers: lists, texts as lists of character codes, numerals, paths as lists
--                      of parts, ends of lines as files are read, dicts in insertion order, XML elements, integers, counters, and
--                      code that may raise (Exec)
--   Globals            src/settings.py, src/globals/types.py
--   Pipeline/State     the state of a thread: files, its worker index, and the world of the services
--   Pipeline/Registry  src/pipeline/repository_registry/registry.py, and the parser cache `_get_parser`
--                      of src/pipeline/llm_context/tree_parser.py
--   Pipeline/WorkerContext   src/pipeline/worker_context.py; Pool has the threads as a step relation
--   Pipeline/TreeParser      src/pipeline/llm_context/tree_parser.py
--   Pipeline/Utils           src/pipeline/utils.py
--   Pipeline/VllmClient      src/pipeline/llm_providers/vllm_client.py
--   Pipeline/OpenHands       src/pipeline/llm_providers/openhands.py
--   Pipeline/Refactor        `_refactor` and `_process_unit` of src/pipeline/runner.py; Messages has the
--                            prompts
--   Pipeline/Units           `_build_units_passive`, `_build_units_active` and `_process_file_units` of
--                            src/pipeline/runner.py
--   Pipeline/Checks          src/pipeline/code_checks: the correctness check of EngineBlock with its report
--                            of failures, and the syntax check of PHP; EbProfile is
--                            src/pipeline/repository_registry/repositories/engineblock.py, Tools is
--                            src/pipeline/llm_providers/tools/check_tools.py
--   Pipeline/VllmServer      src/pipeline/llm_providers/vllm_server.py
--   Pipeline/Energy          the meters of src/pipeline/measuring_energy/nvidia_gpu and cpu_rapl; CpuUtil has
--                            `load_files` of cpu_util/experiments/parse_outputs.py there
--   Pipeline/Run             `perform_run` of src/pipeline/runner.py; Run/Experiment has `runner`, and
--                            Run/Interleaving the threads of the pool at once
--   Sonarqube                src/sonarqube/parse_issues.py
--   RepositoryAnalysis       src/repository_analysis: the counts of calls in a trace of
--                            workload_profile/parse_xdebug_trace.py, and the parsers of
--                            static_analysis/analyze_php/output_parser.py
--   ResultAnalysis           src/result_analysis/create_polar_dataframe.py; ActiveEvaluation has the functions
--                            of src/result_analysis/active_evaluation.ipynb
--   Tests                    the theorems at concrete inputs, by the parts that they are about
-- Names are those of the source, without a leading underscore. `_refactor` is `refactor`: its local
-- variables that change are the record `Progress`, the inner loop is `syntax_loop`, the outer one is
-- `correctness_loop`, and the closures over its variables are functions of a `Job`. `perform_run` is cut
-- into what comes before the pool (`prepare`), the pool (`run_tasks`) and what comes after it
-- (`finish`); what it works on is the record `Lab`.
--
-- Both loops of `_refactor` recurse on the number of rounds left, `max_syntax_retries + 1` and
-- `max_correctness_retries + 1`: these are the bounds of the source's `while` conditions, so that no
-- run is cut short. The polling loops of the server (`poll_every`) have one round of fuel more than
-- seconds until their limit, and each round lasts ten; the paging loop (`fetch_all_pages`) has no bound
-- in the source, and takes its fuel as an argument. All other recursion is on lists and trees.
--
-- The tree-sitter parser, the language model's client, the agent's conversation, the checks of a
-- profile, the scripts that these start, the answers of servers, the readings of energy counters, the
-- JSON library, floats and the schedule of the thread pool are parameters. Where a theorem needs
-- something of them it is a hypothesis: `LeavesFiles` (the checks leave the files that matter
-- alone; what the scripts write elsewhere, such as the reports of tests, is none of these), `LeavesIndex` (nor do they set the thread's index), `Nested` (tree-sitter's rows), `Serves` (a server
-- has finitely many pages), a schedule that has each task once and gives it to a thread of the pool,
-- and a text of JSON that is read as what was written.
--
-- A file is the text that its bytes encode. Reading it as text (`read_text`) turns the ends of lines into
-- "\n", while `copyfile` and the copies of directories keep them; bytes that do not decode are not
-- represented. A path is its parts, and one file has one path: parts `..` and links are not followed,
-- so that the theorem on the units of an active run asks for issues whose paths have none. The directory
-- `results` that runner.py writes to is an argument, as is the directory in which the analysis runs.
--
-- In `perform_run` the tasks of the pool run one after another (`run_tasks`).
-- Pipeline/Run/Interleaving has its threads at once, as a step relation: in one step a thread takes
-- the next task and claims an index, processes one unit, or merges its file. Within a step no other
-- thread acts, which is coarser than the code, where the calls of two units interleave.
-- Pipeline/WorkerContext/Pool has the claims of indices alone. Energy stays in the whole units of
-- the counters.
--
-- Not modelled: the containers that run the checks, logging, the merging and validation of settings
-- by their library, the command lines, the plots of the experiments on CPU utilisation, and the
-- rest of the notebooks, which compute statistics and plots in floats by libraries.
pub mod Base
pub mod Globals
pub mod Pipeline
pub mod Sonarqube
pub mod RepositoryAnalysis
pub mod ResultAnalysis
mod Tests
