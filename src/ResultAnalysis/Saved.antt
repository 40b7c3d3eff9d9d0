-- ===== src/ResultAnalysis/Saved.antt =====
-- What the pipeline saves is what the analysis loads.
use refactor_tradeoffs.Base.{
  ℕ, ◌≡◌, ◌≢◌, refl, sym, ap, ◌∙◌, inl, inr, true, Bool-cases, none, some, List, [], ◌∷◌, ◌++◌, map,
  Str, codes, show, all_digits, is_digit, starts_with, onto, FilePath, parent-snoc, relative_to,
  Result, ok, arith, list_eq, nat_eq,
}
use refactor_tradeoffs.Base.Names.{split_on}
use refactor_tradeoffs.Base.Digits.{show-digits, int-show}
use refactor_tradeoffs.Globals.{ExperimentType, AiType, name_of_experiment, name_of_ai}
use mathlib.Core.List.{append_assoc}
use refactor_tradeoffs.Pipeline.State.{Files, write, write_self, write_text, text_at}
use refactor_tradeoffs.Base.Newlines.{universal_newlines}
use refactor_tradeoffs.Pipeline.Refactor.{Setup}
use refactor_tradeoffs.Pipeline.WorkerContext.{copytree}
use refactor_tradeoffs.Pipeline.WorkerContext.Provision.{relative_to-apart}
use refactor_tradeoffs.ResultAnalysis.{
  run_index_of, available_run_indices, load_run, loaded_from, target_json, last_part,
}
use refactor_tradeoffs.Pipeline.Run.{
  RunResult, RunServices, Lab, run_name, result_name, results_of, saved_below, save, on_state,
  copy_new, run_repo_of,
}

split_on-no_underscore : (s : Str) → all_digits s ≡ true → split_on b'_' s ≡ s ∷ []
unfolding split_on onto all_digits is_digit
split_on-no_underscore [] h = refl
split_on-no_underscore (c ∷ s) h = ground (arith, split_on-no_underscore s)

split_on-run_name :
    (s : Str) → split_on b'_' s ≡ s ∷ [] → split_on b'_' (codes "run_" ++ s) ≡ codes "run" ∷ s ∷ []
unfolding split_on onto nat_eq
split_on-run_name s h = rw h refl

run_index_of-run_name : (n : ℕ) → run_index_of (run_name n) ≡ ok n
unfolding run_index_of last_part
run_index_of-run_name n =
    rw (split_on-run_name (show n) (split_on-no_underscore (show n) (show-digits n)), int-show n)
      refl

run_name-starts : (s : Str) → starts_with (codes "run_" ++ s) (codes "run_") ≡ true
unfolding starts_with nat_eq
run_name-starts s = refl

-- The directories that the runs leave are read as the runs' numbers, in the same order.
pub available_run_indices-run_name :
    (ns : List ℕ) → available_run_indices (map (λ n. (run_name n, true)) ns) ≡ ok ns
unfolding available_run_indices
available_run_indices-run_name [] = refl
available_run_indices-run_name (n ∷ ns) =
    rw (run_name-starts (show n), run_index_of-run_name n, available_run_indices-run_name ns) refl

second : Str → ℕ
second [] = 0
second (c ∷ []) = 0
second (c ∷ d ∷ s) = d

result_name-ne : (n : ℕ) → result_name n ≢ codes "repo"
unfolding second
result_name-ne n h = omega (arith, ap second h)

copytree-other :
    (src dst : FilePath) (files : Files) (q : FilePath)
    → relative_to q dst ≡ none
    → copytree src dst files q ≡ files q
unfolding copytree
copytree-other src dst files q h = ground (arith, h)

load_run-of :
    {Float : Type 0} (json_load : Str → Result (RunResult Float)) (cwd : FilePath)
    (experiment_type : ExperimentType) (ai_type : AiType) (run_index : ℕ) (files : Files)
    {text : Str} {result : RunResult Float}
    → text_at files (target_json cwd experiment_type ai_type run_index) ≡ some text
    → json_load text ≡ ok result
    → load_run json_load cwd experiment_type ai_type run_index files ≡ ok result
unfolding load_run
load_run-of json_load cwd experiment_type ai_type run_index files h k = ground (arith, h, k)

-- The scripts of the pipeline and the notebooks of the analysis, in the directory `src` of a clone.
abbrev pub runner_file : FilePath → FilePath
runner_file src = (src ++ codes "pipeline" ∷ []) ++ codes "runner.py" ∷ []

abbrev pub analysis_dir : FilePath → FilePath
analysis_dir src = src ++ codes "result_analysis" ∷ []

target_json-saved_below :
    (src : FilePath) (experiment_type : ExperimentType) (ai_type : AiType) (run_index : ℕ)
    → target_json (analysis_dir src) experiment_type ai_type run_index
      ≡ results_of (saved_below (runner_file src)) experiment_type ai_type run_index
        ++ (result_name run_index ∷ [])
unfolding target_json loaded_from saved_below
target_json-saved_below src experiment_type ai_type run_index =
    rw
      (
        parent-snoc src (codes "result_analysis") (λ e. cc),
        parent-snoc (src ++ codes "pipeline" ∷ []) (codes "runner.py") (λ e. cc),
        parent-snoc src (codes "pipeline") (λ e. cc),
        append_assoc (src ++ (codes "results" ∷ []))
            (name_of_experiment experiment_type ∷ name_of_ai ai_type ∷ run_name run_index ∷ [])
            (result_name run_index ∷ []),
      )
      refl

module _ {World Float : Type 0} (setup : Setup World) (services : RunServices World Float)
    (issues_path results_dir : FilePath) where
  open setup use {settings}

  copy_new-files :
      (src dst : FilePath) (lab end : Lab World)
      → copy_new setup services issues_path results_dir src dst lab ≡ (ok tt, end)
      → copytree src dst lab.state.files ≡ end.state.files
  unfolding copy_new
  copy_new-files src dst lab end h = elim (Bool-cases (services.exists dst lab.state)) [
    | inl there ↦ ground (arith, h, there)
    | inr absent ↦ ap (λ (r : Result (Unit {0}) × Lab World). r.1.state.files) (rw absent at h)
  ]

  save-file :
      (run_index : ℕ) (result : RunResult Float) (lab end : Lab World)
      → save setup services issues_path results_dir run_index result lab ≡ (ok tt, end)
      → end.state.files (
          results_of results_dir settings.experiment_type settings.ai_type run_index
          ++ (result_name run_index ∷ []))
        ≡ some (services.dumps result)
  unfolding save on_state write_text copy_new
  save-file run_index result lab end h =
      let out = results_of results_dir settings.experiment_type settings.ai_type run_index in
      let path = out ++ (result_name run_index ∷ []) in
      let written = write path (services.dumps result) lab.state.files in
      let copied = out ++ (codes "repo" ∷ []) in
      let run_repo = run_repo_of setup services issues_path results_dir run_index in
      sym (
        ap (λ files. files path)
          (copy_new-files run_repo copied
            (record lab { state = record lab.state { files = written } }) end h))
      ∙ copytree-other run_repo copied written path (
          relative_to-apart out [] [] (result_name run_index) (codes "repo")
            (result_name-ne run_index))
      ∙ write_self path (services.dumps result) lab.state.files

  saved_text :
      (src : FilePath) (run_index : ℕ) (result : RunResult Float) (lab end : Lab World)
      → results_dir ≡ saved_below (runner_file src)
      → save setup services issues_path results_dir run_index result lab ≡ (ok tt, end)
      → text_at end.state.files
          (target_json (analysis_dir src) settings.experiment_type settings.ai_type run_index)
        ≡ some (universal_newlines (services.dumps result))
  unfolding text_at
  saved_text src run_index result lab end same k =
      rw
        (
          target_json-saved_below src settings.experiment_type settings.ai_type run_index,
          ← same,
          save-file run_index result lab end k,
        )
        refl

  -- In a clone whose directory `src` has the scripts: where `json.load` reads the text that was dumped for a
  -- result, its ends of lines read as "\n", as that result, the results go where pipeline/runner.py
  -- saves them, and the analysis runs in result_analysis beside pipeline, `load_run` gives the result of a run
  -- that was saved without an error.
  pub load_run-save :
      (json_load : Str → Result (RunResult Float)) (src : FilePath) (run_index : ℕ)
      (result : RunResult Float) (lab end : Lab World)
      → results_dir ≡ saved_below (runner_file src)
      → json_load (universal_newlines (services.dumps result)) ≡ ok result
      → save setup services issues_path results_dir run_index result lab ≡ (ok tt, end)
      → load_run json_load
          (analysis_dir src)
          settings.experiment_type
          settings.ai_type
          run_index
          end.state.files
        ≡ ok result
  load_run-save json_load src run_index result lab end same h k =
      load_run-of json_load (analysis_dir src) settings.experiment_type settings.ai_type run_index
        end.state.files (saved_text src run_index result lab end same k) h
