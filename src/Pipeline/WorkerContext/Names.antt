-- ===== src/Pipeline/WorkerContext/Names.antt =====
-- The directory name of a worker stands for its index, and for no other.
use refactor_tradeoffs.Base.{
  ℕ, ◌≡◌, ◌≢◌, refl, ap, sym, ◌∙◌, true, false, [], ◌∷◌, Str, contains, nat_eq, to_path, path_str,
  path_name-to_path-path_str, IsPart, starts_with, show, isdigit-show, all_digits, digits_value,
  digits_value-show, drop, arith,
}
use refactor_tradeoffs.Base.Digits.{show-digits}
use refactor_tradeoffs.Globals.{Settings}
use refactor_tradeoffs.Pipeline.WorkerContext.{worker_name, worker_index_from_repo, get_worker_repo}

digits_no_slash : (s : Str) → all_digits s ≡ true → contains s b'/' ≡ false
unfolding all_digits
digits_no_slash [] h = refl
digits_no_slash (c ∷ s) h = ground (arith, digits_no_slash s)

worker_name-IsPart : (index : ℕ) → IsPart (worker_name index)
unfolding nat_eq
worker_name-IsPart index = record {
  no_slash = digits_no_slash (show index) (show-digits index);
  not_empty = λ e. cc;
  not_dot = λ e. cc;
}

-- The index that `get_worker_repo` puts into a path is the one read back from its text.
pub worker_index_from_repo-get_worker_repo :
    (settings : Settings) (index : ℕ)
    → worker_index_from_repo (path_str (get_worker_repo settings index)) ≡ index
unfolding worker_index_from_repo get_worker_repo starts_with nat_eq
worker_index_from_repo-get_worker_repo settings index =
    rw
      (
        path_name-to_path-path_str (to_path settings.job_dir) (worker_name index)
            (worker_name-IsPart index),
        isdigit-show index,
      )
      (digits_value-show index)

pub worker_name-ne : (i j : ℕ) → i ≢ j → worker_name i ≢ worker_name j
worker_name-ne i j h e =
    h (sym (digits_value-show i) ∙ ap (λ s. digits_value (drop 7 s)) e ∙ digits_value-show j)
