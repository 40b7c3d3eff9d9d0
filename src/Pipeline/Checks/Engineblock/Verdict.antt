-- ===== src/Pipeline/Checks/Engineblock/Verdict.antt =====
-- What `correctness_check_eb` answers, and what it leaves alone.
use refactor_tradeoffs.Base.{ℕ, ◌≡◌, ◌≢◌, ◌↔◌, Bool, true, false, Option, none, some, [], Str}
use refactor_tradeoffs.Pipeline.State.{State}
use refactor_tradeoffs.Pipeline.WorkerContext.{or_zero}
use refactor_tradeoffs.Pipeline.Checks.Engineblock.{
  TestScript, exit_of, parse_eb_test_results, format_failures,
}

-- The index that is given or, where none is, that of the calling thread.
abbrev pub index_of : {World : Type 0} → Option ℕ → State World → ℕ
index_of none s = or_zero s.worker_index
index_of (some index) s = index

-- What a run of the check means: the script ran for the index, the answer is `true` exactly when it
-- returned 0, and a `false` comes with a text. The text of failures is passed on wherever there is one.
pub record Answers {World : Type 0} (script : TestScript World) (max_reported index : ℕ)
    (s : State World) (passed : Bool) (output : Str) (t : State World) : Type 0 where
  pub ran : (script.execute index s).1 ≡ t
  pub accepted : (passed ≡ true) ↔ ((exit_of (script.execute index s).0).0 ≡ 0)
  pub told : passed ≡ false → output ≢ []
  pub reported :
      format_failures max_reported (parse_eb_test_results (script.reports t)) ≢ []
      → output ≡ format_failures max_reported (parse_eb_test_results (script.reports t))
