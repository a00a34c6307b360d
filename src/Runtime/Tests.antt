-- ===== src/Runtime/Tests.antt =====
-- Runs of the retry loop, and its theorems at them.
use graphjin_slim.Base.{
  ℕ, suc, Bool, true, false, [], ◌≡◌, refl, none, some, ltb, ◌==◌, if◌then◌else◌,
}
use graphjin_slim.Runtime.Retry.{
  World, default_delays, retry_operation_with_policy, retry_operation_for_db,
}
use graphjin_slim.Runtime.Retry.Attempts.{
  RunOf, EndsWithError, HasSucceeded, retry_operation_with_policy-Run,
  retry_operation_with_policy-HasSucceeded,
}

-- The state counts the calls; the operation fails with its number until the third call, and the
-- context lives on.
abbrev third_time : World ℕ ℕ
third_time = record {
  operation = λ n. (if ltb n 2 then some n else none, suc n);
  context_error = λ n. none;
  wait = λ d n. (true, n);
  sleep = λ d n. n;
}

abbrev always : ℕ → Bool
always e = true

abbrev first_only : ℕ → Bool
first_only e = e == 0

third_call : retry_operation_with_policy third_time true always default_delays 0 ≡ (none, 3)
unfolding retry_operation_with_policy
third_call = refl

second_refused :
    retry_operation_with_policy third_time true first_only default_delays 0 ≡ (some 1, 2)
unfolding retry_operation_with_policy
second_refused = refl

no_delays : retry_operation_with_policy third_time false always [] 0 ≡ (some 0, 1)
unfolding retry_operation_with_policy
no_delays = refl

third_time-EndsWithError : EndsWithError third_time
third_time-EndsWithError d v u e = cc

retry_operation_with_policy-Run_example :
    RunOf third_time true always default_delays 0
      (retry_operation_with_policy third_time true always default_delays 0).0
      (retry_operation_with_policy third_time true always default_delays 0).1
retry_operation_with_policy-Run_example =
    retry_operation_with_policy-Run third_time true always default_delays 0

retry_operation_with_policy-HasSucceeded_example : HasSucceeded third_time 3
retry_operation_with_policy-HasSucceeded_example =
    retry_operation_with_policy-HasSucceeded third_time true always default_delays 0 3
      third_time-EndsWithError third_call

default_policy : retry_operation_for_db third_time true 0 ≡ (none, 3)
unfolding retry_operation_for_db
default_policy = refl
