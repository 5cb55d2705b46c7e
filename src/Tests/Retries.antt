-- ===== src/Tests/Retries.antt =====
-- Retries and the two circuit breakers at concrete inputs.
use universal_database_proxy.Prelude.{
  zero, suc, true, false, none, some, [], ◌∷◌, ◌≡◌, ◌≢◌, ◌↔◌, refl, arith,
}
use universal_database_proxy.Prelude.Int.{pos, ◌-ℤ◌, ◌≤ℤ◌}
use universal_database_proxy.Bytes.{utf8, contains}
use universal_database_proxy.Bytes.Search.{Occurs, contains_iff}
use universal_database_proxy.RetryPolicy.{RetryPolicy, Env, execute}
use universal_database_proxy.RetryPolicy.Loop.{Ends, execute-Ends}
use universal_database_proxy.RetryBreaker
use universal_database_proxy.RetryBreaker.{closed, open_state, half_open, failed}
use universal_database_proxy.RetryBreaker.Counting.{Call, calls, Counted, closed_counts}
use universal_database_proxy.RetryBreaker.Recovery.{three_successes_close}
use universal_database_proxy.CircuitBreaker
use universal_database_proxy.CircuitBreaker.{state_open, state_closed, state_half_open}
use universal_database_proxy.CircuitBreaker.Reachable.{
  success, failure, reports, allow_request_iff_closed,
}

contains_iff_example :
    (contains (utf8 "i/o timeout") (utf8 "time") ≡ true) ↔ Occurs (utf8 "i/o timeout") (utf8 "time")
contains_iff_example = contains_iff (utf8 "i/o timeout") (utf8 "time")

abbrev three_times : RetryPolicy
three_times = record { max_attempts = pos 3; retryable_errors = []; non_retryable_errs = [] }

-- The second attempt succeeds.
abbrev flaky : Env
flaky = record {
  done_before = λ n. false;
  outcome = elim [ zero ↦ none | suc k ↦ elim k [ zero ↦ some (utf8 "deadlock") | suc _ ↦ none ] ];
  done_during = λ n. false;
}

execute-Ends_example :
    Ends three_times flaky (execute three_times flaky).0 (execute three_times flaky).1
execute-Ends_example = execute-Ends three_times flaky

abbrev failing_call : Call
failing_call = record { now = pos 1; result = some "down"; later = pos 2 }

abbrev good_call : Call
good_call = record { now = pos 3; result = none; later = pos 4 }

closed_counts_example :
    Counted (pos 2) 1 (calls (RetryBreaker.new (pos 2) (pos 10)) (failing_call ∷ good_call ∷ []))
    × (pos 2 ≤ℤ pos 2
        → (RetryBreaker.execute
            (pos 5)
            (some "down")
            (pos 6)
            (calls (RetryBreaker.new (pos 2) (pos 10)) (failing_call ∷ good_call ∷ []))).0.state
          ≡ open_state)
closed_counts_example =
    closed_counts (pos 2) (pos 10) (failing_call ∷ good_call ∷ []) (pos 5) (pos 6) "down"
      (omega arith) (omega arith)

abbrev tripped : RetryBreaker.CircuitBreaker
tripped = record {
  failure_count = pos 2;
  success_count = pos 0;
  threshold = pos 2;
  timeout = pos 10;
  state = open_state;
  last_failure_time = pos 6;
  mu = pos 0;
}

three_successes_close_example :
    let first = (RetryBreaker.execute (pos 20) none (pos 21) tripped).0 in
    let second = (RetryBreaker.execute (pos 22) none (pos 23) first).0 in
    let third = (RetryBreaker.execute (pos 24) none (pos 25) second).0 in
    (first.state ≡ half_open)
    × (second.state ≡ half_open)
    × (third.state ≡ closed)
    × (third.failure_count ≡ pos 0)
unfolding ◌-ℤ◌
three_successes_close_example =
    three_successes_close (pos 20) (pos 21) (pos 22) (pos 23) (pos 24) (pos 25) tripped refl
      (omega arith)

allow_request_iff_closed_example :
    let cb = reports (CircuitBreaker.new (pos 1) (pos 30)) (success ∷ failure ∷ []) in
    (cb.state ≢ state_half_open)
    × (CircuitBreaker.allow_request cb ≡ true → cb.state ≡ state_closed)
    × (cb.state ≡ state_closed → CircuitBreaker.allow_request cb ≡ true)
allow_request_iff_closed_example =
    allow_request_iff_closed (pos 1) (pos 30) (success ∷ failure ∷ [])
