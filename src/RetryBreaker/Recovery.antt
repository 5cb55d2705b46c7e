-- ===== src/RetryBreaker/Recovery.antt =====
-- How an open breaker recovers.
use universal_database_proxy.Prelude.{ℕ, ◌<◌, String, Option, none, some, ◌≡◌, ◌≢◌, ap, arith}
use universal_database_proxy.Prelude.Int.{ℤ, pos, incr, incr-pos, ◌-ℤ◌, ◌≤ℤ◌, ◌<ℤ◌}
use universal_database_proxy.RetryBreaker.{
  closed, open_state, half_open, CircuitBreaker, ok, rejected, execute,
}

-- The timeout has run out at the time `now`.
abbrev pub Elapsed : ℤ → CircuitBreaker → Type 0
Elapsed now cb = cb.timeout <ℤ now -ℤ cb.last_failure_time

-- An open breaker whose timeout has not run out rejects the call, whatever it would return, and
-- stays open with the same counts and times.
pub open_rejects :
    (now later : ℤ) (result : Option String) (cb : CircuitBreaker)
    → cb.state ≡ open_state
    → now -ℤ cb.last_failure_time ≤ℤ cb.timeout
    → ((execute now result later cb).1 ≡ rejected)
      × ((execute now result later cb).0 ≡ record cb { mu = (execute now result later cb).0.mu })
unfolding execute
open_rejects now later result cb o early = ground arith

probe :
    (now later : ℤ) (cb : CircuitBreaker)
    → cb.state ≡ open_state
    → Elapsed now cb
    → ((execute now none later cb).1 ≡ ok)
      × ((execute now none later cb).0.state ≡ half_open)
      × ((execute now none later cb).0.success_count ≡ pos 1)
unfolding execute incr
probe now later cb o late = ground arith

second_success :
    (now later : ℤ) (cb : CircuitBreaker)
    → cb.state ≡ half_open
    → cb.success_count ≡ pos 1
    → ((execute now none later cb).0.state ≡ half_open)
      × ((execute now none later cb).0.success_count ≡ pos 2)
unfolding execute
second_success now later cb h n = ground (arith, incr-pos 1, ap incr n)

third_success :
    (now later : ℤ) (cb : CircuitBreaker)
    → cb.state ≡ half_open
    → cb.success_count ≡ pos 2
    → ((execute now none later cb).0.state ≡ closed)
      × ((execute now none later cb).0.failure_count ≡ pos 0)
unfolding execute
third_success now later cb h n = ground (arith, incr-pos 2, ap incr n)

-- Three calls in a row that succeed, the first after the timeout of an open breaker, close it and
-- clear its failures, whatever the times of the later calls; it is half-open in between.
pub three_successes_close :
    (t₁ u₁ t₂ u₂ t₃ u₃ : ℤ) (cb : CircuitBreaker)
    → cb.state ≡ open_state
    → Elapsed t₁ cb
    → let first = (execute t₁ none u₁ cb).0 in
      let second = (execute t₂ none u₂ first).0 in
      let third = (execute t₃ none u₃ second).0 in
      (first.state ≡ half_open)
      × (second.state ≡ half_open)
      × (third.state ≡ closed)
      × (third.failure_count ≡ pos 0)
three_successes_close t₁ u₁ t₂ u₂ t₃ u₃ cb o late =
    let first = (execute t₁ none u₁ cb).0 in
    let second = (execute t₂ none u₂ first).0 in
    let p = probe t₁ u₁ cb o late in
    let q = second_success t₂ u₂ first p.1 p.2 in
    let r = third_success t₃ u₃ second q.0 q.1 in (p.1, q.0, r.0, r.1)

-- A breaker that is not closed has counted failures up to its threshold.
abbrev pub IsTripped : CircuitBreaker → Type 0
IsTripped cb = cb.state ≢ closed → cb.threshold ≤ℤ cb.failure_count

-- If a breaker that is not closed has reached its threshold, so it has after a call, whatever the
-- call returned; and a failed call to a breaker that was not closed, with fewer than three successes
-- counted, leaves it open.
pub failure_reopens :
    (now later : ℤ) (result : Option String) (k : ℕ) (cb : CircuitBreaker)
    → cb.failure_count ≡ pos k
    → k < 9223372036854775807
    → IsTripped cb
    → IsTripped (execute now result later cb).0
      × ((err : String)
          → result ≡ some err
          → cb.state ≢ closed
          → cb.success_count <ℤ pos 3
          → (execute now result later cb).0.state ≡ open_state)
unfolding execute
failure_reopens now later none k cb n small h =
    (ground (arith, h, incr-pos k, ap incr n), λ err e. cc)
failure_reopens now later (some err) k cb n small h = (
  ground (arith, h, incr-pos k, ap incr n),
  λ err e up low. ground (arith, h up, incr-pos k, ap incr n),
)
