-- ===== src/RetryBreaker.antt =====
-- backend/internal/retry/policy.go: the circuit breaker around a call. Times are nanoseconds; `now`
-- is the time at the check and `later` the time when the call has ended.
pub mod Counting
pub mod Recovery
use universal_database_proxy.Prelude.{
  ℕ, Bool, true, false, String, Option, none, some, List, [], ◌∷◌, if◌then◌else◌,
}
use universal_database_proxy.Prelude.Int.{ℤ, pos, incr, decr, ◌-ℤ◌, leb_ℤ, ltb_ℤ}

pub data CircuitState : Type 0 where
  closed open_state half_open : CircuitState

pub record CircuitBreaker : Type 0 where
  pub failure_count : ℤ
  pub success_count : ℤ
  pub threshold : ℤ
  pub timeout : ℤ
  pub state : CircuitState
  pub last_failure_time : ℤ
  pub mu : ℤ

-- `NewCircuitBreaker`
unfoldable pub new : ℤ → ℤ → CircuitBreaker
new threshold timeout = record {
  failure_count = pos 0;
  success_count = pos 0;
  threshold = threshold;
  timeout = timeout;
  state = closed;
  last_failure_time = pos 0;
  mu = pos 0;
}

-- `recordFailure`
unfoldable pub record_failure : ℤ → CircuitBreaker → CircuitBreaker
record_failure later cb =
    let counted = record cb { failure_count = incr cb.failure_count; last_failure_time = later } in
    if leb_ℤ counted.threshold counted.failure_count
    then record counted { state = open_state }
    else counted

abbrev pub close_if : Bool → CircuitBreaker → CircuitBreaker
close_if b cb = if b then record cb { state = closed; failure_count = pos 0 } else cb

-- `recordSuccess`
abbrev pub close_half_open : CircuitState → CircuitBreaker → CircuitBreaker
close_half_open half_open cb = close_if (leb_ℤ (pos 3) cb.success_count) cb
close_half_open _ cb = cb

unfoldable pub record_success : CircuitBreaker → CircuitBreaker
record_success cb = close_half_open cb.state (record cb { success_count = incr cb.success_count })

-- The `switch` of `Execute`: `none` is the error "circuit breaker is open".
unfoldable pub admit : CircuitState → ℤ → CircuitBreaker → Option CircuitBreaker
admit closed now cb = some cb
admit open_state now cb =
    if ltb_ℤ cb.timeout (now -ℤ cb.last_failure_time)
    then some (record cb { state = half_open; success_count = pos 0 })
    else none
admit half_open now cb = some (close_if (leb_ℤ (pos 3) cb.success_count) cb)

-- What `Execute` returns: the error of `fn`, the breaker's own, or nil.
pub data Reply : Type 0 where
  ok : Reply
  failed : String → Reply
  rejected : Reply

-- After the call of `fn`, which returned the given error.
abbrev pub finish : Option String → ℤ → CircuitBreaker → CircuitBreaker × Reply
finish none later cb = (record_success cb, ok)
finish (some err) later cb = (record_failure later cb, failed err)

abbrev pub run : Option String → ℤ → CircuitBreaker → Option CircuitBreaker → CircuitBreaker × Reply
run result later cb none = (cb, rejected)
run result later cb (some admitted) = finish result later admitted

-- `cb.mu++` at the start and `cb.mu--` at the end
abbrev pub enter : CircuitBreaker → CircuitBreaker
enter cb = record cb { mu = incr cb.mu }

abbrev pub leave : CircuitBreaker × Reply → CircuitBreaker × Reply
leave (cb, reply) = (record cb { mu = decr cb.mu }, reply)

-- `Execute`, where `fn` would return `result`
unfoldable pub execute : ℤ → Option String → ℤ → CircuitBreaker → CircuitBreaker × Reply
unfolding admit record_success record_failure
execute now result later cb = leave (run result later (enter cb) (admit cb.state now (enter cb)))

-- `Reset`
unfoldable pub reset : CircuitBreaker → CircuitBreaker
reset cb = record cb { state = closed; failure_count = pos 0; success_count = pos 0 }
