-- ===== src/CircuitBreaker.antt =====
-- backend/internal/routing/router.go: the circuit breaker beside the router. Nothing in the
-- repository calls it; a caller asks `AllowRequest` before a request and reports how it went.
pub mod Reachable
use universal_database_proxy.Prelude.{ℕ, Bool, true, false, ◌<◌, List, [], ◌∷◌, if◌then◌else◌}
use universal_database_proxy.Prelude.Int.{ℤ, pos, incr, leb_ℤ, ltb_ℤ}

pub data CircuitState : Type 0 where
  state_closed state_open state_half_open : CircuitState

pub record CircuitBreaker : Type 0 where
  pub failures : ℤ
  pub threshold : ℤ
  pub timeout : ℤ
  pub last_failure : ℤ
  pub state : CircuitState

-- `NewCircuitBreaker`
unfoldable pub new : ℤ → ℤ → CircuitBreaker
new threshold timeout_seconds = record {
  failures = pos 0;
  threshold = threshold;
  timeout = timeout_seconds;
  last_failure = pos 0;
  state = state_closed;
}

-- `RecordSuccess`
unfoldable pub record_success : CircuitBreaker → CircuitBreaker
record_success cb = record cb { failures = pos 0; state = state_closed }

-- `RecordFailure`
unfoldable pub record_failure : CircuitBreaker → CircuitBreaker
record_failure cb =
    let counted = record cb { failures = incr cb.failures; last_failure = pos 0 } in
    if leb_ℤ counted.threshold counted.failures
    then record counted { state = state_open }
    else counted

-- `AllowRequest`
abbrev pub allows : CircuitState → ℤ → Bool
allows state_closed last_failure = true
allows state_open last_failure = if ltb_ℤ (pos 0) last_failure then true else false
allows state_half_open last_failure = true

unfoldable pub allow_request : CircuitBreaker → Bool
allow_request cb = allows cb.state cb.last_failure

-- `GetState`
unfoldable pub get_state : CircuitBreaker → CircuitState
get_state cb = cb.state
