-- ===== src/RateLimit/Upkeep.antt =====
-- backend/internal/engines/ratelimit_intelligence_engine.go: `ProcessResponse`, the periodic maintenance and the whitelist.
use universal_database_proxy.Prelude.{
  Bool, true, false, ◌&&◌, ◌||◌, String, Option, none, some, List, [], ◌∷◌, ◌++◌, if◌then◌else◌,
  string_eq, length, ◌+◌, ◌*◌,
}
use universal_database_proxy.Prelude.Int.{ℤ, pos, negsuc, ◌-ℤ◌, ltb_ℤ, leb_ℤ, incr, wrap64}
use universal_database_proxy.GoMap.{lookup}
use universal_database_proxy.GoMap.Sweep.{sweep}
use universal_database_proxy.Types.{QueryContext, QueryResponse}
use universal_database_proxy.RateLimit.{
  FloatLib, four_fifths, float_one, RateLimitConfig, ClientState, CircuitState, circuit_closed,
  circuit_open, circuit_half_open, RateLimitCircuitBreaker, RateLimitEngine, prune_history,
  longer_ago,
}
use universal_database_proxy.RateLimit.Steps.{new_client, store}

-- `ProcessResponse`
abbrev pub is_failure : Option QueryResponse → Bool
is_failure none = false
is_failure (some response) = elim response.error [ none ↦ false | some _ ↦ true ]

abbrev pub is_half_open : CircuitState → Bool
is_half_open circuit_half_open = true
is_half_open _ = false

abbrev pub record_success : RateLimitCircuitBreaker → RateLimitCircuitBreaker
record_success b =
    if is_half_open b.state then record b { state = circuit_closed; failure_count = pos 0 } else b

abbrev pub record_failure : ℤ → RateLimitCircuitBreaker → RateLimitCircuitBreaker
record_failure now b = record b {
  failure_count = incr b.failure_count;
  last_failure = now;
  state =
      if is_half_open b.state || leb_ℤ b.threshold (incr b.failure_count)
      then circuit_open
      else b.state;
}

unfoldable pub process_response : ℤ → QueryContext → RateLimitEngine → RateLimitEngine
process_response now qc e =
    if e.config.circuit_breaker_enabled
    then record e {
      circuit_breaker =
          if is_failure qc.response
          then record_failure now e.circuit_breaker
          else record_success e.circuit_breaker;
      history = prune_history (now -ℤ pos 300000000000) (e.history ++ now ∷ []);
    }
    else e

-- One tick of `monitorLoop`
abbrev pub forgets : FloatLib → ℤ → ClientState → Bool
forgets lib now state =
    if ltb_ℤ state.last_blocked (now -ℤ pos 1800000000000)
      && (ltb_ℤ (pos 0) state.total_requests && lib.less four_fifths state.trust_score)
    then false
    else leb_ℤ (pos (length state.requests)) (pos 0)
      && longer_ago now state.last_blocked (pos 600000000000)

abbrev pub tick_breaker : ℤ → RateLimitCircuitBreaker → RateLimitCircuitBreaker
tick_breaker now b = elim b.state [
  | circuit_open ↦
      if longer_ago now b.last_failure b.timeout then record b { state = circuit_half_open } else b
  | circuit_closed ↦ b
  | circuit_half_open ↦ b
]

unfoldable pub monitor : FloatLib → ℤ → List String → RateLimitEngine → RateLimitEngine
monitor lib now order e = record e {
  clients = sweep (forgets lib now) order e.clients;
  circuit_breaker = tick_breaker now e.circuit_breaker;
}

-- `AddToWhitelist`
abbrev pub ten_times : ℤ → ℤ
ten_times (pos n) = pos (10 * n)
ten_times (negsuc n) = negsuc (10 * n + 9)

abbrev pub listed : RateLimitConfig → String → Option ClientState → ClientState
listed config id (some state) = record state { is_whitelisted = true; trust_score = float_one }
listed config id none = record (new_client config id) {
  is_whitelisted = true;
  trust_score = float_one;
  current_limit = wrap64 (ten_times config.per_client_limit);
  burst_allowance = pos 0;
}

unfoldable pub add_to_whitelist : String → RateLimitEngine → RateLimitEngine
add_to_whitelist id e = store id (listed e.config id (lookup id e.clients)) e
