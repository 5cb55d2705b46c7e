-- ===== src/RateLimit/Steps.antt =====
-- backend/internal/engines/ratelimit_intelligence_engine.go: `Process`.
use universal_database_proxy.Prelude.{
  Bool, false, ◌&&◌, String, Option, none, some, [], ◌∷◌, ◌++◌, if◌then◌else◌, string_eq, length,
}
use universal_database_proxy.Prelude.Int.{ℤ, pos, ◌-ℤ◌, ltb_ℤ, leb_ℤ, incr, wrap64}
use universal_database_proxy.Prelude.Result.{Go, done, ◌>>=◌}
use universal_database_proxy.Prelude.Locks.{write_locked}
use universal_database_proxy.Prelude.Division.{half_of}
use universal_database_proxy.GoMap.{lookup, insert}
use universal_database_proxy.Types.{
  string_value, int_value, float_value, Float64, Metadata, QueryContext, EngineResult,
  continue_result, make_meta,
}
use universal_database_proxy.RateLimit.{
  FloatLib, float_zero, hundredth, tenth, half, four_fifths, float_one, RateLimitConfig,
  ClientState, CircuitState, circuit_closed, circuit_open, circuit_half_open, RateLimitEngine,
  get_client_id, filter_requests_after, longer_ago,
}
use universal_database_proxy.RateLimit.Scoring.{calculate_anomaly_score}

abbrev pub Response : Type 0
Response = RateLimitEngine × QueryContext × EngineResult

abbrev pub refusal : String → Metadata → EngineResult
refusal message metadata = record {
  continues = false;
  modified = false;
  error = some message;
  metadata = some metadata;
}

-- The entry that `Process` works on: the client's own or a new one, with the requests of the window
abbrev pub new_client : RateLimitConfig → String → ClientState
new_client config id = record {
  client_id = id;
  requests = [];
  total_requests = pos 0;
  blocked_count = pos 0;
  last_blocked = pos 0;
  current_limit = config.per_client_limit;
  trust_score = half;
  is_whitelisted = false;
  anomaly_score = float_zero;
  burst_allowance = pos 10;
}

abbrev pub client_or_new : RateLimitConfig → String → Option ClientState → ClientState
client_or_new config id none = new_client config id
client_or_new config id (some state) = state

abbrev pub cleaned : ℤ → ClientState → ClientState
cleaned cutoff state = record state { requests = filter_requests_after cutoff state.requests }

abbrev pub client_at : ℤ → String → RateLimitEngine → ClientState
client_at now id e =
    cleaned (now -ℤ e.config.window_size) (client_or_new e.config id (lookup id e.clients))

abbrev pub store : String → ClientState → RateLimitEngine → RateLimitEngine
store id state e = record e { clients = insert id state e.clients }

-- A client over its limit: trust is lowered, and the limit where it is adaptive
abbrev pub throttled_limit : FloatLib → RateLimitConfig → Float64 → ℤ → ℤ
throttled_limit lib config trust limit =
    if config.adaptive_throttling && lib.less trust half
    then lib.to_int (lib.mul (lib.of_int config.per_client_limit) trust)
    else limit

abbrev pub throttled : FloatLib → ℤ → RateLimitConfig → ClientState → ClientState
throttled lib now config state =
    let trust = lib.maximum float_zero (lib.sub state.trust_score tenth) in
    record state {
      blocked_count = incr state.blocked_count;
      last_blocked = now;
      trust_score = trust;
      current_limit = throttled_limit lib config trust state.current_limit;
    }

abbrev pub limit_refusal : ClientState → String → EngineResult
limit_refusal state id = refusal (Prim.Native.String.◌++◌ "rate limit exceeded for client: " id) (
    ("reason", string_value "rate_limit_exceeded")
    ∷ ("current_limit", int_value state.current_limit)
    ∷ ("requests", int_value (pos (length state.requests)))
    ∷ ("trust_score", float_value state.trust_score)
    ∷ [])

abbrev pub refuse_over_limit :
    FloatLib → ℤ → String → ClientState → QueryContext → RateLimitEngine → Response
refuse_over_limit lib now id state qc e =
    let state' = throttled lib now e.config state in
    (store id state' e, qc, limit_refusal state' id)

abbrev pub is_anomalous : FloatLib → Float64 → ClientState → Bool
is_anomalous lib score state =
    lib.less four_fifths score && ltb_ℤ (half_of state.current_limit) (pos (length state.requests))

abbrev pub refuse_anomalous :
    FloatLib → Float64 → String → ClientState → QueryContext → RateLimitEngine → Response
refuse_anomalous lib score id state qc e = (
  store id
      (record state {
        anomaly_score = score;
        current_limit = lib.to_int (lib.mul (lib.of_int state.current_limit) half);
      })
      e,
  qc,
  refusal (Prim.Native.String.◌++◌ "anomalous traffic detected from: " id)
      (("reason", string_value "anomaly_detected") ∷ ("anomaly_score", float_value score) ∷ []),
)

-- The end of `Process`: the request is recorded, and trust and limit are raised
abbrev pub trusted : FloatLib → RateLimitConfig → ClientState → ClientState
trusted lib config state =
    let trust = lib.minimum float_one (lib.add state.trust_score hundredth) in
    record state {
      trust_score = trust;
      current_limit =
          lib.to_int
            (lib.mul (lib.of_int config.per_client_limit) (lib.add half (lib.mul half trust)));
    }

abbrev pub restored : FloatLib → RateLimitConfig → ClientState → ClientState
restored lib config state =
    if lib.less state.trust_score float_one
      && ltb_ℤ (pos (length state.requests)) (half_of state.current_limit)
    then trusted lib config state
    else state

abbrev pub recorded : ℤ → ClientState → ClientState
recorded now state = record state {
  requests = state.requests ++ now ∷ [];
  total_requests = incr state.total_requests;
}

abbrev pub with_limits : ClientState → QueryContext → QueryContext
with_limits state qc = record qc {
  metadata = some (
      insert "anomaly_score" (float_value state.anomaly_score) (
        insert "trust_score" (float_value state.trust_score) (
          insert "rate_limit_remaining"
            (int_value (wrap64 (state.current_limit -ℤ pos (length state.requests))))
            (make_meta qc.metadata))));
}

abbrev pub admit : FloatLib → ℤ → String → ClientState → QueryContext → RateLimitEngine → Response
admit lib now id state qc e =
    let state' = restored lib e.config (recorded now state) in
    (store id state' e, with_limits state' qc, continue_result)

abbrev pub after_score :
    FloatLib → ℤ → String → ClientState → QueryContext → RateLimitEngine → Float64 → Response
after_score lib now id state qc e score =
    if is_anomalous lib score state
    then refuse_anomalous lib score id state qc e
    else admit lib now id (record state { anomaly_score = score }) qc e

-- `Process` once it has locked the clients; `anomalyDetector.mu.Lock()` comes before the score.
unfoldable pub limit_client :
    FloatLib → ℤ → String → ClientState → QueryContext → RateLimitEngine → Go Response
limit_client lib now id state qc e =
    if leb_ℤ state.current_limit (pos (length state.requests))
    then done (refuse_over_limit lib now id state qc e)
    else if e.config.anomaly_detection
    then (calculate_anomaly_score lib now write_locked write_locked id (store id state e)
        >>= λ score. done (after_score lib now id state qc e score))
    else done (admit lib now id state qc e)

abbrev pub whitelisted : Option ClientState → Bool
whitelisted none = false
whitelisted (some state) = state.is_whitelisted

abbrev pub skips_limit : String → RateLimitEngine → Bool
skips_limit id e = e.config.enable_ip_whitelist && whitelisted (lookup id e.clients)

abbrev pub after_breaker : FloatLib → ℤ → QueryContext → RateLimitEngine → Go Response
after_breaker lib now qc e =
    if skips_limit (get_client_id qc) e
    then done (e, qc, continue_result)
    else limit_client lib now (get_client_id qc) (client_at now (get_client_id qc) e) qc e

abbrev pub breaker_refusal : EngineResult
breaker_refusal =
    refusal "circuit breaker open: service temporarily unavailable"
      (("reason", string_value "circuit_breaker_open") ∷ [])

abbrev pub half_opened : RateLimitEngine → RateLimitEngine
half_opened e = record e {
  circuit_breaker = record e.circuit_breaker { state = circuit_half_open };
}

abbrev pub check_breaker :
    CircuitState → FloatLib → ℤ → QueryContext → RateLimitEngine → Go Response
check_breaker circuit_open lib now qc e =
    if longer_ago now e.circuit_breaker.last_failure e.circuit_breaker.timeout
    then after_breaker lib now qc (half_opened e)
    else done (e, qc, breaker_refusal)
check_breaker circuit_closed lib now qc e = after_breaker lib now qc e
check_breaker circuit_half_open lib now qc e = after_breaker lib now qc e

-- `Process`
unfoldable pub process : FloatLib → ℤ → QueryContext → RateLimitEngine → Go Response
process lib now qc e =
    if e.config.enabled
    then check_breaker e.circuit_breaker.state lib now qc e
    else done (e, qc, continue_result)
