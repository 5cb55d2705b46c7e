-- ===== src/RateLimit.antt =====
-- backend/internal/engines/ratelimit_intelligence_engine.go: clients with their recent requests, a
-- circuit breaker and the history of responses. Floating point arithmetic, which is the machine's,
-- is a `FloatLib` over the bits of a float64. A `now` stands for the calls of `time.Now` in one call.
pub mod Scoring
pub mod Steps
pub mod Upkeep
pub mod Outcomes
pub mod Windows
pub mod Runs
pub mod Logged
pub mod Written
pub mod Kept
pub mod Bounded
use universal_database_proxy.Prelude.{
  ℕ, Bool, true, false, String, Option, none, some, List, [], ◌∷◌, if◌then◌else◌, ◌==◌, string_eq,
  suc, ◌-◌, ◌/◌, nat_eq,
}
use universal_database_proxy.Prelude.Int.{ℤ, pos, negsuc, ◌+ℤ◌, ◌-ℤ◌, ltb_ℤ}
use universal_database_proxy.GoMap.{GoMap}
use universal_database_proxy.Types.{Float64, QueryContext}

pub record FloatLib : Type 0 where
  pub add : Float64 → Float64 → Float64
  pub sub : Float64 → Float64 → Float64
  pub mul : Float64 → Float64 → Float64
  pub div : Float64 → Float64 → Float64
  pub maximum : Float64 → Float64 → Float64
  pub minimum : Float64 → Float64 → Float64
  pub less : Float64 → Float64 → Bool
  pub of_int : ℤ → Float64
  pub to_int : Float64 → ℤ

-- The constants that the source writes as 0, 0.01, 0.1, 0.2, 0.3, 0.5, 0.8 and 1.0.
abbrev pub float_zero : Float64
float_zero = 0

abbrev pub hundredth : Float64
hundredth = 4576918229304087675

abbrev pub tenth : Float64
tenth = 4591870180066957722

abbrev pub fifth : Float64
fifth = 4596373779694328218

abbrev pub three_tenths : Float64
three_tenths = 4599075939470750515

abbrev pub half : Float64
half = 4602678819172646912

abbrev pub four_fifths : Float64
four_fifths = 4605380978949069210

abbrev pub float_one : Float64
float_one = 4607182418800017408

pub record RateLimitConfig : Type 0 where
  pub enabled : Bool
  pub global_limit : ℤ
  pub per_client_limit : ℤ
  pub window_size : ℤ
  pub anomaly_detection : Bool
  pub circuit_breaker_enabled : Bool
  pub circuit_breaker_threshold : ℤ
  pub circuit_breaker_timeout : ℤ
  pub adaptive_throttling : Bool
  pub enable_ip_whitelist : Bool

pub record ClientState : Type 0 where
  pub client_id : String
  pub requests : List ℤ
  pub total_requests : ℤ
  pub blocked_count : ℤ
  pub last_blocked : ℤ
  pub current_limit : ℤ
  pub trust_score : Float64
  pub is_whitelisted : Bool
  pub anomaly_score : Float64
  pub burst_allowance : ℤ

pub data CircuitState : Type 0 where
  circuit_closed circuit_open circuit_half_open : CircuitState

pub record RateLimitCircuitBreaker : Type 0 where
  pub state : CircuitState
  pub failure_count : ℤ
  pub last_failure : ℤ
  pub threshold : ℤ
  pub timeout : ℤ

-- `history` has the times of the points, all of value 1.0.
pub record RateLimitEngine : Type 0 where
  pub config : RateLimitConfig
  pub clients : GoMap String ClientState
  pub history : List ℤ
  pub circuit_breaker : RateLimitCircuitBreaker

abbrev pub default_config : RateLimitConfig
default_config = record {
  enabled = true;
  global_limit = pos 10000;
  per_client_limit = pos 1000;
  window_size = pos 60000000000;
  anomaly_detection = true;
  circuit_breaker_enabled = true;
  circuit_breaker_threshold = pos 50;
  circuit_breaker_timeout = pos 30000000000;
  adaptive_throttling = true;
  enable_ip_whitelist = false;
}

abbrev pub config_or_default : Option RateLimitConfig → RateLimitConfig
config_or_default none = default_config
config_or_default (some config) = config

-- `NewRateLimitIntelligenceEngine`; the loop that it starts is `monitor`.
unfoldable pub new : Option RateLimitConfig → RateLimitEngine
new config = record {
  config = config_or_default config;
  clients = [];
  history = [];
  circuit_breaker = record {
    state = circuit_closed;
    failure_count = pos 0;
    last_failure = pos 0;
    threshold = (config_or_default config).circuit_breaker_threshold;
    timeout = (config_or_default config).circuit_breaker_timeout;
  };
}

-- `getClientID`
unfoldable pub get_client_id : QueryContext → String
get_client_id qc =
    if qc.user == "" then if qc.client_addr == "" then "unknown" else qc.client_addr else qc.user

-- `filterRequestsAfter`
unfoldable pub filter_requests_after : ℤ → List ℤ → List ℤ
filter_requests_after cutoff [] = []
filter_requests_after cutoff (t ∷ ts) =
    let rest = filter_requests_after cutoff ts in if ltb_ℤ cutoff t then t ∷ rest else rest

-- `pruneHistory`
abbrev pub prune_history : ℤ → List ℤ → List ℤ
prune_history cutoff [] = []
prune_history cutoff (t ∷ ts) =
    let rest = prune_history cutoff ts in if ltb_ℤ cutoff t then t ∷ ts else rest

-- `time.Since(t) > d`
abbrev pub longer_ago : ℤ → ℤ → ℤ → Bool
longer_ago now t d = ltb_ℤ d (now -ℤ t)
