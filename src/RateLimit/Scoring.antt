-- ===== src/RateLimit/Scoring.antt =====
-- backend/internal/engines/ratelimit_intelligence_engine.go: `calculateAnomalyScore`.
use universal_database_proxy.Prelude.{
  ◌&&◌, String, Option, none, some, List, [], ◌∷◌, leb, if◌then◌else◌, string_eq, length,
}
use universal_database_proxy.Prelude.Int.{ℤ, pos, ◌-ℤ◌, ltb_ℤ, incr}
use universal_database_proxy.Prelude.Result.{Go, done, ◌>>=◌}
use universal_database_proxy.Prelude.Locks.{RwMutex, r_lock}
use universal_database_proxy.GoMap.{lookup}
use universal_database_proxy.Types.{Float64}
use universal_database_proxy.RateLimit.{
  FloatLib, float_zero, fifth, three_tenths, half, float_one, ClientState, RateLimitEngine,
}

-- `countRecentRequests` and `filterPointsAfter`
unfoldable pub count_recent_requests : List ℤ → ℤ → ℤ
count_recent_requests [] since = pos 0
count_recent_requests (t ∷ requests) since =
    let rest = count_recent_requests requests since in if ltb_ℤ since t then incr rest else rest

unfoldable pub filter_points_after : List ℤ → ℤ → List ℤ
filter_points_after [] cutoff = []
filter_points_after (t ∷ points) cutoff =
    let rest = filter_points_after points cutoff in if ltb_ℤ cutoff t then t ∷ rest else rest

-- `getAverageRequestsPerMinute`
abbrev pub get_average_requests_per_minute : FloatLib → ℤ → RwMutex → RateLimitEngine → Go Float64
get_average_requests_per_minute lib now detector e = r_lock detector >>= λ _. done (
    if leb 2 (length e.history)
    then lib.of_int (pos (length (filter_points_after e.history (now -ℤ pos 60000000000))))
    else float_zero)

-- The three parts of the score: the rate, the share of blocked requests, and the burst
abbrev pub rate_score : FloatLib → Float64 → Float64 → Float64 → Float64
rate_score lib recent average score =
    let ratio = lib.div recent average in
    if lib.less float_zero average
    then (if lib.less (lib.of_int (pos 5)) ratio
        then lib.add score half
        else if lib.less (lib.of_int (pos 2)) ratio
        then lib.add score three_tenths
        else score)
    else score

abbrev pub blocked_score : FloatLib → ClientState → Float64 → Float64
blocked_score lib state score =
    if ltb_ℤ (pos 0) state.total_requests
      && lib.less half (lib.div (lib.of_int state.blocked_count) (lib.of_int state.total_requests))
    then lib.add score three_tenths
    else score

abbrev pub burst_score : FloatLib → ℤ → ClientState → Float64 → Float64
burst_score lib now state score =
    if ltb_ℤ (pos 50) (count_recent_requests state.requests (now -ℤ pos 5000000000))
    then lib.add score fifth
    else score

abbrev pub score_of : FloatLib → ℤ → RwMutex → RateLimitEngine → Option ClientState → Go Float64
score_of lib now detector e none = done float_zero
score_of lib now detector e (some state) =
    let recent = count_recent_requests state.requests (now -ℤ pos 60000000000) in
    get_average_requests_per_minute lib now detector e >>= λ average. done (
      lib.minimum float_one (
        burst_score lib now state
          (blocked_score lib state (rate_score lib (lib.of_int recent) average float_zero))))

-- `calculateAnomalyScore`, with the mutexes of the clients and of the detector as it meets them
abbrev pub calculate_anomaly_score :
    FloatLib → ℤ → RwMutex → RwMutex → String → RateLimitEngine → Go Float64
calculate_anomaly_score lib now clients detector id e =
    r_lock clients >>= λ _. score_of lib now detector e (lookup id e.clients)
