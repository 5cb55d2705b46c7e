-- ===== src/RateLimit/Runs.antt =====
-- Runs of the rate limit engine, with the log of the requests that it let through.
use universal_database_proxy.Prelude.{
  ℕ, true, false, String, Option, none, some, List, [], ◌∷◌, ◌++◌, ◌≡◌, ◌<◌, if◌then◌else◌, ◌==◌,
  string_eq,
}
use universal_database_proxy.Prelude.Int.{ℤ, pos, ◌-ℤ◌, ◌≤ℤ◌}
use universal_database_proxy.Prelude.Result.{done}
use universal_database_proxy.GoMap.{lookup}
use universal_database_proxy.Types.{Float64, QueryContext, EngineResult}
use universal_database_proxy.RateLimit.{
  FloatLib, hundredth, half, float_one, RateLimitConfig, ClientState, RateLimitEngine, new,
  get_client_id, filter_requests_after,
}
use universal_database_proxy.RateLimit.Steps.{Response, process}
use universal_database_proxy.RateLimit.Upkeep.{process_response, monitor}

-- A request that was let through: its client and its time.
abbrev pub Log : Type 0
Log = List (String × ℤ)

abbrev pub times_of : String → Log → List ℤ
times_of id [] = []
times_of id ((j, t) ∷ log) = let rest = times_of id log in if j == id then t ∷ rest else rest

abbrev pub logged : EngineResult → String → ℤ → Log → Log
logged result id now log = if result.continues then log ++ (id, now) ∷ [] else log

-- The state after some calls and the log of the requests let through; the time is that of the last
-- query.
pub data Run (lib : FloatLib) (config : RateLimitConfig) : ℤ → RateLimitEngine → Log → Type 0 where
  start : (now : ℤ) → Run lib config now (new (some config)) []
  queries :
      {t : ℤ} {e : RateLimitEngine} {log : Log} (now : ℤ) (qc : QueryContext) (r : Response)
      → Run lib config t e log
      → t ≤ℤ now
      → process lib now qc e ≡ done r
      → Run lib config now r.0 (logged r.2 (get_client_id qc) now log)
  responds :
      {t : ℤ} {e : RateLimitEngine} {log : Log} (now : ℤ) (qc : QueryContext)
      → Run lib config t e log
      → Run lib config t (process_response now qc e) log
  ticks :
      {t : ℤ} {e : RateLimitEngine} {log : Log} (now : ℤ) (order : List String)
      → Run lib config t e log
      → Run lib config t (monitor lib now order e) log

-- What the floating point products of a limit below 2^53 satisfy: a limit does not grow by a factor
-- below one half, nor by the mean of 1 and a trust that is cut at 1.
pub record FloatLaws (lib : FloatLib) : Type 0 where
  pub scaled_le :
      (n : ℕ) (t : Float64)
      → n < 9007199254740992
      → lib.less t half ≡ true
      → lib.to_int (lib.mul (lib.of_int (pos n)) t) ≤ℤ pos n
  pub restored_le :
      (n : ℕ) (t : Float64)
      → n < 9007199254740992
      → lib.less t float_one ≡ true
      → lib.to_int (
          lib.mul
            (lib.of_int (pos n))
            (lib.add half (lib.mul half (lib.minimum float_one (lib.add t hundredth)))))
        ≤ℤ pos n

-- The engine limits every client, to at most `n` requests.
pub record Limits (config : RateLimitConfig) (n : ℕ) : Type 0 where
  pub on : config.enabled ≡ true
  pub no_whitelist : config.enable_ip_whitelist ≡ false
  pub limit : config.per_client_limit ≡ pos n
  pub exact : n < 9007199254740992

abbrev pub requests_of : Option ClientState → List ℤ
requests_of none = []
requests_of (some state) = state.requests

-- At time `t`: the requests of the log that are younger than the window are those that the clients
-- hold, and no limit is above `n`.
pub record IsLogged (config : RateLimitConfig) (n : ℕ) (t : ℤ) (e : RateLimitEngine) (log : Log)
    : Type 0 where
  pub same_config : e.config ≡ config
  pub same_times :
      (id : String) (cutoff : ℤ)
      → (t -ℤ config.window_size) ≤ℤ cutoff
      → filter_requests_after cutoff (times_of id log)
        ≡ filter_requests_after cutoff (requests_of (lookup id e.clients))
  pub limited :
      (id : String) (state : ClientState)
      → lookup id e.clients ≡ some state
      → state.current_limit ≤ℤ pos n
