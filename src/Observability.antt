-- ===== src/Observability.antt =====
-- backend/internal/engines/observability_engine.go: the start time and the duration of a query. A
-- `Clock` holds `time.Now`, its seconds, and the time since an instant in seconds. Logging, metrics
-- and the list of slow queries, which stays empty, are left out.
use universal_database_proxy.Prelude.{Bool, false, Option, none, some, if◌then◌else◌, string_eq}
use universal_database_proxy.Prelude.Int.{ℤ}
use universal_database_proxy.Prelude.Result.{Go, done, ◌>>=◌}
use universal_database_proxy.Types.{
  Value, int64_value, QueryContext, QueryResponse, lookup_meta, insert_meta,
}

pub record ObservabilityConfig : Type 0 where
  pub enabled : Bool
  pub log_queries : Bool
  pub log_responses : Bool
  pub slow_query_threshold : ℤ
  pub metrics_enabled : Bool
  pub tracing_enabled : Bool

pub record Clock : Type 0 where
  pub now : ℤ
  pub unix : ℤ
  pub since : ℤ → ℤ

-- `e.config == nil || !e.config.Enabled`
abbrev pub observes : Option ObservabilityConfig → Bool
observes none = false
observes (some config) = config.enabled

-- `Process`, which lets every query continue
unfoldable pub process : Clock → Option ObservabilityConfig → QueryContext → Go QueryContext
process clock config qc =
    if observes config
    then (insert_meta "start_time" (int64_value clock.unix) qc.metadata >>= λ m.
        done (record qc { timestamp = clock.now; metadata = m }))
    else done qc

-- `ProcessResponse`
abbrev pub with_duration : Clock → Option Value → Option QueryResponse → Option QueryResponse
with_duration clock (some (int64_value start)) (some response) =
    some (record response { duration = clock.since start })
with_duration clock _ response = response

unfoldable pub process_response : Clock → Option ObservabilityConfig → QueryContext → QueryContext
process_response clock config qc =
    if observes config
    then record qc {
      response = with_duration clock (lookup_meta "start_time" qc.metadata) qc.response;
    }
    else qc
