-- ===== src/Server.antt =====
-- backend/internal/server/server.go: the engine pipeline that initEngines builds, of the security,
-- the observability and the caching engine in this order, over a world of their states.
pub mod Decision
use universal_database_proxy.Prelude.{String, true, Option, some, List, [], ◌∷◌, string_eq}
use universal_database_proxy.Prelude.Result.{Go, done, ◌>>=◌}
use universal_database_proxy.Types.{
  SecurityRule, QueryContext, Value, bool_value, CacheConfig, continue_result, lookup_meta,
}
use universal_database_proxy.Pipeline.{Engine, Step}
use universal_database_proxy.SecurityEngine
use universal_database_proxy.SecurityEngine.{TextLib}
use universal_database_proxy.Observability
use universal_database_proxy.Observability.{ObservabilityConfig, Clock}
use universal_database_proxy.CachingEngine
use universal_database_proxy.CachingEngine.{
  CachingEngine, generate_cache_key, write_shared, rows_of,
}

pub record ProxyWorld : Type 0 where
  pub rules : List SecurityRule
  pub observability : Option ObservabilityConfig
  pub cache : CachingEngine

-- `ProcessResponse` of the security engine masks the rows in place. If they come from a cache hit, the
-- entry has the same rows.
abbrev pub shared_rows :
    (String → String)
    → Option CacheConfig
    → Option Value
    → Option (List (List Value))
    → QueryContext
    → CachingEngine
    → CachingEngine
shared_rows sha1_hex (some config) (some (bool_value true)) (some d) qc e = record e {
  cache = write_shared (generate_cache_key sha1_hex config qc) d e.cache;
}
shared_rows sha1_hex _ _ _ qc e = e

abbrev pub mask_shared : (String → String) → QueryContext → ProxyWorld → ProxyWorld
mask_shared sha1_hex qc w = record w {
  cache =
      shared_rows sha1_hex w.cache.config (lookup_meta "cache_hit" qc.metadata)
        (rows_of qc.response) qc w.cache;
}

-- `order` is the one in which an eviction visits the cache.
module _ (lib : TextLib) (sha1_hex : String → String) (clock : Clock) (order : List String) where
  abbrev pub security_engine : Engine ProxyWorld
  security_engine = record {
    name = "security";
    process = λ qc w. SecurityEngine.process lib w.rules qc >>= λ r.
        done (record { result = r.1; query = r.0; world = w });
    process_response = λ qc w.
        let r = SecurityEngine.process_response qc in
        done (record { result = r.1; query = r.0; world = mask_shared sha1_hex r.0 w });
  }

  abbrev pub observability_engine : Engine ProxyWorld
  observability_engine = record {
    name = "observability";
    process = λ qc w. Observability.process clock w.observability qc >>= λ qc'.
        done (record { result = continue_result; query = qc'; world = w });
    process_response = λ qc w. done (record {
      result = continue_result;
      query = Observability.process_response clock w.observability qc;
      world = w;
    });
  }

  abbrev pub caching_engine : Engine ProxyWorld
  caching_engine = record {
    name = "caching";
    process = λ qc w. CachingEngine.process sha1_hex clock.now w.cache qc >>= λ r.
        done (record { result = r.1; query = r.0; world = w });
    process_response = λ qc w. done (record {
      result = continue_result;
      query = qc;
      world = record w { cache = CachingEngine.process_response order clock.now w.cache qc };
    });
  }

  -- `initEngines`
  abbrev pub engine_pipeline : List (Engine ProxyWorld)
  engine_pipeline = security_engine ∷ observability_engine ∷ caching_engine ∷ []
