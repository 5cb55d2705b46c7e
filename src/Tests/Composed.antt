-- ===== src/Tests/Composed.antt =====
-- The proxy's engine pipeline at a concrete input.
use text.Mathlib.TextLemmas.{cons≢nil}
use universal_database_proxy.Prelude.{
  some, true, refl, String, false, none, [], ◌∷◌, ◌≡◌, string_eq,
}
use universal_database_proxy.Prelude.Int.{pos}
use universal_database_proxy.Prelude.Result.{done}
use universal_database_proxy.Types.{EngineResult, QueryContext, deny, bool_value, string_value}
use universal_database_proxy.GoMap.{lookup, insert}
use universal_database_proxy.CachingEngine.{CacheEntry, rows_data, write_shared, generate_cache_key}
use mathlib.Core.Option
use universal_database_proxy.Pipeline
use universal_database_proxy.Pipeline.{Step}
use universal_database_proxy.SecurityEngine.Decision.{Refuses}
use universal_database_proxy.Observability.{Clock}
use universal_database_proxy.Server.{ProxyWorld, engine_pipeline, mask_shared}
use universal_database_proxy.Server.Decision.{step, pipeline-Refuses_iff}
use universal_database_proxy.Tests.Samples.{
  literal_lib, salary_query, salary_rule, salary_rows, salary_response, cache_config,
}

abbrev hash : String → String
hash s = s

abbrev clock : Clock
clock = record { now = pos 7; unix = pos 7; since = λ start. pos 1 }

abbrev world : ProxyWorld
world = record {
  rules = salary_rule deny ∷ [];
  observability = none;
  cache = record { config = none; cache = [] };
}

pipeline-Refuses_iff_example :
    ((s : Step ProxyWorld)
      → Pipeline.process (engine_pipeline literal_lib hash clock []) salary_query world ≡ done s
      → s.result.continues ≡ false
      → Refuses literal_lib (salary_rule deny ∷ []) salary_query.raw_query s.result
        × (s.query ≡ salary_query)
        × (s.world ≡ world))
    × ((res : EngineResult)
        → Refuses literal_lib (salary_rule deny ∷ []) salary_query.raw_query res
        → (Pipeline.process (engine_pipeline literal_lib hash clock []) salary_query world
            ≡ done (step res salary_query world))
          × (res.continues ≡ false))
pipeline-Refuses_iff_example =
    pipeline-Refuses_iff literal_lib hash clock [] salary_query world (λ e. cons≢nil e)

-- A hit on the cached rows, whose response is masked: the next hit gets masked rows, too.
abbrev warm : ProxyWorld
warm = record {
  rules = [];
  observability = none;
  cache = record {
    config = some cache_config;
    cache =
        (
          "query:hr:staff:SELECT name, salary FROM staff",
          record {
            data_value = rows_data salary_rows;
            expires_at = pos 9;
            database = "hr";
            table = "staff";
            query_hash = "query:hr:staff:SELECT name, salary FROM staff";
          },
        )
        ∷ [];
  };
}

abbrev masked_hit : QueryContext
masked_hit = record salary_query {
  metadata = some (("cache_hit", bool_value true) ∷ []);
  response =
      some (record salary_response { rows = some ((string_value "***MASKED***" ∷ []) ∷ []) });
}

masked_entry :
    Option.map
      (λ (e : CacheEntry). e.data_value)
      (lookup "query:hr:staff:SELECT name, salary FROM staff"
        (mask_shared hash masked_hit warm).cache.cache)
    ≡ some (rows_data ((string_value "***MASKED***" ∷ []) ∷ []))
unfolding write_shared lookup insert generate_cache_key
masked_entry = refl
