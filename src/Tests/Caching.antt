-- ===== src/Tests/Caching.antt =====
-- The result cache at concrete inputs.
use universal_database_proxy.Prelude.{
  String, none, some, [], ◌∷◌, ◌≡◌, refl, arith, string_eq, eq_iff, length,
}
use universal_database_proxy.Prelude.Int.{ℤ, pos, ◌+ℤ◌, ◌≤ℤ◌}
use universal_database_proxy.Prelude.Result.{done}
use universal_database_proxy.GoMap.{insert, GoMap, lookup, Covers}
use universal_database_proxy.Types.{QueryContext, continue_result}
use universal_database_proxy.CachingEngine
use universal_database_proxy.CachingEngine.{
  CacheEntry, rows_data, CachingEngine, new, process, process_response, generate_cache_key,
  evict_oldest, set_cache_entry, get_cache_entry, invalidate_database, invalidate_table, hit_result,
}
use universal_database_proxy.CachingEngine.RoundTrip.{cache_flow, missed_query, hit_query}
use universal_database_proxy.CachingEngine.Bounds.{
  IsKeyed, Evicts, evict_oldest-Evicts, length-set_cache_entry,
}
use universal_database_proxy.CachingEngine.Invalidation.{lookup-invalidate}
use universal_database_proxy.Tests.Samples.{
  salary_query, salary_rows, salary_response, cache_config,
}

abbrev hash : String → String
hash s = "h"

abbrev key : String
key = "query:hr:staff:h"

abbrev other_entry : CacheEntry
other_entry = record {
  data_value = rows_data [];
  expires_at = pos 9;
  database = "hr";
  table = "other";
  query_hash = "other";
}

abbrev empty_engine : CachingEngine
empty_engine = record { config = some cache_config; cache = [] }

-- The response to the query, and the cache after another entry was stored behind it.
abbrev answered : QueryContext
answered =
    record (missed_query (generate_cache_key hash cache_config salary_query) [] salary_query) {
      response = some salary_response;
    }

abbrev two_entries : CachingEngine
two_entries = record {
  config = some cache_config;
  cache = insert "other" other_entry (process_response [] (pos 2) empty_engine answered).cache;
}

cache_flow_example :
    (process hash (pos 1) empty_engine salary_query
      ≡ done (
        missed_query (generate_cache_key hash cache_config salary_query) [] salary_query,
        continue_result,
      ))
    × (process hash (pos 50) two_entries (record salary_query { user = "eve" })
        ≡ done (hit_query [] salary_rows (record salary_query { user = "eve" }), hit_result))
unfolding get_cache_entry lookup insert generate_cache_key ◌+ℤ◌ process_response set_cache_entry
cache_flow_example =
    cache_flow hash cache_config refl [] (pos 1) (pos 2) (pos 50) empty_engine two_entries
      salary_query (record salary_query { user = "eve" }) [] [] salary_response salary_rows refl
      refl refl refl refl refl refl refl refl refl refl refl (omega arith)

abbrev entry_at : ℤ → CacheEntry
entry_at t = record {
  data_value = rows_data [];
  expires_at = t;
  database = "hr";
  table = "staff";
  query_hash = "k";
}

abbrev full_cache : GoMap String CacheEntry
full_cache = ("a", entry_at (pos 9)) ∷ ("b", entry_at (pos 4)) ∷ []

full_covered : Covers ("b" ∷ "a" ∷ []) full_cache
unfolding lookup
full_covered k v h = ground (arith, eq_iff "a" k, eq_iff "b" k)

full-IsKeyed : IsKeyed full_cache
unfolding lookup
full-IsKeyed = record {
  keyed = refl;
  timed = λ k e h z. ground (arith, eq_iff "a" k, eq_iff "b" k);
}

evict_oldest-Evicts_example : Evicts full_cache (evict_oldest ("b" ∷ "a" ∷ []) full_cache)
unfolding lookup
evict_oldest-Evicts_example =
    evict_oldest-Evicts ("b" ∷ "a" ∷ []) full_cache "a" (entry_at (pos 9)) full_covered full-IsKeyed
      refl

-- The entry that expires first goes.
evicted : evict_oldest ("b" ∷ "a" ∷ []) full_cache ≡ ("a", entry_at (pos 9)) ∷ []
unfolding evict_oldest CachingEngine.oldest universal_database_proxy.GoMap.range
    universal_database_proxy.GoMap.delete lookup
evicted = refl

length-set_cache_entry_example :
    pos (length (set_cache_entry cache_config ("b" ∷ "a" ∷ []) "c" (entry_at (pos 12)) full_cache))
    ≤ℤ pos 2
length-set_cache_entry_example =
    length-set_cache_entry cache_config ("b" ∷ "a" ∷ []) "c" (entry_at (pos 12)) full_cache
      full_covered full-IsKeyed (omega arith) (omega arith)

abbrev full_engine : CachingEngine
full_engine = record { config = some cache_config; cache = full_cache }

lookup-invalidate_example :
    (lookup "a" (invalidate_database ("b" ∷ "a" ∷ []) "hr" full_engine).cache ≡ none)
    × (lookup "a" (invalidate_table ("b" ∷ "a" ∷ []) "hr" "pay" full_engine).cache
        ≡ some (entry_at (pos 9)))
unfolding lookup
lookup-invalidate_example =
    lookup-invalidate ("b" ∷ "a" ∷ []) "hr" "pay" "a" full_engine (entry_at (pos 9)) full_covered
      refl
