-- ===== src/CachingEngine.antt =====
-- backend/internal/engines/cache_engine.go: results of SELECT queries by a key of the query's text,
-- with an expiry time and eviction of the entry that expires first. The time now and the order in
-- which `range` visits the cache are arguments; the cache's metrics and the Redis client, which
-- the code leaves empty, are left out.
pub mod Keys
pub mod Eviction
pub mod Bounds
pub mod RoundTrip
pub mod Invalidation
use universal_database_proxy.Prelude.{
  ℕ, Bool, true, false, not, ◌&&◌, ◌||◌, String, Option, none, some, List, [], ◌∷◌, if◌then◌else◌,
  ◌==◌, string_eq, length,
}
use mathlib.Core.Option
use universal_database_proxy.Prelude.Int.{ℤ, pos, ◌+ℤ◌, ltb_ℤ, leb_ℤ, eq_ℤ}
use universal_database_proxy.Prelude.Result.{Go, done, ◌>>=◌}
use universal_database_proxy.GoMap.{GoMap, lookup, insert, delete, range}
use universal_database_proxy.GoMap.Sweep.{sweep}
use universal_database_proxy.Types.{
  Value, bool_value, string_value, Metadata, QueryOperation, op_select, QueryResponse, QueryContext,
  EngineResult, continue_result, CacheConfig, lookup_meta, insert_meta,
}

-- The `interface{}` of an entry: the rows of a response, or a value of another type.
pub data CacheData : Type 0 where
  rows_data : List (List Value) → CacheData
  other_data : CacheData

pub record CacheEntry : Type 0 where
  pub data_value : CacheData  -- the field `Data`
  pub expires_at : ℤ
  pub database : String
  pub table : String
  pub query_hash : String

pub record CachingEngine : Type 0 where
  pub config : Option CacheConfig
  pub cache : GoMap String CacheEntry

-- `NewCachingEngine`
unfoldable pub new : Option CacheConfig → CachingEngine
new config = record { config = config; cache = [] }

-- `fmt.Sprintf` with `%s` verbs
abbrev join : String → String → String
join s t = Prim.Native.String.◌++◌ s t

abbrev pub is_select : QueryOperation → Bool
is_select op_select = true
is_select _ = false

-- `e.config == nil || !e.config.Enabled || qc.Operation != types.OpSelect`, turned round
abbrev pub active : Option CacheConfig → QueryContext → Option CacheConfig
active none qc = none
active (some config) qc = if config.enabled && is_select qc.operation then some config else none

-- `time.Now().After(entry.ExpiresAt)`
abbrev pub expired : ℤ → CacheEntry → Bool
expired now entry = ltb_ℤ entry.expires_at now

abbrev pub fresh : ℤ → Option CacheEntry → Option CacheEntry
fresh now none = none
fresh now (some entry) = if expired now entry then none else some entry

-- `getCacheEntry`
unfoldable pub get_cache_entry : ℤ → String → GoMap String CacheEntry → Option CacheEntry
get_cache_entry now key cache = fresh now (lookup key cache)

abbrev pub empty_response : QueryResponse
empty_response = record {
  rows_affected = pos 0;
  rows_returned = pos 0;
  columns = [];
  rows = none;
  error = none;
  duration = pos 0;
}

abbrev pub response_or_empty : Option QueryResponse → QueryResponse
response_or_empty none = empty_response
response_or_empty (some resp) = resp

abbrev pub hit_result : EngineResult
hit_result = record {
  continues = true;
  modified = true;
  error = none;
  metadata = some (("cache_hit", bool_value true) ∷ []);
}

-- The use of an entry that was found. The response shares its rows with the entry: see
-- `write_shared`.
abbrev pub use_entry : CacheData → QueryContext → Go (QueryContext × EngineResult)
use_entry (rows_data d) qc = insert_meta "cache_hit" (bool_value true) qc.metadata >>= λ m. done (
  record qc {
    metadata = m;
    response = some (record (response_or_empty qc.response) { rows = some d });
  },
  hit_result,
)
use_entry other_data qc =
    done (record qc { response = some (response_or_empty qc.response) }, hit_result)

abbrev pub process_entry :
    String → Option CacheEntry → QueryContext → Go (QueryContext × EngineResult)
process_entry key (some entry) qc = use_entry entry.data_value qc
process_entry key none qc = insert_meta "cache_key" (string_value key) qc.metadata >>= λ m.
    done (record qc { metadata = m }, continue_result)

-- The loop of `evictOldest`: the key of the entry that expires first among those met.
unfoldable pub oldest : List (String × CacheEntry) → String → ℤ → String
oldest [] oldest_key oldest_time = oldest_key
oldest ((key, entry) ∷ rest) oldest_key oldest_time =
    let picks = eq_ℤ oldest_time (pos 0) || ltb_ℤ entry.expires_at oldest_time in
    oldest rest (if picks then key else oldest_key)
      (if picks then entry.expires_at else oldest_time)

-- `evictOldest`
unfoldable pub evict_oldest : List String → GoMap String CacheEntry → GoMap String CacheEntry
evict_oldest order cache =
    let key = oldest (range order cache) "" (pos 0) in if key == "" then cache else delete key cache

-- `setCacheEntry`
unfoldable pub set_cache_entry :
    CacheConfig
    → List String
    → String
    → CacheEntry
    → GoMap String CacheEntry
    → GoMap String CacheEntry
set_cache_entry config order key entry cache =
    insert key entry
      (if leb_ℤ config.max_size (pos (length cache)) then evict_oldest order cache else cache)

-- The key and the rows that `ProcessResponse` stores, if it stores anything.
abbrev pub key_of : Option Value → Option String
key_of (some (string_value key)) = if key == "" then none else some key
key_of _ = none

abbrev pub rows_of : Option QueryResponse → Option (List (List Value))
rows_of none = none
rows_of (some resp) = resp.rows

abbrev pub store :
    List String
    → ℤ
    → CacheConfig
    → QueryContext
    → Option String
    → Option (List (List Value))
    → GoMap String CacheEntry
    → GoMap String CacheEntry
store order now config qc (some key) (some d) cache =
    set_cache_entry config order key
      (record {
        data_value = rows_data d;
        expires_at = now +ℤ config.ttl;
        database = qc.database;
        table = qc.table;
        query_hash = key;
      })
      cache
store order now config qc _ _ cache = cache

abbrev pub process_response_active :
    List String → ℤ → Option CacheConfig → QueryContext → CachingEngine → CachingEngine
process_response_active order now none qc e = e
process_response_active order now (some config) qc e = record e {
  cache =
      store order now config qc (key_of (lookup_meta "cache_key" qc.metadata)) (rows_of qc.response)
        e.cache;
}

-- `ProcessResponse`; its result is always `{Continue: true}` and it leaves the query alone.
unfoldable pub process_response : List String → ℤ → CachingEngine → QueryContext → CachingEngine
process_response order now e qc = process_response_active order now (active e.config qc) qc e

-- What is left in the entry of a key after a write in place to the rows that a hit on this key handed
-- out, which are the entry's own. The entry has not been replaced since the hit.
abbrev pub rewritten :
    String
    → List (List Value)
    → Option CacheEntry
    → GoMap String CacheEntry
    → GoMap String CacheEntry
rewritten key d none cache = cache
rewritten key d (some entry) cache = insert key (record entry { data_value = rows_data d }) cache

unfoldable pub write_shared :
    String → List (List Value) → GoMap String CacheEntry → GoMap String CacheEntry
write_shared key d cache = rewritten key d (lookup key cache) cache

-- `InvalidateDatabase`
unfoldable pub invalidate_database : List String → String → CachingEngine → CachingEngine
invalidate_database order database e = record e {
  cache = sweep (λ entry. entry.database == database) order e.cache;
}

-- `InvalidateTable`
unfoldable pub invalidate_table : List String → String → String → CachingEngine → CachingEngine
invalidate_table order database table e = record e {
  cache = sweep (λ entry. entry.database == database && entry.table == table) order e.cache;
}

-- `Clear`
unfoldable pub clear : CachingEngine → CachingEngine
clear e = record e { cache = [] }

-- `SetEnabled` and `SetTTL`: a nil config stays nil.
unfoldable pub set_enabled : Bool → CachingEngine → CachingEngine
set_enabled b e = record e {
  config = Option.map (λ (c : CacheConfig). record c { enabled = b }) e.config;
}

unfoldable pub set_ttl : ℤ → CachingEngine → CachingEngine
set_ttl ttl e = record e {
  config = Option.map (λ (c : CacheConfig). record c { ttl = ttl }) e.config;
}

-- `sha1_hex` is `hashQuery`: SHA-1 from the package `crypto/sha1`, in hexadecimal.
module _ (sha1_hex : String → String) where
  -- `generateCacheKey`
  unfoldable pub generate_cache_key : CacheConfig → QueryContext → String
  generate_cache_key config qc =
      if config.key_prefix == ""
      then join "query:"
          (join qc.database (join ":" (join qc.table (join ":" (sha1_hex qc.raw_query)))))
      else join config.key_prefix (join ":" (join qc.database (join ":" (sha1_hex qc.raw_query))))

  abbrev pub process_active :
      ℤ → Option CacheConfig → CachingEngine → QueryContext → Go (QueryContext × EngineResult)
  process_active now none e qc = done (qc, continue_result)
  process_active now (some config) e qc =
      process_entry (generate_cache_key config qc)
        (get_cache_entry now (generate_cache_key config qc) e.cache) qc

  -- `Process`, which changes the query and not the engine.
  unfoldable pub process : ℤ → CachingEngine → QueryContext → Go (QueryContext × EngineResult)
  process now e qc = process_active now (active e.config qc) e qc
