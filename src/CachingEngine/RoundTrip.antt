-- ===== src/CachingEngine/RoundTrip.antt =====
-- From the response to one query to the next query with the same key.
use universal_database_proxy.Prelude.{
  true, String, none, some, List, ◌≡◌, ◌≢◌, refl, ap, ◌∙◌, arith, string_eq, eq_iff, beq_refl,
}
use universal_database_proxy.Prelude.Int.{ℤ, ◌+ℤ◌, ◌≤ℤ◌, ◌<ℤ◌}
use universal_database_proxy.Prelude.Result.{done}
use universal_database_proxy.GoMap.{GoMap, lookup, insert}
use universal_database_proxy.GoMap.Laws.{lookup-insert}
use universal_database_proxy.Types.{
  Value, bool_value, string_value, Metadata, QueryContext, QueryResponse, op_select, CacheConfig,
  continue_result,
}
use universal_database_proxy.CachingEngine.{
  CacheEntry, rows_data, CachingEngine, get_cache_entry, set_cache_entry, process, process_response,
  generate_cache_key, response_or_empty, hit_result, fresh,
}
use universal_database_proxy.CachingEngine.Keys.{generate_cache_key-ne-empty, generate_cache_key-eq}

-- An entry can be read back until it expires, and not after.
pub get_cache_entry-set_cache_entry :
    (config : CacheConfig) (order : List String) (key : String) (entry : CacheEntry)
    (cache : GoMap String CacheEntry) (now : ℤ)
    → (now ≤ℤ entry.expires_at
        → get_cache_entry now key (set_cache_entry config order key entry cache) ≡ some entry)
      × (entry.expires_at <ℤ now
          → get_cache_entry now key (set_cache_entry config order key entry cache) ≡ none)
unfolding get_cache_entry set_cache_entry
get_cache_entry-set_cache_entry config order key entry cache now =
    simp (lookup-insert, beq_refl) ((λ h. ground arith), (λ h. ground arith))

-- The entry that the response `rows` to a query leads to.
abbrev pub entry_for : String → ℤ → CacheConfig → QueryContext → List (List Value) → CacheEntry
entry_for key stored config qc d = record {
  data_value = rows_data d;
  expires_at = stored +ℤ config.ttl;
  database = qc.database;
  table = qc.table;
  query_hash = key;
}

-- The query that a miss leaves, when its metadata was `m`.
abbrev pub missed_query : String → Metadata → QueryContext → QueryContext
missed_query key m qc = record qc { metadata = some (insert "cache_key" (string_value key) m) }

-- The query that a hit with rows `d` leaves, when its metadata was `m`.
abbrev pub hit_query : Metadata → List (List Value) → QueryContext → QueryContext
hit_query m d qc = record qc {
  metadata = some (insert "cache_hit" (bool_value true) m);
  response = some (record (response_or_empty qc.response) { rows = some d });
}

module _ (sha1_hex : String → String) (config : CacheConfig) (on : config.enabled ≡ true) where
  process_miss :
      (now : ℤ) (e : CachingEngine) (qc : QueryContext) (m : Metadata)
      → e.config ≡ some config
      → qc.operation ≡ op_select
      → qc.metadata ≡ some m
      → get_cache_entry now (generate_cache_key sha1_hex config qc) e.cache ≡ none
      → process sha1_hex now e qc
        ≡ done (missed_query (generate_cache_key sha1_hex config qc) m qc, continue_result)
  unfolding process
  process_miss now e qc m conf sel meta miss = ground arith

  process_hit :
      (now : ℤ) (e : CachingEngine) (qc : QueryContext) (m : Metadata) (entry : CacheEntry)
      (d : List (List Value))
      → e.config ≡ some config
      → qc.operation ≡ op_select
      → qc.metadata ≡ some m
      → get_cache_entry now (generate_cache_key sha1_hex config qc) e.cache ≡ some entry
      → entry.data_value ≡ rows_data d
      → process sha1_hex now e qc ≡ done (hit_query m d qc, hit_result)
  unfolding process
  process_hit now e qc m entry d conf sel meta hit rows = ground arith

  process_response_stores :
      (order : List String) (stored : ℤ) (e : CachingEngine) (qc : QueryContext) (m : Metadata)
      (key : String) (resp : QueryResponse) (d : List (List Value))
      → e.config ≡ some config
      → qc.operation ≡ op_select
      → key ≢ ""
      → resp.rows ≡ some d
      → process_response order stored e (record (missed_query key m qc) { response = some resp })
        ≡ record e {
          cache = set_cache_entry config order key (entry_for key stored config qc d) e.cache;
        }
  unfolding process_response
  process_response_stores order stored e qc m key resp d conf sel text rows = ground (
    arith,
    lookup-insert "cache_key" "cache_key" (string_value key) m,
    beq_refl {A = String} "cache_key",
    eq_iff key "",
  )

  -- A SELECT that misses has its key recorded, and when the response comes its rows are stored. In
  -- any later engine with the same settings whose entry for this key is still the one stored, so
  -- that it was not evicted, invalidated, replaced or written to: up to `TTL` after the store, a
  -- SELECT with metadata and the same text, database and table, of whatever user, gets these rows as
  -- its response, is marked as a hit, and goes on.
  pub cache_flow :
      (order : List String) (before stored now : ℤ) (e later : CachingEngine)
      (qc qc' : QueryContext) (m m' : Metadata) (resp : QueryResponse) (d : List (List Value))
      → e.config ≡ some config
      → qc.operation ≡ op_select
      → qc.metadata ≡ some m
      → get_cache_entry before (generate_cache_key sha1_hex config qc) e.cache ≡ none
      → resp.rows ≡ some d
      → later.config ≡ some config
      → lookup (generate_cache_key sha1_hex config qc) later.cache
        ≡ lookup
            (generate_cache_key sha1_hex config qc)
            (process_response order stored e
              (record (missed_query (generate_cache_key sha1_hex config qc) m qc) {
                response = some resp;
              })).cache
      → qc'.operation ≡ op_select
      → qc'.metadata ≡ some m'
      → qc'.raw_query ≡ qc.raw_query
      → qc'.database ≡ qc.database
      → qc'.table ≡ qc.table
      → now ≤ℤ stored +ℤ config.ttl
      → (process sha1_hex before e qc
          ≡ done (missed_query (generate_cache_key sha1_hex config qc) m qc, continue_result))
        × (process sha1_hex now later qc' ≡ done (hit_query m' d qc', hit_result))
  cache_flow order before stored now e later qc qc' m m' resp d conf sel meta miss rows conf' kept
        sel' meta' text db table live =
      let key = generate_cache_key sha1_hex config qc in
      let entry = entry_for key stored config qc d in
      let stands : get_cache_entry now key later.cache ≡ some entry =
        unfold get_cache_entry in
        ap (fresh now) kept
        ∙ (rw
            (process_response_stores order stored e qc m key resp d conf sel
              (generate_cache_key-ne-empty sha1_hex config qc) rows)
            ((get_cache_entry-set_cache_entry config order key entry e.cache now).0 live)) in
      (
        process_miss before e qc m conf sel meta miss,
        process_hit now later qc' m' entry d conf' sel' meta'
            (rw (generate_cache_key-eq sha1_hex config qc qc' text db table) stands) refl,
      )
