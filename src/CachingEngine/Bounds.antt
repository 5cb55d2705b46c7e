-- ===== src/CachingEngine/Bounds.antt =====
-- The size of the cache under eviction.
use mathlib.Core.List.{Memᴰ}
use universal_database_proxy.Prelude.{
  ◌<◌, String, none, some, List, [], ◌∷◌, ◌≡◌, ◌≢◌, arith, string_eq, eq_iff, length, beq_refl,
}
use universal_database_proxy.Prelude.Int.{pos, ◌≤ℤ◌, ◌<ℤ◌}
use universal_database_proxy.GoMap.{GoMap, lookup, delete, range, Covers, has}
use universal_database_proxy.GoMap.Laws.{length-insert, length-delete_lt}
use universal_database_proxy.GoMap.Range.{mem-range, range-mem}
use universal_database_proxy.Types.{CacheConfig}
use universal_database_proxy.CachingEngine.{CacheEntry, oldest, evict_oldest, set_cache_entry}
use universal_database_proxy.CachingEngine.Eviction.{IsFirst, Timed, oldest-IsFirst}

-- No entry of the cache has the empty key or the zero time for its expiry.
pub record IsKeyed (cache : GoMap String CacheEntry) : Type 0 where
  pub keyed : lookup "" cache ≡ none
  pub timed : (k : String) (e : CacheEntry) → lookup k cache ≡ some e → e.expires_at ≢ pos 0

list-IsFirst :
    (l : List (String × CacheEntry)) {k : String} {e : CacheEntry}
    → Memᴰ (k, e) l
    → Timed l
    → IsFirst l (oldest l "" (pos 0))
list-IsFirst [] i h = elim i [ ]
list-IsFirst ((k, e) ∷ rest) i h = oldest-IsFirst k e rest h

-- What eviction removes.
pub record Evicts (cache after : GoMap String CacheEntry) : Type 0 where
  pub key : String
  pub entry : CacheEntry
  pub present : lookup key cache ≡ some entry
  pub least :
      (k : String) (e : CacheEntry) → lookup k cache ≡ some e → entry.expires_at ≤ℤ e.expires_at
  pub removed : after ≡ delete key cache

-- From a cache that is not empty, and whatever the order of the visit, eviction removes one entry:
-- one that expires no later than any other.
pub evict_oldest-Evicts :
    (order : List String) (cache : GoMap String CacheEntry) (k : String) (e : CacheEntry)
    → Covers order cache
    → IsKeyed cache
    → lookup k cache ≡ some e
    → Evicts cache (evict_oldest order cache)
unfolding evict_oldest
evict_oldest-Evicts order cache k e covers ok there =
    let first =
      list-IsFirst (range order cache) (range-mem order cache k e there (covers k e there))
        (λ j x i. ok.timed j x (mem-range order cache j x i)) in
    let key = oldest (range order cache) "" (pos 0) in
    let present = mem-range order cache key first.entry first.member in
    record {
      key = key;
      entry = first.entry;
      present = present;
      least = λ j x h. first.least j x (range-mem order cache j x h (covers j x h));
      removed = ground (arith, ok.keyed, eq_iff key "");
    }

some_entry :
    (cache : GoMap String CacheEntry)
    → 0 < length cache
    → (k : String) × (e : CacheEntry) × (lookup k cache ≡ some e)
unfolding lookup
some_entry [] h = elim h [ ]
some_entry ((k, e) ∷ cache) h = (k, e, rw (beq_refl k))

evict_oldest-smaller :
    (order : List String) (cache : GoMap String CacheEntry)
    → Covers order cache
    → IsKeyed cache
    → 0 < length cache
    → length (evict_oldest order cache) < length cache
evict_oldest-smaller order cache covers ok full =
    let (k, e, there) = some_entry cache full in
    let gone = evict_oldest-Evicts order cache k e covers ok there in
    rw gone.removed (length-delete_lt gone.key cache (rw (gone.present, has)))

-- With room for at least one entry, storing an entry keeps the cache within `MaxSize`.
pub length-set_cache_entry :
    (config : CacheConfig) (order : List String) (key : String) (entry : CacheEntry)
    (cache : GoMap String CacheEntry)
    → Covers order cache
    → IsKeyed cache
    → pos 0 <ℤ config.max_size
    → pos (length cache) ≤ℤ config.max_size
    → pos (length (set_cache_entry config order key entry cache)) ≤ℤ config.max_size
unfolding set_cache_entry
length-set_cache_entry config order key entry cache covers ok room fits = ground (
  arith,
  length-insert key entry cache,
  length-insert key entry (evict_oldest order cache),
  evict_oldest-smaller order cache covers ok,
)
