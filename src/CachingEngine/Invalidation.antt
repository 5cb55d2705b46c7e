-- ===== src/CachingEngine/Invalidation.antt =====
-- Invalidation of the entries of a database or of a table.
use universal_database_proxy.Prelude.{
  String, none, some, List, ◌&&◌, ◌≡◌, string_eq, ◌==◌, if◌then◌else◌,
}
use universal_database_proxy.GoMap.{lookup, Covers}
use universal_database_proxy.GoMap.Sweep.{lookup-sweep-Covers}
use universal_database_proxy.CachingEngine.{
  CacheEntry, CachingEngine, invalidate_database, invalidate_table,
}

-- After an invalidation of a database, whatever the order in which the cache was visited, a key
-- has the entry that it had if that entry is of another database, and no entry otherwise; so the
-- entries of the database are gone, and all others stay, and so do they for a table.
pub lookup-invalidate :
    (order : List String) (database table key : String) (e : CachingEngine) (entry : CacheEntry)
    → Covers order e.cache
    → lookup key e.cache ≡ some entry
    → (lookup key (invalidate_database order database e).cache
        ≡ (if entry.database == database then none else some entry))
      × (lookup key (invalidate_table order database table e).cache
          ≡ (if entry.database == database && entry.table == table then none else some entry))
unfolding invalidate_database invalidate_table
lookup-invalidate order database table key e entry covers there = (
  rw (lookup-sweep-Covers _ order e.cache key covers, there),
  rw (lookup-sweep-Covers _ order e.cache key covers, there),
)
