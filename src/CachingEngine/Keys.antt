-- ===== src/CachingEngine/Keys.antt =====
-- The keys of the cache.
use Prim.Native.String.{String}
use text.Mathlib.TextLemmas.{cons≢nil, cons-append}
use universal_database_proxy.Prelude.{
  ◌≡◌, ◌≢◌, refl, sym, ◌∙◌, arith, string_eq, ◌==◌, eq_iff, if◌then◌else◌, Bool-cases, inl, inr,
}
use universal_database_proxy.Types.{QueryContext, CacheConfig}
use universal_database_proxy.CachingEngine.{generate_cache_key}

join-ne-empty : (s t : String) → s ≢ "" → Prim.Native.String.◌++◌ s t ≢ ""
join-ne-empty String.[] t h = absurd (h refl)
join-ne-empty (String.◌∷◌ c s) t h = λ e. cons≢nil (sym (cons-append c s t) ∙ e)

-- No query has the empty key, by which `ProcessResponse` knows a query without one.
pub generate_cache_key-ne-empty :
    (sha1_hex : String → String) (config : CacheConfig) (qc : QueryContext)
    → generate_cache_key sha1_hex config qc ≢ ""
unfolding generate_cache_key
generate_cache_key-ne-empty sha1_hex config qc = elim (Bool-cases (config.key_prefix == "")) [
  | inl plain ↦ rw (plain, if◌then◌else◌) (join-ne-empty "query:" _ (λ e. cons≢nil e))
  | inr prefixed ↦
      rw (prefixed, if◌then◌else◌)
        (join-ne-empty config.key_prefix _ (λ e. ground (arith, eq_iff config.key_prefix "")))
]

-- The key depends on the text, the database and the table of a query, and on nothing else of it.
pub generate_cache_key-eq :
    (sha1_hex : String → String) (config : CacheConfig) (qc qc' : QueryContext)
    → qc'.raw_query ≡ qc.raw_query
    → qc'.database ≡ qc.database
    → qc'.table ≡ qc.table
    → generate_cache_key sha1_hex config qc' ≡ generate_cache_key sha1_hex config qc
unfolding generate_cache_key
generate_cache_key-eq sha1_hex config qc qc' text db table = ground arith
