-- ===== src/Server/Decision.antt =====
-- Which queries the pipeline of backend/internal/server/server.go stops.
use universal_database_proxy.Prelude.{
  true, false, String, Option, none, some, List, ◌∷◌, [], ◌≡◌, ◌≢◌, refl, arith, inl, inr,
}
use universal_database_proxy.Prelude.Int.{ℤ}
use universal_database_proxy.Prelude.Result.{Go, done, panic, blocked, ◌>>=◌}
use universal_database_proxy.Types.{
  QueryContext, EngineResult, CacheConfig, Metadata, continue_result,
}
use universal_database_proxy.Observability.{Clock}
use universal_database_proxy.Pipeline
use universal_database_proxy.Pipeline.{Step, Method, next}
use universal_database_proxy.Pipeline.Order.{next-eq-done}
use universal_database_proxy.SecurityEngine.{TextLib}
use universal_database_proxy.SecurityEngine.Decision.{Refuses, process-Refuses_iff}
use universal_database_proxy.CachingEngine
use universal_database_proxy.CachingEngine.{
  CachingEngine, CacheEntry, CacheData, rows_data, other_data, use_entry, hit_result,
  process_active, process_entry, active, get_cache_entry, generate_cache_key,
}
use universal_database_proxy.Server.{
  ProxyWorld, observability_engine, caching_engine, engine_pipeline,
}

abbrev pub step : EngineResult → QueryContext → ProxyWorld → Step ProxyWorld
step res qc w = record { result = res; query = qc; world = w }

-- The engines that let every query continue.
passes :
    (m : Go QueryContext) (w : ProxyWorld) (s : Step ProxyWorld)
    → (m >>= λ qc. done (step continue_result qc w)) ≡ done s
    → s.result.continues ≡ true
passes panic w s h = cc
passes blocked w s h = cc
passes (done qc) w s h = ground arith

cached_passes :
    (m : Go (QueryContext × EngineResult)) (w : ProxyWorld) (s : Step ProxyWorld)
    → ((r : QueryContext × EngineResult) → m ≡ done r → r.1.continues ≡ true)
    → (m >>= λ r. done (step r.1 r.0 w)) ≡ done s
    → s.result.continues ≡ true
cached_passes panic w s on h = cc
cached_passes blocked w s on h = cc
cached_passes (done r) w s on h = ground (arith, on r refl)

marked_passes :
    (m : Go (Option Metadata)) (f : Option Metadata → QueryContext) (res : EngineResult)
    → res.continues ≡ true
    → (r : QueryContext × EngineResult) → (m >>= λ meta. done (f meta, res)) ≡ done r
    → r.1.continues ≡ true
marked_passes panic f res on r h = cc
marked_passes blocked f res on r h = cc
marked_passes (done meta) f res on r h = ground (arith, on)

entry_passes :
    (key : String) (entry : Option CacheEntry) (qc : QueryContext) (r : QueryContext × EngineResult)
    → process_entry key entry qc ≡ done r
    → r.1.continues ≡ true
entry_passes key none qc r h = marked_passes _ _ continue_result refl r h
entry_passes key (some entry) qc r h = data_passes entry.data_value qc r h
  where
    data_passes :
        (d : CacheData) (qc : QueryContext) (r : QueryContext × EngineResult)
        → use_entry d qc ≡ done r
        → r.1.continues ≡ true
    data_passes (rows_data d) qc r h = marked_passes _ _ hit_result refl r h
    data_passes other_data qc r h = ground arith

active_passes :
    (sha1_hex : String → String) (now : ℤ) (config : Option CacheConfig) (e : CachingEngine)
    (qc : QueryContext) (r : QueryContext × EngineResult)
    → process_active sha1_hex now config e qc ≡ done r
    → r.1.continues ≡ true
active_passes sha1_hex now none e qc r h = ground arith
active_passes sha1_hex now (some config) e qc r h = entry_passes _ _ qc r h

secured :
    (m : Go (QueryContext × EngineResult)) (w : ProxyWorld) (s : Step ProxyWorld)
    → (m >>= λ r. done (step r.1 r.0 w)) ≡ done s
    → (m ≡ done (s.query, s.result)) × (s.world ≡ w)
secured panic w s h = cc
secured blocked w s h = cc
secured (done r) w s h = ground arith

module _ (lib : TextLib) (sha1_hex : String → String) (clock : Clock) (order : List String) where
  caching_passes :
      (qc : QueryContext) (w : ProxyWorld) (s : Step ProxyWorld)
      → Pipeline.process (caching_engine lib sha1_hex clock order ∷ []) qc w ≡ done s
      → s.result.continues ≡ true
  unfolding Pipeline.process CachingEngine.process
  caching_passes qc w s h = elim (next-eq-done _ (Pipeline.process []) s h) [
    | inl (t, ran, on, e) ↦ ground arith
    | inr (ran, off) ↦
        cached_passes _ w s (active_passes sha1_hex clock.now (active w.cache.config qc) w.cache qc)
          ran
  ]

  -- The rest of the pipeline lets each query that it returns continue.
  rest_passes :
      (qc : QueryContext) (w : ProxyWorld) (s : Step ProxyWorld)
      → Pipeline.process
          (observability_engine lib sha1_hex clock order
            ∷ caching_engine lib sha1_hex clock order
            ∷ [])
          qc
          w
        ≡ done s
      → s.result.continues ≡ true
  unfolding Pipeline.process
  rest_passes qc w s h =
      elim (next-eq-done _ (Pipeline.process (caching_engine lib sha1_hex clock order ∷ [])) s h) [
        | inl (t, ran, on, e) ↦ caching_passes t.query t.world s e
        | inr (ran, off) ↦ passes _ w s ran
      ]

  stop_has_reason :
      (qc : QueryContext) (w : ProxyWorld) (s : Step ProxyWorld)
      → qc.raw_query ≢ ""
      → Pipeline.process (engine_pipeline lib sha1_hex clock order) qc w ≡ done s
      → s.result.continues ≡ false
      → Refuses lib w.rules qc.raw_query s.result × (s.query ≡ qc) × (s.world ≡ w)
  unfolding Pipeline.process
  stop_has_reason qc w s text ran off =
      elim (next-eq-done _
        (Pipeline.process (
          observability_engine lib sha1_hex clock order
          ∷ caching_engine lib sha1_hex clock order
          ∷ []))
        s ran) [
          | inl (t, first, on, e) ↦ ground (arith, rest_passes t.query t.world s e)
          | inr (first, stopped) ↦
              let e = secured _ w s first in
              let why = (process-Refuses_iff lib w.rules qc s.result text).0 s.query e.0 off in
              (why.0, why.1, e.1)
        ]

  -- A query with text stops in the proxy's pipeline, of the security, the observability and the
  -- caching engine, exactly when the security engine has a reason to refuse it, and the query and
  -- the states of the engines are then unchanged: a result without `Continue` has such a reason and
  -- is its result, and each reason leads to its result.
  pub pipeline-Refuses_iff :
      (qc : QueryContext) (w : ProxyWorld)
      → qc.raw_query ≢ ""
      → ((s : Step ProxyWorld)
          → Pipeline.process (engine_pipeline lib sha1_hex clock order) qc w ≡ done s
          → s.result.continues ≡ false
          → Refuses lib w.rules qc.raw_query s.result × (s.query ≡ qc) × (s.world ≡ w))
        × ((res : EngineResult)
            → Refuses lib w.rules qc.raw_query res
            → (Pipeline.process (engine_pipeline lib sha1_hex clock order) qc w
                ≡ done (step res qc w))
              × (res.continues ≡ false))
  unfolding Pipeline.process
  pipeline-Refuses_iff qc w text = (
    λ s ran off. stop_has_reason qc w s text ran off,
    λ res why.
        let e = (process-Refuses_iff lib w.rules qc res text).1 why in
        (rw e.0 (ground (arith, e.1)), e.1),
  )
