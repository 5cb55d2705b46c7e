-- ===== src/Router/Strategy.antt =====
-- The routing strategy and where a query goes.
use universal_database_proxy.Prelude.{
  Bool, true, false, String, Option, none, some, List, ◌≡◌, refl, arith, inl, inr, Bool-cases,
  string_eq, ◌==◌,
}
use universal_database_proxy.Prelude.Result.{done}
use universal_database_proxy.GoMap.{lookup}
use universal_database_proxy.Types.{QueryContext, RoutingRule}
use universal_database_proxy.Router.{
  DatabasePool, Router, RoutingStrategy, round_robin, Routed, routed, failed, no_match,
  pool_not_found, find_fallback, select_from_pool, fallback_result, bump_counter, route_pool,
  find_matching_db, route, set_strategy,
}
use universal_database_proxy.Router.Pools.{IsRegistered}

route_pool_down :
    (order : List String) (name : String) (pool : DatabasePool) (r : Router) (s : RoutingStrategy)
    → pool.healthy ≡ false
    → route_pool order name (some pool) (set_strategy s r)
      ≡ done (set_strategy s r, fallback_result name (find_fallback order name r))
unfolding set_strategy find_fallback
route_pool_down order name pool r s down = ground arith

route_pool_up :
    (order : List String) (name : String) (pool : DatabasePool) (r : Router)
    → IsRegistered r
    → lookup name r.pools ≡ some pool
    → pool.healthy ≡ true
    → (s : RoutingStrategy)
    → (r' : Router) × (route_pool order name (some pool) (set_strategy s r)
        ≡ done (r', routed pool.database))
unfolding select_from_pool set_strategy
route_pool_up order name pool r reg there up round_robin = (
  bump_counter pool.name (set_strategy round_robin r),
  ground (arith, reg.weighed name pool there),
)
route_pool_up order name pool r reg there up s = (set_strategy s r, ground arith)

-- What `Route` says of a pool, whatever the strategy.
route_pool_any :
    (order : List String) (name : String) (o : Option DatabasePool) (r : Router)
    → IsRegistered r
    → lookup name r.pools ≡ o
    → (x : Routed) × ((s : RoutingStrategy)
        → (r' : Router) × (route_pool order name o (set_strategy s r) ≡ done (r', x)))
unfolding set_strategy
route_pool_any order name none r reg there =
    (failed (pool_not_found name), λ s. (set_strategy s r, refl))
route_pool_any order name (some pool) r reg there = elim (Bool-cases pool.healthy) [
  | inl up ↦ (routed pool.database, λ s. route_pool_up order name pool r reg there up s)
  | inr down ↦ (
    fallback_result name (find_fallback order name r),
    λ s. (set_strategy s r, route_pool_down order name pool r s down),
  )
]

module _ (match_string : String → String → Option Bool) (sorted : List RoutingRule)
    (order : List String) (qc : QueryContext) where
  -- With registered pools only, `Route` does not panic, and the strategy has no influence on the
  -- database that it returns or on the error.
  pub route_any_strategy :
      (r : Router) (s s' : RoutingStrategy)
      → IsRegistered r
      → (x : Routed) × (r₁ r₂ : Router) × (route match_string sorted order qc (set_strategy s r)
          ≡ done (r₁, x))
        × (route match_string sorted order qc (set_strategy s' r) ≡ done (r₂, x))
  unfolding route set_strategy
  route_any_strategy r s s' reg =
      let found = find_matching_db match_string sorted qc in
      elim (Bool-cases (found == "")) [
        | inl unnamed ↦
            (failed no_match, set_strategy s r, set_strategy s' r, ground arith, ground arith)
        | inr named ↦
            let (x, goes) = route_pool_any order found (lookup found r.pools) r reg refl in
            (x, (goes s).0, (goes s').0, ground (arith, (goes s).1), ground (arith, (goes s').1))
      ]
