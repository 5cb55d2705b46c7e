-- ===== src/Router.antt =====
-- backend/internal/routing/router.go: database pools, routing rules and the choice of a database.
-- `sorted` is the slice that `sort.Slice` leaves, an order of the rules by falling priority that Go
-- does not fix among equals, and `order` is the order in which `range` visits the pools. Locks and
-- log calls are left out.
pub mod Rules
pub mod Routing
pub mod Pools
pub mod Strategy
use universal_database_proxy.Prelude.{
  ℕ, Bool, true, false, not, ◌&&◌, String, Option, none, some, List, [], ◌∷◌, ◌++◌, if◌then◌else◌,
  ◌==◌, string_eq,
}
use universal_database_proxy.Prelude.Int.{ℤ, pos, incr, eq_ℤ}
use universal_database_proxy.Prelude.Result.{Go, done, panic, ◌>>=◌}
use universal_database_proxy.GoMap.{GoMap, lookup, insert, delete, range}
use universal_database_proxy.Types.{QueryContext, DatabaseConfig, RoutingRule}

-- `custom_strategy` is any other string, which the type allows.
pub data RoutingStrategy : Type 0 where
  round_robin least_conn read_replica latency_based priority_based : RoutingStrategy
  custom_strategy : String → RoutingStrategy

pub record DatabasePool : Type 0 where
  pub name : String
  pub database : DatabaseConfig
  pub weight : ℤ
  pub healthy : Bool
  pub latency : ℤ
  pub conn_count : ℤ

pub record Router : Type 0 where
  pub pools : GoMap String DatabasePool
  pub rules : List RoutingRule
  pub strategy : RoutingStrategy
  pub rr_counters : GoMap String ℤ

-- `NewRouter`
unfoldable pub new : List RoutingRule → RoutingStrategy → Router
new rules strategy = record { pools = []; rules = rules; strategy = strategy; rr_counters = [] }

-- `RegisterDatabase`
unfoldable pub register_database : DatabaseConfig → Router → Router
register_database db r = record r {
  pools =
      insert db.name
        (record {
          name = db.name;
          database = db;
          weight = pos 1;
          healthy = true;
          latency = pos 0;
          conn_count = pos 0;
        })
        r.pools;
}

-- `UnregisterDatabase`
unfoldable pub unregister_database : String → Router → Router
unregister_database name r = record r { pools = delete name r.pools }

-- `SetDatabaseHealth` and `SetDatabaseLatency`
abbrev pub update_pool :
    (DatabasePool → DatabasePool) → String → Option DatabasePool → Router → Router
update_pool f name none r = r
update_pool f name (some pool) r = record r { pools = insert name (f pool) r.pools }

unfoldable pub set_database_health : String → Bool → Router → Router
set_database_health name healthy r =
    update_pool (λ pool. record pool { healthy = healthy }) name (lookup name r.pools) r

unfoldable pub set_database_latency : String → ℤ → Router → Router
set_database_latency name latency r =
    update_pool (λ pool. record pool { latency = latency }) name (lookup name r.pools) r

-- `GetDatabaseStats`
unfoldable pub get_database_stats : String → Router → ℤ × ℤ × Bool
get_database_stats name r = elim (lookup name r.pools) [
  | none ↦ (pos 0, pos 0, false)
  | some pool ↦ (pool.conn_count, pool.latency, pool.healthy)
]

-- `AddRule`, `RemoveRule` and `SetStrategy`
unfoldable pub add_rule : RoutingRule → Router → Router
add_rule rule r = record r { rules = r.rules ++ rule ∷ [] }

unfoldable pub without_rule : String → List RoutingRule → List RoutingRule
without_rule name [] = []
without_rule name (rule ∷ rules) =
    let rest = without_rule name rules in if rule.name == name then rest else rule ∷ rest

unfoldable pub remove_rule : String → Router → Router
remove_rule name r = record r { rules = without_rule name r.rules }

unfoldable pub set_strategy : RoutingStrategy → Router → Router
set_strategy strategy r = record r { strategy = strategy }

-- The errors of `Route`.
pub data RouteError : Type 0 where
  no_match : RouteError
  pool_not_found : String → RouteError
  unhealthy : String → RouteError

pub data Routed : Type 0 where
  routed : DatabaseConfig → Routed
  failed : RouteError → Routed

-- The loop of `findFallback` over the pools that the visit meets.
unfoldable pub first_healthy : String → List (String × DatabasePool) → Option DatabasePool
first_healthy exclude [] = none
first_healthy exclude ((key, pool) ∷ rest) =
    if not (pool.name == exclude) && pool.healthy then some pool else first_healthy exclude rest

unfoldable pub find_fallback : List String → String → Router → Option DatabasePool
find_fallback order exclude r = first_healthy exclude (range order r.pools)

-- A missing key reads as 0.
abbrev pub count_of : Option ℤ → ℤ
count_of none = pos 0
count_of (some n) = n

-- `r.rrCounters[pool.Name]++`
unfoldable pub bump_counter : String → Router → Router
bump_counter name r = record r {
  rr_counters = insert name (incr (count_of (lookup name r.rr_counters))) r.rr_counters;
}

-- `roundRobinSelect`: `count % pool.Weight` panics at weight 0, and both of its branches return the
-- pool's database.
unfoldable pub round_robin_select : DatabasePool → Router → Go (Router × DatabaseConfig)
unfolding bump_counter
round_robin_select pool r =
    if eq_ℤ pool.weight (pos 0) then panic else done (bump_counter pool.name r, pool.database)

-- `selectFromPool`; `leastConnSelect`, `readReplicaSelect` and `latencySelect` return the database
-- of the pool on every path.
unfoldable pub select_from_pool :
    RoutingStrategy → DatabasePool → Router → Go (Router × DatabaseConfig)
unfolding round_robin_select
select_from_pool round_robin pool r = round_robin_select pool r
select_from_pool least_conn pool r = done (r, pool.database)
select_from_pool read_replica pool r = done (r, pool.database)
select_from_pool latency_based pool r = done (r, pool.database)
select_from_pool priority_based pool r = done (r, pool.database)
select_from_pool (custom_strategy _) pool r = done (r, pool.database)

-- `Route` once the pool of the rule's database is known.
abbrev pub fallback_result : String → Option DatabasePool → Routed
fallback_result name none = failed (unhealthy name)
fallback_result name (some pool) = routed pool.database

abbrev pub route_selected : Go (Router × DatabaseConfig) → Go (Router × Routed)
route_selected m = m >>= λ s. done (s.0, routed s.1)

abbrev pub route_pool : List String → String → Option DatabasePool → Router → Go (Router × Routed)
route_pool order name none r = done (r, failed (pool_not_found name))
route_pool order name (some pool) r =
    if not pool.healthy
    then done (r, fallback_result name (find_fallback order name r))
    else route_selected (select_from_pool r.strategy pool r)

abbrev pub matched : Option Bool → Bool
matched none = false
matched (some b) = b

-- `match_string pattern text` is `regexp.MatchString`: `none` if the pattern does not compile.
module _ (match_string : String → String → Option Bool) where
  -- `matchRule`: an empty pattern matches every query.
  unfoldable pub match_rule : RoutingRule → QueryContext → Bool
  match_rule rule qc =
      if rule.match_pattern == ""
      then true
      else matched (match_string (Prim.Native.String.◌++◌ "(?i)" rule.match_pattern) qc.raw_query)

  -- `findMatchingDB`, after the sort
  unfoldable pub find_matching_db : List RoutingRule → QueryContext → String
  find_matching_db [] qc = ""
  find_matching_db (rule ∷ sorted) qc =
      if match_rule rule qc then rule.database else find_matching_db sorted qc

  -- `Route`
  unfoldable pub route :
      List RoutingRule → List String → QueryContext → Router → Go (Router × Routed)
  route sorted order qc r =
      let name = find_matching_db sorted qc in
      if name == ""
      then done (r, failed no_match)
      else route_pool order name (lookup name r.pools) r
