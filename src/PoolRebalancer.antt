-- ===== src/PoolRebalancer.antt =====
-- backend/internal/engines/pool_rebalancer_engine.go: connection pools with their counts and limits,
-- and the rebalancing of the limits by utilization. The float division and comparison are the
-- machine's, a `RatioLib`. Connection counts and limits are ints, which wrap around.
pub mod Balance
pub mod Changes
pub mod Runs
pub mod Registered
use universal_database_proxy.Prelude.{
  Bool, true, false, ◌&&◌, String, Option, none, some, List, [], ◌∷◌, if◌then◌else◌, string_eq,
  ◌==◌,
}
use universal_database_proxy.Prelude.Int.{ℤ, pos, ◌+ℤ◌, ◌-ℤ◌, ltb_ℤ, incr, decr, wrap64, int_eq}
use universal_database_proxy.Prelude.Division.{half_of}
use universal_database_proxy.GoMap.{GoMap, lookup, insert, delete}
use universal_database_proxy.Types.{Value, string_value, Float64, QueryContext, lookup_meta}

-- `ratio a b` is `float64(a) / float64(b)`.
pub record RatioLib : Type 0 where
  pub ratio : ℤ → ℤ → Float64
  pub less : Float64 → Float64 → Bool

pub record RebalancerConfig : Type 0 where
  pub enabled : Bool
  pub interval : ℤ
  pub min_connections : ℤ
  pub max_connections : ℤ
  pub target_utilization : Float64
  pub auto_scale : Bool
  pub scale_up_threshold : Float64
  pub scale_down_threshold : Float64

pub record PoolInfo : Type 0 where
  pub name : String
  pub min_conns : ℤ
  pub max_conns : ℤ
  pub active_conns : ℤ
  pub idle_conns : ℤ
  pub wait_count : ℤ
  pub avg_wait_time : ℤ
  pub last_rebalance : ℤ
  pub database : String

pub record PoolRebalancerEngine : Type 0 where
  pub config : RebalancerConfig
  pub pools : GoMap String PoolInfo
  pub last_rebalance : ℤ

-- 0.7, 0.8 and 0.3 by their bits
abbrev pub default_config : RebalancerConfig
default_config = record {
  enabled = true;
  interval = pos 30000000000;
  min_connections = pos 5;
  max_connections = pos 100;
  target_utilization = 4604480259023595110;
  auto_scale = true;
  scale_up_threshold = 4605380978949069210;
  scale_down_threshold = 4599075939470750515;
}

abbrev pub config_or_default : Option RebalancerConfig → RebalancerConfig
config_or_default none = default_config
config_or_default (some config) = config

-- `NewPoolRebalancerEngine`; the loop that it starts calls `rebalance`.
unfoldable pub new : Option RebalancerConfig → PoolRebalancerEngine
new config = record { config = config_or_default config; pools = []; last_rebalance = pos 0 }

-- `RegisterPool` and `UnregisterPool`
abbrev pub new_pool : ℤ → String → ℤ → ℤ → String → PoolInfo
new_pool now name min_conns max_conns database = record {
  name = name;
  min_conns = min_conns;
  max_conns = max_conns;
  active_conns = pos 0;
  idle_conns = min_conns;
  wait_count = pos 0;
  avg_wait_time = pos 0;
  last_rebalance = now;
  database = database;
}

unfoldable pub register_pool :
    ℤ → String → ℤ → ℤ → String → PoolRebalancerEngine → PoolRebalancerEngine
register_pool now name min_conns max_conns database e = record e {
  pools = insert name (new_pool now name min_conns max_conns database) e.pools;
}

unfoldable pub unregister_pool : String → PoolRebalancerEngine → PoolRebalancerEngine
unregister_pool name e = record e { pools = delete name e.pools }

-- A change of a pool, if it is there; otherwise the error of a pool that is not found, false
abbrev pub change_found :
    String
    → (PoolInfo → PoolInfo)
    → Option PoolInfo
    → PoolRebalancerEngine
    → PoolRebalancerEngine × Bool
change_found name f none e = (e, false)
change_found name f (some pool) e = (record e { pools = insert name (f pool) e.pools }, true)

abbrev pub change_pool :
    String → (PoolInfo → PoolInfo) → PoolRebalancerEngine → PoolRebalancerEngine × Bool
change_pool name f e = change_found name f (lookup name e.pools) e

abbrev pub acquired : PoolInfo → PoolInfo
acquired pool = record pool {
  active_conns = incr pool.active_conns;
  idle_conns = decr pool.idle_conns;
}

abbrev pub released : PoolInfo → PoolInfo
released pool = record pool {
  active_conns = decr pool.active_conns;
  idle_conns = incr pool.idle_conns;
}

abbrev pub waited : ℤ → PoolInfo → PoolInfo
waited wait pool = record pool {
  wait_count = incr pool.wait_count;
  avg_wait_time =
      if pool.avg_wait_time == pos 0 then wait else half_of (wrap64 (pool.avg_wait_time +ℤ wait));
}

-- `RecordConnectionAcquired`, `RecordConnectionReleased` and `RecordWaitTime`
unfoldable pub record_connection_acquired :
    String → PoolRebalancerEngine → PoolRebalancerEngine × Bool
record_connection_acquired name e = change_pool name acquired e

unfoldable pub record_connection_released :
    String → PoolRebalancerEngine → PoolRebalancerEngine × Bool
record_connection_released name e = change_pool name released e

unfoldable pub record_wait_time : String → ℤ → PoolRebalancerEngine → PoolRebalancerEngine × Bool
record_wait_time name wait e = change_pool name (waited wait) e

-- `ProcessResponse`
abbrev pub text_of : Option Value → Option String
text_of (some (string_value name)) = some name
text_of _ = none

abbrev pub release_named : Option String → PoolRebalancerEngine → PoolRebalancerEngine
release_named (some name) e = (change_pool name released e).0
release_named none e = e

abbrev pub pool_of : QueryContext → Option String
pool_of qc = text_of (lookup_meta "pool_name" qc.metadata)

unfoldable pub process_response : QueryContext → PoolRebalancerEngine → PoolRebalancerEngine
process_response qc e = release_named (pool_of qc) e

-- `analyzeAndAdjust`
abbrev pub at_most : ℤ → ℤ → ℤ
at_most bound n = if ltb_ℤ bound n then bound else n

abbrev pub at_least : ℤ → ℤ → ℤ
at_least bound n = if ltb_ℤ n bound then bound else n

abbrev pub scaled_up : ℤ → RebalancerConfig → Bool → PoolInfo → PoolInfo
scaled_up now config busy pool =
    if busy && ltb_ℤ pool.max_conns config.max_connections
    then record pool {
      max_conns = at_most config.max_connections (wrap64 (pool.max_conns +ℤ pos 10));
      last_rebalance = now;
    }
    else pool

abbrev pub scaled_down : ℤ → RebalancerConfig → Bool → PoolInfo → PoolInfo
scaled_down now config unused pool =
    if unused && ltb_ℤ config.min_connections pool.min_conns
    then record pool {
      min_conns = at_least config.min_connections (wrap64 (pool.min_conns -ℤ pos 2));
      last_rebalance = now;
    }
    else pool

unfoldable pub analyze_and_adjust : RatioLib → ℤ → RebalancerConfig → PoolInfo → PoolInfo
analyze_and_adjust lib now config pool =
    let utilization = lib.ratio pool.active_conns pool.max_conns in
    scaled_down now config (lib.less utilization config.scale_down_threshold)
      (scaled_up now config (lib.less config.scale_up_threshold utilization) pool)

-- `rebalance`, with the order in which the pools are visited
unfoldable pub adjust_each :
    RatioLib → ℤ → List String → PoolRebalancerEngine → PoolRebalancerEngine
adjust_each lib now [] e = e
adjust_each lib now (name ∷ order) e =
    adjust_each lib now order (change_pool name (analyze_and_adjust lib now e.config) e).0

unfoldable pub rebalance : RatioLib → ℤ → List String → PoolRebalancerEngine → PoolRebalancerEngine
rebalance lib now order e =
    if e.config.auto_scale then record (adjust_each lib now order e) { last_rebalance = now } else e
