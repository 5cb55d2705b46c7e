-- ===== src/LoadBalancer.antt =====
-- backend/internal/engines/load_balancer_engine.go: the choice of a node by the load of the nodes.
-- The order in which `range` visits the nodes is an argument. The time of a node's last query and
-- the average latency of the statistics are left out.
pub mod Values
pub mod Loop
pub mod Load
pub mod Choice
pub mod Connections
use universal_database_proxy.Prelude.{
  ℕ, zero, suc, ◌-◌, ◌/◌, Bool, true, false, not, ◌&&◌, ◌||◌, String, Option, none, some, List, [],
  ◌∷◌, if◌then◌else◌, ◌==◌, string_eq,
}
use universal_database_proxy.Prelude.Int.{
  ℤ, pos, negsuc, sub_ℕ, neg_part, pos_part, ltb_ℤ, incr, decr, wrap64, ◌-ℤ◌,
}
use universal_database_proxy.Prelude.Result.{Go, done, panic, ◌>>=◌}
use universal_database_proxy.Prelude.Division.{quotient}
use universal_database_proxy.GoMap.{GoMap, lookup, insert, range}
use universal_database_proxy.Types.{
  Value, string_value, QueryResponse, QueryContext, EngineResult, continue_result, error_result,
  lookup_meta, make_meta, Metadata,
}

pub record LoadBalanceConfig : Type 0 where
  pub enabled : Bool
  pub strategy : String
  pub health_check_ms : ℤ
  pub max_latency_ms : ℤ

pub record LbNode : Type 0 where
  pub name : String
  pub host : String
  pub port : ℤ
  pub connections : ℤ
  pub latency_ms : ℤ
  pub weight : ℤ
  pub is_healthy : Bool

pub record LoadBalancerEngine : Type 0 where
  pub config : LoadBalanceConfig
  pub nodes : GoMap String LbNode
  pub strategy : String
  pub requests_routed : ℤ  -- of the field `stats`

abbrev default_config : LoadBalanceConfig
default_config = record {
  enabled = false;
  strategy = "round_robin";
  health_check_ms = pos 5000;
  max_latency_ms = pos 5000;
}

abbrev config_or_default : Option LoadBalanceConfig → LoadBalanceConfig
config_or_default none = default_config
config_or_default (some config) = config

-- `NewLoadBalancerEngine`
unfoldable pub new : Option LoadBalanceConfig → LoadBalancerEngine
new config = record {
  config = config_or_default config;
  nodes = [];
  strategy = (config_or_default config).strategy;
  requests_routed = pos 0;
}

-- `AddNode`
unfoldable pub add_node : LbNode → LoadBalancerEngine → LoadBalancerEngine
add_node node e = record e { nodes = insert node.name (record node { is_healthy = true }) e.nodes }

-- The `switch` of `selectNode`
unfoldable pub node_value : String → LbNode → Go ℤ
unfolding wrap64 ◌-ℤ◌
node_value strategy node =
    if strategy == "round_robin"
    then done (pos 0)
    else if strategy == "least_connections"
    then done node.connections
    else if strategy == "least_latency"
    then done node.latency_ms
    else if strategy == "weighted"
    then (quotient node.connections node.weight >>= λ q. done (wrap64 (pos 100 -ℤ q)))
    else done (pos 0)

-- A node that the loop does not skip
abbrev pub eligible : ℤ → LbNode → Bool
eligible max_latency node = node.is_healthy && not (ltb_ℤ max_latency node.latency_ms)

-- The best node so far, and its value
abbrev pub keep_better : String → String × ℤ → ℤ → String × ℤ
keep_better name best value = if best.0 == "" || ltb_ℤ value best.1 then (name, value) else best

abbrev pub consider : String → ℤ → String × LbNode → String × ℤ → Go (String × ℤ)
consider strategy max_latency entry best =
    if eligible max_latency entry.1
    then (node_value strategy entry.1 >>= λ value. done (keep_better entry.0 best value))
    else done best

-- The loop of `selectNode`
unfoldable pub select_from : String → ℤ → List (String × LbNode) → String × ℤ → Go (String × ℤ)
select_from strategy max_latency [] best = done best
select_from strategy max_latency (entry ∷ rest) best =
    consider strategy max_latency entry best >>= select_from strategy max_latency rest

-- `selectNode`
unfoldable pub select_node : List String → LoadBalancerEngine → Go String
select_node order e =
    select_from e.strategy e.config.max_latency_ms (range order e.nodes) ("", pos 0) >>= λ best.
    done best.0

abbrev pub change_node :
    String → (LbNode → LbNode) → Option LbNode → GoMap String LbNode → GoMap String LbNode
change_node name change none nodes = nodes
change_node name change (some node) nodes = insert name (change node) nodes

abbrev pub joined : LbNode → LbNode
joined node = record node { connections = incr node.connections }

-- `Process` after the choice of the target
unfoldable pub process_target :
    String → LoadBalancerEngine → QueryContext → LoadBalancerEngine × QueryContext × EngineResult
process_target target e qc =
    if target == "" then (e, qc, error_result "no healthy nodes available") else (
      record e {
        nodes = change_node target joined (lookup target e.nodes) e.nodes;
        requests_routed = incr e.requests_routed;
      },
      record qc {
        metadata = some (
            insert "load_balance_strategy" (string_value e.strategy)
              (insert "load_balance_target" (string_value target) (make_meta qc.metadata)));
      },
      continue_result,
    )

-- `Process`
unfoldable pub process :
    List String
    → LoadBalancerEngine
    → QueryContext
    → Go (LoadBalancerEngine × QueryContext × EngineResult)
process order e qc =
    if e.config.enabled
    then (select_node order e >>= λ target. done (process_target target e qc))
    else done (e, qc, continue_result)

-- `target, _ := qc.Metadata["load_balance_target"].(string)`
abbrev pub target_of : Option Value → String
target_of (some (string_value target)) = target
target_of _ = ""

-- `Duration.Milliseconds()` of a positive duration
abbrev pub milliseconds : ℤ → ℤ
milliseconds duration = pos (pos_part duration / 1000000)

abbrev pub left_by : ℤ → LbNode → LbNode
left_by duration node =
    let fewer = record node { connections = decr node.connections } in
    if ltb_ℤ (pos 0) duration then record fewer { latency_ms = milliseconds duration } else fewer

abbrev pub respond : String → Option QueryResponse → LoadBalancerEngine → LoadBalancerEngine
respond target none e = e
respond target (some resp) e = record e {
  nodes = change_node target (left_by resp.duration) (lookup target e.nodes) e.nodes;
}

-- `ProcessResponse`; its result is always `{Continue: true}` and it leaves the query alone.
unfoldable pub process_response : QueryContext → LoadBalancerEngine → LoadBalancerEngine
process_response qc e =
    respond (target_of (lookup_meta "load_balance_target" qc.metadata)) qc.response e
