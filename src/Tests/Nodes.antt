-- ===== src/Tests/Nodes.antt =====
-- The failover engine and the load balancer at concrete inputs.
use universal_database_proxy.Prelude.{
  Bool, true, false, String, [], ◌∷◌, ◌≡◌, refl, arith, string_eq, eq_iff,
}
use universal_database_proxy.Prelude.Int.{ℤ, pos, pos_part}
use universal_database_proxy.Prelude.Result.{done}
use universal_database_proxy.GoMap.{lookup, range, Covers}
use universal_database_proxy.Failover.{DatabaseNode, FailoverEngine, process_response}
use universal_database_proxy.Failover.Promotion.{Ready, Settled, process_response-Settled}
use universal_database_proxy.LoadBalancer
use universal_database_proxy.LoadBalancer.{
  LbNode, LoadBalanceConfig, LoadBalancerEngine, select_node, select_from, node_value,
  process_target,
}
use universal_database_proxy.LoadBalancer.Choice.{IsWeighed, Chosen, select_node-Chosen}
use universal_database_proxy.LoadBalancer.Connections.{
  connections_of, IsCounting, answered, process-process_response,
}
use universal_database_proxy.Tests.Samples.{salary_query, salary_response}

abbrev node_of : String → Bool → Bool → DatabaseNode
node_of name primary healthy = record {
  name = name;
  host = "localhost";
  port = pos 3306;
  database = name;
  is_primary = primary;
  is_healthy = healthy;
  latency_ms = pos 0;
  fail_count = if_healthy healthy;
}
  where
    if_healthy : Bool → ℤ
    if_healthy true = pos 0
    if_healthy false = pos 3

abbrev failing : FailoverEngine
failing = record {
  config = record {
    enabled = true;
    failure_threshold = pos 3;
    recovery_threshold = pos 2;
    enable_auto_failover = true;
  };
  databases = ("hr", node_of "hr" true false) ∷ ("main", node_of "main" false true) ∷ [];
  primary = "hr";
  failover_ctx = record { failover_in_progress = false; source_node = ""; target_node = "" };
}

failing-Ready : Ready ("hr" ∷ "main" ∷ []) failing
unfolding lookup
failing-Ready = record {
  automatic = refl;
  idle = refl;
  covers = λ k node h. ground (arith, eq_iff "hr" k, eq_iff "main" k);
  unnamed = refl;
}

process_response-Settled_example :
    Settled (process_response ("hr" ∷ "main" ∷ []) salary_query failing)
process_response-Settled_example =
    process_response-Settled ("hr" ∷ "main" ∷ []) salary_query failing failing-Ready

abbrev lb_node : String → ℤ → LbNode
lb_node name connections = record {
  name = name;
  host = "localhost";
  port = pos 3306;
  connections = connections;
  latency_ms = pos 0;
  weight = pos 1;
  is_healthy = true;
}

abbrev balancer : String → LoadBalancerEngine
balancer strategy = record {
  config = record {
    enabled = true;
    strategy = strategy;
    health_check_ms = pos 5000;
    max_latency_ms = pos 5000;
  };
  nodes = ("hr", lb_node "hr" (pos 7)) ∷ ("main", lb_node "main" (pos 2)) ∷ [];
  strategy = strategy;
  requests_routed = pos 0;
}

balancer-IsWeighed : (strategy : String) → IsWeighed (balancer strategy)
unfolding lookup
balancer-IsWeighed strategy = record { named = refl; weighed = λ k node h. ground arith }

balancer-Covers : (strategy : String) → Covers ("hr" ∷ "main" ∷ []) (balancer strategy).nodes
unfolding lookup
balancer-Covers strategy k node h = ground (arith, eq_iff "hr" k, eq_iff "main" k)

select_node-Chosen_example :
    (name : String) × (select_node ("hr" ∷ "main" ∷ []) (balancer "weighted") ≡ done name)
    × Chosen (balancer "weighted") name
select_node-Chosen_example =
    select_node-Chosen ("hr" ∷ "main" ∷ []) (balancer "weighted") (balancer-IsWeighed "weighted")
      (balancer-Covers "weighted")

-- Of two nodes of the same weight, the weighted strategy takes the one with more connections.
weighted_takes_busiest : select_node ("hr" ∷ "main" ∷ []) (balancer "weighted") ≡ done "hr"
unfolding select_node select_from node_value range lookup
weighted_takes_busiest = refl

least_takes_idlest : select_node ("hr" ∷ "main" ∷ []) (balancer "least_connections") ≡ done "main"
unfolding select_node select_from node_value range lookup
least_takes_idlest = refl

balancer-IsCounting : IsCounting (balancer "weighted")
unfolding lookup
balancer-IsCounting name node h = (pos_part node.connections, ground (arith, h), ground (arith, h))

process-process_response_example :
    let r = process_target "hr" (balancer "weighted") salary_query in
    connections_of "main" (LoadBalancer.process_response (answered r.1 salary_response) r.0)
    ≡ connections_of "main" (balancer "weighted")
unfolding LoadBalancer.process select_node select_from node_value range lookup
process-process_response_example =
    let r = process_target "hr" (balancer "weighted") salary_query in
    process-process_response ("hr" ∷ "main" ∷ []) (balancer "weighted") r.0 salary_query r.1 r.2
      salary_response "main" refl refl (unfold process_target in refl) balancer-IsCounting
