-- ===== src/Tests/Routing.antt =====
-- The router at concrete inputs.
use mathlib.Core.List.{Memᴰ}
use universal_database_proxy.Prelude.{
  Bool, true, false, String, List, [], ◌∷◌, ◌≡◌, refl, arith, string_eq, eq_iff,
}
use universal_database_proxy.Prelude.Int.{pos}
use universal_database_proxy.Prelude.Result.{done}
use universal_database_proxy.GoMap.{GoMap, lookup, Covers}
use universal_database_proxy.Types.{RoutingRule}
use universal_database_proxy.Router
use universal_database_proxy.Router.{
  DatabasePool, Router, Routed, RoutingStrategy, round_robin, least_conn, routed, failed, unhealthy,
  route, find_matching_db, match_rule, set_strategy,
}
use universal_database_proxy.Router.Rules.{Sorts, Outcome, find_matching_db-Outcome}
use universal_database_proxy.Router.Pools.{IsRegistered}
use universal_database_proxy.Router.Routing.{IsUp, route-IsUp}
use universal_database_proxy.Router.Strategy.{route_any_strategy}
use universal_database_proxy.Tests.Samples.{literal_match, salary_query, database_of, rule_of}

abbrev rules : List RoutingRule
rules = rule_of "" "main" (pos 1) ∷ rule_of "salary" "hr" (pos 10) ∷ []

abbrev sorted_rules : List RoutingRule
sorted_rules = rule_of "salary" "hr" (pos 10) ∷ rule_of "" "main" (pos 1) ∷ []

rules_swap : {a b : RoutingRule} (r : RoutingRule) → Memᴰ r (a ∷ b ∷ []) → Memᴰ r (b ∷ a ∷ [])
rules_swap r (Memᴰ.head e) = Memᴰ.tail (Memᴰ.head e)
rules_swap r (Memᴰ.tail (Memᴰ.head e)) = Memᴰ.head e
rules_swap r (Memᴰ.tail (Memᴰ.tail i)) = elim i [ ]

below_first :
    (r : RoutingRule) → Memᴰ r (rule_of "" "main" (pos 1) ∷ []) → r ≡ rule_of "" "main" (pos 1)
below_first r (Memᴰ.head e) = e
below_first r (Memᴰ.tail i) = elim i [ ]

sorted_rules-Sorts : Sorts sorted_rules rules
sorted_rules-Sorts = record {
  same = λ r. (rules_swap r, rules_swap r);
  falling = (λ r i. ground (arith, below_first r i), (λ r i. elim i [ ], tt));
}

find_matching_db-Outcome_example :
    Outcome literal_match salary_query rules
      (find_matching_db literal_match sorted_rules salary_query)
find_matching_db-Outcome_example =
    find_matching_db-Outcome literal_match salary_query rules sorted_rules sorted_rules-Sorts

abbrev pool_of : String → Bool → DatabasePool
pool_of name healthy = record {
  name = name;
  database = database_of name;
  weight = pos 1;
  healthy = healthy;
  latency = pos 0;
  conn_count = pos 0;
}

abbrev router_with : Bool → Router
router_with main_up = record {
  pools = ("hr", pool_of "hr" false) ∷ ("main", pool_of "main" main_up) ∷ [];
  rules = rules;
  strategy = least_conn;
  rr_counters = [];
}

router_with-IsRegistered : (b : Bool) → IsRegistered (router_with b)
unfolding lookup
router_with-IsRegistered b = record {
  named = λ k pool h. ground (arith, eq_iff "hr" k, eq_iff "main" k);
  weighed = λ k pool h. ground arith;
}

router_with-Covers : (b : Bool) → Covers ("main" ∷ "hr" ∷ []) (router_with b).pools
unfolding lookup
router_with-Covers b k v h = ground (arith, eq_iff "hr" k, eq_iff "main" k)

-- The pool `hr` is down, so the query goes to `main`.
route-IsUp_example :
    IsUp (router_with true) (database_of "main")
    × ((router_with true).pools ≡ (router_with true).pools)
unfolding route find_matching_db match_rule lookup Router.find_fallback Router.first_healthy
    universal_database_proxy.GoMap.range
route-IsUp_example =
    route-IsUp literal_match sorted_rules ("main" ∷ "hr" ∷ []) salary_query (router_with true)
      (router_with true) (database_of "main") refl

route_any_strategy_example :
    (x : Routed) × (r₁ r₂ : Router) × (route literal_match sorted_rules
        ("main" ∷ "hr" ∷ [])
        salary_query
        (set_strategy round_robin (router_with true))
      ≡ done (r₁, x))
    × (route literal_match sorted_rules
          ("main" ∷ "hr" ∷ [])
          salary_query
          (set_strategy least_conn (router_with true))
        ≡ done (r₂, x))
route_any_strategy_example =
    route_any_strategy literal_match sorted_rules ("main" ∷ "hr" ∷ []) salary_query
      (router_with true) round_robin least_conn (router_with-IsRegistered true)
