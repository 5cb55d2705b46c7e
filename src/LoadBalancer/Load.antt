-- ===== src/LoadBalancer/Load.antt =====
-- The load of a node, and which nodes the engine may choose, apart from the code's loop.
use mathlib.Core.Path.{subst}
use universal_database_proxy.Prelude.{
  true, false, String, ◌≡◌, ◌≢◌, refl, ◌∙◌, arith, string_eq, eq_iff, Bool-cases, inl, inr, ◌==◌,
  sym, Bool, if◌then◌else◌,
}
use universal_database_proxy.Prelude.Int.{ℤ, pos, ◌≤ℤ◌, ◌-ℤ◌, wrap64}
use universal_database_proxy.Prelude.Result.{Go, done, panic, blocked, ◌>>=◌}
use universal_database_proxy.Prelude.Division.{quotient}
use universal_database_proxy.LoadBalancer.{LbNode, LoadBalancerEngine, node_value, eligible}
use universal_database_proxy.LoadBalancer.Loop.{done-inj}

-- The load of a node under a strategy: its connections, its latency, 100 less its connections by
-- weight, or 0 under every other strategy.
pub data Load (strategy : String) (node : LbNode) : ℤ → Type 0 where
  by_connections : strategy ≡ "least_connections" → Load strategy node node.connections
  by_latency : strategy ≡ "least_latency" → Load strategy node node.latency_ms
  by_weight :
      (q : ℤ)
      → strategy ≡ "weighted"
      → quotient node.connections node.weight ≡ done q
      → Load strategy node (wrap64 (pos 100 -ℤ q))
  equal :
      strategy ≢ "least_connections"
      → strategy ≢ "least_latency"
      → strategy ≢ "weighted"
      → Load strategy node (pos 0)

differs : (s a b : String) → (a == b) ≡ false → s ≡ a → s ≢ b
differs s a b apart p q = ground (arith, apart, (eq_iff a b).1 (sym p ∙ q))

test_of_ne : (s a : String) → s ≢ a → (s == a) ≡ false
test_of_ne s a other = ground (arith, other, eq_iff s a)

ne_of_test : (s a : String) → (s == a) ≡ false → s ≢ a
ne_of_test s a tested same = ground (arith, tested, (eq_iff s a).1 same)

if_same : (b : Bool) → (if b then done (pos 0) else done (pos 0)) ≡ done (pos 0)
if_same true = refl
if_same false = refl

weighted-Load :
    (strategy : String) (node : LbNode) (g : Go ℤ) (value : ℤ)
    → strategy ≡ "weighted"
    → quotient node.connections node.weight ≡ g
    → (g >>= λ q. done (wrap64 (pos 100 -ℤ q))) ≡ done value
    → Load strategy node value
weighted-Load strategy node (done q) value named divides h =
    subst (Load strategy node) (done-inj (wrap64 (pos 100 -ℤ q)) value h)
      (by_weight q named divides)
weighted-Load strategy node panic value named divides h = absurd (ground (arith, h))
weighted-Load strategy node blocked value named divides h = absurd (ground (arith, h))

pub node_value-Load :
    (strategy : String) (node : LbNode) (value : ℤ)
    → node_value strategy node ≡ done value
    → Load strategy node value
unfolding node_value
node_value-Load strategy node value h = elim (Bool-cases (strategy == "round_robin")) [
  | inl robin ↦
      let is = (eq_iff strategy "round_robin").0 robin in
      subst (Load strategy node) (ground (arith, h, robin)) (
        equal (differs strategy "round_robin" "least_connections" refl is)
          (differs strategy "round_robin" "least_latency" refl is)
          (differs strategy "round_robin" "weighted" refl is))
  | inr no_robin ↦ elim (Bool-cases (strategy == "least_connections")) [
    | inl fewest ↦
        subst (Load strategy node) (ground (arith, h, no_robin, fewest))
          (by_connections ((eq_iff strategy "least_connections").0 fewest))
    | inr no_fewest ↦ elim (Bool-cases (strategy == "least_latency")) [
      | inl quickest ↦
          subst (Load strategy node) (ground (arith, h, no_robin, no_fewest, quickest))
            (by_latency ((eq_iff strategy "least_latency").0 quickest))
      | inr no_quickest ↦ elim (Bool-cases (strategy == "weighted")) [
        | inl weighted ↦
            weighted-Load strategy node (quotient node.connections node.weight) value
              ((eq_iff strategy "weighted").0 weighted) refl
              (rw (no_robin, no_fewest, no_quickest, weighted) at h)
        | inr no_weight ↦
            subst (Load strategy node)
              (ground (arith, h, no_robin, no_fewest, no_quickest, no_weight))
              (equal (ne_of_test strategy "least_connections" no_fewest)
                (ne_of_test strategy "least_latency" no_quickest)
                (ne_of_test strategy "weighted" no_weight))
      ]
    ]
  ]
]

pub Load-node_value :
    (strategy : String) (node : LbNode) (value : ℤ)
    → Load strategy node value
    → node_value strategy node ≡ done value
unfolding node_value
Load-node_value strategy node _ (by_connections named) = rw named refl
Load-node_value strategy node _ (by_latency named) = rw named refl
Load-node_value strategy node _ (by_weight q named divides) = rw (named, divides) refl
Load-node_value strategy node _ (equal a b c) =
    rw (test_of_ne strategy "least_connections" a, test_of_ne strategy "least_latency" b)
      (rw (test_of_ne strategy "weighted" c) (if_same (strategy == "round_robin")))

-- A node that the engine may choose: healthy, and within the latency limit.
pub record IsAble (e : LoadBalancerEngine) (node : LbNode) : Type 0 where
  pub healthy : node.is_healthy ≡ true
  pub quick : node.latency_ms ≤ℤ e.config.max_latency_ms

pub eligible-IsAble :
    (e : LoadBalancerEngine) (node : LbNode)
    → eligible e.config.max_latency_ms node ≡ true
    → IsAble e node
eligible-IsAble e node h = record { healthy = ground (arith, h); quick = ground (arith, h) }

pub IsAble-eligible :
    (e : LoadBalancerEngine) (node : LbNode)
    → IsAble e node
    → eligible e.config.max_latency_ms node ≡ true
IsAble-eligible e node a = ground (arith, a.healthy, a.quick)
