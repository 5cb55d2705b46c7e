-- ===== src/Router/Pools.antt =====
-- What holds of the pools of a router, whatever is done to it.
use universal_database_proxy.Prelude.{
  Bool, String, Option, none, some, List, [], ◌∷◌, ◌≡◌, refl, arith, string_eq, eq_iff,
}
use universal_database_proxy.Prelude.Int.{ℤ, pos}
use universal_database_proxy.GoMap.{lookup}
use universal_database_proxy.GoMap.Laws.{lookup-insert, lookup-delete}
use universal_database_proxy.Types.{DatabaseConfig, RoutingRule}
use universal_database_proxy.Router.{
  DatabasePool, Router, RoutingStrategy, new, register_database, unregister_database,
  set_database_health, set_database_latency, update_pool, add_rule, remove_rule, set_strategy,
  bump_counter,
}

-- Every pool stands under its own name, with the weight 1.
pub record IsRegistered (r : Router) : Type 0 where
  pub named : (k : String) (pool : DatabasePool) → lookup k r.pools ≡ some pool → pool.name ≡ k
  pub weighed :
      (k : String) (pool : DatabasePool) → lookup k r.pools ≡ some pool → pool.weight ≡ pos 1

-- The calls that change a router between two requests.
pub data Change : Type 0 where
  register : DatabaseConfig → Change
  unregister : String → Change
  set_health : String → Bool → Change
  set_latency : String → ℤ → Change
  change_strategy : RoutingStrategy → Change
  add : RoutingRule → Change
  remove : String → Change
  count : String → Change

unfoldable pub apply : Change → Router → Router
unfolding register_database unregister_database set_database_health set_database_latency
    set_strategy add_rule remove_rule bump_counter
apply (register db) r = register_database db r
apply (unregister name) r = unregister_database name r
apply (set_health name healthy) r = set_database_health name healthy r
apply (set_latency name latency) r = set_database_latency name latency r
apply (change_strategy strategy) r = set_strategy strategy r
apply (add rule) r = add_rule rule r
apply (remove name) r = remove_rule name r
apply (count name) r = bump_counter name r

pub apply_all : List Change → Router → Router
apply_all [] r = r
apply_all (c ∷ cs) r = apply_all cs (apply c r)

update_pool-IsRegistered :
    (f : DatabasePool → DatabasePool) (name : String) (r : Router) (o : Option DatabasePool)
    → ((pool : DatabasePool) → ((f pool).name ≡ pool.name) × ((f pool).weight ≡ pool.weight))
    → lookup name r.pools ≡ o
    → IsRegistered r
    → IsRegistered (update_pool f name o r)
update_pool-IsRegistered f name r none keeps there h = h
update_pool-IsRegistered f name r (some pool) keeps there h = record {
  named = λ k p.
      simp lookup-insert
        (ground (arith, keeps pool, h.named name pool there, h.named k p, eq_iff name k));
  weighed = λ k p.
      simp lookup-insert
        (ground (arith, keeps pool, h.weighed name pool there, h.weighed k p, eq_iff name k));
}

apply-IsRegistered : (c : Change) (r : Router) → IsRegistered r → IsRegistered (apply c r)
unfolding apply
apply-IsRegistered (register db) r h = record {
  named = λ k p. simp lookup-insert (ground (arith, h.named k p, eq_iff db.name k));
  weighed = λ k p. simp lookup-insert (ground (arith, h.weighed k p));
}
apply-IsRegistered (unregister name) r h = record {
  named = λ k p. simp lookup-delete (ground (arith, h.named k p));
  weighed = λ k p. simp lookup-delete (ground (arith, h.weighed k p));
}
apply-IsRegistered (set_health name healthy) r h =
    update_pool-IsRegistered _ name r (lookup name r.pools) (λ p. (refl, refl)) refl h
apply-IsRegistered (set_latency name latency) r h =
    update_pool-IsRegistered _ name r (lookup name r.pools) (λ p. (refl, refl)) refl h
apply-IsRegistered (change_strategy strategy) r h = record { named = h.named; weighed = h.weighed }
apply-IsRegistered (add rule) r h = record { named = h.named; weighed = h.weighed }
apply-IsRegistered (remove name) r h = record { named = h.named; weighed = h.weighed }
apply-IsRegistered (count name) r h = record { named = h.named; weighed = h.weighed }

apply_all-IsRegistered :
    (cs : List Change) (r : Router) → IsRegistered r → IsRegistered (apply_all cs r)
unfolding apply_all
apply_all-IsRegistered [] r h = h
apply_all-IsRegistered (c ∷ cs) r h =
    apply_all-IsRegistered cs (apply c r) (apply-IsRegistered c r h)

new-IsRegistered :
    (rules : List RoutingRule) (strategy : RoutingStrategy) → IsRegistered (new rules strategy)
unfolding new lookup
new-IsRegistered rules strategy = record {
  named = λ k p h. ground arith;
  weighed = λ k p h. ground arith;
}

-- Whatever is registered, unregistered, marked or reconfigured after `NewRouter`, and whatever
-- requests are counted, every pool stands under its own name and has the weight 1, by which
-- round robin divides.
pub router-IsRegistered :
    (rules : List RoutingRule) (strategy : RoutingStrategy) (cs : List Change)
    → IsRegistered (apply_all cs (new rules strategy))
router-IsRegistered rules strategy cs =
    apply_all-IsRegistered cs (new rules strategy) (new-IsRegistered rules strategy)
