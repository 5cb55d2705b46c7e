-- ===== src/PoolRebalancer/Runs.antt =====
-- What one call does to a pool that is there.
use mathlib.Core.Path.{subst}
use universal_database_proxy.Prelude.{
  ℕ, ◌+◌, ◌<◌, Bool, true, false, String, Option, none, some, List, [], ◌∷◌, ◌≡◌, refl, sym, arith,
  if◌then◌else◌, ◌==◌, string_eq, eq_iff, Bool-cases, inl, inr,
}
use universal_database_proxy.Prelude.Int.{ℤ}
use universal_database_proxy.GoMap.{lookup}
use universal_database_proxy.GoMap.Laws.{lookup-insert}
use universal_database_proxy.PoolRebalancer.{
  RatioLib, RebalancerConfig, PoolInfo, PoolRebalancerEngine, change_found, change_pool, released,
  release_named, analyze_and_adjust, adjust_each, rebalance,
}
use universal_database_proxy.PoolRebalancer.Balance.{named, IsBalanced}
use universal_database_proxy.PoolRebalancer.Changes.{
  Settings, released-IsBalanced, adjusted-IsBalanced,
}

-- The engine has these settings, and the pool is there with these counts.
pub record Holds (config : RebalancerConfig) (name : String) (idle out back : ℕ)
    (e : PoolRebalancerEngine) : Type 0 where
  pub same_config : e.config ≡ config
  pub pool : PoolInfo
  pub there : lookup name e.pools ≡ some pool
  pub balanced : IsBalanced config idle out back pool

pub change_found-Holds :
    (config : RebalancerConfig) (name other : String) (idle out back out' back' : ℕ)
    (f : PoolInfo → PoolInfo) (o : Option PoolInfo) (e : PoolRebalancerEngine)
    → lookup other e.pools ≡ o
    → ((other == name) ≡ true
        → (p : PoolInfo) → IsBalanced config idle out back p
        → IsBalanced config idle out' back' (f p))
    → ((other == name) ≡ false → (out ≡ out') × (back ≡ back'))
    → Holds config name idle out back e
    → Holds config name idle out' back' (change_found other f o e).0
change_found-Holds config name other idle out back out' back' f none e gone this rest s =
    elim (Bool-cases (other == name)) [
      | inl same ↦ absurd (ground (arith, gone, s.there, (eq_iff other name).0 same))
      | inr different ↦
          let (o, b) = rest different in
          subst (λ n. Holds config name idle n back' e) o
            (subst (λ n. Holds config name idle out n e) b s)
    ]
change_found-Holds config name other idle out back out' back' f (some q) e found this rest s =
    elim (Bool-cases (other == name)) [
      | inl same ↦
          let this_pool : q ≡ s.pool = ground (arith, found, s.there, (eq_iff other name).0 same) in
          record {
            same_config = s.same_config;
            pool = f q;
            there = ground (arith, lookup-insert other name (f q) e.pools, same);
            balanced =
                this same q
                  (subst (λ p. IsBalanced config idle out back p) (sym this_pool) s.balanced);
          }
      | inr different ↦
          let (o, b) = rest different in
          record {
            same_config = s.same_config;
            pool = s.pool;
            there = ground (arith, lookup-insert other name (f q) e.pools, different, s.there);
            balanced =
                subst (λ n. IsBalanced config idle n back' s.pool) o
                  (subst (λ n. IsBalanced config idle out n s.pool) b s.balanced);
          }
    ]

adjust_each-Holds :
    (lib : RatioLib) (now : ℤ) (config : RebalancerConfig) (name : String) (idle out back : ℕ)
    (order : List String) (e : PoolRebalancerEngine)
    → Settings config
    → Holds config name idle out back e
    → Holds config name idle out back (adjust_each lib now order e)
unfolding adjust_each
adjust_each-Holds lib now config name idle out back [] e set s = s
adjust_each-Holds lib now config name idle out back (other ∷ order) e set s =
    adjust_each-Holds lib now config name idle out back order
      (change_pool other (analyze_and_adjust lib now e.config) e).0 set
      (change_found-Holds config name other idle out back out back
        (analyze_and_adjust lib now e.config) (lookup other e.pools) e refl
        (λ same p b. rw s.same_config (adjusted-IsBalanced lib now config idle out back p set b))
        (λ different. (refl, refl)) s)

Holds-if :
    (config : RebalancerConfig) (name : String) (idle out back : ℕ) (test : Bool)
    (a b : PoolRebalancerEngine)
    → Holds config name idle out back a
    → Holds config name idle out back b
    → Holds config name idle out back (if test then a else b)
Holds-if config name idle out back true a b h k = h
Holds-if config name idle out back false a b h k = k

pub rebalance-Holds :
    (lib : RatioLib) (now : ℤ) (config : RebalancerConfig) (name : String) (idle out back : ℕ)
    (order : List String) (e : PoolRebalancerEngine)
    → Settings config
    → Holds config name idle out back e
    → Holds config name idle out back (rebalance lib now order e)
unfolding rebalance
rebalance-Holds lib now config name idle out back order e set s =
    let h = adjust_each-Holds lib now config name idle out back order e set s in
    Holds-if config name idle out back e.config.auto_scale _ e
      (record {
        same_config = h.same_config;
        pool = h.pool;
        there = h.there;
        balanced = h.balanced;
      })
      s

pub recount :
    (config : RebalancerConfig) (idle : ℕ) {out out' back back' : ℕ} (p : PoolInfo)
    → out ≡ out'
    → back ≡ back'
    → IsBalanced config idle out back p
    → IsBalanced config idle out' back' p
recount config idle {out' = out'} {back = back} p o b s =
    subst (λ n. IsBalanced config idle out' n p) b
      (subst (λ n. IsBalanced config idle n back p) o s)

-- The same counts, written otherwise.
pub same_Holds :
    (config : RebalancerConfig) (name : String) (idle : ℕ) {out out' back back' : ℕ}
    (e : PoolRebalancerEngine)
    → out ≡ out'
    → back ≡ back'
    → Holds config name idle out back e
    → Holds config name idle out' back' e
same_Holds config name idle e o b s = record {
  same_config = s.same_config;
  pool = s.pool;
  there = s.there;
  balanced = recount config idle s.pool o b s.balanced;
}

pub release-Holds :
    (config : RebalancerConfig) (name other : String) (idle out back : ℕ) (e : PoolRebalancerEngine)
    → idle + out + back < 9223372036854775807
    → Holds config name idle out back e
    → Holds config name idle out
        ((if other == name then 1 else 0) + back)
        (change_pool other released e).0
release-Holds config name other idle out back e small s =
    change_found-Holds config name other idle out back out ((if other == name then 1 else 0) + back)
      released (lookup other e.pools) e refl
      (λ same p b.
        recount config idle (released p) refl (ground (arith, same))
          (released-IsBalanced config idle out back p small b))
      (λ different. (refl, ground (arith, different))) s

pub release_named-Holds :
    (config : RebalancerConfig) (name : String) (idle out back : ℕ) (o : Option String)
    (e : PoolRebalancerEngine)
    → idle + out + back < 9223372036854775807
    → Holds config name idle out back e
    → Holds config name idle out (named name o + back) (release_named o e)
release_named-Holds config name idle out back (some other) e small s =
    release-Holds config name other idle out back e small s
release_named-Holds config name idle out back none e small s =
    same_Holds config name idle e refl (omega arith) s
