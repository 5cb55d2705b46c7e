-- ===== src/Router/Routing.antt =====
-- Where `Route` sends a query.
use mathlib.Core.List.{Memᴰ}
use mathlib.Core.Path.{subst}
use universal_database_proxy.Prelude.{
  Bool, true, false, not, ◌&&◌, String, Option, none, some, List, [], ◌∷◌, ◌≡◌, ◌≢◌, refl, sym, ap,
  ◌∙◌, arith, inl, inr, Bool-cases, string_eq, ◌==◌, eq_iff,
}
use universal_database_proxy.Prelude.Result.{Go, done, panic, blocked}
use universal_database_proxy.GoMap.{lookup, range, Covers}
use universal_database_proxy.GoMap.Range.{mem-range, range-mem}
use universal_database_proxy.Types.{DatabaseConfig, QueryContext, RoutingRule}
use universal_database_proxy.Router.{
  DatabasePool, Router, RoutingStrategy, Routed, routed, failed, unhealthy, first_healthy,
  find_fallback, select_from_pool, route_selected, fallback_result, route_pool, find_matching_db,
  route,
}
use universal_database_proxy.Router.Pools.{IsRegistered}

-- A pool of a list that is up and not the one excluded.
pub record IsSpare (exclude : String) (l : List (String × DatabasePool)) (pool : DatabasePool)
    : Type 0 where
  pub key : String
  pub member : Memᴰ (key, pool) l
  pub up : pool.healthy ≡ true
  pub other : pool.name ≢ exclude

first_healthy-IsSpare :
    (exclude : String) (l : List (String × DatabasePool)) (pool : DatabasePool)
    → first_healthy exclude l ≡ some pool
    → IsSpare exclude l pool
unfolding first_healthy
first_healthy-IsSpare exclude [] pool h = cc
first_healthy-IsSpare exclude ((k, p) ∷ rest) pool h =
    elim (Bool-cases (not (p.name == exclude) && p.healthy)) [
      | inl hit ↦
          let same : p ≡ pool = ground arith in
          rw (← same) (record {
            key = k;
            member = Memᴰ.head refl;
            up = ground arith;
            other = ground (arith, eq_iff p.name exclude);
          })
      | inr miss ↦
          let spare = first_healthy-IsSpare exclude rest pool (ground arith) in
          record {
            key = spare.key;
            member = Memᴰ.tail spare.member;
            up = spare.up;
            other = spare.other;
          }
    ]

first_healthy-none :
    (exclude : String) (l : List (String × DatabasePool)) (k : String) (pool : DatabasePool)
    → first_healthy exclude l ≡ none
    → Memᴰ (k, pool) l
    → pool.healthy ≡ true
    → pool.name ≡ exclude
unfolding first_healthy
first_healthy-none exclude [] k pool h i up = elim i [ ]
first_healthy-none exclude ((j, p) ∷ rest) k pool h (Memᴰ.head e) up =
    let same : pool ≡ p = ap (λ (x : String × DatabasePool). x.1) e in
    ground (
      arith,
      eq_iff p.name exclude,
      ap (λ (x : DatabasePool). x.name) same,
      ap (λ (x : DatabasePool). x.healthy) same,
    )
first_healthy-none exclude ((j, p) ∷ rest) k pool h (Memᴰ.tail i) up =
    first_healthy-none exclude rest k pool (ground arith) i up

-- A pool of the router that is up, with its database.
pub record IsUp (r : Router) (db : DatabaseConfig) : Type 0 where
  pub key : String
  pub pool : DatabasePool
  pub present : lookup key r.pools ≡ some pool
  pub up : pool.healthy ≡ true
  pub serves : pool.database ≡ db

select_from_pool-database :
    (strategy : RoutingStrategy) (pool : DatabasePool) (r r' : Router) (db : DatabaseConfig)
    → select_from_pool strategy pool r ≡ done (r', db)
    → (pool.database ≡ db) × (r'.pools ≡ r.pools)
unfolding select_from_pool
select_from_pool-database strategy pool r r' db h = ground arith

route_selected-inv :
    (m : Go (Router × DatabaseConfig)) (r' : Router) (x : Routed)
    → route_selected m ≡ done (r', x)
    → (db : DatabaseConfig) × (m ≡ done (r', db)) × (x ≡ routed db)
route_selected-inv panic r' x h = cc
route_selected-inv blocked r' x h = cc
route_selected-inv (done (r, db)) r' x h = (db, ground arith, ground arith)

spare-IsUp :
    (order : List String) (name : String) (r : Router) (o : Option DatabasePool)
    (db : DatabaseConfig)
    → find_fallback order name r ≡ o
    → fallback_result name o ≡ routed db
    → IsUp r db
unfolding find_fallback
spare-IsUp order name r none db found h = cc
spare-IsUp order name r (some pool) db found h =
    let spare = first_healthy-IsSpare name (range order r.pools) pool found in
    record {
      key = spare.key;
      pool = pool;
      present = mem-range order r.pools spare.key pool spare.member;
      up = spare.up;
      serves = ground arith;
    }

route_pool-IsUp :
    (order : List String) (name : String) (o : Option DatabasePool) (r r' : Router)
    (db : DatabaseConfig)
    → lookup name r.pools ≡ o
    → route_pool order name o r ≡ done (r', routed db)
    → IsUp r db × (r'.pools ≡ r.pools)
route_pool-IsUp order name none r r' db there h = ground arith
route_pool-IsUp order name (some pool) r r' db there h = elim (Bool-cases pool.healthy) [
  | inl up ↦
      let (db', ran, same) =
        route_selected-inv (select_from_pool r.strategy pool r) r' (routed db) (ground arith) in
      let chosen = select_from_pool-database r.strategy pool r r' db' ran in
      (
        record {
          key = name;
          pool = pool;
          present = there;
          up = up;
          serves = ground (arith, chosen);
        },
        chosen.1,
      )
  | inr down ↦
      (spare-IsUp order name r (find_fallback order name r) db refl (ground arith), ground arith)
]

fallback-none :
    (order : List String) (name : String) (r : Router) (k : String) (pool : DatabasePool)
    → Covers order r.pools
    → find_fallback order name r ≡ none
    → lookup k r.pools ≡ some pool
    → pool.healthy ≡ true
    → pool.name ≡ name
unfolding find_fallback
fallback-none order name r k pool covers none_found there up =
    first_healthy-none name (range order r.pools) k pool none_found
      (range-mem order r.pools k pool there (covers k pool there)) up

-- The pool that was down, and had no replacement.
record Stranded (order : List String) (name : String) (o : Option DatabasePool) (r : Router)
    : Type 0 where
  pool : DatabasePool
  named : o ≡ some pool
  down : pool.healthy ≡ false
  alone : find_fallback order name r ≡ none

route_pool-Stranded :
    (order : List String) (name : String) (o : Option DatabasePool) (r r' : Router) (err : String)
    → route_pool order name o r ≡ done (r', failed (unhealthy err))
    → Stranded order name o r
route_pool-Stranded order name none r r' err h = ground arith
route_pool-Stranded order name (some pool) r r' err h = elim (Bool-cases pool.healthy) [
  | inl up ↦
      let (db, ran, same) =
        route_selected-inv (select_from_pool r.strategy pool r) r' (failed (unhealthy err))
          (ground arith) in
      cc
  | inr down ↦ record { pool = pool; named = refl; down = down; alone = ground arith }
]

Stranded-all_down :
    (order : List String) (name : String) (r : Router) (k : String) (pool : DatabasePool)
    → Covers order r.pools
    → IsRegistered r
    → Stranded order name (lookup name r.pools) r
    → lookup k r.pools ≡ some pool
    → pool.healthy ≡ false
Stranded-all_down order name r k pool covers reg st there = elim (Bool-cases pool.healthy) [
  | inr down ↦ down
  | inl up ↦
      let p : pool.name ≡ name = fallback-none order name r k pool covers st.alone there up in
      let q : pool.name ≡ k = reg.named k pool there in
      let at_name : lookup name r.pools ≡ some pool =
        subst (λ n. lookup n r.pools ≡ some pool) (sym q ∙ p) there in
      let same : some st.pool ≡ some pool = sym st.named ∙ at_name in
      let eq : st.pool ≡ pool = ground arith in
      sym (ap (λ (x : DatabasePool). x.healthy) eq) ∙ st.down
]

module _ (match_string : String → String → Option Bool) (sorted : List RoutingRule)
    (order : List String) (qc : QueryContext) where
  -- A query is never sent to a database that is marked unhealthy: the database that `Route` returns
  -- is that of a healthy pool of the router, and the pools stay as they were.
  pub route-IsUp :
      (r r' : Router) (db : DatabaseConfig)
      → route match_string sorted order qc r ≡ done (r', routed db)
      → IsUp r db × (r'.pools ≡ r.pools)
  unfolding route
  route-IsUp r r' db h =
      let name = find_matching_db match_string sorted qc in
      elim (Bool-cases (name == "")) [
        | inl unnamed ↦ ground arith
        | inr named ↦ route_pool-IsUp order name (lookup name r.pools) r r' db refl (ground arith)
      ]

  -- `Route` fails for an unhealthy database only if no pool of the router is healthy, whatever the
  -- order in which the pools were visited.
  pub route-unhealthy :
      (r r' : Router) (name : String) (k : String) (pool : DatabasePool)
      → Covers order r.pools
      → IsRegistered r
      → route match_string sorted order qc r ≡ done (r', failed (unhealthy name))
      → lookup k r.pools ≡ some pool
      → pool.healthy ≡ false
  unfolding route
  route-unhealthy r r' name k pool covers reg h there =
      let found = find_matching_db match_string sorted qc in
      elim (Bool-cases (found == "")) [
        | inl unnamed ↦ ground arith
        | inr named ↦
            Stranded-all_down order found r k pool covers reg
              (route_pool-Stranded order found (lookup found r.pools) r r' name (ground arith))
              there
      ]
