-- ===== src/PoolRebalancer/Registered.antt =====
-- A registered pool under any sequence of calls.
use universal_database_proxy.Prelude.{
  ℕ, ◌+◌, ◌≤◌, ◌<◌, String, Option, none, some, List, [], ◌∷◌, ◌≡◌, refl, arith, if◌then◌else◌,
  ◌==◌, string_eq, beq_refl, length,
}
use universal_database_proxy.Prelude.Int.{ℤ, pos, ◌≤ℤ◌}
use universal_database_proxy.GoMap.{lookup}
use universal_database_proxy.GoMap.Laws.{lookup-insert}
use universal_database_proxy.PoolRebalancer.{
  RatioLib, RebalancerConfig, PoolInfo, PoolRebalancerEngine, change_pool, acquired, released,
  waited, pool_of, new_pool, record_connection_acquired, record_connection_released,
  record_wait_time, release_named, process_response, rebalance, register_pool,
}
use universal_database_proxy.PoolRebalancer.Balance.{
  Call, acquires, releases, waits, responds, rebalances, call, run, named, taken_by, given_by,
  taken, given, IsBalanced,
}
use universal_database_proxy.PoolRebalancer.Changes.{
  Settings, acquired-IsBalanced, waited-IsBalanced,
}
use universal_database_proxy.PoolRebalancer.Runs.{
  Holds, change_found-Holds, rebalance-Holds, recount, same_Holds, release-Holds,
  release_named-Holds,
}

call-Holds :
    (lib : RatioLib) (config : RebalancerConfig) (name : String) (idle out back : ℕ) (c : Call)
    (e : PoolRebalancerEngine)
    → Settings config
    → idle + out + back < 9223372036854775807
    → Holds config name idle out back e
    → Holds config name idle (taken_by name c + out) (given_by name c + back) (call lib c e)
unfolding call record_connection_acquired record_connection_released record_wait_time
    process_response
call-Holds lib config name idle out back (acquires other) e set small s =
    change_found-Holds config name other idle out back ((if other == name then 1 else 0) + out)
      (0 + back) acquired (lookup other e.pools) e refl
      (λ same p b.
        recount config idle (acquired p) (ground (arith, same)) (omega arith)
          (acquired-IsBalanced config idle out back p small b))
      (λ different. (ground (arith, different), omega arith)) s
call-Holds lib config name idle out back (releases other) e set small s =
    same_Holds config name idle (change_pool other released e).0 (omega arith) refl
      (release-Holds config name other idle out back e small s)
call-Holds lib config name idle out back (waits other wait) e set small s =
    change_found-Holds config name other idle out back (0 + out) (0 + back) (waited wait)
      (lookup other e.pools) e refl
      (λ same p b.
        recount config idle (waited wait p) (omega arith) (omega arith)
          (waited-IsBalanced config idle out back wait p b))
      (λ different. (omega arith, omega arith)) s
call-Holds lib config name idle out back (responds qc) e set small s =
    same_Holds config name idle (release_named (pool_of qc) e) (omega arith) refl
      (release_named-Holds config name idle out back (pool_of qc) e small s)
call-Holds lib config name idle out back (rebalances now order) e set small s =
    same_Holds config name idle (rebalance lib now order e) (omega arith) (omega arith)
      (rebalance-Holds lib now config name idle out back order e set s)

named_le : (name : String) (o : Option String) → named name o ≤ 1
named_le name none = omega arith
named_le name (some other) = ground arith

one_each : (name : String) (c : Call) → taken_by name c + given_by name c ≤ 1
one_each name (acquires other) = ground arith
one_each name (releases other) = ground arith
one_each name (waits other wait) = omega arith
one_each name (responds qc) = omega (arith, named_le name (pool_of qc))
one_each name (rebalances now order) = omega arith

run-Holds :
    (lib : RatioLib) (config : RebalancerConfig) (name : String) (idle out back : ℕ)
    (calls : List Call) (e : PoolRebalancerEngine)
    → Settings config
    → idle + out + back + length calls < 9223372036854775807
    → Holds config name idle out back e
    → Holds config name idle (taken name calls + out) (given name calls + back) (run lib calls e)
unfolding run
run-Holds lib config name idle out back [] e set small s =
    same_Holds config name idle e (omega arith) (omega arith) s
run-Holds lib config name idle out back (c ∷ calls) e set small s =
    same_Holds config name idle (run lib calls (call lib c e)) (omega arith) (omega arith) (
      run-Holds lib config name idle (taken_by name c + out) (given_by name c + back) calls
        (call lib c e) set (omega (arith, small, one_each name c))
        (call-Holds lib config name idle out back c e set (omega (arith, small)) s))

registered-Holds :
    (config : RebalancerConfig) (now : ℤ) (name : String) (idle most : ℕ) (database : String)
    (e : PoolRebalancerEngine)
    → e.config ≡ config
    → config.min_connections ≤ℤ pos idle
    → idle ≤ most
    → pos most ≤ℤ config.max_connections
    → Holds config name idle 0 0 (register_pool now name (pos idle) (pos most) database e)
unfolding register_pool
registered-Holds config now name idle most database e same lowest ordered highest = record {
  same_config = same;
  pool = new_pool now name (pos idle) (pos most) database;
  there = ground (
    arith,
    lookup-insert name name (new_pool now name (pos idle) (pos most) database) e.pools,
    beq_refl name,
  );
  balanced = record {
    counts = record { active = omega arith; free = omega arith };
    within = record { lowest = lowest; ordered = omega (arith, ordered); highest = highest };
  };
}

-- A pool is registered with a minimum of `idle` connections and a maximum of `most`, within those of
-- the settings, which leave room for a step of 10. After any calls that do not register or
-- unregister a pool, it is there, its active connections are those taken less those given back, its
-- idle ones are `idle` less that, and its limits are within those of the settings. The calls and
-- `idle` are fewer than 2^63 - 1.
pub registered-IsBalanced :
    (lib : RatioLib) (now : ℤ) (name : String) (idle most : ℕ) (database : String)
    (calls : List Call) (e : PoolRebalancerEngine)
    → Settings e.config
    → e.config.min_connections ≤ℤ pos idle
    → idle ≤ most
    → pos most ≤ℤ e.config.max_connections
    → idle + length calls < 9223372036854775807
    → (pool : PoolInfo) × (lookup name
          (run lib calls (register_pool now name (pos idle) (pos most) database e)).pools
        ≡ some pool)
      × IsBalanced e.config idle (taken name calls) (given name calls) pool
registered-IsBalanced lib now name idle most database calls e set lowest ordered highest small =
    let start =
      registered-Holds e.config now name idle most database e refl lowest ordered highest in
    let h =
      run-Holds lib e.config name idle 0 0 calls
        (register_pool now name (pos idle) (pos most) database e) set (omega (arith, small))
        start in
    (h.pool, h.there, recount e.config idle h.pool (omega arith) (omega arith) h.balanced)
