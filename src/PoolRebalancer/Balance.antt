-- ===== src/PoolRebalancer/Balance.antt =====
-- The counts and limits of one pool, whatever is done to the engine.
use universal_database_proxy.Prelude.{
  ℕ, ◌+◌, ◌≤◌, ◌<◌, String, Option, none, some, List, [], ◌∷◌, ◌≡◌, arith, if◌then◌else◌, ◌==◌,
  string_eq,
}
use universal_database_proxy.Prelude.Int.{
  ℤ, pos, negsuc, pos_part, neg_part, ◌+ℤ◌, ◌-ℤ◌, ◌≤ℤ◌, wrap64, incr, decr,
}
use universal_database_proxy.Types.{QueryContext}
use universal_database_proxy.PoolRebalancer.{
  RatioLib, RebalancerConfig, PoolInfo, PoolRebalancerEngine, pool_of, record_connection_acquired,
  record_connection_released, record_wait_time, process_response, rebalance,
}

-- Calls after the pools were registered
pub data Call : Type 0 where
  acquires : String → Call
  releases : String → Call
  waits : String → ℤ → Call
  responds : QueryContext → Call
  rebalances : ℤ → List String → Call

unfoldable pub call : RatioLib → Call → PoolRebalancerEngine → PoolRebalancerEngine
call lib (acquires name) e = (record_connection_acquired name e).0
call lib (releases name) e = (record_connection_released name e).0
call lib (waits name wait) e = (record_wait_time name wait e).0
call lib (responds qc) e = process_response qc e
call lib (rebalances now order) e = rebalance lib now order e

unfoldable pub run : RatioLib → List Call → PoolRebalancerEngine → PoolRebalancerEngine
run lib [] e = e
run lib (c ∷ calls) e = run lib calls (call lib c e)

abbrev pub named : String → Option String → ℕ
named name none = 0
named name (some other) = if other == name then 1 else 0

-- How many connections of a pool a call takes, and how many it gives back
abbrev pub taken_by : String → Call → ℕ
taken_by name (acquires other) = if other == name then 1 else 0
taken_by name _ = 0

abbrev pub given_by : String → Call → ℕ
given_by name (releases other) = if other == name then 1 else 0
given_by name (responds qc) = named name (pool_of qc)
given_by name _ = 0

abbrev pub taken : String → List Call → ℕ
taken name [] = 0
taken name (c ∷ calls) = taken_by name c + taken name calls

abbrev pub given : String → List Call → ℕ
given name [] = 0
given name (c ∷ calls) = given_by name c + given name calls

-- The limits of a pool are within those of the settings.
pub record IsWithin (config : RebalancerConfig) (pool : PoolInfo) : Type 0 where
  pub lowest : config.min_connections ≤ℤ pool.min_conns
  pub ordered : pool.min_conns ≤ℤ pool.max_conns
  pub highest : pool.max_conns ≤ℤ config.max_connections

-- The counts of a pool that had `idle` connections, of which `out` were taken and `back` given back
pub record HasCounts (idle out back : ℕ) (pool : PoolInfo) : Type 0 where
  pub active : pos_part pool.active_conns + back ≡ neg_part pool.active_conns + out
  pub free : pos_part pool.idle_conns + out ≡ neg_part pool.idle_conns + idle + back

pub record IsBalanced (config : RebalancerConfig) (idle out back : ℕ) (pool : PoolInfo)
    : Type 0 where
  pub counts : HasCounts idle out back pool
  pub within : IsWithin config pool

pub incr_parts :
    (z : ℤ) (m : ℕ)
    → pos_part z ≤ m
    → neg_part z ≤ m
    → m < 9223372036854775807
    → pos_part (incr z) + neg_part z ≡ neg_part (incr z) + pos_part z + 1
unfolding incr wrap64 ◌+ℤ◌
incr_parts (pos n) m h k small = ground arith
incr_parts (negsuc n) m h k small = ground arith

pub decr_parts :
    (z : ℤ) (m : ℕ)
    → pos_part z ≤ m
    → neg_part z ≤ m
    → m < 9223372036854775807
    → pos_part (decr z) + neg_part z + 1 ≡ neg_part (decr z) + pos_part z
unfolding decr wrap64 ◌-ℤ◌
decr_parts (pos n) m h k small = ground arith
decr_parts (negsuc n) m h k small = ground arith

-- Only one part of an integer is not 0.
pub one_part :
    (z : ℤ) (a b : ℕ) → pos_part z + a ≡ neg_part z + b → (pos_part z ≤ b) × (neg_part z ≤ a)
one_part (pos n) a b h = (omega (arith, h), omega (arith, h))
one_part (negsuc n) a b h = (omega (arith, h), omega (arith, h))
