-- ===== src/Tests/Pools.antt =====
-- The pool rebalancer at concrete inputs.
use universal_database_proxy.Prelude.{some, List, [], ◌∷◌, ◌≡◌, arith, string_eq, ltb}
use universal_database_proxy.Prelude.Int.{pos, pos_part}
use universal_database_proxy.GoMap.{lookup}
use universal_database_proxy.Types.{string_value}
use universal_database_proxy.PoolRebalancer.{RatioLib, PoolInfo, default_config, new, register_pool}
use universal_database_proxy.PoolRebalancer.Balance.{
  Call, acquires, releases, responds, waits, rebalances, run, taken, given, IsBalanced,
}
use universal_database_proxy.PoolRebalancer.Registered.{registered-IsBalanced}
use universal_database_proxy.Tests.Samples.{query_of}

-- A ratio is the number of active connections, 4 of which count as above every threshold.
abbrev count_lib : RatioLib
count_lib = record { ratio = λ active most. pos_part active; less = λ x y. ltb 4 x }

abbrev busy_calls : List Call
busy_calls =
    acquires "hr"
    ∷ waits "hr" (pos 7)
    ∷ acquires "hr"
    ∷ rebalances (pos 9) ("hr" ∷ [])
    ∷ responds
        (record (query_of "SELECT 1") { metadata = some (("pool_name", string_value "hr") ∷ []) })
    ∷ releases "main"
    ∷ []

registered-IsBalanced_example :
    (pool : PoolInfo) × (lookup "hr"
        (run count_lib busy_calls
          (register_pool (pos 1) "hr" (pos 8) (pos 40) "hr" (new (some default_config)))).pools
      ≡ some pool)
    × IsBalanced default_config 8 (taken "hr" busy_calls) (given "hr" busy_calls) pool
unfolding new
registered-IsBalanced_example =
    registered-IsBalanced count_lib (pos 1) "hr" 8 40 "hr" busy_calls (new (some default_config))
      (record { positive = omega arith; exact = omega arith }) (omega arith) (omega arith)
      (omega arith) (omega arith)
