-- ===== src/PoolRebalancer/Changes.antt =====
-- What the changes of a pool do to its counts and limits.
use universal_database_proxy.Prelude.{
  ℕ, suc, ◌+◌, ◌<◌, Bool, ◌&&◌, arith, string_eq, Bool-cases, inl, inr,
}
use universal_database_proxy.Prelude.Int.{ℤ, pos, negsuc, ◌+ℤ◌, ◌-ℤ◌, ◌≤ℤ◌, ◌<ℤ◌, ltb_ℤ, wrap64}
use universal_database_proxy.PoolRebalancer.{
  RatioLib, RebalancerConfig, PoolInfo, acquired, released, waited, at_most, at_least, scaled_up,
  scaled_down, analyze_and_adjust,
}
use universal_database_proxy.PoolRebalancer.Balance.{
  HasCounts, IsBalanced, incr_parts, decr_parts, one_part,
}

acquired-HasCounts :
    (idle out back : ℕ) (p : PoolInfo)
    → idle + out + back < 9223372036854775807
    → HasCounts idle out back p
    → HasCounts idle (suc out) back (acquired p)
acquired-HasCounts idle out back p small s =
    let a = one_part p.active_conns back out s.active in
    let i = one_part p.idle_conns out (idle + back) (omega (arith, s.free)) in
    record {
      active = omega (
        arith,
        s.active,
        incr_parts p.active_conns (idle + out + back) (omega (arith, a.0)) (omega (arith, a.1))
            small,
      );
      free = omega (
        arith,
        s.free,
        decr_parts p.idle_conns (idle + out + back) (omega (arith, i.0)) (omega (arith, i.1)) small,
      );
    }

released-HasCounts :
    (idle out back : ℕ) (p : PoolInfo)
    → idle + out + back < 9223372036854775807
    → HasCounts idle out back p
    → HasCounts idle out (suc back) (released p)
released-HasCounts idle out back p small s =
    let a = one_part p.active_conns back out s.active in
    let i = one_part p.idle_conns out (idle + back) (omega (arith, s.free)) in
    record {
      active = omega (
        arith,
        s.active,
        decr_parts p.active_conns (idle + out + back) (omega (arith, a.0)) (omega (arith, a.1))
            small,
      );
      free = omega (
        arith,
        s.free,
        incr_parts p.idle_conns (idle + out + back) (omega (arith, i.0)) (omega (arith, i.1)) small,
      );
    }

pub acquired-IsBalanced :
    (config : RebalancerConfig) (idle out back : ℕ) (p : PoolInfo)
    → idle + out + back < 9223372036854775807
    → IsBalanced config idle out back p
    → IsBalanced config idle (suc out) back (acquired p)
acquired-IsBalanced config idle out back p small s = record {
  counts = acquired-HasCounts idle out back p small s.counts;
  within = record {
    lowest = s.within.lowest;
    ordered = s.within.ordered;
    highest = s.within.highest;
  };
}

pub released-IsBalanced :
    (config : RebalancerConfig) (idle out back : ℕ) (p : PoolInfo)
    → idle + out + back < 9223372036854775807
    → IsBalanced config idle out back p
    → IsBalanced config idle out (suc back) (released p)
released-IsBalanced config idle out back p small s = record {
  counts = released-HasCounts idle out back p small s.counts;
  within = record {
    lowest = s.within.lowest;
    ordered = s.within.ordered;
    highest = s.within.highest;
  };
}

pub waited-IsBalanced :
    (config : RebalancerConfig) (idle out back : ℕ) (wait : ℤ) (p : PoolInfo)
    → IsBalanced config idle out back p
    → IsBalanced config idle out back (waited wait p)
waited-IsBalanced config idle out back wait p s = record {
  counts = record { active = s.counts.active; free = s.counts.free };
  within = record {
    lowest = s.within.lowest;
    ordered = s.within.ordered;
    highest = s.within.highest;
  };
}

-- The largest limit leaves room for a step of 10.
pub record Settings (config : RebalancerConfig) : Type 0 where
  pub positive : pos 0 ≤ℤ config.min_connections
  pub exact : config.max_connections <ℤ pos 9223372036854775797

up_bounds :
    (n bound : ℤ)
    → pos 0 ≤ℤ n
    → n <ℤ bound
    → bound <ℤ pos 9223372036854775797
    → (n ≤ℤ at_most bound (wrap64 (n +ℤ pos 10))) × (at_most bound (wrap64 (n +ℤ pos 10)) ≤ℤ bound)
unfolding wrap64 ◌+ℤ◌
up_bounds (pos n) bound h below small = ground arith
up_bounds (negsuc n) bound h below small = absurd (omega (arith, h))

down_bounds :
    (n bound : ℤ)
    → pos 0 ≤ℤ bound
    → bound <ℤ n
    → n <ℤ pos 9223372036854775807
    → (bound ≤ℤ at_least bound (wrap64 (n -ℤ pos 2))) × (at_least bound (wrap64 (n -ℤ pos 2)) ≤ℤ n)
unfolding wrap64 ◌-ℤ◌
down_bounds (pos n) bound h above small = ground arith
down_bounds (negsuc n) bound h above small = absurd (omega (arith, h, above))

le_trans : (a b c : ℤ) → a ≤ℤ b → b ≤ℤ c → a ≤ℤ c
le_trans a b c h k = omega (arith, h, k)

scaled_up-IsBalanced :
    (config : RebalancerConfig) (idle out back : ℕ) (now : ℤ) (busy : Bool) (p : PoolInfo)
    → Settings config
    → IsBalanced config idle out back p
    → IsBalanced config idle out back (scaled_up now config busy p)
scaled_up-IsBalanced config idle out back now busy p set s =
    elim (Bool-cases (busy && ltb_ℤ p.max_conns config.max_connections)) [
      | inr full ↦ rw full s
      | inl room ↦
          let (up, bound) =
            up_bounds p.max_conns config.max_connections
              (le_trans (pos 0) p.min_conns p.max_conns
                (le_trans (pos 0) config.min_connections p.min_conns set.positive s.within.lowest)
                s.within.ordered)
              (ground (arith, room)) set.exact in
          rw room (record {
            counts = record { active = s.counts.active; free = s.counts.free };
            within = record {
              lowest = s.within.lowest;
              ordered =
                  le_trans p.min_conns p.max_conns
                    (at_most config.max_connections (wrap64 (p.max_conns +ℤ pos 10)))
                    s.within.ordered up;
              highest = bound;
            };
          })
    ]

scaled_down-IsBalanced :
    (config : RebalancerConfig) (idle out back : ℕ) (now : ℤ) (unused : Bool) (p : PoolInfo)
    → Settings config
    → IsBalanced config idle out back p
    → IsBalanced config idle out back (scaled_down now config unused p)
scaled_down-IsBalanced config idle out back now unused p set s =
    elim (Bool-cases (unused && ltb_ℤ config.min_connections p.min_conns)) [
      | inr low ↦ rw low s
      | inl room ↦
          let (bound, down) =
            down_bounds p.min_conns config.min_connections set.positive (ground (arith, room))
              (omega (arith, s.within.ordered, s.within.highest, set.exact)) in
          rw room (record {
            counts = record { active = s.counts.active; free = s.counts.free };
            within = record {
              lowest = bound;
              ordered =
                  le_trans (at_least config.min_connections (wrap64 (p.min_conns -ℤ pos 2)))
                    p.min_conns p.max_conns down s.within.ordered;
              highest = s.within.highest;
            };
          })
    ]

pub adjusted-IsBalanced :
    (lib : RatioLib) (now : ℤ) (config : RebalancerConfig) (idle out back : ℕ) (p : PoolInfo)
    → Settings config
    → IsBalanced config idle out back p
    → IsBalanced config idle out back (analyze_and_adjust lib now config p)
unfolding analyze_and_adjust
adjusted-IsBalanced lib now config idle out back p set s =
    let utilization = lib.ratio p.active_conns p.max_conns in
    let up = scaled_up now config (lib.less config.scale_up_threshold utilization) p in
    scaled_down-IsBalanced config idle out back now
      (lib.less utilization config.scale_down_threshold) up set
      (scaled_up-IsBalanced config idle out back now
        (lib.less config.scale_up_threshold utilization) p set s)
