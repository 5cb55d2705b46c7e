-- ===== src/RetryBreaker/Counting.antt =====
-- How a closed breaker counts failures.
use universal_database_proxy.Prelude.{
  ℕ, suc, ◌+◌, ◌<◌, String, Option, none, some, List, [], ◌∷◌, ◌≡◌, ap, arith,
}
use universal_database_proxy.Prelude.Int.{ℤ, pos, incr, incr-pos, ◌≤ℤ◌, ◌<ℤ◌}
use universal_database_proxy.RetryBreaker.{closed, open_state, CircuitBreaker, new, execute}

-- A call of `Execute`: the time of the check, what `fn` would return, and the time after it.
pub record Call : Type 0 where
  pub now : ℤ
  pub result : Option String
  pub later : ℤ

pub calls : CircuitBreaker → List Call → CircuitBreaker
calls cb [] = cb
calls cb (c ∷ cs) = calls (execute c.now c.result c.later cb).0 cs

-- The calls that would fail if they were let through.
abbrev pub count_failure : Option String → ℕ → ℕ
count_failure none n = n
count_failure (some _) n = suc n

abbrev pub failures : List Call → ℕ
failures [] = 0
failures (c ∷ cs) = count_failure c.result (failures cs)

-- Closed, with `k` failures counted.
pub record Counted (threshold : ℤ) (k : ℕ) (cb : CircuitBreaker) : Type 0 where
  pub limit : cb.threshold ≡ threshold
  pub is_closed : cb.state ≡ closed
  pub count : cb.failure_count ≡ pos k

success-Counted :
    (threshold : ℤ) (k : ℕ) (now later : ℤ) (cb : CircuitBreaker)
    → Counted threshold k cb
    → Counted threshold k (execute now none later cb).0
unfolding execute
success-Counted threshold k now later cb c = ground arith

failure-Counted :
    (threshold : ℤ) (k : ℕ) (now later : ℤ) (err : String) (cb : CircuitBreaker)
    → k < 9223372036854775807
    → pos (suc k) <ℤ threshold
    → Counted threshold k cb
    → Counted threshold (suc k) (execute now (some err) later cb).0
unfolding execute
failure-Counted threshold k now later err cb small below c =
    ground (arith, incr-pos k, ap incr c.count)

trip :
    (threshold : ℤ) (k : ℕ) (now later : ℤ) (err : String) (cb : CircuitBreaker)
    → k < 9223372036854775807
    → threshold ≤ℤ pos (suc k)
    → Counted threshold k cb
    → (execute now (some err) later cb).0.state ≡ open_state
unfolding execute
trip threshold k now later err cb small reached c = ground (arith, incr-pos k, ap incr c.count)

abbrev Keeps : ℤ → ℕ → List Call → Type 0
Keeps threshold n cs =
    (k : ℕ) (cb : CircuitBreaker)
    → k + n < 9223372036854775808
    → pos (k + n) <ℤ threshold
    → Counted threshold k cb
    → Counted threshold (k + n) (calls cb cs)

Keeps-cons :
    (threshold : ℤ) (n : ℕ) (cs : List Call) (result : Option String) (now later : ℤ)
    → Keeps threshold n cs
    → (k : ℕ) (cb : CircuitBreaker) → k + count_failure result n < 9223372036854775808
    → pos (k + count_failure result n) <ℤ threshold
    → Counted threshold k cb
    → Counted threshold (k + count_failure result n) (calls (execute now result later cb).0 cs)
Keeps-cons threshold n cs none now later rest k cb small below c =
    rest k (execute now none later cb).0 small below (success-Counted threshold k now later cb c)
Keeps-cons threshold n cs (some err) now later rest k cb small below c =
    let e : suc k + n ≡ k + suc n = omega arith in
    rw (← e) (
      rest (suc k) (execute now (some err) later cb).0 (omega arith) (omega arith)
        (failure-Counted threshold k now later err cb (omega arith) (omega arith) c))

calls-Counted : (threshold : ℤ) (cs : List Call) → Keeps threshold (failures cs) cs
unfolding calls
calls-Counted threshold [] k cb small below c = let e : k + 0 ≡ k = omega arith in rw e c
calls-Counted threshold (c ∷ cs) k cb small below h =
    Keeps-cons threshold (failures cs) cs c.result c.now c.later (calls-Counted threshold cs) k cb
      small below h

new-Counted : (threshold timeout : ℤ) → Counted threshold 0 (new threshold timeout)
unfolding new
new-Counted threshold timeout = ground arith

-- A new breaker stays closed as long as fewer calls than the threshold have failed, and counts
-- those failures, and no success in between takes one away; the failure that reaches the threshold
-- opens it.
pub closed_counts :
    (threshold timeout : ℤ) (cs : List Call) (now later : ℤ) (err : String)
    → failures cs < 9223372036854775807
    → pos (failures cs) <ℤ threshold
    → Counted threshold (failures cs) (calls (new threshold timeout) cs)
      × (threshold ≤ℤ pos (suc (failures cs))
          → (execute now (some err) later (calls (new threshold timeout) cs)).0.state ≡ open_state)
closed_counts threshold timeout cs now later err small below =
    let e : 0 + failures cs ≡ failures cs = omega arith in
    let c = rw e at (
      calls-Counted threshold cs 0 (new threshold timeout) (omega arith) (ground arith)
        (new-Counted threshold timeout)) in
    (c, λ reached. trip threshold (failures cs) now later err _ small reached c)
