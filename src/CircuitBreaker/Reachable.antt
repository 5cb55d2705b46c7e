-- ===== src/CircuitBreaker/Reachable.antt =====
-- The states that a circuit breaker reaches.
use Prim.Native.Nat.add
use universal_database_proxy.Prelude.{
  ℕ, zero, suc, ◌+◌, ap, ◌<◌, true, List, [], ◌∷◌, ◌≡◌, ◌≢◌, refl, arith, if◌then◌else◌,
}
use universal_database_proxy.Prelude.Int.{ℤ, pos, incr, incr-pos, leb_ℤ}
use universal_database_proxy.CircuitBreaker.{
  state_closed, state_open, state_half_open, CircuitBreaker, new, record_success, record_failure,
  allow_request,
}

-- What a caller reports.
pub data Report : Type 0 where
  success failure : Report

abbrev pub report : CircuitBreaker → Report → CircuitBreaker
report cb success = record_success cb
report cb failure = record_failure cb

pub reports : CircuitBreaker → List Report → CircuitBreaker
reports cb [] = cb
reports cb (r ∷ rs) = reports (report cb r) rs

-- What holds of every breaker that `NewCircuitBreaker` made.
pub record Inv (cb : CircuitBreaker) : Type 0 where
  pub no_time : cb.last_failure ≡ pos 0
  pub not_half : cb.state ≢ state_half_open

reports-Inv : (cb : CircuitBreaker) (rs : List Report) → Inv cb → Inv (reports cb rs)
unfolding reports record_success record_failure
reports-Inv cb [] h = h
reports-Inv cb (success ∷ rs) h =
    reports-Inv (record_success cb) rs (record { no_time = h.no_time; not_half = ground arith })
reports-Inv cb (failure ∷ rs) h = reports-Inv (record_failure cb) rs (ground arith)

-- Whatever was reported to a breaker since it was made, it is never half-open, and it lets a request
-- through exactly if it is closed: the open state has no way out by time.
pub allow_request_iff_closed :
    (threshold timeout : ℤ) (rs : List Report)
    → let cb = reports (new threshold timeout) rs in
      (cb.state ≢ state_half_open)
      × (allow_request cb ≡ true → cb.state ≡ state_closed)
      × (cb.state ≡ state_closed → allow_request cb ≡ true)
unfolding new allow_request
allow_request_iff_closed threshold timeout rs =
    let inv = reports-Inv (new threshold timeout) rs (ground arith) in
    (inv.not_half, (λ h. ground (arith, inv.no_time, inv.not_half)), (λ h. ground arith))

-- Failures in a row.
pub failures_only : ℕ → List Report
failures_only zero = []
failures_only (suc n) = failure ∷ failures_only n

-- The failures in a row are counted, and decide the state.
record Counts (threshold : ℤ) (k : ℕ) (cb : CircuitBreaker) : Type 0 where
  limit : cb.threshold ≡ threshold
  count : cb.failures ≡ pos k
  decides : cb.state ≡ (if leb_ℤ threshold (pos k) then state_open else state_closed)

Counts-step :
    (threshold : ℤ) (k : ℕ) (cb : CircuitBreaker)
    → k < 9223372036854775807
    → Counts threshold k cb
    → Counts threshold (suc k) (record_failure cb)
unfolding record_failure
Counts-step threshold k cb small c = ground (arith, incr-pos k, ap incr c.count)

Counts-failures :
    (threshold : ℤ) (n k : ℕ) (cb : CircuitBreaker)
    → n + k < 9223372036854775808
    → Counts threshold k cb
    → Counts threshold (n + k) (reports cb (failures_only n))
unfolding reports failures_only
Counts-failures threshold zero k cb small c = rw add.zero c
Counts-failures threshold (suc n) k cb small c =
    let e : suc n + k ≡ n + suc k = omega arith in
    rw e (
      Counts-failures threshold n (suc k) (record_failure cb) (omega arith)
        (Counts-step threshold k cb (omega arith) c))

first_failure :
    (threshold : ℤ) (cb : CircuitBreaker)
    → cb.threshold ≡ threshold
    → cb.failures ≡ pos 0
    → cb.state ≡ state_closed
    → Counts threshold 1 (record_failure cb)
unfolding record_failure
first_failure threshold cb t f s = ground (arith, incr-pos 0, ap incr f)

reports-threshold :
    (cb : CircuitBreaker) (rs : List Report) → (reports cb rs).threshold ≡ cb.threshold
unfolding reports record_success record_failure
reports-threshold cb [] = refl
reports-threshold cb (success ∷ rs) = reports-threshold (record_success cb) rs
reports-threshold cb (failure ∷ rs) = ground (arith, reports-threshold (record_failure cb) rs)

-- After any history that ends in a success, and then `n + 1` failures in a row, the breaker is open
-- if `n + 1` reaches the threshold, and closed otherwise.
pub opens_at_threshold :
    (threshold timeout : ℤ) (rs : List Report) (n : ℕ)
    → n < 9223372036854775807
    → (reports (record_success (reports (new threshold timeout) rs)) (failures_only (suc n))).state
      ≡ (if leb_ℤ threshold (pos (suc n)) then state_open else state_closed)
unfolding reports failures_only
opens_at_threshold threshold timeout rs n small =
    let cb = record_success (reports (new threshold timeout) rs) in
    let first =
      first_failure threshold cb
        (unfold record_success new in reports-threshold (new threshold timeout) rs)
        (unfold record_success in refl) (unfold record_success in refl) in
    let e : n + 1 ≡ suc n = omega arith in
    rw e at ((Counts-failures threshold n 1 (record_failure cb) (omega arith) first).decides)
