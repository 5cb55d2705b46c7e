-- ===== src/RateLimit/Outcomes.antt =====
-- How `Process` of the rate limit engine ends.
use mathlib.Core.Path.{subst}
use universal_database_proxy.Prelude.{
  Bool, true, false, String, ◌≡◌, refl, sym, ◌∙◌, arith, if◌then◌else◌, Bool-cases, inl, inr,
  length, some, Option-cases, string_eq,
}
use universal_database_proxy.GoMap.{lookup}
use universal_database_proxy.Prelude.Int.{ℤ, pos, leb_ℤ}
use universal_database_proxy.Prelude.Result.{done}
use universal_database_proxy.Types.{QueryContext, continue_result}
use universal_database_proxy.RateLimit.{
  FloatLib, ClientState, CircuitState, circuit_closed, circuit_open, circuit_half_open,
  RateLimitEngine, get_client_id, longer_ago,
}
use universal_database_proxy.RateLimit.Steps.{
  Response, client_at, refuse_over_limit, admit, limit_client, skips_limit, after_breaker,
  breaker_refusal, half_opened, check_breaker, process,
}

-- Two engines with the same settings and clients.
pub record SameClients (e e' : RateLimitEngine) : Type 0 where
  pub config : e'.config ≡ e.config
  pub clients : e'.clients ≡ e.clients

abbrev pub is_over : ℤ → String → RateLimitEngine → Bool
is_over now id e =
    let state = client_at now id e in leb_ℤ state.current_limit (pos (length state.requests))

pub data Outcome (lib : FloatLib) (now : ℤ) (qc : QueryContext) (e : RateLimitEngine)
    : Response → Type 0 where
  stopped : Outcome lib now qc e (e, qc, breaker_refusal)
  skipped :
      {e' : RateLimitEngine}
      → SameClients e e'
      → skips_limit (get_client_id qc) e ≡ true
      → Outcome lib now qc e (e', qc, continue_result)
  over_limit :
      {e' : RateLimitEngine}
      → SameClients e e'
      → is_over now (get_client_id qc) e' ≡ true
      → Outcome lib now qc e
          (refuse_over_limit lib now (get_client_id qc) (client_at now (get_client_id qc) e') qc e')
  admitted :
      {e' : RateLimitEngine}
      → SameClients e e'
      → is_over now (get_client_id qc) e' ≡ false
      → e.config.anomaly_detection ≡ false
      → Outcome lib now qc e
          (admit lib now (get_client_id qc) (client_at now (get_client_id qc) e') qc e')

limit_client-Outcome :
    (lib : FloatLib) (now : ℤ) (qc : QueryContext) (e e' : RateLimitEngine) (r : Response)
    → SameClients e e'
    → limit_client lib now (get_client_id qc) (client_at now (get_client_id qc) e') qc e' ≡ done r
    → Outcome lib now qc e r
unfolding limit_client
limit_client-Outcome lib now qc e e' r same h =
    let id = get_client_id qc in
    elim (Bool-cases (is_over now id e')) [
      | inl over ↦
          let result : refuse_over_limit lib now id (client_at now id e') qc e' ≡ r =
            ground (arith, h, over) in
          subst (Outcome lib now qc e) result (over_limit same over)
      | inr under ↦ elim (Bool-cases e'.config.anomaly_detection) [
        | inl on ↦ absurd (ground (arith, h, under, on))
        | inr off ↦
            let result : admit lib now id (client_at now id e') qc e' ≡ r =
              ground (arith, h, under, off) in
            subst (Outcome lib now qc e) result
              (admitted same under (ground (arith, off, same.config)))
      ]
    ]

after_breaker-Outcome :
    (lib : FloatLib) (now : ℤ) (qc : QueryContext) (e e' : RateLimitEngine) (r : Response)
    → SameClients e e'
    → after_breaker lib now qc e' ≡ done r
    → Outcome lib now qc e r
after_breaker-Outcome lib now qc e e' r same h =
    elim (Bool-cases (skips_limit (get_client_id qc) e')) [
      | inl skips ↦
          let result : (e', qc, continue_result) ≡ r = ground (arith, h, skips) in
          subst (Outcome lib now qc e) result
            (skipped same (ground (arith, skips, same.config, same.clients)))
      | inr counts ↦ limit_client-Outcome lib now qc e e' r same (rw (counts, if◌then◌else◌) at h)
    ]

check_breaker-Outcome :
    (s : CircuitState) (lib : FloatLib) (now : ℤ) (qc : QueryContext) (e : RateLimitEngine)
    (r : Response)
    → check_breaker s lib now qc e ≡ done r
    → Outcome lib now qc e r
check_breaker-Outcome circuit_closed lib now qc e r h =
    after_breaker-Outcome lib now qc e e r (record { config = refl; clients = refl }) h
check_breaker-Outcome circuit_half_open lib now qc e r h =
    after_breaker-Outcome lib now qc e e r (record { config = refl; clients = refl }) h
check_breaker-Outcome circuit_open lib now qc e r h =
    elim (Bool-cases (longer_ago now e.circuit_breaker.last_failure e.circuit_breaker.timeout)) [
      | inl again ↦
          after_breaker-Outcome lib now qc e (half_opened e) r
            (record { config = refl; clients = refl }) (rw (again, if◌then◌else◌) at h)
      | inr early ↦
          let result : (e, qc, breaker_refusal) ≡ r = ground (arith, h, early) in
          subst (Outcome lib now qc e) result stopped
    ]

process-check :
    (lib : FloatLib) (now : ℤ) (qc : QueryContext) (e : RateLimitEngine)
    → e.config.enabled ≡ true
    → process lib now qc e ≡ check_breaker e.circuit_breaker.state lib now qc e
unfolding process
process-check lib now qc e enabled = rw enabled

pub process-Outcome :
    (lib : FloatLib) (now : ℤ) (qc : QueryContext) (e : RateLimitEngine) (r : Response)
    → e.config.enabled ≡ true
    → process lib now qc e ≡ done r
    → Outcome lib now qc e r
process-Outcome lib now qc e r enabled h =
    check_breaker-Outcome e.circuit_breaker.state lib now qc e r
      (sym (process-check lib now qc e enabled) ∙ h)

passes-skips :
    (lib : FloatLib) (now : ℤ) (qc : QueryContext) (e : RateLimitEngine) (r : Response)
    → e.config.anomaly_detection ≡ true
    → r.2.continues ≡ true
    → Outcome lib now qc e r
    → skips_limit (get_client_id qc) e ≡ true
passes-skips lib now qc e _ on passes stopped = absurd (ground (arith, passes))
passes-skips lib now qc e _ on passes (skipped same skips) = skips
passes-skips lib now qc e _ on passes (over_limit same over) = absurd (ground (arith, passes))
passes-skips lib now qc e _ on passes (admitted same under off) = absurd (ground (arith, on, off))

-- The whitelist is on, and the client is registered and on it.
pub record IsTrusted (id : String) (e : RateLimitEngine) : Type 0 where
  pub state : ClientState
  pub checked : e.config.enable_ip_whitelist ≡ true
  pub known : lookup id e.clients ≡ some state
  pub listed : state.is_whitelisted ≡ true

skips_limit-IsTrusted :
    (id : String) (e : RateLimitEngine) → skips_limit id e ≡ true → IsTrusted id e
skips_limit-IsTrusted id e h = elim (Option-cases (lookup id e.clients)) [
  | inl unknown ↦ absurd (ground (arith, h, unknown))
  | inr (state, there) ↦ record {
    state = state;
    checked = ground (arith, h);
    known = there;
    listed = ground (arith, h, there);
  }
]

-- Where anomaly detection is on, the enabled engine lets a query pass only if the whitelist is on
-- and the query's client is registered and on it: for every other client within its limit, the
-- score asks for a lock that `Process` holds.
pub process_passes_whitelisted :
    (lib : FloatLib) (now : ℤ) (qc : QueryContext) (e : RateLimitEngine) (r : Response)
    → e.config.enabled ≡ true
    → e.config.anomaly_detection ≡ true
    → process lib now qc e ≡ done r
    → r.2.continues ≡ true
    → IsTrusted (get_client_id qc) e
process_passes_whitelisted lib now qc e r enabled on h passes =
    skips_limit-IsTrusted (get_client_id qc) e
      (passes-skips lib now qc e r on passes (process-Outcome lib now qc e r enabled h))
