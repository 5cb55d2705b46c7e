-- ===== src/Tenants/Enforced.antt =====
-- What the quotas of the tenant engine refuse.
use mathlib.Core.Path.{subst}
use universal_database_proxy.Prelude.{
  Bool, true, String, Option, some, ◌≡◌, ◌↔◌, refl, sym, ◌∙◌, arith, string_eq, Bool-cases, inl,
  inr,
}
use universal_database_proxy.Prelude.Int.{
  ℤ, pos, ◌+ℤ◌, ◌≤ℤ◌, ◌<ℤ◌, wrap64, wrap64-InInt64, InInt64, +ℤ_parts, eq_of_parts, ltb_ℤ,
}
use universal_database_proxy.GoMap.{lookup}
use universal_database_proxy.Types.{QueryContext}
use universal_database_proxy.Tenants.{MultiTenantConfig, TenantEngine, TenantQuota}
use universal_database_proxy.Tenants.Checks.{allowed, check_limits, check_quota, expected_rows}
use universal_database_proxy.Tenants.Policy.{
  WithinQuota, check_limits-WithinQuota, WithinQuota-check_limits,
}
use universal_database_proxy.Tenants.Reachable.{Reachable}
use universal_database_proxy.Tenants.Kept.{reachable-IsSound}

zero_plus : (rows : ℤ) → InInt64 rows → wrap64 (pos 0 +ℤ rows) ≡ rows
zero_plus rows small =
    let same : pos 0 +ℤ rows ≡ rows =
      eq_of_parts (pos 0 +ℤ rows) rows (omega (arith, +ℤ_parts (pos 0) rows)) in
    rw same (wrap64-InInt64 rows small)

check_quota-limits :
    (id : String) (qc : QueryContext) (e : TenantEngine) (q : TenantQuota)
    → lookup id e.quotas ≡ some q
    → check_quota id qc e ≡ check_limits e.config.row_limit_enabled (expected_rows qc) q
unfolding check_quota
check_quota-limits id qc e q there = rw (check_quota, there) refl

within_rows :
    (on : Bool) (rows : ℤ) (q : TenantQuota)
    → on ≡ true
    → pos 0 <ℤ q.limits.daily_row_limit
    → wrap64 (q.current_rows +ℤ rows) ≡ rows
    → WithinQuota on rows q
    → rows ≤ℤ q.limits.daily_row_limit
within_rows on rows q limited p sum w = elim (Bool-cases (ltb_ℤ (pos 0) rows)) [
  | inl some_rows ↦
      subst (λ n. n ≤ℤ q.limits.daily_row_limit) sum
        (w.row_count limited (ground (arith, some_rows)) p)
  | inr no_rows ↦ ground (arith, no_rows, p)
]

-- A quota of an engine that was reached by its operations never refuses a query, whatever the daily
-- query limit, unless row limits are on and the rows that this query alone announces are more than
-- a positive daily row limit. The announced rows fit in 64 bits.
pub check_quota_iff :
    (config : Option MultiTenantConfig) (e : TenantEngine) (id : String) (qc : QueryContext)
    (q : TenantQuota)
    → Reachable config e
    → lookup id e.quotas ≡ some q
    → InInt64 (expected_rows qc)
    → (check_quota id qc e ≡ allowed) ↔ (
        (e.config.row_limit_enabled ≡ true)
        → pos 0 <ℤ q.limits.daily_row_limit
        → expected_rows qc ≤ℤ q.limits.daily_row_limit)
check_quota_iff config e id qc q run there small =
    let u = (reachable-IsSound config e run).uncounted id q there in
    let on = e.config.row_limit_enabled in
    let rows = expected_rows qc in
    let step = check_quota-limits id qc e q there in
    let sum : wrap64 (q.current_rows +ℤ rows) ≡ rows = rw u.no_rows (zero_plus rows small) in
    (
      λ h limited p.
          within_rows on rows q limited p sum (check_limits-WithinQuota on rows q (sym step ∙ h)),
      λ h.
          step
          ∙ WithinQuota-check_limits on rows q (record {
            queries = λ p. rw u.no_queries p;
            row_count = λ limited some_rows p. rw sum (h limited p);
          }),
    )
