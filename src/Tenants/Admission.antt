-- ===== src/Tenants/Admission.antt =====
-- Which queries the tenant engine admits.
use universal_database_proxy.Prelude.{
  true, false, String, Option, none, some, ◌≡◌, refl, arith, if◌then◌else◌, ◌==◌, string_eq, eq_iff,
  Bool-cases, Option-cases, inl, inr,
}
use universal_database_proxy.Prelude.Int.{ℤ}
use universal_database_proxy.GoMap.{lookup}
use universal_database_proxy.Types.{QueryContext, EngineResult}
use universal_database_proxy.Tenants.{
  policy_of, TenantEngine, Tenant, TenantStatus, tenant_active, tenant_suspended, tenant_archived,
  other_status, TenantQuota, AccessPolicy,
}
use universal_database_proxy.Tenants.Checks.{
  QuotaCheck, allowed, exceeded, is_active, owns_database, check_quota, policy_permits,
  expected_rows,
}
use universal_database_proxy.Tenants.Steps.{Response, admit, after_quota, refusal, quota_refusal}
use universal_database_proxy.Tenants.Policy.{
  Permits, validate-Permits, Permits-validate, WithinQuota, check_limits-WithinQuota,
  WithinQuota-check_limits,
}

-- The database that a tenant may use: its own, the catalogue, or none named.
pub data Reaches (database : String) (tenant : Tenant) : Type 0 where
  unnamed : database ≡ "" → Reaches database tenant
  own : database ≡ tenant.database → Reaches database tenant
  catalogue : database ≡ "information_schema" → Reaches database tenant

-- The tenant that a query is for may make it.
pub record IsAdmissible (qc : QueryContext) (id : String) (e : TenantEngine) : Type 0 where
  pub active : (tenant : Tenant) → lookup id e.tenants ≡ some tenant → tenant.status ≡ tenant_active
  pub known : (lookup id e.tenants ≡ none) → id ≡ "default"
  pub isolated :
      e.config.strict_isolation ≡ true
      → (tenant : Tenant) × (lookup id e.tenants ≡ some tenant) × Reaches qc.database tenant
  pub within :
      e.config.quota_enforcement ≡ true
      → (q : TenantQuota) → lookup id e.quotas ≡ some q
      → WithinQuota e.config.row_limit_enabled (expected_rows qc) q
  pub permitted : (policy : AccessPolicy) → policy_of id e ≡ some policy → Permits qc policy

pub is_active-eq : (s : TenantStatus) → is_active s ≡ true → s ≡ tenant_active
is_active-eq tenant_active h = refl
is_active-eq tenant_suspended h = absurd (ground (arith, h))
is_active-eq tenant_archived h = absurd (ground (arith, h))
is_active-eq (other_status n) h = absurd (ground (arith, h))

pub owns_database-Reaches :
    (database : String) (o : Option Tenant)
    → owns_database database o ≡ true
    → (tenant : Tenant) × (o ≡ some tenant) × Reaches database tenant
owns_database-Reaches database none h = absurd (ground (arith, h))
owns_database-Reaches database (some t) h = elim (Bool-cases (database == "")) [
  | inl e ↦ (t, refl, unnamed ((eq_iff database "").0 e))
  | inr n ↦ elim (Bool-cases (database == t.database)) [
    | inl e ↦ (t, refl, own ((eq_iff database t.database).0 e))
    | inr m ↦
        (t, refl, catalogue ((eq_iff database "information_schema").0 (ground (arith, h, n, m))))
  ]
]

pub Reaches-owns_database :
    (database : String) (t : Tenant) → Reaches database t → owns_database database (some t) ≡ true
Reaches-owns_database database t (unnamed e) = ground (arith, (eq_iff database "").1 e)
Reaches-owns_database database t (own e) = ground (arith, (eq_iff database t.database).1 e)
Reaches-owns_database database t (catalogue e) =
    ground (arith, (eq_iff database "information_schema").1 e)

-- How `Process` ends for a query of an enabled engine.
pub data Verdict (now : ℤ) (qc : QueryContext) (id : String) (e : TenantEngine)
    : Response → Type 0 where
  admitted : IsAdmissible qc id e → Verdict now qc id e (admit now id qc e)
  refused :
      (res : EngineResult)
      → res.continues ≡ false
      → (IsAdmissible qc id e → ⊥)
      → Verdict now qc id e (e, qc, res)

-- The tests after the first two.
pub record PassedFirst (qc : QueryContext) (id : String) (e : TenantEngine) : Type 0 where
  pub active : (tenant : Tenant) → lookup id e.tenants ≡ some tenant → tenant.status ≡ tenant_active
  pub known : (lookup id e.tenants ≡ none) → id ≡ "default"
  pub isolated :
      e.config.strict_isolation ≡ true
      → (tenant : Tenant) × (lookup id e.tenants ≡ some tenant) × Reaches qc.database tenant

abbrev pub quota_of : QueryContext → String → TenantEngine → QuotaCheck
quota_of qc id e = if e.config.quota_enforcement then check_quota id qc e else allowed

quota_of-within :
    (qc : QueryContext) (id : String) (e : TenantEngine)
    → quota_of qc id e ≡ allowed
    → e.config.quota_enforcement ≡ true
    → (q : TenantQuota) → lookup id e.quotas ≡ some q
    → WithinQuota e.config.row_limit_enabled (expected_rows qc) q
unfolding check_quota
quota_of-within qc id e h on q there =
    check_limits-WithinQuota e.config.row_limit_enabled (expected_rows qc) q
      (ground (arith, h, on, there))

within-quota_of :
    (qc : QueryContext) (id : String) (e : TenantEngine)
    → IsAdmissible qc id e
    → quota_of qc id e ≡ allowed
unfolding check_quota
within-quota_of qc id e a = elim (Bool-cases e.config.quota_enforcement) [
  | inr off ↦ ground (arith, off)
  | inl on ↦ elim (Option-cases (lookup id e.quotas)) [
    | inl n ↦ ground (arith, on, n)
    | inr (q, there) ↦ ground (
      arith,
      on,
      there,
      WithinQuota-check_limits e.config.row_limit_enabled (expected_rows qc) q
          (a.within on q there),
    )
  ]
]

policy_permits-Permits :
    (qc : QueryContext) (o : Option AccessPolicy)
    → policy_permits qc o ≡ true
    → (policy : AccessPolicy) → o ≡ some policy
    → Permits qc policy
policy_permits-Permits qc none h policy there = absurd (ground (arith, there))
policy_permits-Permits qc (some p) h policy there =
    validate-Permits qc policy (ground (arith, h, there))

permitted-policy_permits :
    (qc : QueryContext) (o : Option AccessPolicy)
    → ((policy : AccessPolicy) → o ≡ some policy → Permits qc policy)
    → policy_permits qc o ≡ true
permitted-policy_permits qc none h = refl
permitted-policy_permits qc (some p) h = Permits-validate qc p (h p refl)

pub after_quota-Verdict :
    (now : ℤ) (qc : QueryContext) (id : String) (e : TenantEngine) (check : QuotaCheck)
    → PassedFirst qc id e
    → quota_of qc id e ≡ check
    → Verdict now qc id e (after_quota check now id qc e)
after_quota-Verdict now qc id e (exceeded kind current limit) first h =
    refused (quota_refusal kind current limit id) refl
      (λ a. ground (arith, h, within-quota_of qc id e a))
after_quota-Verdict now qc id e allowed first h =
    elim (Bool-cases (policy_permits qc (policy_of id e))) [
      | inl ok ↦ rw ok (
          admitted (record {
            active = first.active;
            known = first.known;
            isolated = first.isolated;
            within = quota_of-within qc id e h;
            permitted = policy_permits-Permits qc (policy_of id e) ok;
          }))
      | inr bad ↦ rw bad (
          refused (refusal "access denied by policy" "policy_denied" id) refl
            (λ a. ground (arith, bad, permitted-policy_permits qc (policy_of id e) a.permitted)))
    ]
