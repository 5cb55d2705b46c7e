-- ===== src/Tenants/Outcomes.antt =====
-- How `Process` of the tenant engine ends.
use universal_database_proxy.Prelude.{
  Bool, true, false, not, ◌&&◌, ◌||◌, String, none, some, ◌≡◌, ◌≢◌, ◌⊎◌, refl, arith, ◌==◌,
  string_eq, eq_iff, Bool-cases, Option-cases, inl, inr,
}
use universal_database_proxy.Prelude.Result.{done, ◌>>=◌}
use universal_database_proxy.GoMap.{lookup}
use universal_database_proxy.Types.{QueryContext}
use universal_database_proxy.Tenants.{TenantEngine, Tenant, Clock}
use universal_database_proxy.Tenants.Checks.{
  is_active, extract_tenant_id, is_tenant_active, validate_tenant_access,
}
use universal_database_proxy.Tenants.Steps.{
  Response, check_tenant, process, refusal, inactive_message,
}
use universal_database_proxy.Tenants.Admission.{
  IsAdmissible, Verdict, refused, is_active-eq, owns_database-Reaches, Reaches-owns_database,
  quota_of, after_quota-Verdict,
}

-- What `isTenantActive` says, by the tenant's entry.
active-inv :
    (clock : Clock) (id : String) (e : TenantEngine) (b : Bool)
    → is_tenant_active clock id e ≡ done (e, b)
    → ((tenant : Tenant) → lookup id e.tenants ≡ some tenant → is_active tenant.status ≡ b)
      × (lookup id e.tenants ≡ none → (id == "default") ≡ b)
unfolding is_tenant_active
active-inv clock id e b h = (λ t there. ground (arith, h, there), λ gone. ground (arith, h, gone))

inactive-refused :
    (clock : Clock) (qc : QueryContext) (id : String) (e : TenantEngine)
    → is_tenant_active clock id e ≡ done (e, false)
    → IsAdmissible qc id e
    → ⊥
inactive-refused clock qc id e h a =
    let inv = active-inv clock id e false h in
    elim (Option-cases (lookup id e.tenants)) [
      | inl gone ↦ ground (arith, inv.1 gone, (eq_iff id "default").1 (a.known gone))
      | inr (t, there) ↦ ground (arith, inv.0 t there, a.active t there)
    ]

crossing-refused :
    (qc : QueryContext) (id : String) (e : TenantEngine)
    → e.config.strict_isolation && not (validate_tenant_access qc id e) ≡ true
    → IsAdmissible qc id e
    → ⊥
unfolding validate_tenant_access
crossing-refused qc id e h a =
    let (t, there, reaches) = a.isolated (ground (arith, h)) in
    ground (arith, h, there, Reaches-owns_database qc.database t reaches)

check_tenant-Verdict :
    (clock : Clock) (qc : QueryContext) (id : String) (e : TenantEngine) (active : Bool)
    → is_tenant_active clock id e ≡ done (e, active)
    → Verdict clock.now qc id e (check_tenant clock.now id qc e active)
unfolding check_tenant validate_tenant_access
check_tenant-Verdict clock qc id e false h =
    refused (refusal (inactive_message id) "tenant_inactive" id) refl
      (inactive-refused clock qc id e h)
check_tenant-Verdict clock qc id e true h =
    let inv = active-inv clock id e true h in
    elim (Bool-cases (e.config.strict_isolation && not (validate_tenant_access qc id e))) [
      | inl crossing ↦ rw crossing (
          refused (refusal "cross-tenant access forbidden" "cross_tenant_blocked" id) refl
            (λ a. crossing-refused qc id e crossing a))
      | inr inside ↦ rw inside (
          after_quota-Verdict clock.now qc id e (quota_of qc id e)
            (record {
              active = λ t there. is_active-eq t.status (inv.0 t there);
              known = λ gone. (eq_iff id "default").0 (inv.1 gone);
              isolated = λ strict.
                  owns_database-Reaches qc.database (lookup id e.tenants)
                    (ground (arith, inside, strict));
            })
            refl)
    ]

is_tenant_active-done :
    (clock : Clock) (id : String) (e : TenantEngine)
    → (e.config.auto_provisioning ≡ false) ⊎ (lookup id e.tenants ≢ none)
    → (b : Bool) × (is_tenant_active clock id e ≡ done (e, b))
unfolding is_tenant_active
is_tenant_active-done clock id e known = elim (Option-cases (lookup id e.tenants)) [
  | inr (t, there) ↦ (is_active t.status, ground (arith, there))
  | inl gone ↦ (id == "default" || e.config.auto_provisioning, ground (arith, gone, known))
]

process-check :
    (clock : Clock) (qc : QueryContext) (e : TenantEngine) (active : Bool)
    → e.config.enabled ≡ true
    → is_tenant_active clock (extract_tenant_id qc) e ≡ done (e, active)
    → process clock qc e ≡ done (check_tenant clock.now (extract_tenant_id qc) qc e active)
unfolding process
process-check clock qc e active enabled found = ground (arith, enabled, found)

-- For an enabled engine, a query of a tenant that is registered, or where tenants are not
-- provisioned automatically, gets an answer. It is admitted, with its filters applied and counted
-- for the tenant, exactly if the tenant is active, or is the unregistered default tenant; under
-- strict isolation, the tenant is registered and the query is for its database; the quota, where
-- quotas are enforced, has room; and the policy permits the query. A refusal leaves engine and query
-- alone.
pub process-Verdict :
    (clock : Clock) (qc : QueryContext) (e : TenantEngine)
    → e.config.enabled ≡ true
    → (e.config.auto_provisioning ≡ false) ⊎ (lookup (extract_tenant_id qc) e.tenants ≢ none)
    → (r : Response) × (process clock qc e ≡ done r)
      × Verdict clock.now qc (extract_tenant_id qc) e r
process-Verdict clock qc e enabled known =
    let id = extract_tenant_id qc in
    let (active, found) = is_tenant_active-done clock id e known in
    (
      check_tenant clock.now id qc e active,
      process-check clock qc e active enabled found,
      check_tenant-Verdict clock qc id e active found,
    )

-- An answer leaves the engine as it is.
pub is_tenant_active-same :
    (clock : Clock) (id : String) (e : TenantEngine) (a : TenantEngine × Bool)
    → is_tenant_active clock id e ≡ done a
    → a.0 ≡ e
unfolding is_tenant_active
is_tenant_active-same clock id e a h = elim (Option-cases (lookup id e.tenants)) [
  | inr (t, there) ↦ ground (arith, h, there)
  | inl gone ↦ ground (arith, h, gone)
]

pub process-tenant :
    (clock : Clock) (qc : QueryContext) (e : TenantEngine)
    → e.config.enabled ≡ true
    → process clock qc e ≡ (
        is_tenant_active clock (extract_tenant_id qc) e >>= λ a.
        done (check_tenant clock.now (extract_tenant_id qc) qc a.0 a.1))
unfolding process
process-tenant clock qc e enabled = rw enabled
