-- ===== src/Tenants/Steps.antt =====
-- backend/internal/engines/multitenant_isolation_engine.go: `Process` with its checks in the order
-- of the source, the operations on tenants, quotas and policies, and the hourly reset.
use universal_database_proxy.Prelude.{
  ℕ, nat_eq, Bool, true, false, not, ◌&&◌, String, Option, none, some, List, [], ◌∷◌, if◌then◌else◌,
  string_eq, ◌==◌, length,
}
use universal_database_proxy.Prelude.Int.{ℤ, pos, ltb_ℤ, leb_ℤ}
use universal_database_proxy.Prelude.Result.{Go, done, ◌>>=◌}
use universal_database_proxy.GoMap.{GoMap, lookup, insert, range}
use universal_database_proxy.Types.{
  bool_value, string_value, int64_value, QueryContext, EngineResult, continue_result, make_meta,
}
use universal_database_proxy.Tenants.{
  policy_of, TenantEngine, Tenant, TenantQuota, QuotaConfig, AccessPolicy, Clock, TenantStatus,
  tenant_active, tenant_suspended,
}
use universal_database_proxy.Tenants.Checks.{
  QuotaCheck, allowed, exceeded, extract_tenant_id, is_tenant_active, validate_tenant_access,
  check_quota, policy_permits, filters_of, filter_query, track_usage,
}
use universal_database_proxy.Tenants.Resources.{init_tenant_resources}

-- `types.EngineResult{Continue: false, …}` with the reason and the tenant in its metadata
abbrev pub refusal : String → String → String → EngineResult
refusal message reason id = record {
  continues = false;
  modified = false;
  error = some message;
  metadata = some (("reason", string_value reason) ∷ ("tenant_id", string_value id) ∷ []);
}

abbrev pub quota_refusal : String → ℤ → ℤ → String → EngineResult
quota_refusal kind current limit id = record {
  continues = false;
  modified = false;
  error = some (
      if kind == "daily_queries"
      then "quota exceeded: daily query limit exceeded"
      else "quota exceeded: daily row limit exceeded");
  metadata = some (
      ("reason", string_value "quota_exceeded")
      ∷ ("quota_type", string_value kind)
      ∷ ("current", int64_value current)
      ∷ ("limit", int64_value limit)
      ∷ ("tenant_id", string_value id)
      ∷ []);
}

abbrev pub Response : Type 0
Response = TenantEngine × QueryContext × EngineResult

-- The end of `Process`: row filters, usage and metadata of a query that passed every check
unfoldable pub admit : ℤ → String → QueryContext → TenantEngine → Response
admit now id qc e =
    let filtered = record qc {
      raw_query = filter_query (filters_of (policy_of id e)) qc.raw_query;
    } in
    (
      track_usage now id filtered e,
      record filtered {
        metadata = some (
            insert "multitenant_enabled" (bool_value true)
              (insert "tenant_id" (string_value id) (make_meta qc.metadata)));
      },
      continue_result,
    )

abbrev pub after_quota : QuotaCheck → ℤ → String → QueryContext → TenantEngine → Response
after_quota (exceeded kind current limit) now id qc e = (e, qc, quota_refusal kind current limit id)
after_quota allowed now id qc e =
    if policy_permits qc (policy_of id e)
    then admit now id qc e
    else (e, qc, refusal "access denied by policy" "policy_denied" id)

abbrev pub inactive_message : String → String
inactive_message id = Prim.Native.String.◌++◌ "tenant not found or suspended: " id

-- The checks of `Process` after the tenant was found active or not
unfoldable pub check_tenant : ℤ → String → QueryContext → TenantEngine → Bool → Response
check_tenant now id qc e active =
    if not active
    then (e, qc, refusal (inactive_message id) "tenant_inactive" id)
    else if e.config.strict_isolation && not (validate_tenant_access qc id e)
    then (e, qc, refusal "cross-tenant access forbidden" "cross_tenant_blocked" id)
    else after_quota (if e.config.quota_enforcement then check_quota id qc e else allowed) now id qc
        e

-- `Process`
unfoldable pub process : Clock → QueryContext → TenantEngine → Go Response
process clock qc e =
    if e.config.enabled
    then (is_tenant_active clock (extract_tenant_id qc) e >>= λ a.
        done (check_tenant clock.now (extract_tenant_id qc) qc a.0 a.1))
    else done (e, qc, continue_result)

pub data TenantError : Type 0 where
  maximum_tenants tenant_not_found : TenantError

abbrev pub Outcome : Type 0
Outcome = TenantEngine × Option TenantError

-- How `RegisterTenant` ends, and the engine that it leaves: a panic comes after the tenant is
-- stored, and releases the lock.
pub data Registration : Type 0 where
  accepted : Registration
  rejected : TenantError → Registration
  panicked : Registration

abbrev pub registration : TenantEngine → Option TenantEngine → TenantEngine × Registration
registration stored none = (stored, panicked)
registration stored (some e) = (e, accepted)

-- `RegisterTenant`
unfoldable pub register_tenant : Clock → Tenant → TenantEngine → TenantEngine × Registration
register_tenant clock tenant e =
    if leb_ℤ e.config.max_tenants (pos (length e.tenants))
    then (e, rejected maximum_tenants)
    else let stored = record e { tenants = insert tenant.tenant_id tenant e.tenants } in
      registration stored
        (init_tenant_resources clock tenant.tenant_id e.config.default_quota stored)

abbrev pub set_status : TenantStatus → String → Option Tenant → TenantEngine → Outcome
set_status status id none e = (e, some tenant_not_found)
set_status status id (some tenant) e =
    (record e { tenants = insert id (record tenant { status = status }) e.tenants }, none)

-- `SuspendTenant` and `ResumeTenant`
unfoldable pub suspend_tenant : String → TenantEngine → Outcome
suspend_tenant id e = set_status tenant_suspended id (lookup id e.tenants) e

unfoldable pub resume_tenant : String → TenantEngine → Outcome
resume_tenant id e = set_status tenant_active id (lookup id e.tenants) e

-- `SetQuota` copies five of the seven limits.
abbrev pub with_limits : QuotaConfig → TenantQuota → TenantQuota
with_limits limits q = record q {
  limits = record limits {
    query_timeout = q.limits.query_timeout;
    connection_limit = q.limits.connection_limit;
  };
}

abbrev pub change_quota : QuotaConfig → String → Option TenantQuota → TenantEngine → Outcome
change_quota limits id none e = (e, some tenant_not_found)
change_quota limits id (some q) e =
    (record e { quotas = insert id (with_limits limits q) e.quotas }, none)

unfoldable pub set_quota : String → QuotaConfig → TenantEngine → Outcome
set_quota id limits e = change_quota limits id (lookup id e.quotas) e

-- `SetAccessPolicy`
-- The caller passes the address of a policy, at which `policy` stands.
unfoldable pub set_access_policy : String → ℕ → AccessPolicy → TenantEngine → TenantEngine
set_access_policy id address policy e = record e {
  access_policies = insert id address e.access_policies;
  policies = insert address (record policy { tenant_id = id }) e.policies;
}

-- One tick of `quotaResetLoop`, whose two tests follow one another
abbrev pub reset_daily : Clock → TenantQuota → TenantQuota
reset_daily clock q =
    if ltb_ℤ q.queries_reset_at clock.now
    then record q {
      current_queries = pos 0;
      current_rows = pos 0;
      current_bytes = pos 0;
      queries_reset_at = clock.midnight;
      rows_reset_at = clock.midnight;
      bytes_reset_at = clock.midnight;
    }
    else q

abbrev pub reset_monthly : Clock → TenantQuota → TenantQuota
reset_monthly clock q =
    if ltb_ℤ q.bytes_reset_at clock.now
    then record q { current_bytes = pos 0; bytes_reset_at = clock.first_of_month }
    else q

unfoldable pub reset_each :
    Clock → List (String × TenantQuota) → GoMap String TenantQuota → GoMap String TenantQuota
reset_each clock [] quotas = quotas
reset_each clock ((id, q) ∷ rest) quotas =
    reset_each clock rest (insert id (reset_monthly clock (reset_daily clock q)) quotas)

unfoldable pub reset_quotas : Clock → List String → TenantEngine → TenantEngine
reset_quotas clock order e = record e { quotas = reset_each clock (range order e.quotas) e.quotas }
