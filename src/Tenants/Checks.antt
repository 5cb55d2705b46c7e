-- ===== src/Tenants/Checks.antt =====
-- backend/internal/engines/multitenant_isolation_engine.go: the checks of a query and the usage count.
use universal_database_proxy.Prelude.{
  Bool, true, false, not, ◌&&◌, ◌||◌, String, Option, none, some, List, [], ◌∷◌, ◌++◌,
  if◌then◌else◌, ◌==◌, string_eq, nat_eq, mem,
}
use universal_database_proxy.Prelude.Int.{ℤ, pos, negsuc, ◌+ℤ◌, ltb_ℤ, leb_ℤ, incr, wrap64}
use universal_database_proxy.Prelude.Locks.{RwMutex, unlocked, r_lock, lock}
use universal_database_proxy.Prelude.Result.{◌>>=◌, Go, done, panic}
use universal_database_proxy.GoMap.{lookup, insert}
use universal_database_proxy.Types.{
  Value, string_value, int64_value, QueryOperation, op_select, op_insert, op_update, op_delete,
  op_other, custom, QueryContext, lookup_meta,
}
use universal_database_proxy.Tenants.{
  TenantStatus, Tenant, TenantQuota, RowFilter, AccessPolicy, UsageTracker, TenantEngine, mentions,
  tenant_active, Clock,
}
use universal_database_proxy.Tenants.Resources.{fresh_usage, init_tenant_resources}

abbrev pub named_or : Option Value → String → String
named_or (some (string_value tid)) other = if tid == "" then other else tid
named_or _ other = other

-- `extractTenantID`
unfoldable pub extract_tenant_id : QueryContext → String
extract_tenant_id qc =
    named_or (lookup_meta "tenant_id" qc.metadata) (if qc.user == "" then "default" else qc.user)

abbrev pub is_active : TenantStatus → Bool
is_active tenant_active = true
is_active _ = false

-- `isTenantActive`, with the engine after it. To provision an unknown tenant it asks for the write
-- lock of the registry while it holds the read lock.
abbrev pub provisioned : Clock → String → Tenant
provisioned clock id = record {
  tenant_id = id;
  name = id;
  created_at = clock.now;
  status = tenant_active;
  database = id;
  schema = "";
}

abbrev pub or_panic : Option TenantEngine → Go (TenantEngine × Bool)
or_panic none = panic
or_panic (some e) = done (e, true)

abbrev pub provision : Clock → String → TenantEngine → RwMutex → Go (TenantEngine × Bool)
provision clock id e registry = lock registry >>= λ _. or_panic (
    init_tenant_resources clock id e.config.default_quota
      (record e { tenants = insert id (provisioned clock id) e.tenants }))

abbrev pub active_entry :
    Clock → String → TenantEngine → RwMutex → Option Tenant → Go (TenantEngine × Bool)
active_entry clock id e registry (some tenant) = done (e, is_active tenant.status)
active_entry clock id e registry none =
    if e.config.auto_provisioning && not (id == "default")
    then provision clock id e registry
    else done (e, id == "default" || e.config.auto_provisioning)

unfoldable pub is_tenant_active : Clock → String → TenantEngine → Go (TenantEngine × Bool)
is_tenant_active clock id e =
    r_lock unlocked >>= λ registry. active_entry clock id e registry (lookup id e.tenants)

-- `validateTenantAccess`
abbrev pub owns_database : String → Option Tenant → Bool
owns_database database none = false
owns_database database (some tenant) =
    database == "" || (database == tenant.database || database == "information_schema")

unfoldable pub validate_tenant_access : QueryContext → String → TenantEngine → Bool
validate_tenant_access qc id e = owns_database qc.database (lookup id e.tenants)

abbrev pub rows_or_zero : Option Value → ℤ
rows_or_zero (some (int64_value n)) = n
rows_or_zero _ = pos 0

abbrev pub expected_rows : QueryContext → ℤ
expected_rows qc = rows_or_zero (lookup_meta "expected_rows" qc.metadata)

pub data QuotaCheck : Type 0 where
  allowed : QuotaCheck
  exceeded : String → ℤ → ℤ → QuotaCheck

-- `checkQuota`
abbrev pub check_limits : Bool → ℤ → TenantQuota → QuotaCheck
check_limits row_limit rows q =
    if ltb_ℤ (pos 0) q.limits.daily_query_limit
      && leb_ℤ q.limits.daily_query_limit q.current_queries
    then exceeded "daily_queries" q.current_queries q.limits.daily_query_limit
    else if row_limit
        && (ltb_ℤ (pos 0) rows
            && (ltb_ℤ (pos 0) q.limits.daily_row_limit
                && ltb_ℤ q.limits.daily_row_limit (wrap64 (q.current_rows +ℤ rows))))
    then exceeded "daily_rows" q.current_rows q.limits.daily_row_limit
    else allowed

unfoldable pub check_quota : String → QueryContext → TenantEngine → QuotaCheck
check_quota id qc e = elim (lookup id e.quotas) [
  | none ↦ allowed
  | some q ↦ check_limits e.config.row_limit_enabled (expected_rows qc) q
]

-- `string(qc.Operation)`
abbrev pub command_of : QueryOperation → String
command_of op_select = "SELECT"
command_of op_insert = "INSERT"
command_of op_update = "UPDATE"
command_of op_delete = "DELETE"
command_of op_other = "OTHER"
command_of (custom s) = s

abbrev pub any_mentioned : String → List String → Bool
any_mentioned query [] = false
any_mentioned query (word ∷ words) = if mentions query word then true else any_mentioned query words

abbrev pub is_empty : List String → Bool
is_empty [] = true
is_empty (x ∷ xs) = false

-- `validateAccessPolicy`
unfoldable pub validate_access_policy : QueryContext → AccessPolicy → Bool
validate_access_policy qc policy =
    if not (is_empty policy.allowed_commands)
      && not (mem (command_of qc.operation) policy.allowed_commands)
    then false
    else if any_mentioned qc.raw_query policy.blocked_tables
    then false
    else is_empty policy.allowed_tables || any_mentioned qc.raw_query policy.allowed_tables

abbrev pub policy_permits : QueryContext → Option AccessPolicy → Bool
policy_permits qc none = true
policy_permits qc (some policy) = validate_access_policy qc policy

-- `applyRowFilters`
unfoldable pub filter_query : List RowFilter → String → String
filter_query [] query = query
filter_query (f ∷ fs) query = filter_query fs (
    if mentions query f.table && not (mentions query f.sql)
    then Prim.Native.String.◌++◌ query " /* filtered by tenant policy */"
    else query)

abbrev pub filters_of : Option AccessPolicy → List RowFilter
filters_of none = []
filters_of (some policy) = policy.row_filters

-- `trackUsage`
abbrev pub usage_or_fresh : String → Option UsageTracker → UsageTracker
usage_or_fresh id none = fresh_usage id
usage_or_fresh id (some usage) = usage

unfoldable pub stamps_after : ℤ → List ℤ → List ℤ
stamps_after cutoff [] = []
stamps_after cutoff (t ∷ ts) =
    let rest = stamps_after cutoff ts in if ltb_ℤ cutoff t then t ∷ rest else rest

abbrev pub count_rows : ℤ → ℤ → ℤ
count_rows rows total = if ltb_ℤ (pos 0) rows then wrap64 (total +ℤ rows) else total

abbrev pub counted : ℤ → ℤ → UsageTracker → UsageTracker
counted now rows usage = record usage {
  daily_queries = incr usage.daily_queries;
  monthly_queries = incr usage.monthly_queries;
  daily_rows = count_rows rows usage.daily_rows;
  monthly_rows = count_rows rows usage.monthly_rows;
  last_query_time = now;
  query_timestamps = stamps_after (now +ℤ negsuc 59999999999) (usage.query_timestamps ++ now ∷ []);
}

unfoldable pub track_usage : ℤ → String → QueryContext → TenantEngine → TenantEngine
track_usage now id qc e = record e {
  tenant_usage =
      insert id (counted now (expected_rows qc) (usage_or_fresh id (lookup id e.tenant_usage)))
        e.tenant_usage;
}
