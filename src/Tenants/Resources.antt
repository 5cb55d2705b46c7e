-- ===== src/Tenants/Resources.antt =====
-- backend/internal/engines/multitenant_isolation_engine.go: what a new tenant gets.
use universal_database_proxy.Prelude.{String, string_eq, Option, none, some, []}
use universal_database_proxy.Prelude.Int.{pos}
use universal_database_proxy.GoMap.{insert}
use universal_database_proxy.Tenants.{TenantEngine, TenantQuota, QuotaConfig, UsageTracker, Clock}

abbrev pub fresh_usage : String → UsageTracker
fresh_usage id = record {
  tenant_id = id;
  daily_queries = pos 0;
  monthly_queries = pos 0;
  daily_rows = pos 0;
  monthly_rows = pos 0;
  last_query_time = pos 0;
  query_timestamps = [];
}

-- `initTenantResources`, which panics without a default quota: `none`
abbrev pub new_quota : Clock → String → QuotaConfig → TenantQuota
new_quota clock id limits = record {
  tenant_id = id;
  limits = limits;
  current_queries = pos 0;
  current_rows = pos 0;
  current_bytes = pos 0;
  queries_reset_at = clock.midnight;
  rows_reset_at = clock.midnight;
  bytes_reset_at = clock.first_of_month;
}

abbrev pub init_tenant_resources :
    Clock → String → Option QuotaConfig → TenantEngine → Option TenantEngine
init_tenant_resources clock id none e = none
init_tenant_resources clock id (some limits) e = some (record e {
  quotas = insert id (new_quota clock id limits) e.quotas;
  tenant_usage = insert id (fresh_usage id) e.tenant_usage;
})
