-- ===== src/Tests/Isolation.antt =====
-- The tenant engine at concrete inputs.
use universal_database_proxy.Prelude.{
  Bool, true, false, some, [], ◌∷◌, ◌≡◌, ◌↔◌, refl, arith, string_eq, inl,
}
use universal_database_proxy.Prelude.Int.{pos, ◌≤ℤ◌, ◌<ℤ◌}
use universal_database_proxy.Prelude.Result.{done}
use universal_database_proxy.GoMap.{lookup, insert}
use universal_database_proxy.Types.{QueryContext, string_value, int64_value}
use universal_database_proxy.Tenants.{
  MultiTenantConfig, TenantEngine, Tenant, QuotaConfig, AccessPolicy, Clock, tenant_active,
  default_config, new, policy_of,
}
use universal_database_proxy.Tenants.Checks.{allowed, expected_rows, check_quota, extract_tenant_id}
use universal_database_proxy.Tenants.Resources.{fresh_usage, new_quota}
use universal_database_proxy.Tenants.Steps.{Response, process, register_tenant, set_access_policy}
use universal_database_proxy.Tenants.Admission.{Verdict}
use universal_database_proxy.Tenants.Outcomes.{process-Verdict}
use universal_database_proxy.Tenants.Reachable.{registers, sets_policy, Reachable, start, next}
use universal_database_proxy.Tenants.Quotas.{IsSound}
use universal_database_proxy.Tenants.Kept.{reachable-IsSound}
use universal_database_proxy.Tenants.Enforced.{check_quota_iff}
use universal_database_proxy.Tests.Samples.{query_of}

abbrev noon : Clock
noon = record { now = pos 12; midnight = pos 24; first_of_month = pos 720 }

abbrev acme : Tenant
acme = record {
  tenant_id = "acme";
  name = "Acme";
  created_at = pos 1;
  status = tenant_active;
  database = "hr";
  schema = "public";
}

abbrev small_quota : QuotaConfig
small_quota = record {
  daily_query_limit = pos 1;
  monthly_query_limit = pos 10;
  daily_row_limit = pos 100;
  monthly_row_limit = pos 1000;
  daily_bytes_limit = pos 1000;
  query_timeout = pos 30;
  connection_limit = pos 5;
}

abbrev no_salaries : AccessPolicy
no_salaries = record {
  tenant_id = "";
  allowed_tables = [];
  blocked_tables = "salary" ∷ [];
  allowed_commands = "SELECT" ∷ [];
  row_filters = [];
  rate_limit = pos 0;
}

abbrev row_limited : Bool → MultiTenantConfig
row_limited provisioning = record default_config {
  row_limit_enabled = true;
  auto_provisioning = provisioning;
  default_quota = some small_quota;
}

abbrev with_acme : TenantEngine
with_acme = record {
  config = row_limited false;
  tenants = ("acme", acme) ∷ [];
  quotas = ("acme", new_quota noon "acme" small_quota) ∷ [];
  access_policies = [];
  policies = [];
  tenant_usage = [];
}

abbrev acme_query : QueryContext
acme_query = record (query_of "SELECT name FROM staff") {
  metadata =
      some (("tenant_id", string_value "acme") ∷ ("expected_rows", int64_value (pos 40)) ∷ []);
}

process-Verdict_example :
    (r : Response) × (process noon acme_query with_acme ≡ done r)
    × Verdict (pos 12) acme_query (extract_tenant_id acme_query) with_acme r
process-Verdict_example = process-Verdict noon acme_query with_acme refl (inl refl)

abbrev after_register : TenantEngine
after_register = record (new (some (row_limited false))) {
  tenants = insert "acme" acme [];
  quotas = insert "acme" (new_quota noon "acme" small_quota) [];
  tenant_usage = insert "acme" (fresh_usage "acme") [];
}

reached : Reachable (some (row_limited false)) after_register
unfolding register_tenant new
reached = next start (registers noon acme)

test_policy :
    Reachable (some (row_limited false)) (set_access_policy "acme" 1 no_salaries after_register)
test_policy = next reached (sets_policy "acme" 1 no_salaries)

reachable-IsSound_example :
    IsSound (row_limited false) (set_access_policy "acme" 1 no_salaries after_register)
reachable-IsSound_example =
    reachable-IsSound (some (row_limited false))
      (set_access_policy "acme" 1 no_salaries after_register) test_policy

-- One policy set for two tenants names the second one under both.
shared_policy :
    policy_of "acme"
      (set_access_policy "beta" 1 no_salaries (set_access_policy "acme" 1 no_salaries with_acme))
    ≡ some (record no_salaries { tenant_id = "beta" })
unfolding set_access_policy lookup insert
shared_policy = refl

registered_quota : lookup "acme" after_register.quotas ≡ some (new_quota noon "acme" small_quota)
unfolding lookup insert
registered_quota = refl

announced : expected_rows acme_query ≡ pos 40
unfolding lookup
announced = refl

check_quota_iff_example : (check_quota "acme" acme_query after_register ≡ allowed) ↔ (
    (after_register.config.row_limit_enabled ≡ true)
    → pos 0 <ℤ pos 100
    → expected_rows acme_query ≤ℤ pos 100)
check_quota_iff_example =
    check_quota_iff (some (row_limited false)) after_register "acme" acme_query
      (new_quota noon "acme" small_quota) reached registered_quota (ground (arith, announced))
