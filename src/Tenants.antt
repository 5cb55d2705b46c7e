-- ===== src/Tenants.antt =====
-- backend/internal/engines/multitenant_isolation_engine.go: tenants with quotas, access policies and
-- usage counts. A `Clock` holds what `time.Now`, `getMidnight` and `getFirstOfMonth` return. A text
-- is searched by its bytes. The fields that no code reads are left out.
pub mod Resources
pub mod Checks
pub mod Steps
pub mod Search
pub mod Policy
pub mod Admission
pub mod Outcomes
pub mod Quotas
pub mod Reachable
pub mod Kept
pub mod Enforced
use universal_database_proxy.Prelude.{
  ℕ, Bool, true, false, not, ◌&&◌, ◌||◌, String, Option, none, some, List, [], ◌∷◌, ◌++◌,
  if◌then◌else◌, ◌==◌, string_eq, nat_eq, length, leb, ltb, take, mem,
}
use universal_database_proxy.Prelude.Int.{ℤ, pos, negsuc, ◌+ℤ◌, ltb_ℤ, leb_ℤ, incr, wrap64}
use universal_database_proxy.Prelude.Result.{Go, done, panic, blocked, ◌>>=◌}
use universal_database_proxy.GoMap.{GoMap, lookup, insert, has, range}
use universal_database_proxy.Bytes.{Bytes, bytes_eq, utf8}
use universal_database_proxy.Types.{
  Value, bool_value, string_value, int64_value, Metadata, QueryOperation, op_select, op_insert,
  op_update, op_delete, op_other, custom, QueryContext, EngineResult, continue_result, lookup_meta,
  make_meta,
}

pub record QuotaConfig : Type 0 where
  pub daily_query_limit : ℤ
  pub monthly_query_limit : ℤ
  pub daily_row_limit : ℤ
  pub monthly_row_limit : ℤ
  pub daily_bytes_limit : ℤ
  pub query_timeout : ℤ
  pub connection_limit : ℤ

pub record MultiTenantConfig : Type 0 where
  pub enabled : Bool
  pub strict_isolation : Bool
  pub quota_enforcement : Bool
  pub row_limit_enabled : Bool
  pub auto_provisioning : Bool
  pub max_tenants : ℤ
  pub default_quota : Option QuotaConfig

-- `other_status` is any other int, which the type allows.
pub data TenantStatus : Type 0 where
  tenant_active tenant_suspended tenant_archived : TenantStatus
  other_status : ℤ → TenantStatus

pub record Tenant : Type 0 where
  pub tenant_id : String
  pub name : String
  pub created_at : ℤ
  pub status : TenantStatus
  pub database : String
  pub schema : String

pub record TenantQuota : Type 0 where
  pub tenant_id : String
  pub limits : QuotaConfig  -- the fields that `initTenantResources` copies
  pub current_queries : ℤ
  pub current_rows : ℤ
  pub current_bytes : ℤ
  pub queries_reset_at : ℤ
  pub rows_reset_at : ℤ
  pub bytes_reset_at : ℤ

pub record RowFilter : Type 0 where
  pub table : String
  pub column : String
  pub condition : String
  pub sql : String

pub record AccessPolicy : Type 0 where
  pub tenant_id : String
  pub allowed_tables : List String
  pub blocked_tables : List String
  pub allowed_commands : List String
  pub row_filters : List RowFilter
  pub rate_limit : ℤ

pub record UsageTracker : Type 0 where
  pub tenant_id : String
  pub daily_queries : ℤ
  pub monthly_queries : ℤ
  pub daily_rows : ℤ
  pub monthly_rows : ℤ
  pub last_query_time : ℤ
  pub query_timestamps : List ℤ

-- `access_policies` has the addresses of the policies, which their callers share with the engine,
-- and `policies` what stands at each address.
pub record TenantEngine : Type 0 where
  pub config : MultiTenantConfig
  pub tenants : GoMap String Tenant
  pub quotas : GoMap String TenantQuota
  pub access_policies : GoMap String ℕ
  pub policies : GoMap ℕ AccessPolicy
  pub tenant_usage : GoMap String UsageTracker

pub record Clock : Type 0 where
  pub now : ℤ
  pub midnight : ℤ
  pub first_of_month : ℤ

abbrev pub default_config : MultiTenantConfig
default_config = record {
  enabled = true;
  strict_isolation = true;
  quota_enforcement = true;
  row_limit_enabled = false;
  auto_provisioning = false;
  max_tenants = pos 1000;
  default_quota = some (record {
    daily_query_limit = pos 100000;
    monthly_query_limit = pos 1000000;
    daily_row_limit = pos 10000000;
    monthly_row_limit = pos 100000000;
    daily_bytes_limit = pos 10737418240;
    query_timeout = pos 30000000000;
    connection_limit = pos 50;
  });
}

abbrev pub config_or_default : Option MultiTenantConfig → MultiTenantConfig
config_or_default none = default_config
config_or_default (some config) = config

-- `NewMultiTenantIsolationEngine`; the loop that it starts is `reset_quotas`.
unfoldable pub new : Option MultiTenantConfig → TenantEngine
new config = record {
  config = config_or_default config;
  tenants = [];
  quotas = [];
  access_policies = [];
  policies = [];
  tenant_usage = [];
}

-- `e.accessPolicies[tenantID]`
abbrev pub policy_at : TenantEngine → Option ℕ → Option AccessPolicy
policy_at e none = none
policy_at e (some address) = lookup address e.policies

abbrev pub policy_of : String → TenantEngine → Option AccessPolicy
policy_of id e = policy_at e (lookup id e.access_policies)

-- `containsString`
unfoldable pub contains_string : Bytes → Bytes → Bool
contains_string [] substr = leb (length substr) 0 && bytes_eq [] substr
contains_string (c ∷ s) substr =
    let rest = contains_string s substr in
    leb (length substr) (length (c ∷ s))
    && (bytes_eq (c ∷ s) substr || (bytes_eq (take (length substr) (c ∷ s)) substr || rest))

abbrev pub mentions : String → String → Bool
mentions query word = contains_string (utf8 query) (utf8 word)
