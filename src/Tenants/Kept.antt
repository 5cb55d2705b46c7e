-- ===== src/Tenants/Kept.antt =====
-- What every operation of the tenant engine keeps, and what its quotas refuse because of it.
use mathlib.Core.Path.{subst}
use universal_database_proxy.Prelude.{
  ℕ, false, String, Option, none, some, List, ◌≡◌, refl, ◌∙◌, arith, string_eq, eq_iff, Bool-cases,
  Option-cases, inl, inr, length,
}
use universal_database_proxy.Prelude.Int.{pos, leb_ℤ}
use universal_database_proxy.GoMap.{lookup, insert, range}
use universal_database_proxy.GoMap.Laws.{lookup-insert, length-insert}
use universal_database_proxy.GoMap.Range.{mem-range}
use universal_database_proxy.Tenants.{
  MultiTenantConfig, QuotaConfig, TenantEngine, Tenant, TenantQuota, AccessPolicy, Clock,
  TenantStatus, tenant_suspended, tenant_active, config_or_default,
}
use universal_database_proxy.Tenants.Resources.{fresh_usage, new_quota}
use universal_database_proxy.Tenants.Steps.{
  register_tenant, suspend_tenant, resume_tenant, set_status, set_quota, change_quota,
  set_access_policy, reset_quotas, with_limits,
}
use universal_database_proxy.Tenants.Quotas.{
  IsSound, OwnNames, new-IsSound, insert-AllUncounted, insert-OwnNames, insert-HaveQuotas,
  reset_each-AllUncounted, reset_each-HaveQuotas,
}
use universal_database_proxy.Tenants.Reachable.{
  Step, Reachable, SameRegistry, process-SameRegistry, registers, suspends, resumes, sets_quota,
  sets_policy, resets, processes, start, next,
}

IsSound-SameRegistry :
    (config : MultiTenantConfig) (e e' : TenantEngine)
    → IsSound config e
    → SameRegistry e e'
    → IsSound config e'
IsSound-SameRegistry config e e' s same = record {
  same_config = same.config ∙ s.same_config;
  within_maximum = rw same.tenants s.within_maximum;
  own_names = rw same.tenants s.own_names;
  have_quotas = rw (same.tenants, same.quotas) s.have_quotas;
  uncounted = rw same.quotas s.uncounted;
}

set_status-IsSound :
    (config : MultiTenantConfig) (status : TenantStatus) (id : String) (o : Option Tenant)
    (e : TenantEngine)
    → lookup id e.tenants ≡ o
    → IsSound config e
    → IsSound config (set_status status id o e).0
set_status-IsSound config status id none e there s = s
set_status-IsSound config status id (some t) e there s =
    let t' : Tenant = record t { status = status } in
    let own : t.tenant_id ≡ id = s.own_names id t there in
    record {
      same_config = s.same_config;
      within_maximum = ground (arith, length-insert id t' e.tenants, there, s.within_maximum);
      own_names =
          subst (λ i. OwnNames (insert i t' e.tenants)) own
            (insert-OwnNames t' e.tenants s.own_names);
      have_quotas = elim s.have_quotas [
        | inl bare ↦ inl bare
        | inr have ↦ inr (λ j gone.
            ground (arith, lookup-insert id j t' e.tenants, have j gone, there, eq_iff id j))
      ];
      uncounted = s.uncounted;
    }

change_quota-IsSound :
    (config : MultiTenantConfig) (limits : QuotaConfig) (id : String) (o : Option TenantQuota)
    (e : TenantEngine)
    → lookup id e.quotas ≡ o
    → IsSound config e
    → IsSound config (change_quota limits id o e).0
change_quota-IsSound config limits id none e there s = s
change_quota-IsSound config limits id (some q) e there s =
    let u = s.uncounted id q there in
    record {
      same_config = s.same_config;
      within_maximum = s.within_maximum;
      own_names = s.own_names;
      have_quotas = elim s.have_quotas [
        | inl bare ↦ inl bare
        | inr have ↦ inr (insert-HaveQuotas id (with_limits limits q) e.tenants e.quotas have)
      ];
      uncounted =
          insert-AllUncounted id (with_limits limits q) e.quotas
            (record { no_queries = u.no_queries; no_rows = u.no_rows }) s.uncounted;
    }

set_access_policy-IsSound :
    (config : MultiTenantConfig) (id : String) (address : ℕ) (policy : AccessPolicy)
    (e : TenantEngine)
    → IsSound config e
    → IsSound config (set_access_policy id address policy e)
unfolding set_access_policy
set_access_policy-IsSound config id address policy e s = record {
  same_config = s.same_config;
  within_maximum = s.within_maximum;
  own_names = s.own_names;
  have_quotas = s.have_quotas;
  uncounted = s.uncounted;
}

reset_quotas-IsSound :
    (config : MultiTenantConfig) (clock : Clock) (order : List String) (e : TenantEngine)
    → IsSound config e
    → IsSound config (reset_quotas clock order e)
unfolding reset_quotas
reset_quotas-IsSound config clock order e s = record {
  same_config = s.same_config;
  within_maximum = s.within_maximum;
  own_names = s.own_names;
  have_quotas = elim s.have_quotas [
    | inl bare ↦ inl bare
    | inr have ↦ inr (reset_each-HaveQuotas clock (range order e.quotas) e.tenants e.quotas have)
  ];
  uncounted =
      reset_each-AllUncounted clock (range order e.quotas) e.quotas
        (λ j q i. s.uncounted j q (mem-range order e.quotas j q i)) s.uncounted;
}

-- The engine after a registration.
abbrev registered : Clock → Tenant → QuotaConfig → TenantEngine → TenantEngine
registered clock t limits e = record e {
  tenants = insert t.tenant_id t e.tenants;
  quotas = insert t.tenant_id (new_quota clock t.tenant_id limits) e.quotas;
  tenant_usage = insert t.tenant_id (fresh_usage t.tenant_id) e.tenant_usage;
}

registered-IsSound :
    (config : MultiTenantConfig) (clock : Clock) (t : Tenant) (limits : QuotaConfig)
    (e : TenantEngine)
    → leb_ℤ e.config.max_tenants (pos (length e.tenants)) ≡ false
    → IsSound config e
    → IsSound config (registered clock t limits e)
registered-IsSound config clock t limits e room s = record {
  same_config = s.same_config;
  within_maximum =
      ground (arith, room, s.same_config, length-insert t.tenant_id t e.tenants, s.within_maximum);
  own_names = insert-OwnNames t e.tenants s.own_names;
  have_quotas = elim s.have_quotas [
    | inl bare ↦ inl bare
    | inr have ↦ inr (λ j gone. ground (
      arith,
      lookup-insert t.tenant_id j t e.tenants,
      lookup-insert t.tenant_id j (new_quota clock t.tenant_id limits) e.quotas,
      gone,
      have j,
    ))
  ];
  uncounted =
      insert-AllUncounted t.tenant_id (new_quota clock t.tenant_id limits) e.quotas
        (record { no_queries = refl; no_rows = refl }) s.uncounted;
}

-- The engine after a registration that panicked.
stored-IsSound :
    (config : MultiTenantConfig) (t : Tenant) (e : TenantEngine)
    → leb_ℤ e.config.max_tenants (pos (length e.tenants)) ≡ false
    → e.config.default_quota ≡ none
    → IsSound config e
    → IsSound config (record e { tenants = insert t.tenant_id t e.tenants })
stored-IsSound config t e room bare s = record {
  same_config = s.same_config;
  within_maximum =
      ground (arith, room, s.same_config, length-insert t.tenant_id t e.tenants, s.within_maximum);
  own_names = insert-OwnNames t e.tenants s.own_names;
  have_quotas = inl (subst (λ (c : MultiTenantConfig). c.default_quota ≡ none) s.same_config bare);
  uncounted = s.uncounted;
}

register_tenant-IsSound :
    (config : MultiTenantConfig) (clock : Clock) (t : Tenant) (e : TenantEngine)
    → IsSound config e
    → IsSound config (register_tenant clock t e).0
unfolding register_tenant
register_tenant-IsSound config clock t e s =
    elim (Bool-cases (leb_ℤ e.config.max_tenants (pos (length e.tenants)))) [
      | inl full ↦ rw full s
      | inr room ↦ elim (Option-cases e.config.default_quota) [
        | inl missing ↦
            subst (IsSound config) (ground (arith, room, missing))
              (stored-IsSound config t e room missing s)
        | inr (limits, there) ↦
            subst (IsSound config) (ground (arith, room, there))
              (registered-IsSound config clock t limits e room s)
      ]
    ]

Step-IsSound :
    (config : MultiTenantConfig) (e e' : TenantEngine)
    → Step e e'
    → IsSound config e
    → IsSound config e'
unfolding suspend_tenant resume_tenant set_quota
Step-IsSound config e _ (registers clock t) s = register_tenant-IsSound config clock t e s
Step-IsSound config e _ (suspends id) s =
    set_status-IsSound config tenant_suspended id (lookup id e.tenants) e refl s
Step-IsSound config e _ (resumes id) s =
    set_status-IsSound config tenant_active id (lookup id e.tenants) e refl s
Step-IsSound config e _ (sets_quota id limits) s =
    change_quota-IsSound config limits id (lookup id e.quotas) e refl s
Step-IsSound config e _ (sets_policy id address policy) s =
    set_access_policy-IsSound config id address policy e s
Step-IsSound config e _ (resets clock order) s = reset_quotas-IsSound config clock order e s
Step-IsSound config e _ (processes clock qc {r = r} h) s =
    IsSound-SameRegistry config e r.0 s (process-SameRegistry clock qc e r h)

-- Whatever is done to a new engine, registrations that panic included, it holds at most MaxTenants
-- tenants, each under its own name; each has a quota, or the settings have no default quota; and no
-- query and no row is ever counted against a quota.
pub reachable-IsSound :
    (config : Option MultiTenantConfig) (e : TenantEngine)
    → Reachable config e
    → IsSound (config_or_default config) e
reachable-IsSound config _ start = new-IsSound config
reachable-IsSound config e (next {e = before} run step) =
    Step-IsSound (config_or_default config) before e step (reachable-IsSound config before run)
