-- ===== src/Tenants/Quotas.antt =====
-- What the operations of the tenant engine keep, and what its quotas refuse because of it.
use mathlib.Core.List.{Memᴰ}
use mathlib.Core.Path.{subst}
use universal_database_proxy.Prelude.{
  ◌≤◌, String, Option, none, some, List, [], ◌∷◌, ◌≡◌, refl, arith, ◌==◌, string_eq, eq_iff,
  Bool-cases, inl, inr, ◌⊎◌, length,
}
use universal_database_proxy.Prelude.Int.{pos, pos_part}
use universal_database_proxy.GoMap.{GoMap, lookup, insert}
use universal_database_proxy.GoMap.Laws.{lookup-insert}
use universal_database_proxy.Tenants.{
  MultiTenantConfig, TenantEngine, Tenant, TenantQuota, Clock, config_or_default, new,
}
use universal_database_proxy.Tenants.Steps.{reset_daily, reset_monthly, reset_each}

-- Nothing is counted against the quota.
pub record IsUncounted (q : TenantQuota) : Type 0 where
  pub no_queries : q.current_queries ≡ pos 0
  pub no_rows : q.current_rows ≡ pos 0

abbrev pub AllUncounted : GoMap String TenantQuota → Type 0
AllUncounted quotas = (id : String) (q : TenantQuota) → lookup id quotas ≡ some q → IsUncounted q

abbrev pub OwnNames : GoMap String Tenant → Type 0
OwnNames tenants = (id : String) (t : Tenant) → lookup id tenants ≡ some t → t.tenant_id ≡ id

abbrev pub HaveQuotas : GoMap String Tenant → GoMap String TenantQuota → Type 0
HaveQuotas tenants quotas = (id : String) → lookup id quotas ≡ none → lookup id tenants ≡ none

-- No more tenants than the maximum, each under its own name and with a quota against which nothing
-- is counted; the quotas may be missing if the settings have no default quota.
pub record IsSound (config : MultiTenantConfig) (e : TenantEngine) : Type 0 where
  pub same_config : e.config ≡ config
  pub within_maximum : length e.tenants ≤ pos_part config.max_tenants
  pub own_names : OwnNames e.tenants
  pub have_quotas : (config.default_quota ≡ none) ⊎ HaveQuotas e.tenants e.quotas
  pub uncounted : AllUncounted e.quotas

pub new-IsSound :
    (config : Option MultiTenantConfig) → IsSound (config_or_default config) (new config)
unfolding new lookup
new-IsSound config = record {
  same_config = refl;
  within_maximum = omega arith;
  own_names = λ id t there. ground (arith, there);
  have_quotas = inr (λ id gone. refl);
  uncounted = λ id q there. ground (arith, there);
}

pub insert-AllUncounted :
    (id : String) (q : TenantQuota) (quotas : GoMap String TenantQuota)
    → IsUncounted q
    → AllUncounted quotas
    → AllUncounted (insert id q quotas)
insert-AllUncounted id q quotas this rest j p there = elim (Bool-cases (id == j)) [
  | inl same ↦ subst IsUncounted (ground (arith, lookup-insert id j q quotas, there, same)) this
  | inr other ↦ rest j p (ground (arith, lookup-insert id j q quotas, there, other))
]

pub insert-OwnNames :
    (t : Tenant) (tenants : GoMap String Tenant)
    → OwnNames tenants
    → OwnNames (insert t.tenant_id t tenants)
insert-OwnNames t tenants rest j u there = elim (Bool-cases (t.tenant_id == j)) [
  | inl same ↦
      ground (arith, lookup-insert t.tenant_id j t tenants, there, same, eq_iff t.tenant_id j)
  | inr other ↦ rest j u (ground (arith, lookup-insert t.tenant_id j t tenants, there, other))
]

pub insert-HaveQuotas :
    (id : String) (q : TenantQuota) (tenants : GoMap String Tenant)
    (quotas : GoMap String TenantQuota)
    → HaveQuotas tenants quotas
    → HaveQuotas tenants (insert id q quotas)
insert-HaveQuotas id q tenants quotas h j gone =
    h j (ground (arith, lookup-insert id j q quotas, gone))

reset-IsUncounted :
    (clock : Clock) (q : TenantQuota)
    → IsUncounted q
    → IsUncounted (reset_monthly clock (reset_daily clock q))
reset-IsUncounted clock q u = record {
  no_queries = ground (arith, u.no_queries);
  no_rows = ground (arith, u.no_rows);
}

pub reset_each-AllUncounted :
    (clock : Clock) (pairs : List (String × TenantQuota)) (quotas : GoMap String TenantQuota)
    → ((id : String) (q : TenantQuota) → Memᴰ (id, q) pairs → IsUncounted q)
    → AllUncounted quotas
    → AllUncounted (reset_each clock pairs quotas)
unfolding reset_each
reset_each-AllUncounted clock [] quotas h u = u
reset_each-AllUncounted clock ((id, q) ∷ rest) quotas h u =
    reset_each-AllUncounted clock rest
      (insert id (reset_monthly clock (reset_daily clock q)) quotas) (λ j p i. h j p (Memᴰ.tail i))
      (insert-AllUncounted id (reset_monthly clock (reset_daily clock q)) quotas
        (reset-IsUncounted clock q (h id q (Memᴰ.head refl))) u)

pub reset_each-HaveQuotas :
    (clock : Clock) (pairs : List (String × TenantQuota)) (tenants : GoMap String Tenant)
    (quotas : GoMap String TenantQuota)
    → HaveQuotas tenants quotas
    → HaveQuotas tenants (reset_each clock pairs quotas)
unfolding reset_each
reset_each-HaveQuotas clock [] tenants quotas h = h
reset_each-HaveQuotas clock ((id, q) ∷ rest) tenants quotas h =
    reset_each-HaveQuotas clock rest tenants
      (insert id (reset_monthly clock (reset_daily clock q)) quotas)
      (insert-HaveQuotas id (reset_monthly clock (reset_daily clock q)) tenants quotas h)
