-- ===== src/Tenants/Reachable.antt =====
-- The states that the operations of the tenant engine reach, and what its quotas refuse there.
use mathlib.Core.Path.{subst}
use universal_database_proxy.Prelude.{
  ℕ, Bool, true, false, not, ◌&&◌, String, Option, List, ◌≡◌, refl, sym, ◌∙◌, arith, if◌then◌else◌,
  string_eq, Bool-cases, inl, inr,
}
use universal_database_proxy.Prelude.Int.{ℤ}
use universal_database_proxy.Prelude.Result.{Go, done, panic, blocked, ◌>>=◌}
use universal_database_proxy.Types.{QueryContext, continue_result}
use universal_database_proxy.Tenants.{
  policy_of, MultiTenantConfig, QuotaConfig, TenantEngine, Tenant, AccessPolicy, Clock, new,
}
use universal_database_proxy.Tenants.Checks.{
  QuotaCheck, allowed, exceeded, check_quota, track_usage, is_tenant_active, extract_tenant_id,
  policy_permits, validate_tenant_access,
}
use universal_database_proxy.Tenants.Steps.{
  Response, admit, after_quota, check_tenant, process, register_tenant, suspend_tenant,
  resume_tenant, set_quota, set_access_policy, reset_quotas,
}
use universal_database_proxy.Tenants.Outcomes.{process-tenant, is_tenant_active-same}

-- One operation of the engine, from a state to the next. A registration that panics leaves the
-- engine to its callers.
pub data Step : TenantEngine → TenantEngine → Type 0 where
  registers : (clock : Clock) (t : Tenant) {e : TenantEngine} → Step e (register_tenant clock t e).0
  suspends : (id : String) {e : TenantEngine} → Step e (suspend_tenant id e).0
  resumes : (id : String) {e : TenantEngine} → Step e (resume_tenant id e).0
  sets_quota :
      (id : String) (limits : QuotaConfig) {e : TenantEngine} → Step e (set_quota id limits e).0
  sets_policy :
      (id : String) (address : ℕ) (policy : AccessPolicy) {e : TenantEngine}
      → Step e (set_access_policy id address policy e)
  resets :
      (clock : Clock) (order : List String) {e : TenantEngine} → Step e (reset_quotas clock order e)
  processes :
      (clock : Clock) (qc : QueryContext) {e : TenantEngine} {r : Response}
      → process clock qc e ≡ done r
      → Step e r.0

pub data Reachable (config : Option MultiTenantConfig) : TenantEngine → Type 0 where
  start : Reachable config (new config)
  next : {e e' : TenantEngine} → Reachable config e → Step e e' → Reachable config e'

-- The two engines have the same settings, tenants and quotas.
pub record SameRegistry (e e' : TenantEngine) : Type 0 where
  pub config : e'.config ≡ e.config
  pub tenants : e'.tenants ≡ e.tenants
  pub quotas : e'.quotas ≡ e.quotas

same_registry : (e : TenantEngine) → SameRegistry e e
same_registry e = record { config = refl; tenants = refl; quotas = refl }

admit-SameRegistry :
    (now : ℤ) (id : String) (qc : QueryContext) (e : TenantEngine)
    → SameRegistry e (admit now id qc e).0
unfolding admit track_usage
admit-SameRegistry now id qc e = record { config = refl; tenants = refl; quotas = refl }

after_quota-SameRegistry :
    (check : QuotaCheck) (now : ℤ) (id : String) (qc : QueryContext) (e : TenantEngine)
    → SameRegistry e (after_quota check now id qc e).0
after_quota-SameRegistry (exceeded kind current limit) now id qc e = same_registry e
after_quota-SameRegistry allowed now id qc e =
    elim (Bool-cases (policy_permits qc (policy_of id e))) [
      | inl ok ↦ rw ok (admit-SameRegistry now id qc e)
      | inr bad ↦ rw bad (same_registry e)
    ]

check_tenant-SameRegistry :
    (now : ℤ) (id : String) (qc : QueryContext) (e : TenantEngine) (active : Bool)
    → SameRegistry e (check_tenant now id qc e active).0
unfolding check_tenant
check_tenant-SameRegistry now id qc e false = same_registry e
check_tenant-SameRegistry now id qc e true =
    elim (Bool-cases (e.config.strict_isolation && not (validate_tenant_access qc id e))) [
      | inl crossing ↦ rw crossing (same_registry e)
      | inr inside ↦ rw inside (
          after_quota-SameRegistry
            (if e.config.quota_enforcement then check_quota id qc e else allowed) now id qc e)
    ]

then-SameRegistry :
    (e : TenantEngine) (a : Go (TenantEngine × Bool)) (f : TenantEngine × Bool → Response)
    (r : Response)
    → ((b : TenantEngine × Bool) → a ≡ done b → SameRegistry e (f b).0)
    → (a >>= λ b. done (f b)) ≡ done r
    → SameRegistry e r.0
then-SameRegistry e (done b) f r same h =
    let result : f b ≡ r = ground (arith, h) in
    subst (λ (s : Response). SameRegistry e s.0) result (same b refl)
then-SameRegistry e panic f r same h = absurd (ground (arith, h))
then-SameRegistry e blocked f r same h = absurd (ground (arith, h))

process-disabled :
    (clock : Clock) (qc : QueryContext) (e : TenantEngine)
    → e.config.enabled ≡ false
    → process clock qc e ≡ done (e, qc, continue_result)
unfolding process
process-disabled clock qc e off = rw off

pub process-SameRegistry :
    (clock : Clock) (qc : QueryContext) (e : TenantEngine) (r : Response)
    → process clock qc e ≡ done r
    → SameRegistry e r.0
process-SameRegistry clock qc e r h = elim (Bool-cases e.config.enabled) [
  | inr off ↦
      let result : (e, qc, continue_result) ≡ r =
        ground (arith, h, process-disabled clock qc e off) in
      subst (λ (s : Response). SameRegistry e s.0) result (same_registry e)
  | inl on ↦
      let id = extract_tenant_id qc in
      then-SameRegistry e (is_tenant_active clock id e) (λ a. check_tenant clock.now id qc a.0 a.1)
        r
        (λ a answered.
          subst (λ f. SameRegistry e (check_tenant clock.now id qc f a.1).0)
            (sym (is_tenant_active-same clock id e a answered))
            (check_tenant-SameRegistry clock.now id qc e a.1))
        (sym (process-tenant clock qc e on) ∙ h)
]
