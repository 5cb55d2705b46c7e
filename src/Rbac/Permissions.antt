-- ===== src/Rbac/Permissions.antt =====
-- What a user may do.
use mathlib.Core.List.{Memᴰ}
use universal_database_proxy.Prelude.{
  ℕ, zero, suc, ◌<◌, Bool, true, false, String, Option, none, some, List, ◌∷◌, ◌≡◌, ◌≢◌, ◌↔◌, refl,
  sym, ◌∙◌, arith, Bool-cases, inl, inr, string_eq, mem,
}
use universal_database_proxy.GoMap.{GoMap, lookup}
use universal_database_proxy.Rbac.{
  User, RoleDefinition, Rbac, any_role, role_has_permission, has_permission,
}
use universal_database_proxy.Rbac.{check_user}
use universal_database_proxy.Rbac.Roles.{
  Grants, Ranked, any_role-true, any_role-false, any_role-total, check_sound, check_complete,
  check-total, checked,
}

-- A user who is enabled and has a role that grants the permission.
pub record MayUse (rbac : Rbac) (username permission : String) : Type 0 where
  pub user : User
  pub known : lookup username rbac.users ≡ some user
  pub enabled : user.enabled ≡ true
  pub role : String
  pub assigned : Memᴰ role user.roles
  pub grants : Grants rbac.roles permission role

module _ (depth : ℕ) (username permission : String) (rbac : Rbac) (k : Ranked rbac.roles)
    (deep : (role : String) → k.rank role < depth) where
  abbrev check : String → Option Bool
  check = role_has_permission rbac.roles permission depth

  user-total : (o : Option User) → check_user check o ≢ none
  user-total none h = cc
  user-total (some user) h = elim (Bool-cases user.enabled) [
    | inl on ↦
        any_role-total check user.roles
          (λ r i. check-total rbac.roles permission k depth r (deep r)) (ground arith)
    | inr off ↦ ground arith
  ]

  user-true :
      (o : Option User)
      → lookup username rbac.users ≡ o
      → check_user check o ≡ some true
      → MayUse rbac username permission
  user-true none there h = ground arith
  user-true (some user) there h = elim (Bool-cases user.enabled) [
    | inl on ↦
        let (role, i, g) =
          any_role-true (Grants rbac.roles permission) check
            (check_sound rbac.roles permission depth) user.roles (ground arith) in
        record { user = user; known = there; enabled = on; role = role; assigned = i; grants = g }
    | inr off ↦ ground arith
  ]

  true-user :
      (o : Option User)
      → lookup username rbac.users ≡ o
      → MayUse rbac username permission
      → check_user check o ≡ some true
  true-user o there m =
      let e : o ≡ some m.user = sym there ∙ m.known in
      rw (e, m.enabled)
        (elim (checked (any_role check m.user.roles)) [
          | inl hit ↦ hit
          | inr (inl miss) ↦ absurd (
              any_role-false (Grants rbac.roles permission) check
                (check_complete rbac.roles permission depth) m.user.roles miss m.role m.assigned
                m.grants)
          | inr (inr endless) ↦ absurd (
              any_role-total check m.user.roles
                (λ r i. check-total rbac.roles permission k depth r (deep r)) endless)
        ])

  -- With roles whose inheritance has no cycle, and fuel above the rank of every role,
  -- `HasPermission` ends, and says yes exactly if the user exists, is enabled, and has a role that
  -- grants the permission, itself or by inheritance. The resource that is asked for plays no part.
  pub has_permission_iff :
      (resource : String)
      → (has_permission depth username permission resource rbac ≢ none)
        × ((has_permission depth username permission resource rbac ≡ some true)
            ↔ MayUse rbac username permission)
  unfolding has_permission
  has_permission_iff resource = (
    user-total (lookup username rbac.users),
    (user-true (lookup username rbac.users) refl, true-user (lookup username rbac.users) refl),
  )

-- A role that inherits from itself first, and lacks the permission, is checked without end.
pub check_endless :
    (roles : GoMap String RoleDefinition) (permission role : String) (def : RoleDefinition)
    (rest : List String) (depth : ℕ)
    → lookup role roles ≡ some def
    → mem permission def.permissions ≡ false
    → def.inherits ≡ role ∷ rest
    → role_has_permission roles permission depth role ≡ none
unfolding role_has_permission any_role
check_endless roles permission role def rest zero there lacks own = refl
check_endless roles permission role def rest (suc depth) there lacks own =
    let ih = check_endless roles permission role def rest depth there lacks own in
    rw there (rw lacks (rw own (rw ih refl)))
