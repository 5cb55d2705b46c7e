-- ===== src/Rbac/Roles.antt =====
-- The permissions of a role: the recursive check against their definition as a relation.
use mathlib.Core.List.{Memᴰ}
use universal_database_proxy.Prelude.{
  ℕ, zero, suc, ◌<◌, Bool, true, false, String, Option, none, some, List, [], ◌∷◌, ◌≡◌, ◌≢◌, ◌⊎◌,
  refl, sym, ◌∙◌, arith, Bool-cases, inl, inr, string_eq, mem,
}
use universal_database_proxy.GoMap.{GoMap, lookup}
use universal_database_proxy.Rbac.{RoleDefinition, any_role, check_definition, role_has_permission}

-- A role grants a permission of its own list, and those that a role it inherits from grants.
pub data Grants (roles : GoMap String RoleDefinition) (permission : String) : String → Type 0 where
  direct :
      {role : String} (def : RoleDefinition)
      → lookup role roles ≡ some def
      → mem permission def.permissions ≡ true
      → Grants roles permission role
  inherited :
      {role : String} (def : RoleDefinition) (parent : String)
      → lookup role roles ≡ some def
      → Memᴰ parent def.inherits
      → Grants roles permission parent
      → Grants roles permission role

abbrev pub Checked : Option Bool → Type 0
Checked o = (o ≡ some true) ⊎ ((o ≡ some false) ⊎ (o ≡ none))

pub checked : (o : Option Bool) → Checked o
checked none = inr (inr refl)
checked (some true) = inl refl
checked (some false) = inr (inl refl)

module _ (P : String → Type 0) (check : String → Option Bool) where
  pub any_role-true :
      ((r : String) → check r ≡ some true → P r)
      → (l : List String) → any_role check l ≡ some true
      → (r : String) × Memᴰ r l × P r
  unfolding any_role
  any_role-true sound [] h = ground arith
  any_role-true sound (r ∷ l) h = elim (checked (check r)) [
    | inl hit ↦ (r, Memᴰ.head refl, sound r hit)
    | inr (inl miss) ↦ let (r', i, p) = any_role-true sound l (ground arith) in (r', Memᴰ.tail i, p)
    | inr (inr deep) ↦ ground arith
  ]

  pub any_role-false :
      ((r : String) → check r ≡ some false → ¬ P r)
      → (l : List String) → any_role check l ≡ some false
      → (r : String) → Memᴰ r l
      → ¬ P r
  unfolding any_role
  any_role-false complete [] h r i = elim i [ ]
  any_role-false complete (s ∷ l) h r (Memᴰ.head e) = rw e (complete s (ground arith))
  any_role-false complete (s ∷ l) h r (Memᴰ.tail i) = any_role-false complete l (ground arith) r i

pub any_role-total :
    (check : String → Option Bool) (l : List String)
    → ((r : String) → Memᴰ r l → check r ≢ none)
    → any_role check l ≢ none
unfolding any_role
any_role-total check [] t h = cc
any_role-total check (r ∷ l) t h = elim (checked (check r)) [
  | inl hit ↦ ground arith
  | inr (inl miss) ↦ any_role-total check l (λ r' i. t r' (Memᴰ.tail i)) (ground arith)
  | inr (inr deep) ↦ t r (Memᴰ.head refl) deep
]

-- No chain of inheritance is endless: the rank of a role falls towards the roles it inherits from.
pub record Ranked (roles : GoMap String RoleDefinition) : Type 0 where
  pub rank : String → ℕ
  pub falls :
      (role : String) (def : RoleDefinition) (parent : String)
      → lookup role roles ≡ some def
      → Memᴰ parent def.inherits
      → rank parent < rank role

module _ (roles : GoMap String RoleDefinition) (permission : String) where
  abbrev pub G : String → Type 0
  G = Grants roles permission

  abbrev pub check_at : ℕ → String → Option Bool
  check_at = role_has_permission roles permission

  definition-true :
      (check : String → Option Bool) (role : String) (o : Option RoleDefinition)
      → ((r : String) → check r ≡ some true → G r)
      → lookup role roles ≡ o
      → check_definition check permission o ≡ some true
      → G role
  definition-true check role none sound there h = ground arith
  definition-true check role (some def) sound there h =
      elim (Bool-cases (mem permission def.permissions)) [
        | inl own ↦ Grants.direct def there own
        | inr other ↦
            let (parent, i, g) = any_role-true G check sound def.inherits (ground arith) in
            Grants.inherited def parent there i g
      ]

  definition-false :
      (check : String → Option Bool) (role : String) (o : Option RoleDefinition)
      → ((r : String) → check r ≡ some false → ¬ G r)
      → lookup role roles ≡ o
      → check_definition check permission o ≡ some false
      → ¬ G role
  definition-false check role o complete there h (Grants.direct def at own) =
      let e : o ≡ some def = sym there ∙ at in let h' = rw e at h in ground arith
  definition-false check role o complete there h (Grants.inherited def parent at i g) =
      let e : o ≡ some def = sym there ∙ at in
      let h' = rw e at h in any_role-false G check complete def.inherits (ground arith) parent i g

  pub check_sound : (depth : ℕ) (role : String) → check_at depth role ≡ some true → G role
  unfolding role_has_permission
  check_sound zero role h = cc
  check_sound (suc depth) role h =
      definition-true (check_at depth) role (lookup role roles) (check_sound depth) refl h

  pub check_complete : (depth : ℕ) (role : String) → check_at depth role ≡ some false → ¬ G role
  unfolding role_has_permission
  check_complete zero role h = cc
  check_complete (suc depth) role h =
      definition-false (check_at depth) role (lookup role roles) (check_complete depth) refl h

  definition-total :
      (check : String → Option Bool) (role : String) (o : Option RoleDefinition)
      → ((def : RoleDefinition) (r : String) → o ≡ some def → Memᴰ r def.inherits → check r ≢ none)
      → check_definition check permission o ≢ none
  definition-total check role none t h = cc
  definition-total check role (some def) t h =
      any_role-total check def.inherits (λ r i. t def r refl i) (ground arith)

  pub check-total :
      (k : Ranked roles) (depth : ℕ) (role : String)
      → k.rank role < depth
      → check_at depth role ≢ none
  unfolding role_has_permission
  check-total k zero role lt = elim lt [ ]
  check-total k (suc depth) role lt =
      definition-total (check_at depth) role (lookup role roles)
        (λ def r there i. check-total k depth r (omega (arith, k.falls role def r there i)))
