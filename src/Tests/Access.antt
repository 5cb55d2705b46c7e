-- ===== src/Tests/Access.antt =====
-- Users, roles and sessions at concrete inputs.
use mathlib.Core.List.{Memᴰ}
use universal_database_proxy.Prelude.{
  ℕ, ◌<◌, true, false, String, none, some, List, [], ◌∷◌, ◌≡◌, ◌≢◌, ◌↔◌, ◌⊎◌, inl, inr, refl, arith,
  string_eq, ◌==◌, eq_iff,
}
use universal_database_proxy.Prelude.Int.{pos, ◌+ℤ◌, ◌≤ℤ◌, ◌<ℤ◌}
use universal_database_proxy.GoMap.{GoMap, lookup}
use universal_database_proxy.Rbac.{
  User, RoleDefinition, Session, Rbac, Login, has_permission, role_has_permission, create_session,
  created, validate_session, login_handler, logged_in, status, new_session, day,
}
use universal_database_proxy.Rbac.Roles.{Ranked}
use universal_database_proxy.Rbac.Permissions.{MayUse, has_permission_iff, check_endless}
use universal_database_proxy.Rbac.Sessions.{create-validate_session}
use universal_database_proxy.Rbac.Handlers.{IsAuthentic, login_handler_iff}

abbrev ann : User
ann = record {
  id = "u1";
  username = "ann";
  password = "pw";
  roles = "lead" ∷ [];
  last_login = pos 0;
  enabled = true;
}

abbrev role_of : String → List String → List String → RoleDefinition
role_of name permissions inherits = record {
  name = name;
  permissions = permissions;
  inherits = inherits;
  description = "";
}

-- A lead may write, and has what a reader has.
abbrev two_roles : GoMap String RoleDefinition
two_roles =
    ("lead", role_of "lead" ("write" ∷ []) ("reader" ∷ []))
    ∷ ("reader", role_of "reader" ("read" ∷ []) [])
    ∷ []

abbrev team : Rbac
team = record { users = ("ann", ann) ∷ []; roles = two_roles; session_cache = [] }

abbrev rank_of : String → ℕ
rank_of role = elim (role == "lead") [ true ↦ 1 | false ↦ 0 ]

only_reader : (parent : String) → Memᴰ parent ("reader" ∷ []) → parent ≡ "reader"
only_reader parent (Memᴰ.head e) = e
only_reader parent (Memᴰ.tail i) = elim i [ ]

no_parents : (parent : String) → ¬ Memᴰ parent []
no_parents parent i = elim i [ ]

two_roles_cases :
    (role : String) (def : RoleDefinition)
    → lookup role two_roles ≡ some def
    → ((role ≡ "lead") × (def.inherits ≡ "reader" ∷ [])) ⊎ (def.inherits ≡ [])
unfolding lookup
two_roles_cases role def h = ground (arith, eq_iff "lead" role, eq_iff "reader" role)

rank_falls :
    (role : String) (def : RoleDefinition) (parent : String)
    → lookup role two_roles ≡ some def
    → Memᴰ parent def.inherits
    → rank_of parent < rank_of role
rank_falls role def parent h i = elim (two_roles_cases role def h) [
  | inl (r, d) ↦ rw (only_reader parent (rw d at i), r) (omega arith)
  | inr d ↦ absurd (no_parents parent (rw d at i))
]

ranks : Ranked two_roles
ranks = record { rank = rank_of; falls = rank_falls }

rank_small : (role : String) → rank_of role < 2
rank_small role = ground arith

has_permission_iff_example :
    (has_permission 2 "ann" "read" "orders" team ≢ none)
    × ((has_permission 2 "ann" "read" "orders" team ≡ some true) ↔ MayUse team "ann" "read")
unfolding ranks
has_permission_iff_example = has_permission_iff 2 "ann" "read" team ranks rank_small "orders"

check_endless_example :
    role_has_permission (("a", role_of "a" [] ("a" ∷ [])) ∷ []) "read" 1000 "a" ≡ none
unfolding lookup
check_endless_example =
    check_endless (("a", role_of "a" [] ("a" ∷ [])) ∷ []) "read" "a" (role_of "a" [] ("a" ∷ [])) []
      1000 refl refl refl

create-validate_session_example :
    let r = create_session (pos 5) "s1" "ann" "10.0.0.1" (pos 60) team in
    (r.1 ≡ created (new_session (pos 5) "s1" ann "ann" "10.0.0.1" (pos 60)))
    × ((pos 30 ≤ℤ pos 5 +ℤ pos 60
          → validate_session (pos 30) "s1" r.0
            ≡ (r.0, some (new_session (pos 5) "s1" ann "ann" "10.0.0.1" (pos 60))))
        × (pos 5 +ℤ pos 60 <ℤ pos 30
            → ((validate_session (pos 30) "s1" r.0).1 ≡ none)
              × (lookup "s1" (validate_session (pos 30) "s1" r.0).0.session_cache ≡ none)))
unfolding lookup
create-validate_session_example =
    create-validate_session (pos 5) "s1" "ann" "10.0.0.1" (pos 60) team ann refl (pos 30) refl

abbrev logged_in_team : Rbac
logged_in_team = record team {
  session_cache = ("s1", new_session (pos 5) "s1" ann "ann" "10.0.0.1" (pos 60)) ∷ [];
}

abbrev login : Login
login = record { is_post = true; body = some ("ann", "pw"); remote_addr = "10.0.0.1" }

login_handler_iff_example :
    ((session : Session)
      → (login_handler (pos 5) "s1" login team).1 ≡ logged_in session
      → (a : IsAuthentic login team) × (session
          ≡ new_session (pos 5) "s1" a.user a.username "10.0.0.1" day))
    × ((a : IsAuthentic login team)
        → (login_handler (pos 5) "s1" login team).1
          ≡ logged_in (new_session (pos 5) "s1" a.user a.username "10.0.0.1" day))
    × ((code : ℕ)
        → (login_handler (pos 5) "s1" login team).1 ≡ status code
        → (login_handler (pos 5) "s1" login team).0 ≡ team)
login_handler_iff_example = login_handler_iff (pos 5) "s1" login team

ann_logs_in :
    (login_handler (pos 5) "s1" login team).1
    ≡ logged_in (new_session (pos 5) "s1" ann "ann" "10.0.0.1" day)
unfolding login_handler lookup
ann_logs_in = refl
