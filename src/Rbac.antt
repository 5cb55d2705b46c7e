-- ===== src/Rbac.antt =====
-- backend/internal/security/rbac.go: users, roles, permissions and sessions, and the handlers in
-- front of the admin API. Roles and permissions are strings. A time of the clock, a fresh session id
-- and the decoded parts of a request are arguments; user attributes, the map `permissions`, which the
-- code never reads, and the JSON bodies of the replies are left out.
pub mod Roles
pub mod Permissions
pub mod Sessions
pub mod Handlers
use universal_database_proxy.Prelude.{
  ℕ, zero, suc, Bool, true, false, not, ◌&&◌, ◌||◌, String, Option, none, some, List, [], ◌∷◌,
  if◌then◌else◌, ◌==◌, string_eq, mem,
}
use universal_database_proxy.Prelude.Int.{ℤ, pos, ◌+ℤ◌, ltb_ℤ}
use universal_database_proxy.GoMap.{GoMap, lookup, insert, delete, has}

pub record User : Type 0 where
  pub id : String
  pub username : String
  pub password : String
  pub roles : List String
  pub last_login : ℤ
  pub enabled : Bool

pub record RoleDefinition : Type 0 where
  pub name : String
  pub permissions : List String
  pub inherits : List String
  pub description : String

pub record Session : Type 0 where
  pub id : String
  pub user_id : String
  pub username : String
  pub created_at : ℤ
  pub expires_at : ℤ
  pub ip : String

pub record Rbac : Type 0 where
  pub users : GoMap String User
  pub roles : GoMap String RoleDefinition
  pub session_cache : GoMap String Session

-- `initDefaultRoles`
pub default_roles : GoMap String RoleDefinition
default_roles =
    (
      "admin",
      record {
        name = "admin";
        permissions = "read" ∷ "write" ∷ "delete" ∷ "execute" ∷ "admin" ∷ "audit" ∷ "config" ∷ [];
        inherits = [];
        description = "Full administrative access";
      },
    )
    ∷ (
      "developer",
      record {
        name = "developer";
        permissions = "read" ∷ "write" ∷ "execute" ∷ "config" ∷ [];
        inherits = [];
        description = "Developer access to read/write/config";
      },
    )
    ∷ (
      "read_only",
      record {
        name = "read_only";
        permissions = "read" ∷ [];
        inherits = [];
        description = "Read-only access";
      },
    )
    ∷ (
      "operator",
      record {
        name = "operator";
        permissions = "read" ∷ "execute" ∷ [];
        inherits = [];
        description = "Operator access for monitoring";
      },
    )
    ∷ (
      "auditor",
      record {
        name = "auditor";
        permissions = "read" ∷ "audit" ∷ [];
        inherits = [];
        description = "Auditor access for audit logs";
      },
    )
    ∷ []

-- `NewRBAC`
unfoldable pub new : Rbac
new = record { users = []; roles = default_roles; session_cache = [] }

pub data UserError : Type 0 where
  user_exists user_not_found user_disabled : UserError

-- `AddUser`
unfoldable pub add_user : User → Rbac → Rbac × Option UserError
add_user user rbac =
    if has user.username rbac.users
    then (rbac, some user_exists)
    else (record rbac { users = insert user.username user rbac.users }, none)

-- `RemoveUser`
unfoldable pub remove_user : String → Rbac → Rbac × Option UserError
remove_user username rbac =
    if has username rbac.users
    then (record rbac { users = delete username rbac.users }, none)
    else (rbac, some user_not_found)

-- `GetUser`
unfoldable pub get_user : String → Rbac → Option User
get_user username rbac = lookup username rbac.users

-- `UpdateUser`; the new roles and the new flag are `none` if the map `updates` has no such value
-- of the right type.
abbrev pub or_old {ℓ} : {A : Type ℓ} → Option A → A → A
or_old none old = old
or_old (some a) old = a

unfoldable pub update_user :
    String → Option (List String) → Option Bool → Rbac → Rbac × Option UserError
update_user username roles enabled rbac = elim (lookup username rbac.users) [
  | none ↦ (rbac, some user_not_found)
  | some user ↦ (
    record rbac {
      users =
          insert username
            (record user { roles = or_old roles user.roles; enabled = or_old enabled user.enabled })
            rbac.users;
    },
    none,
  )
]

-- The loops over roles: whether any of them passes the check. `none` is a check without an end.
unfoldable pub any_role : (String → Option Bool) → List String → Option Bool
any_role check [] = some false
any_role check (role ∷ rest) = elim (check role) [
  | none ↦ none
  | some true ↦ some true
  | some false ↦ any_role check rest
]

abbrev pub check_definition : (String → Option Bool) → String → Option RoleDefinition → Option Bool
check_definition check permission none = some false
check_definition check permission (some def) =
    if mem permission def.permissions then some true else any_role check def.inherits

-- `roleHasPermission`, with fuel for the depth of the recursion: it has no bound of its own, and
-- `none` means that it went deeper than the fuel.
unfoldable pub role_has_permission : GoMap String RoleDefinition → String → ℕ → String → Option Bool
role_has_permission roles permission zero role = none
role_has_permission roles permission (suc depth) role =
    check_definition (role_has_permission roles permission depth) permission (lookup role roles)

abbrev pub check_user : (String → Option Bool) → Option User → Option Bool
check_user check none = some false
check_user check (some user) = if not user.enabled then some false else any_role check user.roles

-- `HasPermission`; its argument `resource` is not used.
unfoldable pub has_permission : ℕ → String → String → String → Rbac → Option Bool
has_permission depth username permission resource rbac =
    check_user (role_has_permission rbac.roles permission depth) (lookup username rbac.users)

-- `CreateSession`, with the fresh id
abbrev pub new_session : ℤ → String → User → String → String → ℤ → Session
new_session now id user username ip duration = record {
  id = id;
  user_id = user.id;
  username = username;
  created_at = now;
  expires_at = now +ℤ duration;
  ip = ip;
}

pub data SessionResult : Type 0 where
  created : Session → SessionResult
  refused : UserError → SessionResult

unfoldable pub create_session : ℤ → String → String → String → ℤ → Rbac → Rbac × SessionResult
create_session now id username ip duration rbac = elim (lookup username rbac.users) [
  | none ↦ (rbac, refused user_not_found)
  | some user ↦ if not user.enabled then (rbac, refused user_disabled) else (
    record rbac {
      session_cache = insert id (new_session now id user username ip duration) rbac.session_cache;
      users = insert username (record user { last_login = now }) rbac.users;
    },
    created (new_session now id user username ip duration),
  )
]

-- `ValidateSession`
unfoldable pub validate_session : ℤ → String → Rbac → Rbac × Option Session
validate_session now session_id rbac = elim (lookup session_id rbac.session_cache) [
  | none ↦ (rbac, none)
  | some session ↦
      if ltb_ℤ session.expires_at now
      then (record rbac { session_cache = delete session_id rbac.session_cache }, none)
      else (rbac, some session)
]

-- `RevokeSession`
unfoldable pub revoke_session : String → Rbac → Rbac
revoke_session session_id rbac = record rbac {
  session_cache = delete session_id rbac.session_cache;
}

-- `AddRole`
unfoldable pub add_role : String → RoleDefinition → Rbac → Rbac
add_role role definition rbac = record rbac { roles = insert role definition rbac.roles }

-- The requests and replies of the handlers: an HTTP status, and what is set as the session cookie.
pub record Login : Type 0 where
  pub is_post : Bool
  pub body : Option (String × String)  -- `none` if the JSON does not decode
  pub remote_addr : String

pub data Reply : Type 0 where
  status : ℕ → Reply
  logged_in : Session → Reply

abbrev pub day : ℤ
day = pos 86400000000000

abbrev pub session_reply : Rbac × SessionResult → Rbac × Reply
session_reply (rbac, created session) = (rbac, logged_in session)
session_reply (rbac, refused _) = (rbac, status 500)

abbrev pub login_user : ℤ → String → String → String → String → Option User → Rbac → Rbac × Reply
login_user now id username password addr none rbac = (rbac, status 401)
login_user now id username password addr (some user) rbac =
    if not (user.password == password)
    then (rbac, status 401)
    else session_reply (create_session now id username addr day rbac)

abbrev pub login_body : ℤ → String → String → Option (String × String) → Rbac → Rbac × Reply
login_body now id addr none rbac = (rbac, status 400)
login_body now id addr (some (username, password)) rbac =
    login_user now id username password addr (get_user username rbac) rbac

-- `LoginHandler`
unfoldable pub login_handler : ℤ → String → Login → Rbac → Rbac × Reply
unfolding get_user create_session
login_handler now id req rbac =
    if not req.is_post then (rbac, status 405) else login_body now id req.remote_addr req.body rbac

-- `LogoutHandler`, with the session cookie if there is one
unfoldable pub logout_handler : Option String → Rbac → Rbac
logout_handler none rbac = rbac
logout_handler (some session_id) rbac = revoke_session session_id rbac

-- `Middleware`: the user name that it hands on, or `none` for a reply 401
abbrev pub session_user : Rbac × Option Session → Rbac × Option String
session_user (rbac, none) = (rbac, none)
session_user (rbac, some session) = (rbac, some session.username)

unfoldable pub middleware : ℤ → Option String → Rbac → Rbac × Option String
unfolding validate_session
middleware now none rbac = (rbac, none)
middleware now (some cookie) rbac = session_user (validate_session now cookie rbac)
