-- ===== src/Rbac/Handlers.antt =====
-- Who gets in by the login handler.
use universal_database_proxy.Prelude.{
  ℕ, true, String, some, ◌≡◌, sym, ◌∙◌, arith, Option-cases, inl, inr, string_eq, eq_iff,
}
use universal_database_proxy.Prelude.Int.{ℤ}
use universal_database_proxy.GoMap.{lookup}
use universal_database_proxy.Rbac.{
  User, Session, Rbac, Login, status, logged_in, login_handler, new_session, day,
}

-- A request that names an enabled user with the right password.
pub record IsAuthentic (req : Login) (rbac : Rbac) : Type 0 where
  pub post : req.is_post ≡ true
  pub username : String
  pub password : String
  pub decoded : req.body ≡ some (username, password)
  pub user : User
  pub known : lookup username rbac.users ≡ some user
  pub right : user.password ≡ password
  pub enabled : user.enabled ≡ true

logged_in-injective : {s t : Session} → logged_in s ≡ logged_in t → s ≡ t
logged_in-injective h = cc

-- A reply without a session cookie leaves users, roles and sessions as they were.
pub refused_unchanged :
    (now : ℤ) (id : String) (req : Login) (rbac : Rbac) (code : ℕ)
    → (login_handler now id req rbac).1 ≡ status code
    → (login_handler now id req rbac).0 ≡ rbac
unfolding login_handler
refused_unchanged now id req rbac code h = ground arith

-- The session that an authentic request gets.
pub authentic_logs_in :
    (now : ℤ) (id : String) (req : Login) (rbac : Rbac) (a : IsAuthentic req rbac)
    → (login_handler now id req rbac).1
      ≡ logged_in (new_session now id a.user a.username req.remote_addr day)
unfolding login_handler
authentic_logs_in now id req rbac a =
    ground
      (arith, a.post, a.decoded, a.known, a.right, a.enabled, eq_iff a.user.password a.password)

login-IsAuthentic :
    (now : ℤ) (id : String) (req : Login) (rbac : Rbac) (session : Session)
    → (login_handler now id req rbac).1 ≡ logged_in session
    → IsAuthentic req rbac
unfolding login_handler
login-IsAuthentic now id req rbac session h = elim (Option-cases req.body) [
  | inl bad ↦ ground arith
  | inr ((username, password), decoded) ↦ elim (Option-cases (lookup username rbac.users)) [
    | inl unknown ↦ ground arith
    | inr (user, known) ↦ record {
      post = ground arith;
      username = username;
      password = password;
      decoded = decoded;
      user = user;
      known = known;
      right = ground (arith, eq_iff user.password password);
      enabled = ground arith;
    }
  ]
]

-- A login gets a session exactly if the request is a POST whose body decodes to the name of an
-- enabled user and that user's password; it is then that user's session for a day. Every other
-- reply leaves users, roles and sessions as they were.
pub login_handler_iff :
    (now : ℤ) (id : String) (req : Login) (rbac : Rbac)
    → ((session : Session)
        → (login_handler now id req rbac).1 ≡ logged_in session
        → (a : IsAuthentic req rbac) × (session
            ≡ new_session now id a.user a.username req.remote_addr day))
      × ((a : IsAuthentic req rbac)
          → (login_handler now id req rbac).1
            ≡ logged_in (new_session now id a.user a.username req.remote_addr day))
      × ((code : ℕ)
          → (login_handler now id req rbac).1 ≡ status code
          → (login_handler now id req rbac).0 ≡ rbac)
login_handler_iff now id req rbac = (
  (λ session h.
      let a = login-IsAuthentic now id req rbac session h in
      (a, logged_in-injective (sym h ∙ authentic_logs_in now id req rbac a))),
  authentic_logs_in now id req rbac,
  refused_unchanged now id req rbac,
)
