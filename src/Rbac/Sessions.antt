-- ===== src/Rbac/Sessions.antt =====
-- The life of a session.
use universal_database_proxy.Prelude.{
  Bool, true, false, String, Option, none, some, List, ◌≡◌, ◌≢◌, refl, arith, if◌then◌else◌,
  string_eq, eq_iff, beq_refl,
}
use universal_database_proxy.Prelude.Int.{ℤ, ltb_ℤ, ◌+ℤ◌, ◌≤ℤ◌, ◌<ℤ◌}
use universal_database_proxy.GoMap.{lookup, insert}
use universal_database_proxy.GoMap.Laws.{lookup-insert, lookup-delete}
use universal_database_proxy.Rbac.{
  User, Session, Rbac, create_session, created, refused, user_disabled, new_session,
  validate_session, revoke_session, remove_user, update_user, logout_handler,
}

-- A session that has not expired.
abbrev live : ℤ → Option Session → Option Session
live now none = none
live now (some session) = if ltb_ℤ session.expires_at now then none else some session

cached_session :
    (now : ℤ) (id : String) (rbac : Rbac) (session : Session)
    → lookup id rbac.session_cache ≡ some session
    → (now ≤ℤ session.expires_at → validate_session now id rbac ≡ (rbac, some session))
      × (session.expires_at <ℤ now
          → ((validate_session now id rbac).1 ≡ none)
            × (lookup id (validate_session now id rbac).0.session_cache ≡ none))
unfolding validate_session
cached_session now id rbac session there = (
  (λ live. ground arith),
  (λ late. ground (arith, lookup-delete id id rbac.session_cache, beq_refl {A = String} id)),
)

module _ (now : ℤ) (id username ip : String) (duration : ℤ) (rbac : Rbac) (user : User)
    (known : lookup username rbac.users ≡ some user) where
  abbrev session : Session
  session = new_session now id user username ip duration

  -- The state after the login.
  abbrev session_state : Rbac
  session_state = record rbac {
    session_cache = insert id session rbac.session_cache;
    users = insert username (record user { last_login = now }) rbac.users;
  }

  create_session-enabled :
      user.enabled ≡ true
      → create_session now id username ip duration rbac ≡ (session_state, created session)
  unfolding create_session
  create_session-enabled on = ground arith

  cached : lookup id session_state.session_cache ≡ some session
  cached = simp (lookup-insert, beq_refl)

  -- An enabled user gets a session, and the session is valid until `duration` after the login, and
  -- at the first check after that it is refused and removed.
  pub create-validate_session :
      (later : ℤ)
      → user.enabled ≡ true
      → let r = create_session now id username ip duration rbac in
        (r.1 ≡ created session)
        × ((later ≤ℤ now +ℤ duration → validate_session later id r.0 ≡ (r.0, some session))
            × (now +ℤ duration <ℤ later
                → ((validate_session later id r.0).1 ≡ none)
                  × (lookup id (validate_session later id r.0).0.session_cache ≡ none)))
  create-validate_session later on =
      rw (create_session-enabled on) (refl, cached_session later id session_state session cached)

  -- A disabled user gets no session, and nothing changes.
  pub create_session-disabled :
      user.enabled ≡ false
      → create_session now id username ip duration rbac ≡ (rbac, refused user_disabled)
  unfolding create_session
  create_session-disabled off = ground arith

-- What `validate_session` says is read off the cache of sessions.
live_session :
    (now : ℤ) (id : String) (rbac : Rbac)
    → (validate_session now id rbac).1 ≡ live now (lookup id rbac.session_cache)
unfolding validate_session
live_session now id rbac = ground arith

-- Taking a user's account away, or disabling it, leaves the user's sessions valid: every session is
-- accepted exactly as before.
pub sessions_outlive_user :
    (now : ℤ) (id username : String) (roles : Option (List String)) (enabled : Option Bool)
    (rbac : Rbac)
    → ((validate_session now id (remove_user username rbac).0).1 ≡ (validate_session now id rbac).1)
      × ((validate_session now id (update_user username roles enabled rbac).0).1
          ≡ (validate_session now id rbac).1)
unfolding remove_user update_user
sessions_outlive_user now id username roles enabled rbac =
    simp live_session (ground arith, ground arith)

-- Logging out ends the session for good, and no other session.
pub validate-revoke_session :
    (now : ℤ) (id other : String) (rbac : Rbac)
    → ((validate_session now id (logout_handler (some id) rbac)).1 ≡ none)
      × (other ≢ id
          → (validate_session now other (logout_handler (some id) rbac)).1
            ≡ (validate_session now other rbac).1)
unfolding logout_handler revoke_session
validate-revoke_session now id other rbac =
    simp (live_session, lookup-delete, beq_refl) (refl, λ ne. ground (arith, eq_iff id other))
