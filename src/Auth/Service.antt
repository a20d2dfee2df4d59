-- ===== src/Auth/Service.antt =====
-- AuthService of auth_service.py. A method returns the tables and its result or the error it raises;
-- `fresh` is what the token factory draws, `id` a new identifier and `jti` that of an access token.
-- `digest` is the hexadecimal SHA-256 of a text, `lower` is str.lower.
use learning_system.Prelude.{
  ℕ, ◌+◌, min, Bool, false, not, ◌&&◌, ◌||◌, Option, none, some, ltb, if◌then◌else◌, length, Result,
  ok, err, ◌>>=◌, Text, is_empty, text_eq, strip, update_where,
}
use learning_system.Auth.{
  User, SessionStatus, logged_out, logged_out_all, legacy_password_activated, AuthSession,
  RefreshToken, Store, AuthError, invalid_credentials, email_already_registered, weak_password,
  invalid_display_name, registration_conflict, password_requirements, active_user_not_found,
  credentials_exist, AuthSettings, Drawn, AccessTokenClaims, AuthResult, is_some, is_active,
}
use learning_system.Auth.Cookies.{cookie_value}
use learning_system.Auth.Repository.{
  get_user_by_normalized_email, get_active_user, create_user, add_profile, create_session,
  save_refresh_token, revoke_session, revoke_all_user_sessions,
}

abbrev pub Outcome : Type 0 → Type 0
Outcome A = Store × Result AuthError A

-- A transaction that raises is rolled back.
abbrev pub settled : {A : Type 0} → Store → Result AuthError (Store × A) → Outcome A
settled s (ok (s', a)) = (s', ok a)
settled s (err e) = (s, err e)

-- except IntegrityError
abbrev pub on_conflict : {A : Type 0} → AuthError → Result AuthError A → Result AuthError A
on_conflict e (ok a) = ok a
on_conflict e (err _) = err e

-- AccessTokenCodec.issue
unfoldable pub issue : AuthSettings → User → Text → Text → ℕ → AccessTokenClaims
issue cfg u session jti now = record {
  user_id = u.id;
  session_id = session;
  role = u.role;
  token_version = u.token_version;
  token_id = jti;
  issued_at = now;
  expires_at = now + cfg.access_ttl;
}

-- _agent_hash
unfoldable pub agent_hash : (Text → Text) → Option Text → Option Text
agent_hash digest none = none
agent_hash digest (some value) = if is_empty value then none else some (digest value)

-- A new row for a refresh token.
abbrev pub new_token : (Text → Text) → Text → Option Text → ℕ → ℕ → Drawn → RefreshToken
new_token digest session parent now expires fresh = record {
  id = fresh.token_id;
  session_id = session;
  token_hash = digest fresh.secret;
  parent_token_id = parent;
  replaced_by_token_id = none;
  issued_at = now;
  expires_at = expires;
  used_at = none;
  revoked_at = none;
  reuse_detected_at = none;
}

abbrev pub result_for : AuthSettings → User → Text → Text → ℕ → Drawn → AuthResult
result_for cfg u session jti now fresh = record {
  access_token = issue cfg u session jti now;
  expires_in = cfg.access_ttl;
  user = u;
  refresh_cookie_value = cookie_value fresh;
}

-- _create_session_result.
unfoldable pub create_session_result :
    (Text → Text)
    → AuthSettings
    → Store
    → User
    → ℕ
    → Option Text
    → Text
    → Drawn
    → Text
    → Result AuthError (Store × AuthResult)
unfolding create_session save_refresh_token agent_hash
create_session_result digest cfg s u now agent id fresh jti =
    let absolute = now + cfg.refresh_absolute_ttl in
    let idle = min (now + cfg.refresh_idle_ttl) absolute in
    let a : AuthSession = record {
      id = id;
      user_id = u.id;
      status = SessionStatus.active;
      last_seen_at = now;
      idle_expires_at = idle;
      absolute_expires_at = absolute;
      revoked_at = none;
      revoke_reason = none;
      user_agent_hash = agent_hash digest agent;
    } in
    do
      s₁ ← create_session s a
      s₂ ← save_refresh_token s₁ (new_token digest id none now idle fresh)
      ok (s₂, result_for cfg u id jti now fresh)

abbrev pub with_user : Store → Text → (User → User) → Store
with_user s user f = record s { users = update_where (λ u. text_eq u.id user) f s.users }

-- The transaction of `register`.
unfoldable pub registered :
    (Text → Text)
    → AuthSettings
    → Store
    → Text
    → Text
    → Text
    → Text
    → ℕ
    → Option Text
    → Text
    → Text
    → Drawn
    → Text
    → Result AuthError (Store × AuthResult)
unfolding create_user add_profile create_session_result
registered digest cfg s email normalized display_name hash now agent user_id id fresh jti = do
  (s₁, u) ← create_user s user_id email normalized display_name hash
  let changed : User → User = λ v. record v { password_changed_at = some now }
  s₂ ← add_profile (with_user s₁ user_id changed) user_id
  create_session_result digest cfg s₂ (changed u) now agent id fresh jti

module _ (digest lower : Text → Text) (hash_password : Text → Text) (cfg : AuthSettings) where
  unfoldable pub register :
      Store → Text → Text → Text → ℕ → Option Text → Text → Text → Drawn → Text → Outcome AuthResult
  unfolding registered
  register s email password display_name now agent user_id id fresh jti =
      let normalized = lower (strip email) in
      let made =
        registered digest cfg s (strip email) normalized (strip display_name)
          (hash_password password) now agent user_id id fresh jti in
      let conflict =
        if is_some (get_user_by_normalized_email s normalized)
        then email_already_registered
        else registration_conflict in
      if is_some (get_user_by_normalized_email s normalized)
      then (s, err email_already_registered)
      else if ltb (length password) 12
      then (s, err weak_password)
      else if is_empty (strip display_name)
      then (s, err invalid_display_name)
      else settled s (on_conflict conflict made)

-- verify_or_dummy, with the third-party check of a password against a hash
abbrev pub password_matches : (Text → Text → Bool) → Text → Option Text → Bool
password_matches verify password none = false
password_matches verify password (some hash) = not (is_empty hash) && verify password hash

module _ (digest lower : Text → Text) (verify : Text → Text → Bool) (cfg : AuthSettings) where
  unfoldable pub login :
      Store → Text → Text → ℕ → Option Text → Text → Drawn → Text → Outcome AuthResult
  unfolding create_session_result
  login s email password now agent id fresh jti =
      elim (get_user_by_normalized_email s (lower (strip email))) [
        | none ↦ (s, err invalid_credentials)
        | some u ↦
            let seen : User → User = λ v. record v { last_login_at = some now } in
            if not (password_matches verify password u.password_hash) || not (is_active u)
            then (s, err invalid_credentials)
            else settled s (
                create_session_result digest cfg (with_user s u.id seen) (seen u) now agent id fresh
                  jti)
      ]

unfoldable pub set_legacy_password :
    (Text → Text) → (Text → Text) → Store → Text → Text → ℕ → Outcome Text
set_legacy_password lower hash_password s email password now =
    if ltb (length password) 12
    then (s, err password_requirements)
    else elim (get_user_by_normalized_email s (lower (strip email))) [
      | none ↦ (s, err active_user_not_found)
      | some u ↦
          let changed : User → User = λ v. record v {
            password_hash = some (hash_password password);
            password_changed_at = some now;
            token_version = v.token_version + 1;
          } in
          if not (is_active u)
          then (s, err active_user_not_found)
          else if is_some u.password_hash
          then (s, err credentials_exist)
          else (
            revoke_all_user_sessions (with_user s u.id changed) u.id legacy_password_activated now,
            ok u.id,
          )
    ]

unfoldable pub logout : Store → Option Text → ℕ → Store
unfolding revoke_session
logout s none now = s
logout s (some session) now =
    if is_empty session then s else revoke_session s session logged_out now

unfoldable pub logout_all : Store → Text → ℕ → Store
unfolding revoke_all_user_sessions get_active_user
logout_all s user now = elim (get_active_user s user) [
  | none ↦ s
  | some u ↦
      let changed : User → User = λ v. record v { token_version = v.token_version + 1 } in
      revoke_all_user_sessions (with_user s u.id changed) user logged_out_all now
]
