-- ===== src/Auth/Repository.antt =====
-- AuthRepository of auth_repository.py. An insert raises an IntegrityError where the
-- database refuses the row.
use learning_system.Prelude.{
  ℕ, Bool, not, ◌&&◌, ◌||◌, Option, none, some, List, [], ◌∷◌, ◌++◌, map, if◌then◌else◌, any,
  filter_by, Result, ok, err, Text, is_empty, text_eq, find_where, update_where,
}
use learning_system.Auth.{
  AuthError, integrity_error, active, learner, User, revoked, RevokeReason, AuthSession,
  RefreshToken, Store, is_some, is_active, is_open,
}

unfoldable pub get_user_by_normalized_email : Store → Text → Option User
get_user_by_normalized_email s email = find_where (λ u. text_eq u.normalized_email email) s.users

unfoldable pub get_active_user : Store → Text → Option User
get_active_user s user = find_where (λ u. text_eq u.id user && is_active u) s.users

unfoldable pub get_active_session : Store → Text → Option AuthSession
get_active_session s session = find_where (λ a. text_eq a.id session && is_open a) s.sessions

unfoldable pub get_refresh_token : Store → Text → Option RefreshToken
get_refresh_token s token = find_where (λ t. text_eq t.id token) s.tokens

-- The primary key, and the unique columns for the e-mail address.
unfoldable pub create_user :
    Store → Text → Text → Text → Text → Text → Result AuthError (Store × User)
create_user s id email normalized display_name password_hash =
    let u : User = record {
      id = id;
      email = email;
      normalized_email = normalized;
      display_name = display_name;
      status = active;
      password_hash = some password_hash;
      role = learner;
      token_version = 1;
      password_changed_at = none;
      last_login_at = none;
    } in
    let taken =
      any (λ v. text_eq v.id id || text_eq v.email email || text_eq v.normalized_email normalized)
        s.users in
    if taken then err integrity_error else ok (record s { users = s.users ++ (u ∷ []) }, u)

-- LearnerProfile(user_id=user.id)
unfoldable pub add_profile : Store → Text → Result AuthError Store
add_profile s user =
    if any (λ p. text_eq p user) s.profiles
    then err integrity_error
    else ok (record s { profiles = s.profiles ++ (user ∷ []) })

-- The primary key, and the foreign key to the user.
unfoldable pub create_session : Store → AuthSession → Result AuthError Store
create_session s a =
    if any (λ b. text_eq b.id a.id) s.sessions || not (any (λ u. text_eq u.id a.user_id) s.users)
    then err integrity_error
    else ok (record s { sessions = s.sessions ++ (a ∷ []) })

-- The primary key, the unique hash, and the foreign key to the session.
unfoldable pub save_refresh_token : Store → RefreshToken → Result AuthError Store
save_refresh_token s t =
    if any (λ r. text_eq r.id t.id || text_eq r.token_hash t.token_hash) s.tokens
      || not (any (λ a. text_eq a.id t.session_id) s.sessions)
    then err integrity_error
    else ok (record s { tokens = s.tokens ++ (t ∷ []) })

-- The two UPDATE statements of a revocation.
unfoldable pub revoke_where : (Text → Bool) → RevokeReason → ℕ → Store → Store
revoke_where chosen reason now s = record s {
  sessions =
      update_where (λ a. chosen a.id)
        (λ a. record a { status = revoked; revoked_at = some now; revoke_reason = some reason })
        s.sessions;
  tokens =
      update_where (λ t. chosen t.session_id && not (is_some t.revoked_at))
        (λ t. record t { revoked_at = some now }) s.tokens;
}

unfoldable pub revoke_session : Store → Text → RevokeReason → ℕ → Store
unfolding revoke_where
revoke_session s session reason now = revoke_where (λ id. text_eq id session) reason now s

-- SELECT id WHERE user_id AND status = 'active'
unfoldable pub open_sessions : Store → Text → List Text
open_sessions s user =
    map (λ a. a.id) (filter_by (λ a. text_eq a.user_id user && is_open a) s.sessions)

unfoldable pub revoke_all_user_sessions : Store → Text → RevokeReason → ℕ → Store
unfolding revoke_where open_sessions
revoke_all_user_sessions s user reason now =
    let ids = open_sessions s user in
    if is_empty ids then s else revoke_where (λ id. any (λ i. text_eq i id) ids) reason now s
