-- ===== src/Auth/Access.antt =====
-- `get_current_principal` of backend/app/api/deps.py, after the access token was decoded.
use learning_system.Prelude.{
  ℕ, not, ◌||◌, Option, none, some, leb, ◌==◌, if◌then◌else◌, Text, text_eq,
}
use learning_system.Auth.{Role, other_role, learner, admin, Store, AccessTokenClaims}
use learning_system.Auth.Repository.{get_active_user, get_active_session}

pub record Principal : Type 0 where
  pub user_id : Text
  pub session_id : Text
  pub role : Role
  pub token_version : ℕ

abbrev known_role : Role → Role
known_role learner = learner
known_role admin = admin
known_role other_role = learner

-- `none` is the answer 401.
unfoldable pub get_current_principal : Store → AccessTokenClaims → ℕ → Option Principal
unfolding get_active_user get_active_session
get_current_principal s claims now = elim (get_active_user s claims.user_id) [
  | none ↦ none
  | some u ↦ elim (get_active_session s claims.session_id) [
    | none ↦ none
    | some a ↦
        if not (text_eq a.user_id u.id)
          || leb a.idle_expires_at now
          || leb a.absolute_expires_at now
          || not (u.token_version == claims.token_version)
        then none
        else some (record {
          user_id = u.id;
          session_id = a.id;
          role = known_role u.role;
          token_version = u.token_version;
        })
  ]
]
