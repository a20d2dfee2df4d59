-- ===== src/Auth.antt =====
-- Accounts, sessions and refresh tokens: the tables of backend/app/models.py that authentication
-- writes, and the shapes of auth_service.py, jwt_codec.py and security.py. Any status of a user but
-- "active" is `inactive`. Instants and durations are in microseconds.
pub mod Repository
pub mod Cookies
pub mod Service
pub mod Refresh
pub mod Access
pub mod Presented
pub mod Writes
pub mod Steps
mod Tests
use learning_system.Prelude.{ℕ, Bool, true, false, not, ◌&&◌, Option, none, some, List, Text}

pub data UserStatus : Type 0 where
  active inactive : UserStatus

pub data Role : Type 0 where
  learner admin other_role : Role

pub record User : Type 0 where
  pub id : Text
  pub email : Text
  pub normalized_email : Text
  pub display_name : Text
  pub status : UserStatus
  pub password_hash : Option Text
  pub role : Role
  pub token_version : ℕ
  pub password_changed_at : Option ℕ
  pub last_login_at : Option ℕ

pub data SessionStatus : Type 0 where
  active revoked : SessionStatus

pub data RevokeReason : Type 0 where
  refresh_token_reuse logged_out logged_out_all legacy_password_activated : RevokeReason

pub record AuthSession : Type 0 where
  pub id : Text
  pub user_id : Text
  pub status : SessionStatus
  pub last_seen_at : ℕ
  pub idle_expires_at : ℕ
  pub absolute_expires_at : ℕ
  pub revoked_at : Option ℕ
  pub revoke_reason : Option RevokeReason
  pub user_agent_hash : Option Text

pub record RefreshToken : Type 0 where
  pub id : Text
  pub session_id : Text
  pub token_hash : Text
  pub parent_token_id : Option Text
  pub replaced_by_token_id : Option Text
  pub issued_at : ℕ
  pub expires_at : ℕ
  pub used_at : Option ℕ
  pub revoked_at : Option ℕ
  pub reuse_detected_at : Option ℕ

-- The tables; of a learner's profile, the user it belongs to. `keeps_zones` says whether the database
-- gives an instant back with its time zone, as PostgreSQL does and SQLite does not.
pub record Store : Type 0 where
  pub users : List User
  pub profiles : List Text
  pub sessions : List AuthSession
  pub tokens : List RefreshToken
  pub keeps_zones : Bool

pub data AuthError : Type 0 where
  invalid_credentials email_already_registered weak_password : AuthError
  invalid_display_name registration_conflict : AuthError
  invalid_refresh refresh_race : AuthError
  password_requirements active_user_not_found credentials_exist : AuthError
  integrity_error naive_datetime : AuthError

pub record AuthSettings : Type 0 where
  pub access_ttl : ℕ
  pub refresh_idle_ttl : ℕ
  pub refresh_absolute_ttl : ℕ
  pub refresh_rotation_grace : ℕ

-- What RefreshTokenFactory draws at random.
pub record Drawn : Type 0 where
  pub token_id : Text
  pub secret : Text

pub record AccessTokenClaims : Type 0 where
  pub user_id : Text
  pub session_id : Text
  pub role : Role
  pub token_version : ℕ
  pub token_id : Text
  pub issued_at : ℕ
  pub expires_at : ℕ

pub record AuthResult : Type 0 where
  pub access_token : AccessTokenClaims
  pub expires_in : ℕ
  pub user : User
  pub refresh_cookie_value : Text

abbrev pub is_some {ℓ} : {A : Type ℓ} → Option A → Bool
is_some none = false
is_some (some _) = true

abbrev pub is_active : User → Bool
is_active u = elim u.status [ active ↦ true | inactive ↦ false ]

abbrev pub is_open : AuthSession → Bool
is_open a = elim a.status [ active ↦ true | revoked ↦ false ]

-- A token that a refresh can still exchange, as far as its own row says.
abbrev pub is_live : RefreshToken → Bool
is_live t = not (is_some t.used_at) && not (is_some t.revoked_at)
