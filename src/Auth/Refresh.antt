-- ===== src/Auth/Refresh.antt =====
-- `refresh` of auth_service.py: the exchange of a refresh token, and what a used one leads to.
use learning_system.Prelude.{
  ℕ, ◌+◌, ◌-◌, min, Bool, true, false, not, ◌&&◌, ◌||◌, Option, none, some, leb, if◌then◌else◌,
  Result, ok, err, ◌>>=◌, ◌>>◌, refuse, Text, text_eq, update_where,
}
use learning_system.Auth.{
  AuthSession, RefreshToken, Store, AuthError, invalid_refresh, refresh_race, naive_datetime,
  refresh_token_reuse, AuthSettings, Drawn, AuthResult, is_some,
}
use learning_system.Auth.Cookies.{parse}
use learning_system.Auth.Repository.{
  get_active_user, get_active_session, get_refresh_token, save_refresh_token, revoke_session,
}
use learning_system.Auth.Service.{Outcome, agent_hash, new_token, result_for}

abbrev pub same_hash : Option Text → Option Text → Bool
same_hash none none = true
same_hash (some h) (some k) = text_eq h k
same_hash none (some k) = false
same_hash (some h) none = false

-- if … is None: raise InvalidRefresh()
abbrev pub found {ℓ} : {A : Type ℓ} → Option A → Result AuthError A
found none = err invalid_refresh
found (some a) = ok a

-- The checks of `refresh` up to the question whether the token was used.
unfoldable pub presented :
    (Text → Text) → Store → Option Text → ℕ → Result AuthError (RefreshToken × AuthSession)
unfolding get_refresh_token get_active_session parse
presented digest s cookie now = do
  (token_id, secret) ← found (parse cookie)
  t ← found (get_refresh_token s token_id)
  refuse (not (text_eq (digest secret) t.token_hash)) invalid_refresh
  a ← found (get_active_session s t.session_id)
  refuse
      (is_some t.revoked_at
        || leb t.expires_at now
        || leb a.idle_expires_at now
        || leb a.absolute_expires_at now)
      invalid_refresh
  ok (t, a)

-- The branch for a token that was used at `used`. The source subtracts `used` as the database gave it,
-- which raises TypeError when it has no time zone.
unfoldable pub replayed :
    (Text → Text)
    → AuthSettings
    → Store
    → RefreshToken
    → AuthSession
    → ℕ
    → Option Text
    → ℕ
    → Outcome AuthResult
unfolding revoke_session agent_hash
replayed digest cfg s t a used agent now =
    if not s.keeps_zones
    then (s, err naive_datetime)
    else if leb (now - used) cfg.refresh_rotation_grace
        && same_hash (agent_hash digest agent) a.user_agent_hash
    then (s, err refresh_race)
    else (
      revoke_session
          (record s {
            tokens =
                update_where (λ r. text_eq r.id t.id)
                  (λ r. record r { reuse_detected_at = some now }) s.tokens;
          })
          a.id refresh_token_reuse now,
      err invalid_refresh,
    )

-- The branch for a token that was not used: another one takes its place.
unfoldable pub rotate :
    (Text → Text)
    → AuthSettings
    → Store
    → RefreshToken
    → AuthSession
    → Drawn
    → Text
    → ℕ
    → Outcome AuthResult
unfolding save_refresh_token get_active_user
rotate digest cfg s t a fresh jti now =
    let expiry = min (now + cfg.refresh_idle_ttl) a.absolute_expires_at in
    elim (get_active_user s a.user_id) [
      | none ↦ (s, err invalid_refresh)
      | some u ↦ elim (save_refresh_token s (new_token digest a.id (some t.id) now expiry fresh)) [
        | err e ↦ (s, err e)
        | ok s' ↦ (
          record s' {
            tokens =
                update_where (λ r. text_eq r.id t.id)
                  (λ r. record r { used_at = some now; replaced_by_token_id = some fresh.token_id })
                  s'.tokens;
            sessions =
                update_where (λ b. text_eq b.id a.id)
                  (λ b. record b { last_seen_at = now; idle_expires_at = expiry }) s'.sessions;
          },
          ok (result_for cfg u a.id jti now fresh),
        )
      ]
    ]

unfoldable pub refresh :
    (Text → Text)
    → AuthSettings
    → Store
    → Option Text
    → Option Text
    → Drawn
    → Text
    → ℕ
    → Outcome AuthResult
unfolding presented replayed rotate
refresh digest cfg s cookie agent fresh jti now = elim (presented digest s cookie now) [
  | err e ↦ (s, err e)
  | ok (t, a) ↦ elim t.used_at [
    | some used ↦ replayed digest cfg s t a used agent now
    | none ↦ rotate digest cfg s t a fresh jti now
  ]
]
