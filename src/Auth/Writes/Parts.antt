-- ===== src/Auth/Writes/Parts.antt =====
-- The parts of the methods of AuthService keep the contract: revocation, opening a session, rotation.
use learning_system.Prelude.{
  ℕ, ◌+◌, ◌-◌, min, ◌≡◌, refl, ap, subst, inl, inr, Bool, true, false, not, ◌&&◌, ◌||◌, Option,
  none, some, List, [], ◌∷◌, ◌++◌, arith, leb, Bool-cases, Option-cases, any, In, Result, ok, err,
  >>=-eq-ok, Text, is_empty, text_eq, ok-injective, Result-cases,
}
use learning_system.Auth.{
  is_live, UserStatus, learner, refresh_token_reuse, User, AuthSession, RefreshToken, Store,
  AuthError, RevokeReason, AuthSettings, AuthResult, Drawn,
}
use learning_system.Auth.Repository.{
  create_user, add_profile, save_refresh_token, revoke_where, open_sessions, revoke_session,
  revoke_all_user_sessions, get_active_user,
}
use learning_system.Auth.Service.{
  create_session_result, registered, new_token, agent_hash, settled, on_conflict, with_user,
}
use learning_system.Auth.Refresh.{replayed, rotate, same_hash}
use learning_system.Auth.Writes.{IsUserChange, Write, Writes, done, next}

revoke_where-Writes :
    (chosen : Text → Bool) (reason : RevokeReason) (now : ℕ) (s : Store)
    → Writes s (revoke_where chosen reason now s)
unfolding revoke_where
revoke_where-Writes chosen reason now s =
    next (Write.updates_sessions s _ _ (record { same_id = λ a. refl; stays_closed = λ a h. refl }))
      (next
        (Write.updates_tokens _ _ _ (record {
          same_id = λ t. refl;
          same_session = λ t. refl;
          stays_used = λ t h. h;
          stays_revoked = λ t h. refl;
        }))
        (done _))

pub revoke_session-Writes :
    (s : Store) (session : Text) (reason : RevokeReason) (now : ℕ)
    → Writes s (revoke_session s session reason now)
unfolding revoke_session
revoke_session-Writes s session reason now =
    revoke_where-Writes (λ id. text_eq id session) reason now s

pub revoke_all-Writes :
    (s : Store) (user : Text) (reason : RevokeReason) (now : ℕ)
    → Writes s (revoke_all_user_sessions s user reason now)
unfolding revoke_all_user_sessions
revoke_all-Writes s user reason now =
    let ids = open_sessions s user in
    elim (Bool-cases (is_empty ids)) [
      | inl e ↦ rw (revoke_all_user_sessions, e) (done s)
      | inr e ↦
          rw (revoke_all_user_sessions, e)
            (revoke_where-Writes (λ id. any (λ i. text_eq i id) ids) reason now s)
    ]

pub create_session_result-Writes :
    (digest : Text → Text) (cfg : AuthSettings) (s : Store) (u : User) (now : ℕ)
    (agent : Option Text) (id : Text) (fresh : Drawn) (jti : Text) {s' : Store} {r : AuthResult}
    → create_session_result digest cfg s u now agent id fresh jti ≡ ok (s', r)
    → Writes s s'
unfolding create_session_result
create_session_result-Writes digest cfg s u now agent id fresh jti {s'} {r} h =
    let (s₁, e₁, h₁) = >>=-eq-ok _ _ h in
    let (s₂, e₂, h₂) = >>=-eq-ok _ _ h₁ in
    let last : s₂ ≡ s' = ap (λ (x : Store × AuthResult). x.0) (ok-injective h₂) in
    next (Write.opens s s₁ s₂ _ _ e₁ e₂ refl) (subst (Writes s₂) last (done s₂))

pub ok_of :
    {A : Type 0} (e : AuthError) (r : Result AuthError A) {a : A}
    → on_conflict e r ≡ ok a
    → r ≡ ok a
ok_of e (ok a) h = h
ok_of e (err x) h = absurd (cc)

-- A transaction that raises leaves the tables.
pub settled-Writes :
    {A : Type 0} (s : Store) (r : Result AuthError (Store × A))
    → ((s' : Store) (a : A) → r ≡ ok (s', a) → Writes s s')
    → Writes s (settled s r).0
settled-Writes s (ok (s', a)) h = h s' a refl
settled-Writes s (err e) h = done s

pub with_user-Write :
    (s : Store) (user : Text) (f : User → User) → IsUserChange f → Write s (with_user s user f)
with_user-Write s user f c = Write.updates_users s _ f c

any_first :
    (id email normalized : Text) (us : List User)
    → any
        (λ v. text_eq v.id id || text_eq v.email email || text_eq v.normalized_email normalized)
        us
      ≡ false
    → any (λ v. text_eq v.id id) us ≡ false
any_first id email normalized [] h = refl
any_first id email normalized (u ∷ us) h = ground (arith, any_first id email normalized us)

create_user-Write :
    (s : Store) (id email normalized name hash : Text) {s' : Store} {u : User}
    → create_user s id email normalized name hash ≡ ok (s', u)
    → Write s s'
unfolding create_user
create_user-Write s id email normalized name hash {s'} {u} h =
    let taken : User → Bool =
      λ v. text_eq v.id id || text_eq v.email email || text_eq v.normalized_email normalized in
    let made : User = record {
      id = id;
      email = email;
      normalized_email = normalized;
      display_name = name;
      status = UserStatus.active;
      password_hash = some hash;
      role = learner;
      token_version = 1;
      password_changed_at = none;
      last_login_at = none;
    } in
    elim (Bool-cases (any taken s.users)) [
      | inl e ↦ absurd (cc (h, e))
      | inr e ↦
          let whole : ◌≡◌ {A = Store × User} (record s { users = s.users ++ (made ∷ []) }, made)
              (s', u) =
            ok-injective {E = AuthError} (ground arith) in
          subst (Write s) (ap (λ (x : Store × User). x.0) whole)
            (Write.adds_user s made (any_first id email normalized s.users e))
    ]

add_profile-Write : (s : Store) (user : Text) {s' : Store} → add_profile s user ≡ ok s' → Write s s'
unfolding add_profile
add_profile-Write s user h = elim (Bool-cases (any (λ p. text_eq p user) s.profiles)) [
  | inl e ↦ absurd (cc (h, e))
  | inr e ↦
      subst (Write s) (ok-injective {E = AuthError} (ground arith))
        (Write.adds_profile s (s.profiles ++ (user ∷ [])))
]

pub registered-Writes :
    (digest : Text → Text) (cfg : AuthSettings) (s : Store) (email normalized name hash : Text)
    (now : ℕ) (agent : Option Text) (user_id id : Text) (fresh : Drawn) (jti : Text) {s' : Store}
    {r : AuthResult}
    → registered digest cfg s email normalized name hash now agent user_id id fresh jti ≡ ok (s', r)
    → Writes s s'
unfolding registered
registered-Writes digest cfg s email normalized name hash now agent user_id id fresh jti h =
    let ((s₁, u), e₁, h₁) = >>=-eq-ok _ _ h in
    let changed : User → User = λ v. record v { password_changed_at = some now } in
    let (s₂, e₂, h₂) = >>=-eq-ok _ _ h₁ in
    next (create_user-Write s user_id email normalized name hash e₁) (
      next
        (with_user-Write s₁ user_id changed
          (record { same_id = λ v. refl; grows = λ v. omega arith }))
        (next (add_profile-Write (with_user s₁ user_id changed) user_id e₂)
          (create_session_result-Writes digest cfg s₂ (changed u) now agent id fresh jti h₂)))

pub replayed-Writes :
    (digest : Text → Text) (cfg : AuthSettings) (s : Store) (t : RefreshToken) (a : AuthSession)
    (used : ℕ) (agent : Option Text) (now : ℕ)
    → Writes s (replayed digest cfg s t a used agent now).0
unfolding replayed
replayed-Writes digest cfg s t a used agent now = elim (Bool-cases (not s.keeps_zones)) [
  | inl z ↦ rw (replayed, z) (done s)
  | inr z ↦
      elim (Bool-cases (
        leb (now - used) cfg.refresh_rotation_grace
        && same_hash (agent_hash digest agent) a.user_agent_hash)) [
          | inl e ↦ rw (replayed, z, e) (done s)
          | inr e ↦
              rw (replayed, z, e)
                (next
                  (Write.updates_tokens s _ _ (record {
                    same_id = λ r. refl;
                    same_session = λ r. refl;
                    stays_used = λ r h. h;
                    stays_revoked = λ r h. h;
                  }))
                  (revoke_session-Writes _ a.id refresh_token_reuse now))
        ]
]

pub rotate-Writes :
    (digest : Text → Text) (cfg : AuthSettings) (s : Store) (t : RefreshToken) (a : AuthSession)
    (fresh : Drawn) (jti : Text) (now : ℕ)
    → In t s.tokens
    → is_live t ≡ true
    → a.id ≡ t.session_id
    → Writes s (rotate digest cfg s t a fresh jti now).0
unfolding rotate
rotate-Writes digest cfg s t a fresh jti now m live own =
    let expiry = min (now + cfg.refresh_idle_ttl) a.absolute_expires_at in
    let r = new_token digest a.id (some t.id) now expiry fresh in
    elim (Option-cases (get_active_user s a.user_id)) [
      | inl e ↦ rw (rotate, e) (done s)
      | inr (u, e) ↦ elim (Result-cases (save_refresh_token s r)) [
        | inl (x, f) ↦ rw (rotate, e, f) (done s)
        | inr (s₁, f) ↦
            rw (rotate, e, f)
              (next
                (Write.exchanges s s₁ t r _ m live own f
                  (record {
                    same_id = λ r. refl;
                    same_session = λ r. refl;
                    stays_used = λ r h. refl;
                    stays_revoked = λ r h. h;
                  })
                  (λ x. refl))
                (next
                  (Write.updates_sessions _ _ _
                    (record { same_id = λ b. refl; stays_closed = λ b h. h }))
                  (done _)))
      ]
    ]
