-- ===== src/Auth/Writes/Operations.antt =====
-- Every method of AuthService keeps the contract.
use learning_system.Prelude.{
  ℕ, refl, inl, inr, Bool, not, ◌||◌, Option, none, some, arith, ltb, Bool-cases, Option-cases,
  length, Text, is_empty, strip, Result-cases,
}
use learning_system.Auth.{
  registration_conflict, logged_out, logged_out_all, legacy_password_activated, is_active, User,
  Store, AuthSettings, Drawn, is_some,
}
use learning_system.Auth.Repository.{get_user_by_normalized_email, get_active_user}
use learning_system.Auth.Service.{
  create_session_result, registered, register, login, set_legacy_password, logout, logout_all,
  on_conflict, with_user, password_matches,
}
use learning_system.Auth.Refresh.{presented, refresh}
use learning_system.Auth.Presented.{presented-parts, find-id, session-id}
use learning_system.Auth.Writes.{Writes, done, next}
use learning_system.Auth.Writes.Parts.{
  revoke_session-Writes, revoke_all-Writes, create_session_result-Writes, ok_of, settled-Writes,
  with_user-Write, registered-Writes, replayed-Writes, rotate-Writes,
}

module _ (digest lower hash_password : Text → Text) (verify : Text → Text → Bool)
    (cfg : AuthSettings) where
  pub register-Writes :
      (s : Store) (email password name : Text) (now : ℕ) (agent : Option Text) (user_id id : Text)
      (fresh : Drawn) (jti : Text)
      → Writes s
          (register digest lower hash_password cfg s email password name now agent user_id id fresh
            jti).0
  unfolding register
  register-Writes s email password name now agent user_id id fresh jti =
      let normalized = lower (strip email) in
      let made =
        registered digest cfg s (strip email) normalized (strip name) (hash_password password) now
          agent user_id id fresh jti in
      elim (Bool-cases (is_some (get_user_by_normalized_email s normalized))) [
        | inl e ↦ rw (register, e) (done s)
        | inr e ↦ elim (Bool-cases (ltb (length password) 12)) [
          | inl f ↦ rw (register, e, f) (done s)
          | inr f ↦ elim (Bool-cases (is_empty (strip name))) [
            | inl g ↦ rw (register, e, f, g) (done s)
            | inr g ↦
                rw (register, e, f, g)
                  (settled-Writes s (on_conflict registration_conflict made) (λ s' r h.
                    registered-Writes digest cfg s (strip email) normalized (strip name)
                      (hash_password password) now agent user_id id fresh jti
                      (ok_of registration_conflict made h)))
          ]
        ]
      ]

  pub login-Writes :
      (s : Store) (email password : Text) (now : ℕ) (agent : Option Text) (id : Text)
      (fresh : Drawn) (jti : Text)
      → Writes s (login digest lower verify cfg s email password now agent id fresh jti).0
  unfolding login
  login-Writes s email password now agent id fresh jti =
      elim (Option-cases (get_user_by_normalized_email s (lower (strip email)))) [
        | inl e ↦ rw (login, e) (done s)
        | inr (u, e) ↦
            rw (login, e)
              (let seen : User → User = λ v. record v { last_login_at = some now } in
                let s₁ = with_user s u.id seen in
                elim (Bool-cases
                  (not (password_matches verify password u.password_hash) || not (is_active u))) [
                    | inl f ↦ rw f (done s)
                    | inr f ↦ rw f (
                        settled-Writes s
                          (create_session_result digest cfg s₁ (seen u) now agent id fresh jti)
                          (λ s' r h.
                            next
                              (with_user-Write s u.id seen
                                (record { same_id = λ v. refl; grows = λ v. omega arith }))
                              (create_session_result-Writes digest cfg s₁ (seen u) now agent id
                                fresh jti h)))
                  ])
      ]

  pub set_legacy_password-Writes :
      (s : Store) (email password : Text) (now : ℕ)
      → Writes s (set_legacy_password lower hash_password s email password now).0
  unfolding set_legacy_password
  set_legacy_password-Writes s email password now = elim (Bool-cases (ltb (length password) 12)) [
    | inl e ↦ rw (set_legacy_password, e) (done s)
    | inr e ↦ elim (Option-cases (get_user_by_normalized_email s (lower (strip email)))) [
      | inl f ↦ rw (set_legacy_password, e, f) (done s)
      | inr (u, f) ↦ elim (Bool-cases (is_active u)) [
        | inr g ↦ rw (set_legacy_password, e, f, g) (done s)
        | inl g ↦ elim (Bool-cases (is_some u.password_hash)) [
          | inl k ↦ rw (set_legacy_password, e, f, g, k) (done s)
          | inr k ↦
              rw (set_legacy_password, e, f, g, k)
                (next
                  (with_user-Write s u.id _
                    (record { same_id = λ v. refl; grows = λ v. omega arith }))
                  (revoke_all-Writes _ u.id legacy_password_activated now))
        ]
      ]
    ]
  ]

  pub refresh-Writes :
      (s : Store) (cookie agent : Option Text) (fresh : Drawn) (jti : Text) (now : ℕ)
      → Writes s (refresh digest cfg s cookie agent fresh jti now).0
  unfolding refresh
  refresh-Writes s cookie agent fresh jti now =
      elim (Result-cases (presented digest s cookie now)) [
        | inl (x, e) ↦ rw (refresh, e) (done s)
        | inr ((t, a), e) ↦ elim (Option-cases t.used_at) [
          | inl u ↦
              let (id, _, _, row, open_session, valid) = presented-parts digest s cookie now e in
              rw (refresh, e, u)
                (rotate-Writes digest cfg s t a fresh jti now (find-id s id row).0
                  (rw (u, valid) refl) (session-id s t.session_id open_session).1)
          | inr (used, u) ↦ rw (refresh, e, u) (replayed-Writes digest cfg s t a used agent now)
        ]
      ]

pub logout-Writes : (s : Store) (session : Option Text) (now : ℕ) → Writes s (logout s session now)
unfolding logout
logout-Writes s none now = done s
logout-Writes s (some session) now = elim (Bool-cases (is_empty session)) [
  | inl e ↦ rw (logout, e) (done s)
  | inr e ↦ rw (logout, e) (revoke_session-Writes s session logged_out now)
]

pub logout_all-Writes : (s : Store) (user : Text) (now : ℕ) → Writes s (logout_all s user now)
unfolding logout_all
logout_all-Writes s user now = elim (Option-cases (get_active_user s user)) [
  | inl e ↦ rw (logout_all, e) (done s)
  | inr (u, e) ↦
      rw (logout_all, e)
        (next (with_user-Write s u.id _ (record { same_id = λ v. refl; grows = λ v. omega arith }))
          (revoke_all-Writes _ user logged_out_all now))
]
