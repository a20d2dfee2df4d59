-- ===== src/Auth/Steps/Ended.antt =====
-- What ends a session ends it for good: the reuse of a token, and the two ways to log out.
use learning_system.Prelude.{
  ℕ, ◌+◌, ◌≤◌, ◌<◌, ◌≡◌, refl, sym, ap, ◌∙◌, subst, inl, inr, Bool, true, false, ◌&&◌, Option, none,
  some, arith, leb, ◌==◌, Bool-cases, Option-cases, and-parts, In, err, Text, is_empty, text_eq,
  text_eq_iff, find_where, update_where, count_where, find_where-In, count-none, count-In,
  count-update_eq, In-update, only_row,
}
use learning_system.Auth.{
  invalid_refresh, RevokeReason, logged_out, logged_out_all, User, AuthSession, RefreshToken, Store,
  AuthSettings, AccessTokenClaims, Drawn, is_open, is_active,
}
use learning_system.Auth.Cookies.{parse}
use learning_system.Auth.Access.{get_current_principal}
use learning_system.Auth.Repository.{
  get_active_user, get_active_session, get_refresh_token, revoke_where, revoke_session,
  revoke_all_user_sessions,
}
use learning_system.Auth.Service.{logout, logout_all, with_user}
use learning_system.Auth.Refresh.{presented, refresh}
use learning_system.Auth.Writes.Parts.{revoke_all-Writes}
use learning_system.Auth.Steps.{Steps, Steps-Writes}
use learning_system.Auth.Steps.Settled.{
  update-settles, settled_row, settled_none, IsClosed, IsOutdated,
}
use learning_system.Auth.Steps.Kept.{Writes-IsClosed, Writes-IsOutdated}

-- The session neither takes an access token nor exchanges a refresh token.
pub record IsEnded (digest : Text → Text) (cfg : AuthSettings) (session : Text) (s : Store)
    : Type 0 where
  pub no_access :
      (claims : AccessTokenClaims) (now : ℕ)
      → claims.session_id ≡ session
      → get_current_principal s claims now ≡ none
  pub no_refresh :
      (cookie agent : Option Text) (fresh : Drawn) (jti : Text) (now : ℕ) (id secret : Text)
      (t : RefreshToken)
      → parse cookie ≡ some (id, secret)
      → get_refresh_token s id ≡ some t
      → t.session_id ≡ session
      → refresh digest cfg s cookie agent fresh jti now ≡ (s, err invalid_refresh)

closed_session :
    (s : Store) (session : Text) → IsClosed session s → get_active_session s session ≡ none
unfolding get_active_session
closed_session s session i =
    settled_none (λ a. a.id) session is_open (λ a. text_eq a.id session && is_open a) s.sessions i
      (λ a e. e)

IsClosed-IsEnded :
    (digest : Text → Text) (cfg : AuthSettings) (session : Text) (s : Store)
    → IsClosed session s
    → IsEnded digest cfg session s
unfolding get_current_principal refresh presented
IsClosed-IsEnded digest cfg session s i = record {
  no_access = λ claims now e.
      let gone : get_active_session s claims.session_id ≡ none =
        subst (λ k. get_active_session s k ≡ none) (sym e) (closed_session s session i) in
      elim (Option-cases (get_active_user s claims.user_id)) [
        | inl f ↦ rw (get_current_principal, f) refl
        | inr (u, f) ↦ rw (get_current_principal, f, gone) refl
      ];
  no_refresh = λ cookie agent fresh jti now id secret t e f g.
      let gone : get_active_session s t.session_id ≡ none =
        subst (λ k. get_active_session s k ≡ none) (sym g) (closed_session s session i) in
      let no : presented digest s cookie now ≡ err invalid_refresh =
        elim (Bool-cases (text_eq (digest secret) t.token_hash)) [
          | inl h ↦ rw (presented, e, f, h, gone) refl
          | inr h ↦ rw (presented, e, f, h) refl
        ] in
      rw (refresh, no) refl;
}

revoke_where-IsClosed :
    (session : Text) (reason : RevokeReason) (now : ℕ) (s : Store)
    → 0 < count_where (λ a. text_eq a.id session) s.sessions
    → IsClosed session (revoke_session s session reason now)
unfolding revoke_session revoke_where
revoke_where-IsClosed session reason now s n =
    update-settles (λ a. a.id) session is_open _ s.sessions (λ a. refl) (λ a. refl) n

-- Logging out of a session that exists ends it, whatever calls of the methods come later.
pub logout-IsEnded :
    (digest lower hash_password : Text → Text) (verify : Text → Text → Bool) (cfg : AuthSettings)
    (s s' : Store) (session : Text) (a : AuthSession) (now : ℕ)
    → is_empty session ≡ false
    → In a s.sessions
    → a.id ≡ session
    → Steps digest lower hash_password verify cfg (logout s (some session) now) s'
    → IsEnded digest cfg session s'
unfolding logout
logout-IsEnded digest lower hash_password verify cfg s s' session a now e m same w =
    let closed =
      revoke_where-IsClosed session logged_out now s
        (count-In (λ b. text_eq b.id session) m ((text_eq_iff a.id session).1 same)) in
    IsClosed-IsEnded digest cfg session s' (
      Writes-IsClosed session (Steps-Writes digest lower hash_password verify cfg w)
        (rw (logout, e) closed))

outdated_refuses :
    (s : Store) (claims : AccessTokenClaims) (now version : ℕ)
    → IsOutdated claims.user_id version s
    → claims.token_version ≤ version
    → get_current_principal s claims now ≡ none
unfolding get_current_principal get_active_user
outdated_refuses s claims now version i v = elim (Option-cases (get_active_user s claims.user_id)) [
  | inl e ↦ rw (get_current_principal, e) refl
  | inr (u, e) ↦ elim (Option-cases (get_active_session s claims.session_id)) [
    | inl f ↦ rw (get_current_principal, e, f) refl
    | inr (a, f) ↦
        let (m, h) = find_where-In (λ x. text_eq x.id claims.user_id && is_active x) s.users e in
        let (own, _) = and-parts _ _ h in
        let above =
          settled_row (λ x. x.id) claims.user_id (λ x. leb x.token_version version) s.users i m
            ((text_eq_iff u.id claims.user_id).0 own) in
        let differs : (u.token_version == claims.token_version) ≡ false = ground arith in
        rw (get_current_principal, e, f, differs) (ground arith)
  ]
]

raised-IsOutdated :
    (s : Store) (u : User) (f : User → User)
    → ((x : User) → (f x).id ≡ x.id)
    → ((x : User) → (f x).token_version ≡ x.token_version + 1)
    → In u s.users
    → count_where (λ v. text_eq v.id u.id) s.users ≤ 1
    → IsOutdated u.id u.token_version (with_user s u.id f)
raised-IsOutdated s u f same raised m one =
    let own = (text_eq_iff u.id u.id).1 refl in
    let after = update_where (λ v. text_eq v.id u.id) f s.users in
    let low : User → Bool = λ v. text_eq v.id u.id && leb v.token_version u.token_version in
    let none_low : count_where low after ≡ 0 = elim (Option-cases (find_where low after)) [
      | inl e ↦ count-none low after e
      | inr (v, e) ↦
          let (n, l) = find_where-In low after e in
          let (id_of_v, small) =
            and-parts (text_eq v.id u.id) (leb v.token_version u.token_version) l in
          let (b, o, c) = In-update (λ v. text_eq v.id u.id) f s.users n in
          elim c [
            | inl (hit, from) ↦
                let this : b ≡ u = only_row (λ v. text_eq v.id u.id) s.users one o m hit own in
                let grown : v.token_version ≡ u.token_version + 1 =
                  ap (λ (x : User). x.token_version) from
                  ∙ raised b
                  ∙ ap (λ (x : User). x.token_version + 1) this in
                absurd (ground arith)
            | inr (miss, from) ↦
                let hit = subst (λ (x : User). text_eq x.id u.id ≡ true) from id_of_v in
                absurd (cc (miss, hit))
          ]
    ] in
    record {
      present = omega (
        arith,
        count-In (λ v. text_eq v.id u.id) m own,
        count-update_eq (λ v. text_eq v.id u.id) (λ v. text_eq v.id u.id) f s.users
            (λ x h. ap (λ k. text_eq k u.id) (same x)),
      );
      none_bad = none_low;
    }

-- When the id of an active user is unique, logging out everywhere makes every access token of the user
-- worthless whose version is at most the current one, whatever calls of the methods come later.
pub logout_all-refuses :
    (digest lower hash_password : Text → Text) (verify : Text → Text → Bool) (cfg : AuthSettings)
    (s s' : Store) (user : Text) (u : User) (now now' : ℕ) (claims : AccessTokenClaims)
    → get_active_user s user ≡ some u
    → count_where (λ v. text_eq v.id user) s.users ≤ 1
    → claims.user_id ≡ user
    → claims.token_version ≤ u.token_version
    → Steps digest lower hash_password verify cfg (logout_all s user now) s'
    → get_current_principal s' claims now' ≡ none
unfolding logout_all get_current_principal
logout_all-refuses digest lower hash_password verify cfg s s' user u now now' claims f one e v w =
    let version = u.token_version in
    let changed : User → User = λ x. record x { token_version = x.token_version + 1 } in
    let (m, mine) = find_where-In (λ x. text_eq x.id user && is_active x) s.users f in
    let (own, _) = and-parts _ _ mine in
    let this = (text_eq_iff u.id user).0 own in
    let start =
      subst (λ k. IsOutdated k version (with_user s u.id changed)) this
        (raised-IsOutdated s u changed (λ x. refl) (λ x. refl) m
          (subst (λ k. count_where (λ v. text_eq v.id k) s.users ≤ 1) (sym this) one)) in
    let after : logout_all s user now
        ≡ revoke_all_user_sessions (with_user s u.id changed) user logged_out_all now =
      rw (logout_all, f) refl in
    let there =
      Writes-IsOutdated user version
        (revoke_all-Writes (with_user s u.id changed) user logged_out_all now) start in
    let still =
      Writes-IsOutdated user version (Steps-Writes digest lower hash_password verify cfg w)
        (subst (IsOutdated user version) (sym after) there) in
    outdated_refuses s' claims now' version (subst (λ k. IsOutdated k version s') (sym e) still) v
