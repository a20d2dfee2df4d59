-- ===== src/Auth/Steps/Once.antt =====
-- A refresh token is exchanged at most once.
use learning_system.Prelude.{
  ℕ, ◌+◌, ◌-◌, min, ◌≡◌, refl, sym, ap, ◌∙◌, subst, inl, inr, Bool, true, false, not, ◌&&◌, Option,
  some, [], ◌∷◌, arith, leb, Bool-cases, Option-cases, In, ok, err, Text, text_eq, text_eq_iff,
  update_where, count_where, count-In, count-append, Result-cases,
}
use learning_system.Auth.{
  AuthSession, RefreshToken, Store, AuthSettings, AuthResult, Drawn, is_some,
}
use learning_system.Auth.Cookies.{parse}
use learning_system.Auth.Repository.{get_active_user, save_refresh_token}
use learning_system.Auth.Service.{Outcome, new_token, agent_hash}
use learning_system.Auth.Refresh.{presented, replayed, rotate, refresh, same_hash}
use learning_system.Auth.Presented.{presented-parts, find-id}
use learning_system.Auth.Steps.{Steps, Steps-Writes}
use learning_system.Auth.Steps.Settled.{IsSettled, update-settles, settled_row, IsUsedUp}
use learning_system.Auth.Steps.Kept.{save_refresh_token-parts, Writes-IsUsedUp}

-- The method returned a result.
abbrev pub returns : {A : Type 0} → Outcome A → Bool
returns (s, ok _) = true
returns (s, err _) = false

-- A refresh that takes the branch of a new token uses the old one up.
rotate-IsUsedUp :
    (digest : Text → Text) (cfg : AuthSettings) (s : Store) (t : RefreshToken) (a : AuthSession)
    (fresh : Drawn) (jti : Text) (now : ℕ)
    → In t s.tokens
    → returns (rotate digest cfg s t a fresh jti now) ≡ true
    → IsUsedUp t.id (rotate digest cfg s t a fresh jti now).0
unfolding rotate count_where
rotate-IsUsedUp digest cfg s t a fresh jti now m h =
    let expiry = min (now + cfg.refresh_idle_ttl) a.absolute_expires_at in
    let r = new_token digest a.id (some t.id) now expiry fresh in
    elim (Option-cases (get_active_user s a.user_id)) [
      | inl e ↦
          let no : returns (rotate digest cfg s t a fresh jti now) ≡ false = rw (rotate, e) refl in
          absurd (cc (h, no))
      | inr (u, e) ↦ elim (Result-cases (save_refresh_token s r)) [
        | inl (x, f) ↦
            let no : returns (rotate digest cfg s t a fresh jti now) ≡ false =
              rw (rotate, e, f) refl in
            absurd (cc (h, no))
        | inr (s₁, f) ↦
            rw (rotate, e, f)
              (let (_, _, same) = save_refresh_token-parts s r f in
                subst
                  (λ (z : Store).
                    IsSettled (λ t. t.id) t.id (λ t. not (is_some t.used_at))
                      (update_where (λ r. text_eq r.id t.id)
                        (λ r. record r {
                          used_at = some now;
                          replaced_by_token_id = some fresh.token_id;
                        })
                        z.tokens))
                  same
                  (update-settles (λ t. t.id) t.id (λ t. not (is_some t.used_at)) _ _ (λ r. refl)
                    (λ r. refl)
                    (ground (
                      arith,
                      count-append (λ t₁. text_eq t₁.id t.id) s.tokens (r ∷ []),
                      count-In (λ t₁. text_eq t₁.id t.id) m ((text_eq_iff t.id t.id).1 refl),
                    ))))
      ]
    ]

some-injective : {A : Type 0} {a b : A} → ◌≡◌ {A = Option A} (some a) (some b) → a ≡ b
some-injective h = cc

replayed_refuses :
    (digest : Text → Text) (cfg : AuthSettings) (s : Store) (t : RefreshToken) (a : AuthSession)
    (used : ℕ) (agent : Option Text) (now : ℕ)
    → returns (replayed digest cfg s t a used agent now) ≡ false
unfolding replayed
replayed_refuses digest cfg s t a used agent now = elim (Bool-cases s.keeps_zones) [
  | inr z ↦ rw (replayed, z) refl
  | inl z ↦
      elim (Bool-cases (
        leb (now - used) cfg.refresh_rotation_grace
        && same_hash (agent_hash digest agent) a.user_agent_hash)) [
          | inl e ↦ rw (replayed, z, e) refl
          | inr e ↦ rw (replayed, z, e) refl
        ]
]

refresh-IsUsedUp :
    (digest : Text → Text) (cfg : AuthSettings) (s : Store) (cookie agent : Option Text)
    (fresh : Drawn) (jti : Text) (now : ℕ)
    → returns (refresh digest cfg s cookie agent fresh jti now) ≡ true
    → (id : Text) × (secret : Text) × (parse cookie ≡ some (id, secret))
      × IsUsedUp id (refresh digest cfg s cookie agent fresh jti now).0
unfolding refresh
refresh-IsUsedUp digest cfg s cookie agent fresh jti now h =
    elim (Result-cases (presented digest s cookie now)) [
      | inl (x, e) ↦
          let no : returns (refresh digest cfg s cookie agent fresh jti now) ≡ false =
            rw (refresh, e) refl in
          absurd (cc (h, no))
      | inr ((t, a), e) ↦
          let (id, secret, c, f, _, _) = presented-parts digest s cookie now e in
          let (m, own) = find-id s id f in
          elim (Option-cases t.used_at) [
            | inr (k, u) ↦
                let no : returns (refresh digest cfg s cookie agent fresh jti now) ≡ false =
                  rw (refresh, e, u) (replayed_refuses digest cfg s t a k agent now) in
                absurd (cc (h, no))
            | inl u ↦
                let same : refresh digest cfg s cookie agent fresh jti now
                    ≡ rotate digest cfg s t a fresh jti now =
                  rw (refresh, e, u) refl in
                let used =
                  rotate-IsUsedUp digest cfg s t a fresh jti now m
                    (subst (λ (o : Outcome AuthResult). returns o ≡ true) same h) in
                (
                  id,
                  secret,
                  c,
                  subst (λ (o : Outcome AuthResult). IsUsedUp id o.0) (sym same)
                      (subst (λ i. IsUsedUp i (rotate digest cfg s t a fresh jti now).0) own used),
                )
          ]
    ]

-- A token that was used is not exchanged.
used_refuses :
    (digest : Text → Text) (cfg : AuthSettings) (s : Store) (cookie agent : Option Text)
    (fresh : Drawn) (jti : Text) (now : ℕ) (token_id secret : Text)
    → parse cookie ≡ some (token_id, secret)
    → IsUsedUp token_id s
    → returns (refresh digest cfg s cookie agent fresh jti now) ≡ false
unfolding refresh
used_refuses digest cfg s cookie agent fresh jti now token_id secret h i =
    elim (Result-cases (presented digest s cookie now)) [
      | inl (x, e) ↦ rw (refresh, e) refl
      | inr ((t, a), e) ↦
          let (id, _, c, f, _, _) = presented-parts digest s cookie now e in
          let same : id ≡ token_id = ap (λ (x : Text × Text). x.0) (some-injective (sym c ∙ h)) in
          let (m, own) = find-id s id f in
          let used =
            settled_row (λ t. t.id) token_id (λ t. not (is_some t.used_at)) s.tokens i m
              (own ∙ same) in
          elim (Option-cases t.used_at) [
            | inl u ↦ absurd (cc (used, u))
            | inr (k, u) ↦ rw (refresh, e, u) (replayed_refuses digest cfg s t a k agent now)
          ]
    ]

-- After a refresh token was exchanged, and whatever calls of the methods came after, no refresh with
-- the same cookie returns a result again.
pub exchanged_once :
    (digest lower hash_password : Text → Text) (verify : Text → Text → Bool) (cfg : AuthSettings)
    (s s' : Store) (cookie agent agent' : Option Text) (fresh fresh' : Drawn) (jti jti' : Text)
    (now now' : ℕ)
    → returns (refresh digest cfg s cookie agent fresh jti now) ≡ true
    → Steps digest lower hash_password verify cfg
        (refresh digest cfg s cookie agent fresh jti now).0
        s'
    → returns (refresh digest cfg s' cookie agent' fresh' jti' now') ≡ false
exchanged_once digest lower hash_password verify cfg s s' cookie agent agent' fresh fresh' jti jti'
      now now' h w =
    let (id, secret, e, i) = refresh-IsUsedUp digest cfg s cookie agent fresh jti now h in
    used_refuses digest cfg s' cookie agent' fresh' jti' now' id secret e
      (Writes-IsUsedUp id (Steps-Writes digest lower hash_password verify cfg w) i)
