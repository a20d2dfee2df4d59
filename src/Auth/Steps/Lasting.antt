-- ===== src/Auth/Steps/Lasting.antt =====
-- A client that refreshes in time stays signed in.
use learning_system.Prelude.{
  ℕ, ◌+◌, ◌<◌, min, ◌≡◌, refl, sym, ap, subst, inl, inr, Bool, true, false, ◌&&◌, ◌||◌, Option,
  none, some, List, [], ◌∷◌, ◌++◌, arith, leb, ◌==◌, Bool-cases, and-parts, any, All, any-In, ok,
  Text, is_empty, text_eq, text_eq_iff, find_where, update_where, find_where-In, find-update,
  find-new,
}
use learning_system.Auth.{
  User, AuthSession, RefreshToken, Store, AuthSettings, AuthResult, Drawn, is_some, is_open,
}
use learning_system.Auth.Cookies.{cookie_value, parse-cookie_value}
use learning_system.Auth.Repository.{
  get_active_user, get_active_session, get_refresh_token, save_refresh_token,
}
use learning_system.Auth.Service.{Outcome, new_token, result_for}
use learning_system.Auth.Refresh.{presented, rotate, refresh}
use learning_system.Auth.Presented.{find-id}
use learning_system.Auth.Steps.Once.{returns}

-- What a drawn token must be: its cookie can be parsed.
pub record IsDrawn (d : Drawn) : Type 0 where
  pub no_full_stop : All (λ c. (c == 46) ≡ false) d.token_id
  pub some_id : is_empty d.token_id ≡ false
  pub some_secret : is_empty d.secret ≡ false

-- The client holds a token that can be exchanged before `idle`, in a session that ends at `absolute`.
pub record IsHeld (digest : Text → Text) (s : Store) (d : Drawn) (idle absolute : ℕ) : Type 0 where
  pub drawn : IsDrawn d
  pub token : RefreshToken
  pub session : AuthSession
  pub user : User
  pub is_token : get_refresh_token s d.token_id ≡ some token
  pub is_session : get_active_session s token.session_id ≡ some session
  pub is_user : get_active_user s session.user_id ≡ some user
  pub same_hash : text_eq (digest d.secret) token.token_hash ≡ true
  pub unused : token.used_at ≡ none
  pub valid : token.revoked_at ≡ none
  pub expires : token.expires_at ≡ idle
  pub idle_until : session.idle_expires_at ≡ idle
  pub ends : session.absolute_expires_at ≡ absolute

-- The database has neither the id nor the hash of the drawn token.
pub record IsNew (digest : Text → Text) (s : Store) (d : Drawn) : Type 0 where
  pub drawn : IsDrawn d
  pub free :
      any (λ r. text_eq r.id d.token_id || text_eq r.token_hash (digest d.secret)) s.tokens ≡ false

any_either :
    {A : Type 0} (p q : A → Bool) (xs : List A)
    → any (λ x. p x || q x) xs ≡ false
    → any p xs ≡ false
any_either p q [] h = refl
any_either p q (x ∷ xs) h = ground (arith, any_either p q xs)

differ : (k l : Text) → text_eq k l ≡ false → text_eq l k ≡ false
differ k l h = elim (Bool-cases (text_eq l k)) [
  | inr e ↦ e
  | inl e ↦ absurd (cc (h, (text_eq_iff k l).1 (sym ((text_eq_iff l k).0 e))))
]

module _ (digest : Text → Text) (cfg : AuthSettings) where
  presented-IsHeld :
      (s : Store) (d : Drawn) (idle absolute now : ℕ) (h : IsHeld digest s d idle absolute)
      → now < idle
      → now < absolute
      → presented digest s (some (cookie_value d)) now ≡ ok (h.token, h.session)
  unfolding presented
  presented-IsHeld s d idle absolute now h i a =
      let read = parse-cookie_value d h.drawn.no_full_stop h.drawn.some_id h.drawn.some_secret in
      let late : (is_some h.token.revoked_at
            || leb h.token.expires_at now
            || leb h.session.idle_expires_at now
            || leb h.session.absolute_expires_at now)
          ≡ false =
        rw (h.valid, h.expires, h.idle_until, h.ends) (ground arith) in
      rw (presented, read, h.is_token, h.same_hash, h.is_session, late) refl

  -- The tables after a token was exchanged for the drawn one.
  abbrev exchanged : Store → RefreshToken → AuthSession → Drawn → ℕ → Store
  exchanged s t a d now =
      let expiry = min (now + cfg.refresh_idle_ttl) a.absolute_expires_at in
      record s {
        tokens =
            update_where (λ r. text_eq r.id t.id)
              (λ r. record r { used_at = some now; replaced_by_token_id = some d.token_id })
              (s.tokens ++ (new_token digest a.id (some t.id) now expiry d ∷ []));
        sessions =
            update_where (λ b. text_eq b.id a.id)
              (λ b. record b { last_seen_at = now; idle_expires_at = expiry }) s.sessions;
      }

  saves :
      (s : Store) (session : Text) (a : AuthSession) (parent : Option Text) (now expiry : ℕ)
      (d : Drawn)
      → get_active_session s session ≡ some a
      → IsNew digest s d
      → save_refresh_token s (new_token digest a.id parent now expiry d)
        ≡ ok (record s { tokens = s.tokens ++ (new_token digest a.id parent now expiry d ∷ []) })
  unfolding get_active_session save_refresh_token
  saves s session a parent now expiry d f n =
      let (m, _) = find_where-In (λ b. text_eq b.id session && is_open b) s.sessions f in
      let known : any (λ b. text_eq b.id a.id) s.sessions ≡ true =
        elim (Bool-cases (any (λ b. text_eq b.id a.id) s.sessions)) [
          | inl e ↦ e
          | inr e ↦
              absurd (cc (any-In (λ b. text_eq b.id a.id) m e, (text_eq_iff a.id a.id).1 refl))
        ] in
      rw (n.free, known) refl

  refresh-exchanged :
      (s : Store) (d d' : Drawn) (agent : Option Text) (jti : Text) (idle absolute now : ℕ)
      (h : IsHeld digest s d idle absolute)
      → now < idle
      → now < absolute
      → IsNew digest s d'
      → (r : AuthResult) × (refresh digest cfg s (some (cookie_value d)) agent d' jti now
          ≡ (exchanged s h.token h.session d' now, ok r))
  unfolding refresh rotate
  refresh-exchanged s d d' agent jti idle absolute now h i a n =
      let e = presented-IsHeld s d idle absolute now h i a in
      let expiry = min (now + cfg.refresh_idle_ttl) h.session.absolute_expires_at in
      let g = saves s h.token.session_id h.session (some h.token.id) now expiry d' h.is_session n in
      (
        result_for cfg h.user h.session.id jti now d',
        rw (refresh, e, h.unused, rotate, h.is_user, g) refl,
      )

  exchanged-IsHeld :
      (s : Store) (d d' : Drawn) (idle absolute now : ℕ) (h : IsHeld digest s d idle absolute)
      → IsNew digest s d'
      → IsHeld digest
          (exchanged s h.token h.session d' now)
          d'
          (min (now + cfg.refresh_idle_ttl) absolute)
          absolute
  unfolding get_refresh_token get_active_session get_active_user
  exchanged-IsHeld s d d' idle absolute now h n =
      let a = h.session in
      let expiry = min (now + cfg.refresh_idle_ttl) a.absolute_expires_at in
      let r = new_token digest a.id (some h.token.id) now expiry d' in
      let same_as_new : RefreshToken → Bool = λ x. text_eq x.id d'.token_id in
      let unseen : any same_as_new s.tokens ≡ false = any_either same_as_new _ s.tokens n.free in
      let (m, _) = find-id s d.token_id h.is_token in
      let other : text_eq d'.token_id h.token.id ≡ false =
        differ h.token.id d'.token_id (any-In same_as_new m unseen) in
      let (_, q) =
        find_where-In (λ b. text_eq b.id h.token.session_id && is_open b) s.sessions h.is_session in
      let (own, _) = and-parts _ _ q in
      let found =
        subst (λ k. find_where (λ b. text_eq b.id k && is_open b) s.sessions ≡ some a)
          (sym ((text_eq_iff a.id h.token.session_id).0 own)) h.is_session in
      record {
        drawn = n.drawn;
        token = r;
        session = record a { last_seen_at = now; idle_expires_at = expiry };
        user = h.user;
        is_token =
            find-new same_as_new _ _ s.tokens r unseen (λ x. refl)
              ((text_eq_iff d'.token_id d'.token_id).1 refl) other;
        is_session =
            find-update _ _ _ s.sessions found (λ x. refl) ((text_eq_iff a.id a.id).1 refl);
        is_user = h.is_user;
        same_hash = (text_eq_iff (digest d'.secret) (digest d'.secret)).1 refl;
        unused = refl;
        valid = refl;
        expires = ap (λ k. min (now + cfg.refresh_idle_ttl) k) h.ends;
        idle_until = ap (λ k. min (now + cfg.refresh_idle_ttl) k) h.ends;
        ends = h.ends;
      }

-- The refreshes of a client, one after the other.
pub record Round : Type 0 where
  pub at : ℕ
  pub agent : Option Text
  pub fresh : Drawn
  pub jti : Text

module _ (digest : Text → Text) (cfg : AuthSettings) where
  pub after_round : Store → Drawn → Round → Outcome AuthResult
  after_round s d r = refresh digest cfg s (some (cookie_value d)) r.agent r.fresh r.jti r.at

  -- Every refresh with the cookie of the one before returns a result.
  pub all_return : Store → Drawn → List Round → Bool
  all_return s d [] = true
  all_return s d (r ∷ rs) =
      let later = all_return (after_round s d r).0 r.fresh rs in
      returns (after_round s d r) && later

  -- Each refresh is in time, and draws a token that the tables do not have.
  pub data IsInTime (absolute : ℕ) : Store → Drawn → ℕ → List Round → Type 0 where
    no_more : (s : Store) (d : Drawn) (idle : ℕ) → IsInTime absolute s d idle []
    one_more :
        (s : Store) (d : Drawn) (idle : ℕ) (r : Round) (rs : List Round)
        → r.at < idle
        → r.at < absolute
        → IsNew digest s r.fresh
        → IsInTime absolute
            (after_round s d r).0
            r.fresh
            (min (r.at + cfg.refresh_idle_ttl) absolute)
            rs
        → IsInTime absolute s d idle (r ∷ rs)

  -- A client that holds a valid token stays signed in for any number of refreshes, each before the idle
  -- time since the last one is over and before the session ends: every one of them returns a result,
  -- when the tokens drawn are new.
  pub in_time-all_return :
      (s : Store) (d : Drawn) (idle absolute : ℕ) (rounds : List Round)
      → IsHeld digest s d idle absolute
      → IsInTime absolute s d idle rounds
      → all_return s d rounds ≡ true
  unfolding all_return after_round
  in_time-all_return s d idle absolute [] h (no_more _ _ _) = refl
  in_time-all_return s d idle absolute (r ∷ rs) h (one_more _ _ _ _ _ i a n later) =
      let (result, e) =
        refresh-exchanged digest cfg s d r.fresh r.agent r.jti idle absolute r.at h i a n in
      let next = exchanged-IsHeld digest cfg s d r.fresh idle absolute r.at h n in
      let held =
        subst
          (λ (o : Outcome AuthResult).
            IsHeld digest o.0 r.fresh (min (r.at + cfg.refresh_idle_ttl) absolute) absolute)
          (sym e) next in
      let first : returns (after_round s d r) ≡ true = ap returns e in
      rw first (
        in_time-all_return (after_round s d r).0 r.fresh
          (min (r.at + cfg.refresh_idle_ttl) absolute) absolute rs held later)
