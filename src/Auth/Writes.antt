-- ===== src/Auth/Writes.antt =====
-- The contract of authentication with its tables: the only ways in which rows change. Used and revoked
-- tokens stay so, a closed session stays closed, and the version of a user never falls.
pub mod Parts
pub mod Operations
use learning_system.Prelude.{
  ◌+◌, ◌-◌, ◌≤◌, ◌≡◌, Bool, true, false, List, [], ◌∷◌, ◌++◌, any, In, ok, Text, text_eq,
  update_where,
}
use learning_system.Auth.{
  User, AuthSession, RefreshToken, Store, AuthError, is_some, is_open, is_live,
}
use learning_system.Auth.Repository.{create_session, save_refresh_token}

-- A change of a row that keeps what is settled.
pub record IsTokenChange (f : RefreshToken → RefreshToken) : Type 0 where
  pub same_id : (t : RefreshToken) → (f t).id ≡ t.id
  pub same_session : (t : RefreshToken) → (f t).session_id ≡ t.session_id
  pub stays_used : (t : RefreshToken) → is_some t.used_at ≡ true → is_some (f t).used_at ≡ true
  pub stays_revoked :
      (t : RefreshToken) → is_some t.revoked_at ≡ true → is_some (f t).revoked_at ≡ true

pub record IsSessionChange (f : AuthSession → AuthSession) : Type 0 where
  pub same_id : (a : AuthSession) → (f a).id ≡ a.id
  pub stays_closed : (a : AuthSession) → is_open a ≡ false → is_open (f a) ≡ false

pub record IsUserChange (f : User → User) : Type 0 where
  pub same_id : (u : User) → (f u).id ≡ u.id
  pub grows : (u : User) → u.token_version ≤ (f u).token_version

abbrev pub user_taken : Text → List User → Bool
user_taken id users = any (λ u. text_eq u.id id) users

pub data Write : Store → Store → Type 0 where
  adds_user :
      (s : Store) (u : User)
      → user_taken u.id s.users ≡ false
      → Write s (record s { users = s.users ++ (u ∷ []) })
  adds_profile : (s : Store) (ps : List Text) → Write s (record s { profiles = ps })
  -- A new session with its first token.
  opens :
      (s s₁ s₂ : Store) (a : AuthSession) (t : RefreshToken)
      → create_session s a ≡ ok s₁
      → save_refresh_token s₁ t ≡ ok s₂
      → t.session_id ≡ a.id
      → Write s s₂
  -- A token that is used up for another one of its session.
  exchanges :
      (s s₁ : Store) (t r : RefreshToken) (f : RefreshToken → RefreshToken)
      → In t s.tokens
      → is_live t ≡ true
      → r.session_id ≡ t.session_id
      → save_refresh_token s r ≡ ok s₁
      → IsTokenChange f
      → ((x : RefreshToken) → is_some (f x).used_at ≡ true)
      → Write s (record s₁ { tokens = update_where (λ x. text_eq x.id t.id) f s₁.tokens })
  updates_users :
      (s : Store) (p : User → Bool) (f : User → User)
      → IsUserChange f
      → Write s (record s { users = update_where p f s.users })
  updates_sessions :
      (s : Store) (p : AuthSession → Bool) (f : AuthSession → AuthSession)
      → IsSessionChange f
      → Write s (record s { sessions = update_where p f s.sessions })
  updates_tokens :
      (s : Store) (p : RefreshToken → Bool) (f : RefreshToken → RefreshToken)
      → IsTokenChange f
      → Write s (record s { tokens = update_where p f s.tokens })

pub data Writes : Store → Store → Type 0 where
  done : (s : Store) → Writes s s
  next : {s s' s'' : Store} → Write s s' → Writes s' s'' → Writes s s''

pub Writes-trans : {s s' s'' : Store} → Writes s s' → Writes s' s'' → Writes s s''
Writes-trans (done s) v = v
Writes-trans (next w ws) v = next w (Writes-trans ws v)

-- What one write keeps, any number of writes keeps.
pub Writes-keeps :
    (P : Store → Type 0) {s s' : Store}
    → ((r r' : Store) → Write r r' → P r → P r')
    → Writes s s'
    → P s
    → P s'
Writes-keeps P keep (done s) h = h
Writes-keeps P keep (next w ws) h = Writes-keeps P keep ws (keep _ _ w h)
