-- ===== src/Auth/Steps/Kept.antt =====
-- Every write, and so every call of a method, keeps what is settled.
use learning_system.Prelude.{
  ℕ, ◌≡◌, subst, inl, inr, Bool, true, false, not, ◌||◌, List, [], ◌∷◌, ◌++◌, arith, leb,
  Bool-cases, any, ok, Text, text_eq, ok-injective, update_where,
}
use learning_system.Auth.{AuthSession, RefreshToken, Store, AuthError, is_some, is_open}
use learning_system.Auth.Repository.{create_session, save_refresh_token}
use learning_system.Auth.Writes.{IsTokenChange, Write, Writes, Writes-keeps}
use learning_system.Auth.Steps.Settled.{
  IsSettled, IsSettled-snoc, IsSettled-update, IsUsedUp, IsClosed, IsOutdated,
}

pub create_session-parts :
    (s : Store) (a : AuthSession) {s' : Store}
    → create_session s a ≡ ok s'
    → (any (λ b. text_eq b.id a.id) s.sessions ≡ false)
      × (record s { sessions = s.sessions ++ (a ∷ []) } ≡ s')
unfolding create_session
create_session-parts s a h =
    let taken = any (λ b. text_eq b.id a.id) s.sessions in
    let orphan = not (any (λ u. text_eq u.id a.user_id) s.users) in
    elim (Bool-cases (taken || orphan)) [
      | inl e ↦ absurd (cc (h, e))
      | inr e ↦ (ground arith, ok-injective {E = AuthError} (ground arith))
    ]

pub save_refresh_token-parts :
    (s : Store) (t : RefreshToken) {s' : Store}
    → save_refresh_token s t ≡ ok s'
    → (any (λ r. text_eq r.id t.id || text_eq r.token_hash t.token_hash) s.tokens ≡ false)
      × (any (λ a. text_eq a.id t.session_id) s.sessions ≡ true)
      × (record s { tokens = s.tokens ++ (t ∷ []) } ≡ s')
unfolding save_refresh_token
save_refresh_token-parts s t h =
    let taken = any (λ r. text_eq r.id t.id || text_eq r.token_hash t.token_hash) s.tokens in
    let orphan = not (any (λ a. text_eq a.id t.session_id) s.sessions) in
    elim (Bool-cases (taken || orphan)) [
      | inl e ↦ absurd (cc (h, e))
      | inr e ↦ (ground arith, ground arith, ok-injective {E = AuthError} (ground arith))
    ]

either : (a b : Bool) → a ≡ true → (a || b) ≡ true
either a b h = ground arith

add_session-IsUsedUp :
    (id : Text) (s : Store) (a : AuthSession) {s' : Store}
    → create_session s a ≡ ok s'
    → IsUsedUp id s
    → IsUsedUp id s'
add_session-IsUsedUp id s a h i = subst (IsUsedUp id) (create_session-parts s a h).1 i

add_token-IsUsedUp :
    (id : Text) (s : Store) (t : RefreshToken) {s' : Store}
    → save_refresh_token s t ≡ ok s'
    → IsUsedUp id s
    → IsUsedUp id s'
add_token-IsUsedUp id s t h i =
    let (free, _, same) = save_refresh_token-parts s t h in
    subst (IsUsedUp id) same (
      IsSettled-snoc (λ t. t.id) id (λ t. not (is_some t.used_at)) _ t s.tokens
        (λ r e. either _ _ e) free i)

change-IsUsedUp :
    (id : Text) (p : RefreshToken → Bool) (f : RefreshToken → RefreshToken) (ts : List RefreshToken)
    → IsTokenChange f
    → IsSettled (λ t. t.id) id (λ t. not (is_some t.used_at)) ts
    → IsSettled (λ t. t.id) id (λ t. not (is_some t.used_at)) (update_where p f ts)
change-IsUsedUp id p f ts c i =
    IsSettled-update (λ t. t.id) id (λ t. not (is_some t.used_at)) p f ts c.same_id
      (λ t e. ground (arith, c.stays_used t)) i

Write-IsUsedUp : (id : Text) (s s' : Store) → Write s s' → IsUsedUp id s → IsUsedUp id s'
Write-IsUsedUp id s s' (Write.adds_user _ u h) i = i
Write-IsUsedUp id s s' (Write.adds_profile _ ps) i = i
Write-IsUsedUp id s s' (Write.opens _ s₁ _ a t h k e) i =
    add_token-IsUsedUp id s₁ t k (add_session-IsUsedUp id s a h i)
Write-IsUsedUp id s s' (Write.exchanges _ s₁ t r f m live e h c u) i =
    change-IsUsedUp id _ f s₁.tokens c (add_token-IsUsedUp id s r h i)
Write-IsUsedUp id s s' (Write.updates_users _ p f c) i = i
Write-IsUsedUp id s s' (Write.updates_sessions _ p f c) i = i
Write-IsUsedUp id s s' (Write.updates_tokens _ p f c) i = change-IsUsedUp id p f s.tokens c i

add_session-IsClosed :
    (id : Text) (s : Store) (a : AuthSession) {s' : Store}
    → create_session s a ≡ ok s'
    → IsClosed id s
    → IsClosed id s'
add_session-IsClosed id s a h i =
    let (free, same) = create_session-parts s a h in
    subst (IsClosed id) same
      (IsSettled-snoc (λ a. a.id) id is_open _ a s.sessions (λ b e. e) free i)

add_token-IsClosed :
    (id : Text) (s : Store) (t : RefreshToken) {s' : Store}
    → save_refresh_token s t ≡ ok s'
    → IsClosed id s
    → IsClosed id s'
add_token-IsClosed id s t h i = subst (IsClosed id) (save_refresh_token-parts s t h).2 i

Write-IsClosed : (id : Text) (s s' : Store) → Write s s' → IsClosed id s → IsClosed id s'
Write-IsClosed id s s' (Write.adds_user _ u h) i = i
Write-IsClosed id s s' (Write.adds_profile _ ps) i = i
Write-IsClosed id s s' (Write.opens _ s₁ _ a t h k e) i =
    add_token-IsClosed id s₁ t k (add_session-IsClosed id s a h i)
Write-IsClosed id s s' (Write.exchanges _ s₁ t r f m live e h c u) i = add_token-IsClosed id s r h i
Write-IsClosed id s s' (Write.updates_users _ p f c) i = i
Write-IsClosed id s s' (Write.updates_tokens _ p f c) i = i
Write-IsClosed id s s' (Write.updates_sessions _ p f c) i =
    IsSettled-update (λ a. a.id) id is_open p f s.sessions c.same_id c.stays_closed i

add_token-IsOutdated :
    (id : Text) (version : ℕ) (s : Store) (t : RefreshToken) {s' : Store}
    → save_refresh_token s t ≡ ok s'
    → IsOutdated id version s
    → IsOutdated id version s'
add_token-IsOutdated id version s t h i =
    subst (IsOutdated id version) (save_refresh_token-parts s t h).2 i

Write-IsOutdated :
    (id : Text) (version : ℕ) (s s' : Store)
    → Write s s'
    → IsOutdated id version s
    → IsOutdated id version s'
Write-IsOutdated id version s s' (Write.adds_user _ u h) i =
    IsSettled-snoc (λ u. u.id) id (λ u. leb u.token_version version) _ u s.users (λ v e. e) h i
Write-IsOutdated id version s s' (Write.adds_profile _ ps) i = i
Write-IsOutdated id version s s' (Write.opens _ s₁ _ a t h k e) i =
    add_token-IsOutdated id version s₁ t k
      (subst (IsOutdated id version) (create_session-parts s a h).1 i)
Write-IsOutdated id version s s' (Write.exchanges _ s₁ t r f m live e h c u) i =
    add_token-IsOutdated id version s r h i
Write-IsOutdated id version s s' (Write.updates_tokens _ p f c) i = i
Write-IsOutdated id version s s' (Write.updates_sessions _ p f c) i = i
Write-IsOutdated id version s s' (Write.updates_users _ p f c) i =
    IsSettled-update (λ u. u.id) id (λ u. leb u.token_version version) p f s.users c.same_id
      (λ u e. ground (arith, c.grows u)) i

pub Writes-IsUsedUp : (id : Text) {s s' : Store} → Writes s s' → IsUsedUp id s → IsUsedUp id s'
Writes-IsUsedUp id w i = Writes-keeps (IsUsedUp id) (Write-IsUsedUp id) w i

pub Writes-IsClosed : (id : Text) {s s' : Store} → Writes s s' → IsClosed id s → IsClosed id s'
Writes-IsClosed id w i = Writes-keeps (IsClosed id) (Write-IsClosed id) w i

pub Writes-IsOutdated :
    (id : Text) (version : ℕ) {s s' : Store}
    → Writes s s'
    → IsOutdated id version s
    → IsOutdated id version s'
Writes-IsOutdated id version w i =
    Writes-keeps (IsOutdated id version) (Write-IsOutdated id version) w i
