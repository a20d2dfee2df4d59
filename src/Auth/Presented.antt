-- ===== src/Auth/Presented.antt =====
-- What the checks of `refresh` have found when they let a token through.
use learning_system.Prelude.{
  ℕ, ◌≡◌, ap, ◌∙◌, subst, Bool, false, ◌&&◌, ◌||◌, Option, none, some, arith, and-parts, In, ok,
  >>=-eq-ok, Text, text_eq, text_eq_iff, ok-injective, find_where-In, past_refuse,
}
use learning_system.Auth.{AuthSession, RefreshToken, Store, is_some, is_open}
use learning_system.Auth.Cookies.{parse}
use learning_system.Auth.Repository.{get_active_session, get_refresh_token}
use learning_system.Auth.Refresh.{found, presented}

found-some : {A : Type 0} (o : Option A) {a : A} → found o ≡ ok a → o ≡ some a
found-some none h = absurd (cc)
found-some (some b) h = ap some (ok-injective h)

first_false : (a b c d : Bool) → (a || b || c || d) ≡ false → a ≡ false
first_false a b c d h = ground arith

-- What the checks of a refresh have found.
pub presented-parts :
    (digest : Text → Text) (s : Store) (cookie : Option Text) (now : ℕ) {t : RefreshToken}
    {a : AuthSession}
    → presented digest s cookie now ≡ ok (t, a)
    → (token_id : Text) × (secret : Text) × (parse cookie ≡ some (token_id, secret))
      × (get_refresh_token s token_id ≡ some t)
      × (get_active_session s t.session_id ≡ some a)
      × (is_some t.revoked_at ≡ false)
unfolding presented
presented-parts digest s cookie now {t} {a} h =
    let ((token_id, secret), e₁, h₁) = >>=-eq-ok _ _ h in
    let (t₂, e₂, h₂) = >>=-eq-ok _ _ h₁ in
    let (_, h₃) = past_refuse _ _ _ h₂ in
    let (a₄, e₄, h₄) = >>=-eq-ok _ _ h₃ in
    let (valid, h₅) = past_refuse _ _ _ h₄ in
    let same : ◌≡◌ {A = RefreshToken × AuthSession} (t₂, a₄) (t, a) = ok-injective h₅ in
    let one : t₂ ≡ t = ap (λ (x : RefreshToken × AuthSession). x.0) same in
    let two : a₄ ≡ a = ap (λ (x : RefreshToken × AuthSession). x.1) same in
    (
      token_id,
      secret,
      found-some _ e₁,
      found-some _ e₂ ∙ ap some one,
      subst (λ (x : RefreshToken). get_active_session s x.session_id ≡ some a) one
          (found-some _ e₄ ∙ ap some two),
      subst (λ (x : RefreshToken). is_some x.revoked_at ≡ false) one (first_false _ _ _ _ valid),
    )

pub find-id :
    (s : Store) (id : Text) {t : RefreshToken}
    → get_refresh_token s id ≡ some t
    → In t s.tokens × (t.id ≡ id)
unfolding get_refresh_token
find-id s id {t} h =
    let (m, e) = find_where-In (λ t. text_eq t.id id) s.tokens h in (m, (text_eq_iff t.id id).0 e)

pub session-id :
    (s : Store) (id : Text) {a : AuthSession}
    → get_active_session s id ≡ some a
    → In a s.sessions × (a.id ≡ id)
unfolding get_active_session
session-id s id {a} h =
    let (m, e) = find_where-In (λ b. text_eq b.id id && is_open b) s.sessions h in
    (m, (text_eq_iff a.id id).0 (and-parts _ _ e).0)
