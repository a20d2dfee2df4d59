-- ===== src/Auth/Steps/Single.antt =====
-- At any time a session has at most one refresh token that can be exchanged.
use learning_system.Prelude.{
  ◌≤◌, ◌≡◌, refl, sym, ap, ◌∙◌, subst, inl, inr, Bool, true, false, not, ◌&&◌, List, [], ◌∷◌, ◌++◌,
  arith, Bool-cases, Option-cases, count-snoc, and-parts, any, In, here, there, ok, Text, text_eq,
  text_eq_iff, find_where, update_where, count_where, find_where-In, count-none, count-update_le,
  In-update, In-append, count-update_lt, count-update_append,
}
use learning_system.Auth.{AuthSession, RefreshToken, Store, AuthSettings, is_some, is_live}
use learning_system.Auth.Repository.{create_session, save_refresh_token}
use learning_system.Auth.Writes.{IsTokenChange, Write, Writes-keeps}
use learning_system.Auth.Steps.{Steps, Steps-Writes}
use learning_system.Auth.Steps.Kept.{create_session-parts, save_refresh_token-parts}

-- A live token of the session.
abbrev pub live_in : Text → RefreshToken → Bool
live_in session t = text_eq t.session_id session && is_live t

-- Every token belongs to a session that exists, and no session has two live tokens.
pub record IsSingle (s : Store) : Type 0 where
  pub rooted :
      (t : RefreshToken) → In t s.tokens → any (λ a. text_eq a.id t.session_id) s.sessions ≡ true
  pub single : (session : Text) → count_where (live_in session) s.tokens ≤ 1

no_tokens-IsSingle : (s : Store) → s.tokens ≡ [] → IsSingle s
unfolding count_where
no_tokens-IsSingle s h = record {
  rooted = λ t i. elim (subst (In t) h i) [ ];
  single = λ k. subst (λ ts. count_where (live_in k) ts ≤ 1) (sym h) (omega arith);
}

any-append :
    {A : Type 0} (p : A → Bool) (xs ys : List A) → any p xs ≡ true → any p (xs ++ ys) ≡ true
any-append p [] ys h = absurd (cc)
any-append p (x ∷ xs) ys h = ground (arith, any-append p xs ys)

any-update :
    (id : Text) (p : AuthSession → Bool) (f : AuthSession → AuthSession) (xs : List AuthSession)
    → ((a : AuthSession) → (f a).id ≡ a.id)
    → any (λ a. text_eq a.id id) (update_where p f xs) ≡ any (λ a. text_eq a.id id) xs
unfolding update_where
any-update id p f [] same = refl
any-update id p f (x ∷ xs) same = elim (Bool-cases (p x)) [
  | inl e ↦ rw (e, same x, any-update id p f xs same) refl
  | inr e ↦ rw (e, any-update id p f xs same) refl
]

-- A change of tokens makes none of them live.
change-live :
    (session : Text) (f : RefreshToken → RefreshToken)
    → IsTokenChange f
    → (t : RefreshToken) → live_in session (f t) ≡ true
    → live_in session t ≡ true
change-live session f c t h =
    let (own, live) = and-parts _ _ h in
    let (unused, valid) =
      and-parts (not (is_some (f t).used_at)) (not (is_some (f t).revoked_at)) live in
    let mine = subst (λ k. text_eq k session ≡ true) (c.same_session t) own in
    ground (arith, c.stays_used t, c.stays_revoked t, mine, unused, valid)

tokens-rooted :
    (ss : List AuthSession) (p : RefreshToken → Bool) (f : RefreshToken → RefreshToken)
    (ts : List RefreshToken)
    → IsTokenChange f
    → ((t : RefreshToken) → In t ts → any (λ a. text_eq a.id t.session_id) ss ≡ true)
    → (t : RefreshToken) → In t (update_where p f ts)
    → any (λ a. text_eq a.id t.session_id) ss ≡ true
tokens-rooted ss p f ts c rooted t i =
    let (b, m, how) = In-update p f ts i in
    elim how [
      | inl (_, e) ↦
          let same : b.session_id ≡ t.session_id =
            sym (c.same_session b) ∙ sym (ap (λ (x : RefreshToken). x.session_id) e) in
          subst (λ k. any (λ a. text_eq a.id k) ss ≡ true) same (rooted b m)
      | inr (_, e) ↦
          subst (λ (x : RefreshToken). any (λ a. text_eq a.id x.session_id) ss ≡ true) (sym e)
            (rooted b m)
    ]

-- A session that no token belongs to.
unrooted :
    (session : Text) (ss : List AuthSession) (ts : List RefreshToken)
    → any (λ a. text_eq a.id session) ss ≡ false
    → ((t : RefreshToken) → In t ts → any (λ a. text_eq a.id t.session_id) ss ≡ true)
    → count_where (live_in session) ts ≡ 0
unrooted session ss ts free rooted = elim (Option-cases (find_where (live_in session) ts)) [
  | inl e ↦ count-none (live_in session) ts e
  | inr (t, e) ↦
      let (m, h) = find_where-In (live_in session) ts e in
      let mine : t.session_id ≡ session =
        (text_eq_iff t.session_id session).0 (and-parts _ _ h).0 in
      absurd (cc (free, subst (λ k. any (λ a. text_eq a.id k) ss ≡ true) mine (rooted t m)))
]

-- Adding a token to a session.
add_token-rooted :
    (s : Store) (t : RefreshToken) {s' : Store}
    → save_refresh_token s t ≡ ok s'
    → ((r : RefreshToken) → In r s.tokens → any (λ a. text_eq a.id r.session_id) s.sessions ≡ true)
    → (s'.sessions ≡ s.sessions)
      × (s'.tokens ≡ s.tokens ++ (t ∷ []))
      × ((r : RefreshToken)
          → In r (s.tokens ++ (t ∷ []))
          → any (λ a. text_eq a.id r.session_id) s.sessions ≡ true)
add_token-rooted s t h rooted =
    let (_, known, same) = save_refresh_token-parts s t h in
    (
      sym (ap (λ (z : Store). z.sessions) same),
      sym (ap (λ (z : Store). z.tokens) same),
      λ r i. elim (In-append s.tokens (t ∷ []) i) [
        | inl m ↦ rooted r m
        | inr m ↦
            subst (λ (x : RefreshToken). any (λ a. text_eq a.id x.session_id) s.sessions ≡ true)
              (sym (only_member m)) known
      ],
    )
  where
    only_member : {r t : RefreshToken} → In r (t ∷ []) → r ≡ t
    only_member here = refl
    only_member (there i) = elim i [ ]

opens-IsSingle :
    (s s₁ s₂ : Store) (a : AuthSession) (t : RefreshToken)
    → create_session s a ≡ ok s₁
    → save_refresh_token s₁ t ≡ ok s₂
    → t.session_id ≡ a.id
    → IsSingle s
    → IsSingle s₂
unfolding count_where
opens-IsSingle s s₁ s₂ a t h k e i =
    let (free, same) = create_session-parts s a h in
    let mid : (r : RefreshToken)
        → In r s₁.tokens
        → any (λ b. text_eq b.id r.session_id) s₁.sessions ≡ true =
      subst
        (λ (z : Store).
          (r : RefreshToken)
          → In r z.tokens
          → any (λ b. text_eq b.id r.session_id) z.sessions ≡ true)
        same
        (λ r m. any-append (λ b. text_eq b.id r.session_id) s.sessions (a ∷ []) (i.rooted r m)) in
    let (ss, ts, rooted) = add_token-rooted s₁ t k mid in
    let old : s₁.tokens ≡ s.tokens = sym (ap (λ (z : Store). z.tokens) same) in
    record {
      rooted = λ r m.
          subst (λ l. any (λ b. text_eq b.id r.session_id) l ≡ true) (sym ss)
            (rooted r (subst (In r) ts m));
      single = λ k.
          subst (λ l. count_where (live_in k) l ≤ 1) (ap (λ l. l ++ (t ∷ [])) (sym old) ∙ sym ts)
            (elim (Bool-cases (text_eq t.session_id k)) [
              | inl own ↦
                  let mine : a.id ≡ k = sym e ∙ (text_eq_iff t.session_id k).0 own in
                  let nothing =
                    unrooted k s.sessions s.tokens
                      (subst (λ j. any (λ b. text_eq b.id j) s.sessions ≡ false) mine free)
                      i.rooted in
                  ground (arith, nothing, count-snoc (live_in k) s.tokens t)
              | inr other ↦ ground (arith, i.single k, other, count-snoc (live_in k) s.tokens t)
            ]);
    }

exchanged-single :
    (k : Text) (ts : List RefreshToken) (t r : RefreshToken) (f : RefreshToken → RefreshToken)
    → In t ts
    → is_live t ≡ true
    → r.session_id ≡ t.session_id
    → IsTokenChange f
    → ((x : RefreshToken) → is_some (f x).used_at ≡ true)
    → count_where (live_in k) ts ≤ 1
    → count_where (live_in k) (update_where (λ x. text_eq x.id t.id) f (ts ++ (r ∷ []))) ≤ 1
unfolding count_where
exchanged-single k ts t r f m live e c u one =
    let by_id : RefreshToken → Bool = λ x. text_eq x.id t.id in
    let sum = count-update_append (live_in k) by_id f ts (r ∷ []) in
    let fewer : (xs : List RefreshToken)
        → count_where (live_in k) (update_where by_id f xs) ≤ count_where (live_in k) xs =
      λ xs. count-update_le (live_in k) by_id f xs (λ x h. change-live k f c x) in
    elim (Bool-cases (text_eq t.session_id k)) [
      | inl own ↦
          let dead : (x : RefreshToken) → by_id x ≡ true → live_in k (f x) ≡ false =
            λ x h. ground (arith, u x) in
          let less =
            count-update_lt (live_in k) by_id f ts m ((text_eq_iff t.id t.id).1 refl)
              (rw (own, live) refl) dead in
          let last : count_where (live_in k) (r ∷ []) ≤ 1 = ground arith in
          omega (arith, sum, less, one, fewer (r ∷ []), last)
      | inr other ↦
          let foreign : text_eq r.session_id k ≡ false =
            subst (λ j. text_eq j k ≡ false) (sym e) other in
          let last : count_where (live_in k) (r ∷ []) ≡ 0 = rw foreign refl in
          omega (arith, sum, fewer ts, one, fewer (r ∷ []), last)
    ]

exchanges-IsSingle :
    (s s₁ : Store) (t r : RefreshToken) (f : RefreshToken → RefreshToken)
    → In t s.tokens
    → is_live t ≡ true
    → r.session_id ≡ t.session_id
    → save_refresh_token s r ≡ ok s₁
    → IsTokenChange f
    → ((x : RefreshToken) → is_some (f x).used_at ≡ true)
    → IsSingle s
    → IsSingle (record s₁ { tokens = update_where (λ x. text_eq x.id t.id) f s₁.tokens })
exchanges-IsSingle s s₁ t r f m live e h c u i =
    let (ss, ts, rooted) = add_token-rooted s r h i.rooted in
    record {
      rooted = tokens-rooted s₁.sessions _ f s₁.tokens c (λ x n.
          subst (λ l. any (λ a. text_eq a.id x.session_id) l ≡ true) (sym ss)
            (rooted x (subst (In x) ts n)));
      single = λ k.
          subst (λ l. count_where (live_in k) (update_where (λ x. text_eq x.id t.id) f l) ≤ 1)
            (sym ts) (exchanged-single k s.tokens t r f m live e c u (i.single k));
    }

Write-IsSingle : (s s' : Store) → Write s s' → IsSingle s → IsSingle s'
Write-IsSingle s s' (Write.adds_user _ u h) i = record { rooted = i.rooted; single = i.single }
Write-IsSingle s s' (Write.adds_profile _ ps) i = record { rooted = i.rooted; single = i.single }
Write-IsSingle s s' (Write.opens _ s₁ _ a t h k e) i = opens-IsSingle s s₁ s' a t h k e i
Write-IsSingle s s' (Write.exchanges _ s₁ t r f m live e h c u) i =
    exchanges-IsSingle s s₁ t r f m live e h c u i
Write-IsSingle s s' (Write.updates_users _ p f c) i = record {
  rooted = i.rooted;
  single = i.single;
}
Write-IsSingle s s' (Write.updates_sessions _ p f c) i = record {
  rooted = λ t m. any-update t.session_id p f s.sessions c.same_id ∙ i.rooted t m;
  single = i.single;
}
Write-IsSingle s s' (Write.updates_tokens _ p f c) i = record {
  rooted = tokens-rooted s.sessions p f s.tokens c i.rooted;
  single = λ k.
      omega
        (arith, i.single k, count-update_le (live_in k) p f s.tokens (λ x h. change-live k f c x));
}

-- From tables without tokens, and after any calls of the methods, every token belongs to a session and
-- no session has two tokens that are neither used nor revoked.
pub Steps-IsSingle :
    (digest lower hash_password : Text → Text) (verify : Text → Text → Bool) (cfg : AuthSettings)
    (s s' : Store)
    → s.tokens ≡ []
    → Steps digest lower hash_password verify cfg s s'
    → IsSingle s'
Steps-IsSingle digest lower hash_password verify cfg s s' h w =
    Writes-keeps IsSingle Write-IsSingle (Steps-Writes digest lower hash_password verify cfg w)
      (no_tokens-IsSingle s h)
