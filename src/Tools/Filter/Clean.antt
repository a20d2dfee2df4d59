-- ===== src/Tools/Filter/Clean.antt =====
-- No text that was sanitized contains a phrase, in any case.
use learning_system.Prelude.{
  ℕ, zero, suc, ◌-◌, ◌≡◌, refl, sym, ◌∙◌, subst, inl, inr, Bool, true, false, not, ◌||◌, none, List,
  [], ◌∷◌, ◌++◌, arith, ◌==◌, Bool-cases, Option-cases, and-parts, any, all, All, Text,
}
use learning_system.Tools.Filter.{
  ignore_instructions, system_prompt, developer_message, fold, phrases, filtered, matches,
  phrase_at, substitute, sanitize_text,
}

-- Somewhere in the text a phrase begins.
unfoldable pub contains_phrase : Text → Bool
unfolding matches
contains_phrase [] = false
contains_phrase (c ∷ t) = any (λ p. matches p (c ∷ t)) phrases || contains_phrase t

abbrev tail_of : Text → Text
tail_of [] = []
tail_of (c ∷ t) = t

eq_swap : (a b : ℕ) → (a == b) ≡ true → (b == a) ≡ true
eq_swap a b h = ground arith

-- A phrase without "[" that matches what `substitute` gives matches what it was given.
matches-substitute :
    (p t : Text)
    → All (λ c. (c == 91) ≡ false) p
    → matches p (substitute zero t) ≡ true
    → matches p t ≡ true
unfolding matches substitute fold
matches-substitute [] t q h = refl
matches-substitute (c ∷ p) [] q h = h
matches-substitute (c ∷ p) (d ∷ t) q h = elim (Option-cases (phrase_at phrases (d ∷ t))) [
  | inl e ↦
      let cut : substitute zero (d ∷ t) ≡ d ∷ substitute zero t = rw (substitute, e) refl in
      let (first, rest) =
        and-parts (fold d == c) (matches p (substitute zero t))
          (subst (λ u. matches (c ∷ p) u ≡ true) cut h) in
      let more = matches-substitute p t q.1 rest in rw (first, more) refl
  | inr (n, e) ↦
      let cut : substitute zero (d ∷ t) ≡ filtered ++ substitute (n - 1) t =
        rw (substitute, e) refl in
      let (first, _) =
        and-parts (91 == c) (matches p (tail_of filtered ++ substitute (n - 1) t))
          (subst (λ u. matches (c ∷ p) u ≡ true) cut h) in
      absurd (cc (q.0, eq_swap 91 c first))
]

none-any : (ps : List Text) (t : Text) → phrase_at ps t ≡ none → any (λ p. matches p t) ps ≡ false
unfolding phrase_at
none-any [] t h = refl
none-any (p ∷ ps) t h = elim (Bool-cases (matches p t)) [
  | inl e ↦ absurd (cc (h, e))
  | inr e ↦ rw e (none-any ps t (rw e at h))
]

-- Of phrases without "[", those that match what `substitute` gives match what it was given.
any-substitute :
    (ps : List Text) (t : Text)
    → All (All (λ c. (c == 91) ≡ false)) ps
    → any (λ p. matches p t) ps ≡ false
    → any (λ p. matches p (substitute zero t)) ps ≡ false
any-substitute [] t q h = refl
any-substitute (p ∷ ps) t q h =
    let first : matches p (substitute zero t) ≡ false =
      elim (Bool-cases (matches p (substitute zero t))) [
        | inr e ↦ e
        | inl e ↦ absurd (ground (arith, matches-substitute p t q.0 e))
      ] in
    rw first (any-substitute ps t q.1 (ground arith))

no_bracket : (p : Text) → all (λ c. not (c == 91)) p ≡ true → All (λ c. (c == 91) ≡ false) p
no_bracket [] h = tt
no_bracket (c ∷ p) h = (ground arith, no_bracket p (ground arith))

phrases_plain : All (All (λ c. (c == 91) ≡ false)) phrases
phrases_plain = (
  no_bracket ignore_instructions refl,
  (no_bracket system_prompt refl, (no_bracket developer_message refl, tt)),
)

filtered-contains_phrase : (t : Text) → contains_phrase (filtered ++ t) ≡ contains_phrase t
unfolding contains_phrase matches fold
filtered-contains_phrase t = refl

substitute-clean : (skip : ℕ) (t : Text) → contains_phrase (substitute skip t) ≡ false
unfolding substitute contains_phrase
substitute-clean skip [] = refl
substitute-clean (suc skip) (c ∷ t) = substitute-clean skip t
substitute-clean zero (c ∷ t) = elim (Option-cases (phrase_at phrases (c ∷ t))) [
  | inl e ↦
      let cut : substitute zero (c ∷ t) ≡ c ∷ substitute zero t = rw (substitute, e) refl in
      let fresh : any (λ p. matches p (c ∷ substitute zero t)) phrases ≡ false =
        subst (λ u. any (λ p. matches p u) phrases ≡ false) cut
          (any-substitute phrases (c ∷ t) phrases_plain (none-any phrases (c ∷ t) e)) in
      subst (λ u. contains_phrase u ≡ false) (sym cut)
        (both_false _ _ fresh (substitute-clean zero t))
  | inr (n, e) ↦
      let cut : substitute zero (c ∷ t) ≡ filtered ++ substitute (n - 1) t =
        rw (substitute, e) refl in
      subst (λ u. contains_phrase u ≡ false) (sym cut)
        (filtered-contains_phrase (substitute (n - 1) t) ∙ substitute-clean (n - 1) t)
]
  where
    both_false : (a b : Bool) → a ≡ false → b ≡ false → (a || b) ≡ false
    both_false a b h k = ground arith

-- Whatever a tool returned, the text that is passed on contains none of the phrases, in any case.
pub sanitize_text-clean : (t : Text) → contains_phrase (sanitize_text t) ≡ false
unfolding sanitize_text
sanitize_text-clean t = substitute-clean 0 t
