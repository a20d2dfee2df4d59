-- ===== src/Auth/Steps/Settled.antt =====
-- Used tokens, closed sessions and outdated versions, after any number of writes.
use learning_system.Prelude.{
  ℕ, ◌<◌, ◌≡◌, refl, sym, ap, ◌∙◌, subst, inl, inr, Bool, true, false, not, ◌&&◌, none, List, [],
  ◌∷◌, ◌++◌, arith, leb, Bool-cases, Option-cases, count-snoc, and-parts, any, In, Text, text_eq,
  text_eq_iff, find_where, update_where, count_where, find_where-In, count-In, count-update_le,
  count-update_eq,
}
use learning_system.Auth.{Store, is_some, is_open}

-- A new row has another id than one that is there.
other_id :
    {A : Type 0} (id : A → Text) (refused : A → Bool) (k : Text) (a : A) (xs : List A)
    → ((x : A) → text_eq (id x) (id a) ≡ true → refused x ≡ true)
    → any refused xs ≡ false
    → 0 < count_where (λ x. text_eq (id x) k) xs
    → text_eq (id a) k ≡ false
unfolding count_where
other_id id refused k a [] f h n = absurd (omega arith)
other_id id refused k a (x ∷ xs) f h n = elim (Bool-cases (text_eq (id x) k)) [
  | inl e ↦ elim (Bool-cases (text_eq (id a) k)) [
    | inr g ↦ g
    | inl g ↦
        let same : id x ≡ id a = (text_eq_iff (id x) k).0 e ∙ sym ((text_eq_iff (id a) k).0 g) in
        ground (arith, f x ((text_eq_iff (id x) (id a)).1 same))
  ]
  | inr e ↦ other_id id refused k a xs f (ground arith) (ground arith)
]

-- What a write keeps of one table, with `bad` a test that no settled row meets.
pub record IsSettled {A : Type 0} (id : A → Text) (k : Text) (bad : A → Bool) (xs : List A)
    : Type 0 where
  pub present : 0 < count_where (λ x. text_eq (id x) k) xs
  pub none_bad : count_where (λ x. text_eq (id x) k && bad x) xs ≡ 0

module _ {A : Type 0} (id : A → Text) (k : Text) (bad : A → Bool) where
  pub IsSettled-snoc :
      (refused : A → Bool) (a : A) (xs : List A)
      → ((x : A) → text_eq (id x) (id a) ≡ true → refused x ≡ true)
      → any refused xs ≡ false
      → IsSettled id k bad xs
      → IsSettled id k bad (xs ++ (a ∷ []))
  unfolding count_where
  IsSettled-snoc refused a xs f h i =
      let other = other_id id refused k a xs f h i.present in
      record {
        present = ground (arith, count-snoc (λ x. text_eq (id x) k) xs a, i.present);
        none_bad =
            ground (arith, count-snoc (λ x. text_eq (id x) k && bad x) xs a, i.none_bad, other);
      }

  pub IsSettled-update :
      (p : A → Bool) (f : A → A) (xs : List A)
      → ((x : A) → id (f x) ≡ id x)
      → ((x : A) → bad x ≡ false → bad (f x) ≡ false)
      → IsSettled id k bad xs
      → IsSettled id k bad (update_where p f xs)
  IsSettled-update p f xs same keep i =
      let still : (x : A)
          → (text_eq (id (f x)) k && bad (f x)) ≡ true
          → (text_eq (id x) k && bad x) ≡ true =
        λ x e.
          let (a, b) = and-parts _ _ e in
          let old : text_eq (id x) k ≡ true = subst (λ j. text_eq j k ≡ true) (same x) a in
          ground (arith, keep x, old, b) in
      record {
        present = omega (
          arith,
          i.present,
          count-update_eq (λ x. text_eq (id x) k) p f xs (λ x h. ap (λ j. text_eq j k) (same x)),
        );
        none_bad = omega (
          arith,
          i.none_bad,
          count-update_le (λ x. text_eq (id x) k && bad x) p f xs (λ x h e. still x e),
        );
      }

-- The row of a token is there and it is used; the row of a session is there and it is not open; the
-- version of a user is above a given one.
abbrev pub IsUsedUp : Text → Store → Type 0
IsUsedUp id s = IsSettled (λ t. t.id) id (λ t. not (is_some t.used_at)) s.tokens

abbrev pub IsClosed : Text → Store → Type 0
IsClosed id s = IsSettled (λ a. a.id) id is_open s.sessions

abbrev pub IsOutdated : Text → ℕ → Store → Type 0
IsOutdated id version s = IsSettled (λ u. u.id) id (λ u. leb u.token_version version) s.users

module _ {A : Type 0} (id : A → Text) (k : Text) (bad : A → Bool) where
  -- An update of all rows with the id, after which none of them is bad.
  pub update-settles :
      (f : A → A) (xs : List A)
      → ((x : A) → id (f x) ≡ id x)
      → ((x : A) → bad (f x) ≡ false)
      → 0 < count_where (λ x. text_eq (id x) k) xs
      → IsSettled id k bad (update_where (λ x. text_eq (id x) k) f xs)
  unfolding count_where update_where
  update-settles f xs same good n = record {
    present = omega (
      arith,
      n,
      count-update_eq (λ x. text_eq (id x) k) (λ x. text_eq (id x) k) f xs
          (λ x h. ap (λ j. text_eq j k) (same x)),
    );
    none_bad = all_good f xs same good;
  }
    where
      all_good :
          (f : A → A) (xs : List A)
          → ((x : A) → id (f x) ≡ id x)
          → ((x : A) → bad (f x) ≡ false)
          → count_where (λ x. text_eq (id x) k && bad x) (update_where (λ x. text_eq (id x) k) f xs)
            ≡ 0
      all_good f [] same good = refl
      all_good f (x ∷ xs) same good = ground (arith, good x, all_good f xs same good)

  -- A settled row that is found is not bad.
  pub settled_row :
      (xs : List A) {x : A} → IsSettled id k bad xs → In x xs → id x ≡ k → bad x ≡ false
  settled_row xs {x} i m e = elim (Bool-cases (bad x)) [
    | inr h ↦ h
    | inl h ↦
        let own = (text_eq_iff (id x) k).1 e in
        let seen = count-In (λ y. text_eq (id y) k && bad y) m (ground arith) in
        absurd (omega (arith, seen, i.none_bad))
  ]

  pub settled_none :
      (p : A → Bool) (xs : List A)
      → IsSettled id k bad xs
      → ((x : A) → p x ≡ true → (text_eq (id x) k && bad x) ≡ true)
      → find_where p xs ≡ none
  settled_none p xs i h = elim (Option-cases (find_where p xs)) [
    | inl e ↦ e
    | inr (x, e) ↦
        let (m, q) = find_where-In p xs e in
        absurd (omega (arith, count-In (λ y. text_eq (id y) k && bad y) m (h x q), i.none_bad))
  ]
