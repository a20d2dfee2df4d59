-- ===== src/Prelude/Tables.antt =====
-- A database table as the list of its rows: select, update and count by a condition.
use Prim.Native.Nat.{ℕ, ◌+◌, ◌≤◌, ◌<◌}
use Prim.Native.String.{String}
use mathlib.Core.Bool.{Bool, true, false}
use mathlib.Core.List.{List, [], ◌∷◌, ◌++◌}
use mathlib.Core.Logic.{◌⊎◌, inl, inr}
use mathlib.Core.Option.{Option, none, some}
use mathlib.Core.Path.{◌≡◌, refl, subst, sym}
use native.Mathlib.Omega.{arith}
use text.Mathlib.Text.{◌==◌ as str_eq}
use text.Mathlib.TextEquality.{eq_iff}
use learning_system.Prelude.Tests.{if◌then◌else◌, Bool-cases}
use learning_system.Prelude.Lists.{In, here, there, In-head, In-cons, filter_by, any}

module _ {ℓ} {A : Type ℓ} where
  -- SELECT … WHERE p, the first row
  unfoldable pub find_where : (A → Bool) → List A → Option A
  find_where p [] = none
  find_where p (x ∷ xs) = let rest = find_where p xs in if p x then some x else rest

  -- UPDATE … SET f WHERE p
  unfoldable pub update_where : (A → Bool) → (A → A) → List A → List A
  update_where p f [] = []
  update_where p f (x ∷ xs) = (if p x then f x else x) ∷ update_where p f xs

  -- SELECT count(*) WHERE p, and the row count of an UPDATE
  unfoldable pub count_where : (A → Bool) → List A → ℕ
  count_where p [] = 0
  count_where p (x ∷ xs) = (if p x then 1 else 0) + count_where p xs

  pub find_where-In :
      (p : A → Bool) (xs : List A) {a : A} → find_where p xs ≡ some a → In a xs × (p a ≡ true)
  unfolding find_where
  find_where-In p [] h = absurd (cc)
  find_where-In p (x ∷ xs) {a} h = elim (Bool-cases (p x)) [
    | inl e ↦
        let same : x ≡ a = ground arith in (In-head (sym same), subst (λ y. p y ≡ true) same e)
    | inr e ↦ let (i, q) = find_where-In p xs (rw e at h) in (there i, q)
  ]

  pub count-none : (p : A → Bool) (xs : List A) → find_where p xs ≡ none → count_where p xs ≡ 0
  unfolding find_where count_where
  count-none p [] h = refl
  count-none p (x ∷ xs) h = ground (arith, count-none p xs)

  pub count-In : (p : A → Bool) {a : A} {xs : List A} → In a xs → p a ≡ true → 0 < count_where p xs
  unfolding count_where
  count-In p (here {xs = xs}) e = ground arith
  count-In p (there {x = x} {xs = xs} i) e = ground (arith, count-In p i e)

  pub count-append :
      (p : A → Bool) (xs ys : List A)
      → count_where p (xs ++ ys) ≡ count_where p xs + count_where p ys
  unfolding count_where
  count-append p [] ys = omega arith
  count-append p (x ∷ xs) ys = ground (arith, count-append p xs ys)

  pub count-snoc :
      (p : A → Bool) (xs : List A) (x : A)
      → count_where p (xs ++ (x ∷ [])) ≡ count_where p xs + (if p x then 1 else 0)
  unfolding count_where
  count-snoc p xs x = ground (arith, count-append p xs (x ∷ []))

  pub count-filter_by :
      (q p : A → Bool) (xs : List A) → count_where q (filter_by p xs) ≤ count_where q xs
  unfolding count_where
  count-filter_by q p [] = omega arith
  count-filter_by q p (x ∷ xs) = ground (arith, count-filter_by q p xs)

  pub In-filter_by :
      (p : A → Bool) {a : A} (xs : List A) → In a (filter_by p xs) → In a xs × (p a ≡ true)
  In-filter_by p [] i = elim i [ ]
  In-filter_by p {a} (x ∷ xs) i = elim (Bool-cases (p x)) [
    | inl e ↦ elim (In-cons (rw e at i)) [
      | inl same ↦ (In-head same, subst (λ y. p y ≡ true) (sym same) e)
      | inr j ↦ let (k, h) = In-filter_by p xs j in (there k, h)
    ]
    | inr e ↦ let (k, h) = In-filter_by p xs (rw e at i) in (there k, h)
  ]

  pub filter_by-In :
      (p : A → Bool) {a : A} {xs : List A} → In a xs → p a ≡ true → In a (filter_by p xs)
  filter_by-In p (here {xs = xs}) e = rw e here
  filter_by-In p (there {x = x} {xs = xs} i) e = elim (Bool-cases (p x)) [
    | inl h ↦ rw h (there (filter_by-In p i e))
    | inr h ↦ rw h (filter_by-In p i e)
  ]

  -- An update after which no row meets `q` that did not meet it before.
  pub count-update_le :
      (q p : A → Bool) (f : A → A) (xs : List A)
      → ((a : A) → p a ≡ true → q (f a) ≡ true → q a ≡ true)
      → count_where q (update_where p f xs) ≤ count_where q xs
  unfolding count_where update_where
  count-update_le q p f [] h = omega arith
  count-update_le q p f (x ∷ xs) h = ground (arith, count-update_le q p f xs h, h x)

  -- An update that decides `q` as before.
  pub count-update_eq :
      (q p : A → Bool) (f : A → A) (xs : List A)
      → ((a : A) → p a ≡ true → q (f a) ≡ q a)
      → count_where q (update_where p f xs) ≡ count_where q xs
  unfolding count_where update_where
  count-update_eq q p f [] h = refl
  count-update_eq q p f (x ∷ xs) h = ground (arith, count-update_eq q p f xs h, h x)

  pub count-update_eq_In :
      (q p : A → Bool) (f : A → A) (xs : List A)
      → ((a : A) → In a xs → p a ≡ true → q (f a) ≡ q a)
      → count_where q (update_where p f xs) ≡ count_where q xs
  unfolding count_where update_where
  count-update_eq_In q p f [] h = refl
  count-update_eq_In q p f (x ∷ xs) h =
      ground (arith, count-update_eq_In q p f xs (λ a i. h a (there i)), h x here)

  -- A row after an update is a row from before, changed if it met the condition.
  pub In-update :
      (p : A → Bool) (f : A → A) (xs : List A) {a : A}
      → In a (update_where p f xs)
      → (b : A) × In b xs × (((p b ≡ true) × (a ≡ f b)) ⊎ ((p b ≡ false) × (a ≡ b)))
  unfolding update_where
  In-update p f [] i = elim i [ ]
  In-update p f (x ∷ xs) here = elim (Bool-cases (p x)) [
    | inl e ↦ (x, here, inl (e, rw e))
    | inr e ↦ (x, here, inr (e, rw e))
  ]
  In-update p f (x ∷ xs) (there i) = let (b, j, c) = In-update p f xs i in (b, there j, c)

  pub In-update_miss :
      (p : A → Bool) (f : A → A) {a : A} {xs : List A}
      → In a xs
      → p a ≡ false
      → In a (update_where p f xs)
  unfolding update_where
  In-update_miss p f (here {xs = xs}) e = In-head (rw e)
  In-update_miss p f (there {x = x} {xs = xs} i) e = there (In-update_miss p f i e)

  pub In-append_left : (xs ys : List A) {a : A} → In a xs → In a (xs ++ ys)
  In-append_left (x ∷ xs) ys here = here
  In-append_left (x ∷ xs) ys (there i) = there (In-append_left xs ys i)
  In-append_left [] ys i = elim i [ ]

  pub In-append : (xs ys : List A) {a : A} → In a (xs ++ ys) → In a xs ⊎ In a ys
  In-append [] ys i = inr i
  In-append (x ∷ xs) ys here = inl here
  In-append (x ∷ xs) ys (there i) = elim (In-append xs ys i) [
    | inl j ↦ inl (there j)
    | inr j ↦ inr j
  ]

module _ {ℓ} {A : Type ℓ} where
  -- A condition that at most one row meets.
  pub only_row :
      (p : A → Bool) (xs : List A) {a b : A}
      → count_where p xs ≤ 1
      → In a xs
      → In b xs
      → p a ≡ true
      → p b ≡ true
      → a ≡ b
  unfolding count_where
  only_row p [] h i j e f = elim i [ ]
  only_row p (x ∷ xs) h here here e f = refl
  only_row p (x ∷ xs) {a} {b} h here (there j) e f = absurd (ground (arith, count-In p j f))
  only_row p (x ∷ xs) {a} {b} h (there i) here e f = absurd (ground (arith, count-In p i e))
  only_row p (x ∷ xs) h (there i) (there j) e f = only_row p xs (ground arith) i j e f

module _ {ℓ} {A : Type ℓ} where
  -- The row that a query finds, after an update of the row that keeps the query.
  pub find-update :
      (q p : A → Bool) (f : A → A) (xs : List A) {a : A}
      → find_where q xs ≡ some a
      → ((x : A) → q (f x) ≡ q x)
      → p a ≡ true
      → find_where q (update_where p f xs) ≡ some (f a)
  unfolding find_where update_where
  find-update q p f [] h keep e = absurd (cc)
  find-update q p f (x ∷ xs) {a} h keep e = elim (Bool-cases (q x)) [
    | inl g ↦
        let this : some x ≡ some a = ground arith in
        let same : x ≡ a = cc in
        let hit : p x ≡ true = subst (λ y. p y ≡ true) (sym same) e in
        rw (hit, keep x, g) (sym (subst (λ y. some (f y) ≡ some (f x)) same refl))
    | inr g ↦ elim (Bool-cases (p x)) [
      | inl k ↦ rw (k, keep x, g) (find-update q p f xs (ground arith) keep e)
      | inr k ↦ rw (k, g) (find-update q p f xs (ground arith) keep e)
    ]
  ]

  -- The new row is found, when no row from before meets the query, also after an update of others.
  pub find-new :
      (q p : A → Bool) (f : A → A) (xs : List A) (r : A)
      → any q xs ≡ false
      → ((x : A) → q (f x) ≡ q x)
      → q r ≡ true
      → p r ≡ false
      → find_where q (update_where p f (xs ++ (r ∷ []))) ≡ some r
  unfolding find_where update_where
  find-new q p f [] r h keep e g = rw (g, e) refl
  find-new q p f (x ∷ xs) r h keep e g =
      let miss : q x ≡ false = ground arith in
      elim (Bool-cases (p x)) [
        | inl k ↦ rw (k, keep x, miss) (find-new q p f xs r (ground arith) keep e g)
        | inr k ↦ rw (k, miss) (find-new q p f xs r (ground arith) keep e g)
      ]

module _ {ℓ} {A : Type ℓ} where
  pub count-update_append :
      (q p : A → Bool) (f : A → A) (xs ys : List A)
      → count_where q (update_where p f (xs ++ ys))
        ≡ count_where q (update_where p f xs) + count_where q (update_where p f ys)
  unfolding count_where update_where
  count-update_append q p f [] ys = omega arith
  count-update_append q p f (x ∷ xs) ys = ground (arith, count-update_append q p f xs ys)

  -- An update after which a row that met `q` does not, and no row newly does.
  pub count-update_lt :
      (q p : A → Bool) (f : A → A) {a : A} (xs : List A)
      → In a xs
      → p a ≡ true
      → q a ≡ true
      → ((x : A) → p x ≡ true → q (f x) ≡ false)
      → count_where q (update_where p f xs) < count_where q xs
  unfolding count_where update_where
  count-update_lt q p f [] i e g h = elim i [ ]
  count-update_lt q p f {a} (x ∷ xs) here e g h =
      ground (arith, h a, count-update_le q p f xs (λ y k l. absurd (cc (h y k, l))))
  count-update_lt q p f (x ∷ xs) (there i) e g h =
      ground (arith, h x, count-update_lt q p f xs i e g h)

-- A table in which no two rows share a key.
module _ {ℓ} {A : Type ℓ} (key : A → String) where
  abbrev pub with_key : String → A → Bool
  with_key k a = str_eq (key a) k

  abbrev pub HasUniqueKeys : List A → Type 0
  HasUniqueKeys xs = (k : String) → count_where (with_key k) xs ≤ 1

  pub HasUniqueKeys-tail : (x : A) (xs : List A) → HasUniqueKeys (x ∷ xs) → HasUniqueKeys xs
  unfolding count_where
  HasUniqueKeys-tail x xs h k = ground (arith, h k)

  pub not-In-tail :
      (x : A) (xs : List A) {a : A} → HasUniqueKeys (x ∷ xs) → In a xs → ¬ (key x ≡ key a)
  unfolding count_where
  not-In-tail x xs {a} h i e = ground (
    arith,
    h (key a),
    count-In (with_key (key a)) i ((eq_iff _ _).1 refl),
    eq_iff (key x) (key a),
  )

  pub row_of_key :
      (xs : List A) {a b : A} → HasUniqueKeys xs → In a xs → In b xs → key a ≡ key b → a ≡ b
  row_of_key [] h i j e = elim i [ ]
  row_of_key (x ∷ xs) h here here e = refl
  row_of_key (x ∷ xs) h here (there j) e = absurd (not-In-tail x xs h j e)
  row_of_key (x ∷ xs) h (there i) here e = absurd (not-In-tail x xs h i (sym e))
  row_of_key (x ∷ xs) h (there i) (there j) e = row_of_key xs (HasUniqueKeys-tail x xs h) i j e
