-- ===== src/Prelude/Dicts.antt =====
-- Python's `dict` with string keys, in insertion order: a second write of a key keeps its place.
use mathlib.Core.Bool.{Bool, true, false, ◌&&◌}
use mathlib.Core.List.{List, [], ◌∷◌}
use mathlib.Core.Logic.{◌⊎◌, inl, inr}
use mathlib.Core.Option.{Option, none, some}
use mathlib.Core.Path.{◌≡◌, refl, ap, ◌∙◌}
use native.Mathlib.Omega.{arith}
use Prim.Native.Nat.{suc, ◌+◌, ◌≤◌}
use Prim.Native.String.{String}
use text.Mathlib.Text.{◌==◌}
use text.Mathlib.TextEquality.{eq_iff}
use text.Mathlib.TextPositions.{eq_refl}
use learning_system.Prelude.Tests.{if◌then◌else◌, Bool-cases, Option-cases, and-parts}
use learning_system.Prelude.Lists.{length, all, In, here, there, In-head, all-In}

abbrev pub Dict {ℓ} : Type ℓ → Type ℓ
Dict V = List (String × V)

module _ {ℓ} {V : Type ℓ} where
  -- d.get(k)
  unfoldable pub lookup : String → Dict V → Option V
  lookup k [] = none
  lookup k ((j, v) ∷ m) = if j == k then some v else lookup k m

  -- d[k] = v
  unfoldable pub put : String → V → Dict V → Dict V
  put k v [] = (k, v) ∷ []
  put k v ((j, w) ∷ m) = if j == k then (k, v) ∷ m else (j, w) ∷ put k v m

  -- k in d
  abbrev pub has : Dict V → String → Bool
  has m k = elim (lookup k m) [ none ↦ false | some _ ↦ true ]

  pub lookup-put :
      (k j : String) (v : V) (m : Dict V)
      → lookup j (put k v m) ≡ (if k == j then some v else lookup j m)
  unfolding lookup put
  lookup-put k j v [] = refl
  lookup-put k j v ((i, w) ∷ m) =
      ground (arith, eq_iff k j, eq_iff i k, eq_iff i j, lookup-put k j v m)

  pub lookup-put_self : (k : String) (v : V) (m : Dict V) → lookup k (put k v m) ≡ some v
  lookup-put_self k v m = simp (lookup-put, eq_refl)

  pub length-put : (k : String) (v : V) (m : Dict V) → length (put k v m) ≤ suc (length m)
  unfolding put
  length-put k v [] = omega arith
  length-put k v ((j, w) ∷ m) = ground (arith, length-put k v m)

  -- Only a new key makes the dictionary longer.
  pub lookup-none_of_grown :
      (k : String) (v : V) (m : Dict V) → length (put k v m) ≡ suc (length m) → lookup k m ≡ none
  unfolding put lookup
  lookup-none_of_grown k v [] h = refl
  lookup-none_of_grown k v ((j, w) ∷ m) h = ground (arith, lookup-none_of_grown k v m)

  pub In-lookup : (k : String) (m : Dict V) {v : V} → lookup k m ≡ some v → In (k, v) m
  unfolding lookup
  In-lookup k [] h = cc
  In-lookup k ((j, w) ∷ m) {v} h = elim (Bool-cases (j == k)) [
    | inl e ↦ In-head (ground (arith, eq_iff j k))
    | inr e ↦ there (In-lookup k m (rw e at h))
  ]

module _ {ℓ} {V : Type ℓ} (key : V → String) where
  -- {key(x): x for x in xs}
  unfoldable pub dict_from : Dict V → List V → Dict V
  dict_from m [] = m
  dict_from m (x ∷ xs) = dict_from (put (key x) x m) xs

  pub length-dict_from : (m : Dict V) (xs : List V) → length (dict_from m xs) ≤ length m + length xs
  unfolding dict_from
  length-dict_from m [] = omega arith
  length-dict_from m (x ∷ xs) =
      omega (arith, length-dict_from (put (key x) x m) xs, length-put (key x) x m)

  grown :
      (m : Dict V) (x : V) (xs : List V)
      → length (dict_from (put (key x) x m) xs) ≡ length m + suc (length xs)
      → length (put (key x) x m) ≡ suc (length m)
  grown m x xs h = omega (arith, length-dict_from (put (key x) x m) xs, length-put (key x) x m)

  -- With as many entries as values, no earlier entry is overwritten.
  lookup-dict_from_old :
      (m : Dict V) (xs : List V) (k : String) {v : V}
      → length (dict_from m xs) ≡ length m + length xs
      → lookup k m ≡ some v
      → lookup k (dict_from m xs) ≡ some v
  unfolding dict_from
  lookup-dict_from_old m [] k n h = h
  lookup-dict_from_old m (x ∷ xs) k {v} n h =
      let g = grown m x xs n in
      let fresh = lookup-none_of_grown (key x) x m g in
      lookup-dict_from_old (put (key x) x m) xs k (omega arith)
        (ground (arith, lookup-put (key x) k x m, eq_iff (key x) k))

  lookup-dict_from :
      (m : Dict V) (xs : List V) {x : V}
      → length (dict_from m xs) ≡ length m + length xs
      → In x xs
      → lookup (key x) (dict_from m xs) ≡ some x
  unfolding dict_from
  lookup-dict_from m [] n i = elim i [ ]
  lookup-dict_from m (x ∷ xs) n here =
      lookup-dict_from_old (put (key x) x m) xs (key x) (omega (arith, grown m x xs n))
        (lookup-put_self (key x) x m)
  lookup-dict_from m (x ∷ xs) n (there i) =
      lookup-dict_from (put (key x) x m) xs (omega (arith, grown m x xs n)) i

  -- What the dictionary holds was there before, or is a value under its own key.
  dict_from-origin :
      (m : Dict V) (xs : List V) (k : String) {v : V}
      → lookup k (dict_from m xs) ≡ some v
      → (lookup k m ≡ some v) ⊎ (In v xs × (key v ≡ k))
  unfolding dict_from
  dict_from-origin m [] k h = inl h
  dict_from-origin m (x ∷ xs) k {v} h = elim (dict_from-origin (put (key x) x m) xs k h) [
    | inr (i, e) ↦ inr (there i, e)
    | inl e ↦ elim (Bool-cases (key x == k)) [
      | inl same ↦
          let v_is_x : v ≡ x = ground (arith, lookup-put (key x) k x m) in
          inr (In-head v_is_x, ap key v_is_x ∙ (eq_iff (key x) k).0 same)
      | inr other ↦ inl (ground (arith, lookup-put (key x) k x m))
    ]
  ]

module _ {ℓ} {V : Type ℓ} (key : V → String) (xs : List V) where
  abbrev pub dict_of : Dict V
  dict_of = dict_from key [] xs

  pub lookup-dict_of :
      {x : V} → length dict_of ≡ length xs → In x xs → lookup (key x) dict_of ≡ some x
  lookup-dict_of n i = lookup-dict_from key [] xs (omega arith) i

  pub dict_of-origin : (k : String) {v : V} → lookup k dict_of ≡ some v → In v xs × (key v ≡ k)
  unfolding lookup
  dict_of-origin k h = elim (dict_from-origin key [] xs k h) [ inl e ↦ absurd (cc) | inr o ↦ o ]

-- set(a) == set(b)
abbrev pub same_keys {ℓ κ} : {V : Type ℓ} {W : Type κ} → Dict V → Dict W → Bool
same_keys a b = all (λ e. has b e.0) a && all (λ e. has a e.0) b

pub has-lookup {ℓ} :
    {V : Type ℓ} (m : Dict V) (k : String) → has m k ≡ true → (v : V) × (lookup k m ≡ some v)
has-lookup m k h = elim (Option-cases (lookup k m)) [
  | inl e ↦ absurd (ground arith)
  | inr found ↦ found
]

-- Sets of keys that are equal hold the same keys.
module _ {ℓ κ} {V : Type ℓ} {W : Type κ} (a : Dict V) (b : Dict W) where
  pub same_keys-left :
      (k : String) {v : V}
      → same_keys a b ≡ true
      → lookup k a ≡ some v
      → (w : W) × (lookup k b ≡ some w)
  same_keys-left k {v} h e =
      let fits = and-parts (all (λ p. has b p.0) a) (all (λ p. has a p.0) b) h in
      has-lookup b k (all-In (λ p. has b p.0) (In-lookup k a e) fits.0)

  pub same_keys-right :
      (k : String) {w : W}
      → same_keys a b ≡ true
      → lookup k b ≡ some w
      → (v : V) × (lookup k a ≡ some v)
  same_keys-right k {w} h e =
      let fits = and-parts (all (λ p. has b p.0) a) (all (λ p. has a p.0) b) h in
      has-lookup a k (all-In (λ p. has a p.0) (In-lookup k b e) fits.1)
