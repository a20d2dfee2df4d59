-- ===== src/Prelude/Slices.antt =====
-- Slices of texts, and the characters of a text that are no white space.
use Prim.Native.Nat.{ℕ, zero, suc, ◌+◌, ◌-◌, ◌≤◌}
use mathlib.Core.Bool.{Bool, true, not, ◌&&◌}
use mathlib.Core.List.{List, [], ◌∷◌, ◌++◌}
use mathlib.Core.Logic.{inl, inr}
use mathlib.Core.Path.{◌≡◌, refl, sym, ap, ◌∙◌}
use native.Mathlib.Omega.{arith}
use learning_system.Prelude.Tests.{Bool-cases, and-parts}
use learning_system.Prelude.Lists.{length, take, drop, filter_by}
use learning_system.Prelude.Texts.{Text, is_empty, is_space, lstrip, rstrip, strip}

-- text[start:end] for start ≤ end
abbrev pub slice {ℓ} : {A : Type ℓ} → ℕ → ℕ → List A → List A
slice start end t = take (end - start) (drop start t)

module _ {ℓ} {A : Type ℓ} where
  pub take-append-drop : (n : ℕ) (xs : List A) → take n xs ++ drop n xs ≡ xs
  take-append-drop zero xs = refl
  take-append-drop (suc n) [] = refl
  take-append-drop (suc n) (x ∷ xs) = ap (λ l. x ∷ l) (take-append-drop n xs)

  drop-nil : (n : ℕ) → drop {A = A} n [] ≡ []
  drop-nil zero = refl
  drop-nil (suc n) = refl

  pub drop-drop : (m n : ℕ) (xs : List A) → drop m (drop n xs) ≡ drop (n + m) xs
  drop-drop m zero xs = ap (λ k. drop k xs) (omega arith)
  drop-drop m (suc n) [] = drop-nil m ∙ sym (drop-nil (suc n + m))
  drop-drop m (suc n) (x ∷ xs) =
      let same : suc (n + m) ≡ suc n + m = omega arith in
      drop-drop m n xs ∙ ap (λ k. drop k (x ∷ xs)) same

  pub length-take-le : (n : ℕ) (xs : List A) → length (take n xs) ≤ n
  length-take-le zero xs = omega arith
  length-take-le (suc n) [] = omega arith
  length-take-le (suc n) (x ∷ xs) = omega (arith, length-take-le n xs)

  pub length-drop : (n : ℕ) (xs : List A) → length (drop n xs) ≡ length xs - n
  length-drop zero xs = omega arith
  length-drop (suc n) [] = omega arith
  length-drop (suc n) (x ∷ xs) = omega (arith, length-drop n xs)

  pub filter_by-append :
      (p : A → Bool) (xs ys : List A) → filter_by p (xs ++ ys) ≡ filter_by p xs ++ filter_by p ys
  filter_by-append p [] ys = refl
  filter_by-append p (x ∷ xs) ys = elim (Bool-cases (p x)) [
    | inl e ↦ rw e (ap (λ l. x ∷ l) (filter_by-append p xs ys))
    | inr e ↦ rw e (filter_by-append p xs ys)
  ]

-- The characters that are no white space, in order.
abbrev pub visible : Text → Text
visible = filter_by (λ c. not (is_space c))

visible-blank : (c : ℕ) (t : Text) → is_space c ≡ true → visible (c ∷ t) ≡ visible t
visible-blank c t e = rw e refl

visible-cons : (c : ℕ) (s t : Text) → visible s ≡ visible t → visible (c ∷ s) ≡ visible (c ∷ t)
visible-cons c s t h = elim (Bool-cases (is_space c)) [
  | inl e ↦ rw e h
  | inr e ↦ rw e (ap (λ l. c ∷ l) h)
]

visible-lstrip : (t : Text) → visible (lstrip t) ≡ visible t
unfolding lstrip
visible-lstrip [] = refl
visible-lstrip (c ∷ t) = elim (Bool-cases (is_space c)) [
  | inl e ↦
      let cut : lstrip (c ∷ t) ≡ lstrip t = rw e refl in
      ap visible cut ∙ visible-lstrip t ∙ sym (visible-blank c t e)
  | inr e ↦ let kept : lstrip (c ∷ t) ≡ c ∷ t = rw e refl in ap visible kept
]

visible-rstrip : (t : Text) → visible (rstrip t) ≡ visible t
unfolding rstrip
visible-rstrip [] = refl
visible-rstrip (c ∷ t) = elim (Bool-cases (is_empty (rstrip t) && is_space c)) [
  | inl e ↦
      let (gone, blank) = and-parts _ _ e in
      let cut : rstrip (c ∷ t) ≡ [] = rw e refl in
      ap visible cut
      ∙ ap visible (sym (empty-nil (rstrip t) gone))
      ∙ visible-rstrip t
      ∙ sym (visible-blank c t blank)
  | inr e ↦
      let kept : rstrip (c ∷ t) ≡ c ∷ rstrip t = rw e refl in
      ap visible kept ∙ visible-cons c (rstrip t) t (visible-rstrip t)
]
  where
    empty-nil : (xs : Text) → is_empty xs ≡ true → xs ≡ []
    empty-nil [] h = refl
    empty-nil (x ∷ xs) h = absurd (cc)

pub visible-strip : (t : Text) → visible (strip t) ≡ visible t
unfolding strip
visible-strip t = visible-rstrip (lstrip t) ∙ visible-lstrip t

pub length-rstrip : (t : Text) → length (rstrip t) ≤ length t
unfolding rstrip
length-rstrip [] = omega arith
length-rstrip (c ∷ t) = ground (arith, length-rstrip t)

length-lstrip : (t : Text) → length (lstrip t) ≤ length t
unfolding lstrip
length-lstrip [] = omega arith
length-lstrip (c ∷ t) = ground (arith, length-lstrip t)

pub length-strip : (t : Text) → length (strip t) ≤ length t
unfolding strip
length-strip t = omega (arith, length-rstrip (lstrip t), length-lstrip t)
