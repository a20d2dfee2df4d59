-- ===== src/Prelude/Texts.antt =====
-- Python's `str` as a list of code points, with the methods that the program uses.
use Prim.Native.Nat.{ℕ}
use mathlib.Core.Bool.{Bool, true, false, ◌&&◌, ◌||◌}
use mathlib.Core.List.{List, [], ◌∷◌, ◌++◌}
use mathlib.Core.Logic.{◌↔◌, inl, inr}
use mathlib.Core.Path.{◌≡◌, refl, sym, ap, ◌∙◌, subst}
use native.Mathlib.Omega.{arith}
use learning_system.Prelude.Tests.{leb, ◌==◌, ==_iff, if◌then◌else◌, Bool-cases}
use learning_system.Prelude.Lists.{any}

abbrev pub Text : Type 0
Text = List ℕ

abbrev pub is_empty {ℓ} : {A : Type ℓ} → List A → Bool
is_empty [] = true
is_empty (x ∷ xs) = false

abbrev pub text_eq : Text → Text → Bool
text_eq [] [] = true
text_eq (c ∷ s) (d ∷ t) = c == d && text_eq s t
text_eq _ _ = false

pub text_eq_iff : (s t : Text) → (text_eq s t ≡ true) ↔ (s ≡ t)
text_eq_iff [] [] = ground arith
text_eq_iff [] (d ∷ t) = ground arith
text_eq_iff (c ∷ s) [] = ground arith
text_eq_iff (c ∷ s) (d ∷ t) = ground (arith, ==_iff c d, text_eq_iff s t)

-- t.startswith(s)
unfoldable pub has_prefix : Text → Text → Bool
has_prefix [] t = true
has_prefix (c ∷ s) [] = false
has_prefix (c ∷ s) (d ∷ t) = c == d && has_prefix s t

-- s in t
unfoldable pub contains : Text → Text → Bool
unfolding has_prefix
contains s [] = is_empty s
contains s (d ∷ t) = has_prefix s (d ∷ t) || contains s t

-- str.isspace of one character (Unicode White_Space and the separators 28 to 31)
unfoldable pub is_space : ℕ → Bool
is_space c =
    (leb 9 c && leb c 13)
    || (leb 28 c && leb c 32)
    || (leb 8192 c && leb c 8202)
    || any (λ d. c == d) (133 ∷ 160 ∷ 5760 ∷ 8232 ∷ 8233 ∷ 8239 ∷ 8287 ∷ 12288 ∷ [])

unfoldable pub lstrip : Text → Text
unfolding is_space
lstrip [] = []
lstrip (c ∷ t) = let rest = lstrip t in if is_space c then rest else c ∷ t

unfoldable pub rstrip : Text → Text
unfolding is_space
rstrip [] = []
rstrip (c ∷ t) = let rest = rstrip t in if is_empty rest && is_space c then [] else c ∷ rest

unfoldable pub strip : Text → Text
unfolding lstrip rstrip
strip t = rstrip (lstrip t)

has_prefix-append : (s post : Text) → has_prefix s (s ++ post) ≡ true
unfolding has_prefix
has_prefix-append [] post = refl
has_prefix-append (c ∷ s) post = ground (arith, ==_iff c c, has_prefix-append s post)

contains-here : (s post : Text) → contains s (s ++ post) ≡ true
unfolding contains
contains-here [] [] = refl
contains-here [] (c ∷ post) = refl
contains-here (c ∷ s) post = ground (arith, ==_iff c c, has_prefix-append s post)

contains-cons : (s t : Text) (c : ℕ) → contains s t ≡ true → contains s (c ∷ t) ≡ true
unfolding contains
contains-cons s t c h = ground arith

pub contains-between : (pre s post : Text) → contains s (pre ++ (s ++ post)) ≡ true
contains-between [] s post = contains-here s post
contains-between (c ∷ pre) s post =
    contains-cons s (pre ++ (s ++ post)) c (contains-between pre s post)

lstrip-suffix : (t : Text) → (pre : Text) × (t ≡ pre ++ lstrip t)
unfolding lstrip
lstrip-suffix [] = ([], refl)
lstrip-suffix (c ∷ t) = elim (Bool-cases (is_space c)) [
  | inl e ↦ let (pre, q) = lstrip-suffix t in (c ∷ pre, rw e (ap (λ u. c ∷ u) q))
  | inr e ↦ ([], rw e refl)
]

rstrip-prefix : (t : Text) → (post : Text) × (t ≡ rstrip t ++ post)
unfolding rstrip
rstrip-prefix [] = ([], refl)
rstrip-prefix (c ∷ t) = elim (Bool-cases (is_empty (rstrip t) && is_space c)) [
  | inl e ↦ (c ∷ t, rw e refl)
  | inr e ↦ let (post, q) = rstrip-prefix t in (post, rw e (ap (λ u. c ∷ u) q))
]

pub contains-strip : (t : Text) → contains (strip t) t ≡ true
unfolding strip
contains-strip t =
    let (pre, p) = lstrip-suffix t in
    let (post, q) = rstrip-prefix (lstrip t) in
    subst (λ u. contains (rstrip (lstrip t)) u ≡ true) (sym (p ∙ ap (λ u. pre ++ u) q))
      (contains-between pre (rstrip (lstrip t)) post)

pub contains-nil : (t : Text) → contains [] t ≡ true
unfolding contains
contains-nil [] = refl
contains-nil (c ∷ t) = refl
