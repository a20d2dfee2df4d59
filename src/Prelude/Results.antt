-- ===== src/Prelude/Results.antt =====
-- Code that may raise: a value, or the exception's code.
use mathlib.Core.Logic.{◌⊎◌, inl, inr}
use mathlib.Core.Path.{◌≡◌, refl, subst}
use mathlib.Core.Bool.{Bool, true, false}
use mathlib.Core.List.{List, [], ◌∷◌}
use learning_system.Prelude.Lists.{All, In, here, there}

pub data Result {ℓ κ} (E : Type ℓ) (A : Type κ) : Type (ℓ ⊔ κ) where
  ok : A → Result E A
  err : E → Result E A

infixl 5 ◌>>=◌ ◌>>◌
abbrev pub ◌>>=◌ {ℓ κ μ} :
    {E : Type ℓ} {A : Type κ} {B : Type μ} → Result E A → (A → Result E B) → Result E B
ok a >>= f = f a
err e >>= f = err e

abbrev pub ◌>>◌ {ℓ κ} : {E : Type ℓ} {B : Type κ} → Result E (Unit {0}) → Result E B → Result E B
m >> k = m >>= λ _. k

-- `if bad: raise e`
abbrev pub refuse {ℓ} : {E : Type ℓ} → Bool → E → Result E (Unit {0})
refuse true e = err e
refuse false e = ok tt

pub >>=-eq-ok {ℓ κ μ} :
    {X : Type ℓ} {Y : Type κ} {Z : Type μ} (r : Result X Y) (next : Y → Result X Z) {z : Z}
    → (r >>= next) ≡ ok z
    → (y : Y) × (r ≡ ok y) × (next y ≡ ok z)
>>=-eq-ok (err x) next h = cc
>>=-eq-ok (ok y) next h = (y, refl, h)

pub refuse-eq-ok {ℓ} : {E : Type ℓ} (b : Bool) (e : E) → refuse b e ≡ ok tt → b ≡ false
refuse-eq-ok true e h = cc
refuse-eq-ok false e h = refl

pub past_refuse {ℓ κ} :
    {E : Type ℓ} {A : Type κ} (b : Bool) (e : E) (r : Result E A) {a : A}
    → (refuse b e >> r) ≡ ok a
    → (b ≡ false) × (r ≡ ok a)
past_refuse true e r h = cc
past_refuse false e r h = (refl, h)

pub Result-cases {ℓ κ} :
    {E : Type ℓ} {A : Type κ} (r : Result E A) → ((e : E) × (r ≡ err e)) ⊎ ((a : A) × (r ≡ ok a))
Result-cases (ok a) = inr (a, refl)
Result-cases (err e) = inl (e, refl)

pub ok-injective {ℓ κ} :
    {E : Type ℓ} {A : Type κ} {a b : A} → ◌≡◌ {A = Result E A} (ok a) (ok b) → a ≡ b
ok-injective h = cc

-- A loop whose body may raise, without and with a value for each round.
module _ {ℓ κ} {E : Type ℓ} {A : Type κ} where
  abbrev pub each_do : (A → Result E (Unit {0})) → List A → Result E (Unit {0})
  each_do f [] = ok tt
  each_do f (x ∷ xs) = let rest = each_do f xs in f x >> rest

  pub each_do-In :
      (f : A → Result E (Unit {0})) {a : A} {xs : List A}
      → In a xs
      → each_do f xs ≡ ok tt
      → f a ≡ ok tt
  each_do-In f {a} (here {xs = xs}) h = let (u, e, _) = >>=-eq-ok (f a) (λ _. each_do f xs) h in e
  each_do-In f (there {x = x} {xs = xs} m) h =
      let (_, _, e) = >>=-eq-ok (f x) (λ _. each_do f xs) h in each_do-In f m e

  pub each_do-All :
      (f : A → Result E (Unit {0})) (xs : List A) → All (λ a. f a ≡ ok tt) xs → each_do f xs ≡ ok tt
  each_do-All f [] h = refl
  each_do-All f (x ∷ xs) h = rw (h.0) (each_do-All f xs h.1)

  abbrev pub each {μ} : {B : Type μ} → (A → Result E B) → List A → Result E (List B)
  each f [] = ok []
  each f (x ∷ xs) = let rest = each f xs in do b ← f x; bs ← rest; ok (b ∷ bs)

  -- A successful loop has a result for each element.
  pub each-In {μ} :
      {B : Type μ} (f : A → Result E B) {a : A} {xs : List A} {bs : List B}
      → In a xs
      → each f xs ≡ ok bs
      → (b : B) × (f a ≡ ok b) × In b bs
  each-In f {a} (here {xs = xs}) h =
      let (b, e, p) = >>=-eq-ok (f a) (λ b. each f xs >>= λ cs. ok (b ∷ cs)) h in
      let (cs, _, q) = >>=-eq-ok (each f xs) (λ cs. ok (b ∷ cs)) p in
      (b, e, subst (In b) (ok-injective q) here)
  each-In f {bs = bs} (there {x = x} {xs = xs} m) h =
      let (c, _, p) = >>=-eq-ok (f x) (λ b. each f xs >>= λ cs. ok (b ∷ cs)) h in
      let (cs, d, q) = >>=-eq-ok (each f xs) (λ cs. ok (c ∷ cs)) p in
      let (b, e, i) = each-In f m d in (b, e, subst (In b) (ok-injective q) (there i))
