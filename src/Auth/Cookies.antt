-- ===== src/Auth/Cookies.antt =====
-- RefreshTokenFactory of refresh_tokens.py.
use learning_system.Prelude.{
  ◌≡◌, refl, false, ◌||◌, Option, none, some, [], ◌∷◌, ◌++◌, ◌==◌, if◌then◌else◌, All, Text,
  is_empty,
}
use learning_system.Auth.{Drawn}

-- value.partition("."): the texts before and after the first full stop, if there is one
unfoldable pub partition : Text → Option (Text × Text)
partition [] = none
partition (c ∷ t) =
    let rest = partition t in
    if c == 46 then some ([], t) else elim rest [ none ↦ none | some (a, b) ↦ some (c ∷ a, b) ]

-- GeneratedRefreshToken.cookie_value
abbrev pub cookie_value : Drawn → Text
cookie_value d = d.token_id ++ (46 ∷ d.secret)

unfoldable pub parse : Option Text → Option (Text × Text)
unfolding partition
parse none = none
parse (some value) = elim (partition value) [
  | none ↦ none
  | some (token_id, secret) ↦
      if is_empty token_id || is_empty secret then none else some (token_id, secret)
]

partition-join :
    (a b : Text) → All (λ c. (c == 46) ≡ false) a → partition (a ++ (46 ∷ b)) ≡ some (a, b)
unfolding partition
partition-join [] b h = refl
partition-join (c ∷ a) b h = rw (h.0, partition-join a b h.1) refl

-- A generated cookie is parsed to the token's id and its secret, when neither is empty and the id has no
-- full stop.
pub parse-cookie_value :
    (d : Drawn)
    → All (λ c. (c == 46) ≡ false) d.token_id
    → is_empty d.token_id ≡ false
    → is_empty d.secret ≡ false
    → parse (some (cookie_value d)) ≡ some (d.token_id, d.secret)
unfolding parse
parse-cookie_value d h i j = rw (parse, partition-join d.token_id d.secret h, i, j) refl
