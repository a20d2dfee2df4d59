-- ===== src/Prelude/Codes.antt =====
-- The code points of a literal, and the methods of `str` that cut and join.
use Prim.Native.Char.{code}
use Prim.Native.Nat.{ℕ, zero, suc, ◌-◌}
use Prim.Native.String.{String}
use mathlib.Core.List.{List, [], ◌∷◌, ◌++◌}
use learning_system.Prelude.Tests.{◌==◌, if◌then◌else◌}
use learning_system.Prelude.Lists.{length}
use learning_system.Prelude.Texts.{Text, has_prefix}

abbrev pub codes : String → Text
codes String.[] = []
codes (String.◌∷◌ c s) = code c ∷ codes s

-- text.replace(old, new) for a text `old` that is not empty: left to right, without overlap; the
-- number is how many characters of a match are still to be dropped.
replace_from : ℕ → Text → Text → Text → Text
replace_from skip old new [] = []
replace_from (suc skip) old new (c ∷ t) = replace_from skip old new t
replace_from zero old new (c ∷ t) =
    let after = replace_from (length old - 1) old new t in
    let on = replace_from zero old new t in if has_prefix old (c ∷ t) then new ++ after else c ∷ on

unfoldable pub replace : Text → Text → Text → Text
unfolding replace_from
replace old new t = replace_from zero old new t

-- The head of a list of texts, longer by a character.
unfoldable pub push : ℕ → List Text → List Text
push c [] = (c ∷ []) ∷ []
push c (w ∷ ws) = (c ∷ w) ∷ ws

-- text.split(c) for one character
unfoldable pub split_on : ℕ → Text → List Text
unfolding push
split_on c [] = [] ∷ []
split_on c (d ∷ t) = let rest = split_on c t in if d == c then [] ∷ rest else push d rest

-- separator.join(parts)
unfoldable pub join_with : Text → List Text → Text
join_with separator [] = []
join_with separator (w ∷ []) = w
join_with separator (w ∷ v ∷ ws) = w ++ (separator ++ join_with separator (v ∷ ws))
