-- ===== src/Tools/Filter.antt =====
-- `sanitize_untrusted_tool_text` and `_sanitize` of tool_router.py.
pub mod Clean
use learning_system.Prelude.{
  ℕ, zero, suc, ◌+◌, ◌-◌, Bool, true, false, ◌&&◌, ◌||◌, Option, none, some, List, [], ◌∷◌, ◌++◌,
  leb, ◌==◌, if◌then◌else◌, length, Text, Json,
}
use learning_system.Prelude.Jsons.{
  null, boolean, number, string, array, object, Items, no_items, item, Fields, no_fields, field,
}

-- The letters that a letter of the phrases matches without regard to case.
unfoldable pub fold : ℕ → ℕ
fold c =
    if leb 65 c && leb c 90
    then c + 32
    else if c == 304 || c == 305
    then 105
    else if c == 383
    then 115
    else if c == 8490
    then 107
    else c

-- "ignore previous instructions"
abbrev pub ignore_instructions : Text
ignore_instructions =
    105 ∷ 103 ∷ 110 ∷ 111 ∷ 114 ∷ 101 ∷ 32 ∷ 112 ∷ 114 ∷ 101 ∷ 118 ∷ 105 ∷ 111 ∷ 117 ∷ 115 ∷ 32
    ∷ 105 ∷ 110 ∷ 115 ∷ 116 ∷ 114 ∷ 117 ∷ 99 ∷ 116 ∷ 105 ∷ 111 ∷ 110 ∷ 115 ∷ []

-- "system prompt"
abbrev pub system_prompt : Text
system_prompt = 115 ∷ 121 ∷ 115 ∷ 116 ∷ 101 ∷ 109 ∷ 32 ∷ 112 ∷ 114 ∷ 111 ∷ 109 ∷ 112 ∷ 116 ∷ []

-- "developer message"
abbrev pub developer_message : Text
developer_message =
    100 ∷ 101 ∷ 118 ∷ 101 ∷ 108 ∷ 111 ∷ 112 ∷ 101 ∷ 114 ∷ 32 ∷ 109 ∷ 101 ∷ 115 ∷ 115 ∷ 97 ∷ 103
    ∷ 101 ∷ []

abbrev pub phrases : List Text
phrases = ignore_instructions ∷ system_prompt ∷ developer_message ∷ []

-- "[filtered untrusted instruction]"
abbrev pub filtered : Text
filtered =
    91 ∷ 102 ∷ 105 ∷ 108 ∷ 116 ∷ 101 ∷ 114 ∷ 101 ∷ 100 ∷ 32 ∷ 117 ∷ 110 ∷ 116 ∷ 114 ∷ 117 ∷ 115
    ∷ 116 ∷ 101 ∷ 100 ∷ 32 ∷ 105 ∷ 110 ∷ 115 ∷ 116 ∷ 114 ∷ 117 ∷ 99 ∷ 116 ∷ 105 ∷ 111 ∷ 110 ∷ 93
    ∷ []

unfoldable pub matches : Text → Text → Bool
unfolding fold
matches [] t = true
matches (c ∷ p) [] = false
matches (c ∷ p) (d ∷ t) = fold d == c && matches p t

-- The length of the first phrase that a text starts with.
unfoldable pub phrase_at : List Text → Text → Option ℕ
unfolding matches
phrase_at [] t = none
phrase_at (p ∷ ps) t = let later = phrase_at ps t in if matches p t then some (length p) else later

-- re.sub from the left; `skip` characters of a match are left to pass.
unfoldable pub substitute : ℕ → Text → Text
unfolding phrase_at
substitute skip [] = []
substitute (suc skip) (c ∷ t) = substitute skip t
substitute zero (c ∷ t) =
    let kept = substitute zero t in
    elim (phrase_at phrases (c ∷ t)) [ none ↦ c ∷ kept | some n ↦ filtered ++ substitute (n - 1) t ]

unfoldable pub sanitize_text : Text → Text
unfolding substitute
sanitize_text t = substitute 0 t

unfoldable mutual
  unfolding sanitize_text

  pub sanitize : Json → Json
  sanitize null = null
  sanitize (boolean b) = boolean b
  sanitize (number n) = number n
  sanitize (string t) = string (sanitize_text t)
  sanitize (array xs) = array (sanitize_items xs)
  sanitize (object fs) = object (sanitize_fields fs)

  pub sanitize_items : Items → Items
  sanitize_items no_items = no_items
  sanitize_items (item v xs) = item (sanitize v) (sanitize_items xs)

  pub sanitize_fields : Fields → Fields
  sanitize_fields no_fields = no_fields
  sanitize_fields (field k v fs) = field k (sanitize v) (sanitize_fields fs)
