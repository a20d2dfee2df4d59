-- ===== src/Approval/Sanitize.antt =====
-- `_sanitize` of tool_approval_service.py: secrets are cut out of texts, and the value under a
-- sensitive key is replaced whole. Key tests ignore case.
pub mod Safety
mod Tests
use learning_system.Prelude.{
  ℕ, ◌+◌, ◌-◌, Bool, true, false, ◌&&◌, ◌||◌, List, [], ◌∷◌, map, leb, ◌==◌, if◌then◌else◌, drop,
  any, Text, is_empty, contains, Json, has_prefix,
}
use learning_system.Prelude.Jsons.{
  Items, Fields, null, boolean, number, string, array, object, no_items, item, no_fields, field,
}
use learning_system.Prelude.Codes.{codes, replace}

abbrev pub redacted : Text
redacted = codes "[redacted]"

-- What `re.IGNORECASE` takes a character for, among the letters of the pattern.
abbrev lower : ℕ → ℕ
lower c =
    if leb b'A' c && leb c b'Z'
    then c + 32
    else if c == 304 || c == 305
    then b'i'
    else if c == 383
    then b's'
    else if c == 8490
    then b'k'
    else c

-- `[_-]`
abbrev is_joint : ℕ → Bool
is_joint c = c == b'_' || c == b'-'

-- `key(?:$|[_-])` at the front
abbrev key_here : Text → Bool
key_here t =
    has_prefix (codes "key") t
    && elim (drop 3 t) [ [] ↦ true | c ∷ rest ↦ is_joint c || (c == 10 && is_empty rest) ]

-- `[_-]key(?:$|[_-])` anywhere
joint_key : Text → Bool
joint_key [] = false
joint_key (c ∷ t) = (is_joint c && key_here t) || joint_key t

-- `_SENSITIVE_KEY.search(key)`
unfoldable pub is_sensitive : Text → Bool
unfolding joint_key
is_sensitive key =
    let k = map lower key in
    any (λ w. contains w k)
      (codes "apikey"
        ∷ codes "api_key"
        ∷ codes "api-key"
        ∷ codes "auth"
        ∷ codes "credential"
        ∷ codes "cookie"
        ∷ codes "password"
        ∷ codes "secret"
        ∷ codes "token"
        ∷ [])
    || key_here k
    || joint_key k

unfoldable pub redact : List Text → Text → Text
unfolding replace
redact [] t = t
redact (secret ∷ secrets) t = redact secrets (replace secret redacted t)

unfoldable mutual
  unfolding redact is_sensitive

  pub sanitize : List Text → Json → Json
  sanitize secrets null = null
  sanitize secrets (boolean b) = boolean b
  sanitize secrets (number n) = number n
  sanitize secrets (string t) = string (redact secrets t)
  sanitize secrets (array xs) = array (sanitize_items secrets xs)
  sanitize secrets (object fs) = object (sanitize_fields secrets fs)

  pub sanitize_items : List Text → Items → Items
  sanitize_items secrets no_items = no_items
  sanitize_items secrets (item x xs) = item (sanitize secrets x) (sanitize_items secrets xs)

  pub sanitize_fields : List Text → Fields → Fields
  sanitize_fields secrets no_fields = no_fields
  sanitize_fields secrets (field k v fs) =
      let kept = sanitize secrets v in
      field k (if is_sensitive k then string redacted else kept) (sanitize_fields secrets fs)
