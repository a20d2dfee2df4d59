-- ===== src/Approval/Sanitize/Safety.antt =====
-- What `_sanitize` of tool_approval_service.py hides.
use learning_system.Prelude.{
  ◌≡◌, refl, inl, inr, Bool, true, false, ◌&&◌, List, arith, if◌then◌else◌, Bool-cases, Text,
  text_eq, Json,
}
use learning_system.Prelude.Jsons.{
  Items, Fields, null, boolean, number, string, array, object, no_items, item, no_fields, field,
}
use learning_system.Approval.Sanitize.{
  redacted, is_sensitive, sanitize, sanitize_items, sanitize_fields,
}

is_redacted : Json → Bool
is_redacted (string t) = text_eq t redacted
is_redacted _ = false

-- At every depth the value under a sensitive key is the redaction mark.
mutual
  unfolding is_redacted

  pub hides_secrets : Json → Bool
  hides_secrets (array xs) = hides_in_items xs
  hides_secrets (object fs) = hides_in_fields fs
  hides_secrets _ = true

  pub hides_in_items : Items → Bool
  hides_in_items no_items = true
  hides_in_items (item x xs) = hides_secrets x && hides_in_items xs

  pub hides_in_fields : Fields → Bool
  hides_in_fields no_fields = true
  hides_in_fields (field k v fs) =
      let below = hides_secrets v in
      (if is_sensitive k then is_redacted v else below) && hides_in_fields fs

mutual
  unfolding sanitize sanitize_items sanitize_fields hides_secrets hides_in_items hides_in_fields
      is_redacted

  values : (secrets : List Text) (v : Json) → hides_secrets (sanitize secrets v) ≡ true
  values secrets null = refl
  values secrets (boolean b) = refl
  values secrets (number n) = refl
  values secrets (string t) = refl
  values secrets (array xs) = items secrets xs
  values secrets (object fs) = fields secrets fs

  items : (secrets : List Text) (xs : Items) → hides_in_items (sanitize_items secrets xs) ≡ true
  items secrets no_items = refl
  items secrets (item x xs) = ground (arith, values secrets x, items secrets xs)

  fields : (secrets : List Text) (fs : Fields) → hides_in_fields (sanitize_fields secrets fs) ≡ true
  fields secrets no_fields = refl
  fields secrets (field k v fs) = elim (Bool-cases (is_sensitive k)) [
    | inl e ↦ rw e (fields secrets fs)
    | inr e ↦ rw e (ground (arith, values secrets v, fields secrets fs))
  ]

-- In a sanitised value, at every depth, the value under a sensitive key is "[redacted]".
pub sanitize-hides_secrets :
    (secrets : List Text) (v : Json) → hides_secrets (sanitize secrets v) ≡ true
sanitize-hides_secrets = values
