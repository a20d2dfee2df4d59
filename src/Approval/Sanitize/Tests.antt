-- ===== src/Approval/Sanitize/Tests.antt =====
-- Arguments with a password inside a list.
use learning_system.Prelude.{◌≡◌, true, [], ◌∷◌, Json}
use learning_system.Prelude.Codes.{codes}
use learning_system.Prelude.Jsons.{string, array, object, no_items, item, no_fields, field}
use learning_system.Approval.Sanitize.{sanitize}
use learning_system.Approval.Sanitize.Safety.{hides_secrets, sanitize-hides_secrets}

abbrev arguments : Json
arguments = object (
    field (codes "users")
      (array
        (item (object (field (codes "Password") (string (codes "hunter2")) no_fields)) no_items))
      no_fields)

sanitize-hides_secrets_example : hides_secrets (sanitize (codes "hunter2" ∷ []) arguments) ≡ true
sanitize-hides_secrets_example = sanitize-hides_secrets (codes "hunter2" ∷ []) arguments
