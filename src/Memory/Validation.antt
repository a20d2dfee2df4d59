-- ===== src/Memory/Validation.antt =====
-- validation.py: the checks of a command that creates a memory. Parameters: `fold` is Unicode case
-- folding of a character; `iso` prints an instant (`isoformat` in UTC); `model` is the validation of
-- a content by its pydantic model; `encode` is the canonical JSON in UTF-8 and `digest` its SHA-256.

pub mod Bounds
use learning_system.Prelude.{
  ℕ, suc, ◌+◌, String, Bool, true, false, not, ◌&&◌, ◌||◌, Option, none, some, List, [], ◌∷◌, ltb,
  leb, if◌then◌else◌, length, any, Result, ok, err, ◌>>=◌, ◌>>◌, refuse, Text, is_empty, text_eq,
  strip,
}
use mathlib.Core.List.{flat_map}
use learning_system.Prelude.Codes.{codes}
use learning_system.Memory.Contracts.{
  Value, Fields, Items, nothing, not_finite, other, flag, integer, real, text, moment, day, dict,
  list, no_fields, field, other_field, no_items, item, MemoryType, learning_preference,
  long_term_goal, mastery_summary, learning_milestone, MemorySourceKind, explicit_user,
  CreateMemoryCommand, MemoryError, invalid_memory_content, invalid_memory_scope, value_error,
}

unfoldable pub forbidden_keys : List Text
forbidden_keys =
    codes "messages"
    ∷ codes "raw_chat"
    ∷ codes "chat_history"
    ∷ codes "conversation_history"
    ∷ codes "transcript"
    ∷ codes "prompt"
    ∷ codes "system_prompt"
    ∷ codes "rag_text"
    ∷ codes "document_text"
    ∷ codes "document_content"
    ∷ codes "access_token"
    ∷ codes "refresh_token"
    ∷ codes "api_key"
    ∷ codes "password"
    ∷ []

-- len of a dict and of a list
unfoldable pub count_fields : Fields → ℕ
count_fields no_fields = 0
count_fields (field k v fs) = suc (count_fields fs)
count_fields (other_field v fs) = suc (count_fields fs)

unfoldable pub count_items : Items → ℕ
count_items no_items = 0
count_items (item x xs) = suc (count_items xs)

-- A step, and what follows unless it raised.
abbrev pub and_then {ℓ κ} : {A : Type ℓ} {B : Type κ} → Option A → (A → Option B) → Option B
and_then none f = none
and_then (some a) f = f a

module _ (fold : ℕ → Text) (iso : ℕ → Text) where
  unfoldable pub is_forbidden : Text → Bool
  unfolding forbidden_keys
  is_forbidden key = any (text_eq (flat_map fold (strip key))) forbidden_keys

  -- The count of the values visited and the bounds on it and on the depth.
  abbrev pub visited : ℕ → ℕ → Option (ℕ × Value) → Option (ℕ × Value)
  visited depth nodes result = if ltb 1000 (suc nodes) || ltb 8 depth then none else result

  -- `nodes` is the number of values visited before; the result has the number after.
  unfoldable mutual
    unfolding is_forbidden count_fields count_items

    pub normalize_tree : ℕ → ℕ → Value → Option (ℕ × Value)
    normalize_tree depth nodes (moment none) = none
    normalize_tree depth nodes (moment (some t)) =
        visited depth nodes (some (suc nodes, text (iso t)))
    normalize_tree depth nodes nothing = visited depth nodes (some (suc nodes, nothing))
    normalize_tree depth nodes (text t) = visited depth nodes (some (suc nodes, text t))
    normalize_tree depth nodes (flag b) = visited depth nodes (some (suc nodes, flag b))
    normalize_tree depth nodes (integer i) = visited depth nodes (some (suc nodes, integer i))
    normalize_tree depth nodes (real r) = visited depth nodes (some (suc nodes, real r))
    normalize_tree depth nodes not_finite = none
    normalize_tree depth nodes (dict fs) =
        let inner = normalize_fields (suc depth) (suc nodes) fs in
        visited depth nodes
          (if ltb 100 (count_fields fs) then none else and_then inner λ r. some (r.0, dict r.1))
    normalize_tree depth nodes (list xs) =
        let inner = normalize_items (suc depth) (suc nodes) xs in
        visited depth nodes
          (if ltb 100 (count_items xs) then none else and_then inner λ r. some (r.0, list r.1))
    normalize_tree depth nodes (day d) = none
    normalize_tree depth nodes other = none

    pub normalize_fields : ℕ → ℕ → Fields → Option (ℕ × Fields)
    normalize_fields depth nodes no_fields = some (nodes, no_fields)
    normalize_fields depth nodes (field k v fs) =
        let visit =
          and_then (normalize_tree depth nodes v)
            λ r. and_then (normalize_fields depth r.0 fs) λ q. some (q.0, field k r.1 q.1) in
        if is_forbidden k then none else visit
    normalize_fields depth nodes (other_field v fs) = none

    pub normalize_items : ℕ → ℕ → Items → Option (ℕ × Items)
    normalize_items depth nodes no_items = some (nodes, no_items)
    normalize_items depth nodes (item x xs) =
        and_then (normalize_tree depth nodes x)
          λ r. and_then (normalize_items depth r.0 xs) λ q. some (q.0, item r.1 q.1)

-- The raw content of a goal has a date replaced by its text.
abbrev is_day : Value → Option Text
is_day (day d) = some d
is_day _ = none

unfoldable pub iso_deadline : Fields → Fields
iso_deadline no_fields = no_fields
iso_deadline (field k v fs) =
    let rest = iso_deadline fs in
    if text_eq k (codes "deadline")
    then elim (is_day v) [ none ↦ field k v fs | some d ↦ field k (text d) fs ]
    else field k v rest
iso_deadline (other_field v fs) = other_field v (iso_deadline fs)

abbrev pub is_type : MemoryType → MemoryType → Bool
is_type learning_preference learning_preference = true
is_type long_term_goal long_term_goal = true
is_type mastery_summary mastery_summary = true
is_type learning_milestone learning_milestone = true
is_type _ _ = false

abbrev is_there {ℓ} : {A : Type ℓ} → Option A → Bool
is_there none = false
is_there (some a) = true

-- _validate_scope
unfoldable pub validate_scope : CreateMemoryCommand → Result MemoryError (Unit {0})
validate_scope c = do
  refuse (is_type learning_preference c.memory_type && is_there c.goal_id) invalid_memory_scope
  refuse
      ((is_type mastery_summary c.memory_type || is_type learning_milestone c.memory_type)
        && not (is_there c.goal_id))
      invalid_memory_scope

abbrev is_explicit : MemorySourceKind → Bool
is_explicit explicit_user = true
is_explicit _ = false

-- _validate_source
unfoldable pub validate_source : CreateMemoryCommand → Result MemoryError (Unit {0})
validate_source c = do
  refuse (elim c.source_ref_id [ none ↦ false | some r ↦ is_empty r ]) invalid_memory_content
  refuse
      (not (is_explicit c.source_kind)
        && elim c.source_ref_id [ none ↦ true | some r ↦ is_empty r ])
      invalid_memory_content

abbrev pub thirty_days : ℕ
thirty_days = 2592000000000

-- _validate_expiry
unfoldable pub validate_expiry : CreateMemoryCommand → ℕ → Result MemoryError (Unit {0})
validate_expiry c now = do
  refuse
      (is_type mastery_summary c.memory_type
        && elim c.expires_at [ none ↦ true | some t ↦ ltb (now + thirty_days) t ])
      invalid_memory_content
  refuse (is_type learning_milestone c.memory_type && is_there c.expires_at) invalid_memory_content
  refuse (elim c.expires_at [ none ↦ false | some t ↦ leb t now ]) invalid_memory_content

pub record ValidatedMemoryCommand : Type 0 where
  pub command : CreateMemoryCommand
  pub content_hash : String

abbrev as_fields : Option (ℕ × Value) → Result MemoryError Fields
as_fields (some (n, dict fs)) = ok fs
as_fields _ = err invalid_memory_content

module _ (fold : ℕ → Text) (iso : ℕ → Text) (model : MemoryType → Fields → Option Fields)
    (encode : Fields → List ℕ) (digest : List ℕ → String) where
  -- `now` is none when it has no time zone.
  unfoldable pub validate_memory_command :
      CreateMemoryCommand → Option ℕ → Result MemoryError ValidatedMemoryCommand
  unfolding iso_deadline validate_scope validate_source validate_expiry normalize_tree
  validate_memory_command c none = err value_error
  validate_memory_command c (some now) = do
    validate_scope c
    validate_source c
    validate_expiry c now
    let raw = if is_type long_term_goal c.memory_type then iso_deadline c.content else c.content
    normalized ← as_fields (normalize_tree fold iso 1 0 (dict raw))
    metadata ← as_fields (normalize_tree fold iso 1 0 (dict c.source_metadata))
    content ← elim (model c.memory_type normalized) [
      | none ↦ err invalid_memory_content
      | some fs ↦ ok fs
    ]
    refuse (ltb 8192 (length (encode content))) invalid_memory_content
    ok (record {
      command = record c { content = content; source_metadata = metadata };
      content_hash = digest (encode content);
    })
