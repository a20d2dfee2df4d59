-- ===== src/Memory/Contracts.antt =====
-- The shapes of src/adaptive_tutor/tutor/memory.py that the gate reads and writes, and the errors of
-- backend/app/domain/memory/errors.py.
use learning_system.Prelude.{ℕ, String, Bool, Option, Text, ℤ}

-- Python's values as the content of a memory may hold them. `real` is a finite float in
-- ten-thousandths, `not_finite` any other; `moment` has no instant when it has no time zone; `day`
-- is a date as its ISO text. The key of `other_field` is no text.
mutual
  pub data Value : Type 0 where
    nothing not_finite other : Value
    flag : Bool → Value
    integer : ℤ → Value
    real : ℤ → Value
    text : Text → Value
    moment : Option ℕ → Value
    day : Text → Value
    dict : Fields → Value
    list : Items → Value

  pub data Fields : Type 0 where
    no_fields : Fields
    field : Text → Value → Fields → Fields
    other_field : Value → Fields → Fields

  pub data Items : Type 0 where
    no_items : Items
    item : Value → Items → Items

pub data MemoryType : Type 0 where
  learning_preference long_term_goal mastery_summary learning_milestone : MemoryType

pub data MemorySourceKind : Type 0 where
  explicit_user learning_event assessment mastery_record system_derived : MemorySourceKind

pub data MemoryCandidateOrigin : Type 0 where
  explicit_user_statement system_inference learning_result : MemoryCandidateOrigin

pub record CreateMemoryCommand : Type 0 where
  pub user_id : String
  pub goal_id : Option String
  pub memory_type : MemoryType
  pub schema_version : String
  pub content : Fields
  pub source_kind : MemorySourceKind
  pub source_ref_id : Option Text
  pub source_metadata : Fields
  pub importance : ℕ
  pub confidence : ℕ
  pub expires_at : Option ℕ
  pub idempotency_key : String

pub record MemoryPrivacySettings : Type 0 where
  pub enabled : Bool
  pub allow_explicit_user : Bool
  pub allow_system_inference : Bool
  pub allow_learning_results : Bool

pub record MemoryCandidate : Type 0 where
  pub candidate_id : String
  pub origin : MemoryCandidateOrigin
  pub command : CreateMemoryCommand
  pub semantic_key : String

pub data MemoryDecisionKind : Type 0 where
  approved rejected : MemoryDecisionKind

pub record MemoryDecision : Type 0 where
  pub candidate : MemoryCandidate
  pub decision : MemoryDecisionKind
  pub reason_code : String

pub data MemoryError : Type 0 where
  invalid_memory_content invalid_memory_scope : MemoryError
  memory_gate_invariant memory_gate_limit : MemoryError
  value_error : MemoryError
