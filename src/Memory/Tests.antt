-- ===== src/Memory/Tests.antt =====
-- The gate on two candidates that share a key, and a content that is normalised.
use learning_system.Prelude.{
  ℕ, ◌≤◌, String, ◌≡◌, refl, ◌≢◌, ◌⊎◌, inl, inr, true, false, Option, none, some, List, [], ◌∷◌,
  map, arith, str_eq, Bool-cases, All, ok, Text, strip, count_where, pos,
}
use learning_system.Memory.Contracts.{
  Fields, integer, dict, no_fields, field, MemoryType, learning_preference, explicit_user,
  explicit_user_statement, MemoryPrivacySettings, MemoryCandidate, MemoryDecision, approved,
  rejected,
}
use learning_system.Memory.Validation.{normalize_tree, validate_memory_command}
use learning_system.Memory.Validation.Bounds.{size, is_clean, normalize_tree-is_clean}
use learning_system.Memory.Gate.Approvals.{IsProper, IsPermitted, IsApproved, evaluate-approves}
use learning_system.Memory.Gate.{evaluate_memory_candidates, meets_confidence_threshold}
use learning_system.Memory.Gate.Policy.{
  IsAllowed, approves, evaluate-IsAllowed, one_approval_per_key,
}
use mathlib.Core.List.{flat_map}

abbrev fold : ℕ → Text
fold c = c ∷ []

abbrev iso : ℕ → Text
iso t = []

abbrev model : MemoryType → Fields → Option Fields
model t fs = some fs

abbrev encode : Fields → List ℕ
encode fs = []

abbrev digest : List ℕ → String
digest bytes = "d"

abbrev content : Fields
content = field (97 ∷ []) (integer (pos 3)) no_fields

abbrev settings : MemoryPrivacySettings
settings = record {
  enabled = true;
  allow_explicit_user = true;
  allow_system_inference = false;
  allow_learning_results = true;
}

abbrev candidate : String → MemoryCandidate
candidate id = record {
  candidate_id = id;
  origin = explicit_user_statement;
  command = record {
    user_id = "u";
    goal_id = none;
    memory_type = learning_preference;
    schema_version = "memory-v1";
    content = content;
    source_kind = explicit_user;
    source_ref_id = none;
    source_metadata = no_fields;
    importance = 5000;
    confidence = 9000;
    expires_at = none;
    idempotency_key = "k";
  };
  semantic_key = "s";
}

abbrev two : List MemoryCandidate
two = candidate "1" ∷ candidate "2" ∷ []

abbrev decisions : List MemoryDecision
decisions =
    record { candidate = candidate "1"; decision = approved; reason_code = "policy_approved" }
    ∷ record {
      candidate = candidate "2";
      decision = rejected;
      reason_code = "duplicate_idempotency_key";
    }
    ∷ []

decided :
    evaluate_memory_candidates fold iso model encode digest two settings "u" "g" (some 5)
    ≡ ok decisions
unfolding evaluate_memory_candidates flat_map strip validate_memory_command
decided = refl

evaluate-IsAllowed_example :
    (map (λ (d : MemoryDecision). d.candidate) decisions ≡ two)
    × All (λ d. (d.decision ≡ rejected) ⊎ IsAllowed settings "u" d.candidate) decisions
evaluate-IsAllowed_example =
    evaluate-IsAllowed fold iso model encode digest settings "u" "g" two (some 5) decisions decided

one_approval_per_key_example : count_where (approves "k") decisions ≤ 1
one_approval_per_key_example =
    one_approval_per_key fold iso model encode digest settings "u" "g" two (some 5) decisions "k"
      decided

normalized : normalize_tree fold iso 1 0 (dict content) ≡ some (2, dict content)
unfolding normalize_tree flat_map strip
normalized = refl

normalize_tree-is_clean_example :
    (2 ≡ size (dict content)) × (2 ≤ 1000) × (is_clean fold iso 1 (dict content) ≡ true)
normalize_tree-is_clean_example =
    normalize_tree-is_clean fold iso (dict content) 2 (dict content) normalized

-- One with another key before the first of the two.
abbrev other : MemoryCandidate
other = record (candidate "0") {
  command = record (candidate "0").command { idempotency_key = "j" };
}

abbrev three : List MemoryCandidate
three = other ∷ candidate "1" ∷ candidate "2" ∷ []

three-IsProper : All (IsProper fold iso model encode digest settings "u" "g" 5) three
unfolding flat_map strip validate_memory_command
three-IsProper = (
  record { owner = refl; of_goal = inl refl; source = refl; valid = (_, refl) },
  (
    record { owner = refl; of_goal = inl refl; source = refl; valid = (_, refl) },
    (record { owner = refl; of_goal = inl refl; source = refl; valid = (_, refl) }, tt),
  ),
)

first-IsPermitted : IsPermitted settings (candidate "1")
unfolding meets_confidence_threshold
first-IsPermitted = record { enabled = refl; from_source = refl; confident = refl }

keys_differ : ◌≢◌ {A = String} "j" "k"
keys_differ h = elim (Bool-cases (str_eq "j" "k")) [ inl e ↦ cc | inr e ↦ cc ]

evaluate-approves_example :
    (ds : List MemoryDecision) × (evaluate_memory_candidates fold iso model encode digest three
        settings "u" "g"
        (some 5)
      ≡ ok ds)
    × IsApproved (candidate "1") ds
evaluate-approves_example =
    evaluate-approves fold iso model encode digest settings "u" "g" 5 (other ∷ []) (candidate "1")
      (candidate "2" ∷ []) (omega arith) three-IsProper (keys_differ, tt) first-IsPermitted
