-- ===== src/Memory/Gate.antt =====
-- gate.py: which candidates for a memory are approved. The parameters are those of Validation.
pub mod Policy
pub mod Approvals
use learning_system.Prelude.{
  ℕ, String, Bool, true, false, not, ◌&&◌, Option, none, some, List, [], ◌∷◌, str_eq, ltb, leb,
  if◌then◌else◌, length, any, Result, ok, err, refuse, Text, text_eq, pos, ◌>>◌, ◌>>=◌,
}
use learning_system.Memory.Contracts.{
  Value, Fields, flag, integer, real, no_fields, field, other_field, MemoryType, system_derived,
  mastery_summary, learning_milestone, MemorySourceKind, explicit_user, learning_event, assessment,
  mastery_record, MemoryCandidateOrigin, explicit_user_statement, system_inference, learning_result,
  CreateMemoryCommand, MemoryPrivacySettings, MemoryCandidate, MemoryDecision, approved, rejected,
  MemoryError, memory_gate_invariant, memory_gate_limit, value_error,
}
use learning_system.Memory.Validation.{validate_memory_command, is_type}
use learning_system.Prelude.Codes.{codes}

-- _ORIGIN_SOURCE_KINDS
abbrev pub is_source_of : MemoryCandidateOrigin → MemorySourceKind → Bool
is_source_of explicit_user_statement explicit_user = true
is_source_of system_inference system_derived = true
is_source_of learning_result assessment = true
is_source_of learning_result mastery_record = true
is_source_of learning_result learning_event = true
is_source_of _ _ = false

-- The table `source_allowed` at the candidate's origin.
abbrev pub source_allowed : MemoryPrivacySettings → MemoryCandidateOrigin → Bool
source_allowed s explicit_user_statement = s.allow_explicit_user
source_allowed s system_inference = s.allow_system_inference
source_allowed s learning_result = s.allow_learning_results

-- _privacy_rejection_reason
unfoldable pub privacy_rejection_reason : MemoryCandidate → MemoryPrivacySettings → Option String
privacy_rejection_reason c s =
    if not s.enabled
    then some "memory_privacy_disabled"
    else if source_allowed s c.origin
    then none
    else some "source_privacy_disabled"

-- content.get(key)
unfoldable pub entry : Text → Fields → Option Value
entry key no_fields = none
entry key (field k v fs) = let rest = entry key fs in if text_eq k key then some v else rest
entry key (other_field v fs) = entry key fs

-- An int or a float, and not a bool, that is at least 0.6.
abbrev reaches : Option Value → Bool
reaches (some (integer (pos n))) = leb 1 n
reaches (some (real (pos n))) = leb 6000 n
reaches _ = false

abbrev is_inference : MemoryCandidateOrigin → Bool
is_inference system_inference = true
is_inference _ = false

-- _meets_confidence_threshold
unfoldable pub meets_confidence_threshold : MemoryCandidate → Bool
meets_confidence_threshold c =
    if is_inference c.origin
    then leb 8500 c.command.confidence
    else if is_type mastery_summary c.command.memory_type
    then leb 6000 c.command.confidence && reaches (entry (codes "confidence") c.command.content)
    else if is_type learning_milestone c.command.memory_type
    then leb 7000 c.command.confidence
    else true

-- _reject
unfoldable pub reject : MemoryCandidate → String → MemoryDecision
reject c reason = record { candidate = c; decision = rejected; reason_code = reason }

-- The tests of a candidate whose key is new.
unfoldable pub decide : MemoryPrivacySettings → MemoryCandidate → MemoryDecision
unfolding privacy_rejection_reason meets_confidence_threshold reject
decide s c = elim (privacy_rejection_reason c s) [
  | some reason ↦ reject c reason
  | none ↦
      if not (meets_confidence_threshold c)
      then reject c "confidence_below_threshold"
      else record { candidate = c; decision = approved; reason_code = "policy_approved" }
]

abbrev pub candidate_limit : ℕ
candidate_limit = 32

module _ (fold : ℕ → Text) (iso : ℕ → Text) (model : MemoryType → Fields → Option Fields)
    (encode : Fields → List ℕ) (digest : List ℕ → String) where
  -- _validate_candidate_invariants
  unfoldable pub validate_candidate_invariants :
      MemoryCandidate → String → String → ℕ → Result MemoryError (Unit {0})
  validate_candidate_invariants c user goal now = do
    refuse (not (str_eq c.command.user_id user)) memory_gate_invariant
    refuse (elim c.command.goal_id [ none ↦ false | some g ↦ not (str_eq g goal) ])
        memory_gate_invariant
    refuse (not (is_source_of c.origin c.command.source_kind)) memory_gate_invariant
    elim (validate_memory_command fold iso model encode digest c.command (some now)) [
      | ok v ↦ ok tt
      | err e ↦ err memory_gate_invariant
    ]

  -- The loop over the candidates, with the keys seen before.
  unfoldable pub evaluate_from :
      MemoryPrivacySettings
      → String
      → String
      → ℕ
      → List String
      → List MemoryCandidate
      → Result MemoryError (List MemoryDecision)
  unfolding validate_candidate_invariants decide reject
  evaluate_from s user goal now seen [] = ok []
  evaluate_from s user goal now seen (c ∷ rest) =
      let known = any (λ k. str_eq c.command.idempotency_key k) seen in
      let later =
        evaluate_from s user goal now (if known then seen else c.command.idempotency_key ∷ seen)
          rest in
      do
        validate_candidate_invariants c user goal now
        decisions ← later
        ok ((if known then reject c "duplicate_idempotency_key" else decide s c) ∷ decisions)

  -- `now` is none when it has no time zone.
  unfoldable pub evaluate_memory_candidates :
      List MemoryCandidate
      → MemoryPrivacySettings
      → String
      → String
      → Option ℕ
      → Result MemoryError (List MemoryDecision)
  unfolding evaluate_from
  evaluate_memory_candidates candidates s user goal now = do
    refuse (ltb candidate_limit (length candidates)) memory_gate_limit
    elim now [ none ↦ err value_error | some t ↦ evaluate_from s user goal t [] candidates ]
