-- ===== src/Assessment/Generation.antt =====
-- `validate_generation_bundle` of generation_policy.py, which every generated assessment passes. Of
-- the contexts the fields that it reads are kept; sets are lists without regard to repetition.
pub mod Validity
mod Tests
use learning_system.Prelude.{
  ℕ, suc, ◌+◌, String, Bool, true, false, not, ◌||◌, List, [], ◌∷◌, map, str_eq, ltb, ◌==◌,
  if◌then◌else◌, length, any, all, Result, refuse, each_do, Text, is_empty, text_eq, ◌>>◌,
}
use learning_system.Assessment.Contracts.{
  AssessmentError, generation_output_invalid, invalid_source_reference, invalid_rubric,
  AssessmentQuestionType, choice, GeneratedOptionV2, RubricCriterionV2,
}

pub record AssessmentGenerationContextV2 : Type 0 where
  pub requested_item_count : ℕ
  pub requested_knowledge_node_ids : List String
  pub source_chunk_ids : List String

pub record GeneratedAssessmentItemV2 : Type 0 where
  pub item_key : String
  pub knowledge_node_id : String
  pub question_type : AssessmentQuestionType
  pub prompt : Text
  pub options : List GeneratedOptionV2
  pub reference_answer : Text
  pub rubric : List RubricCriterionV2
  pub difficulty : ℕ
  pub source_chunk_ids : List String

pub record AssessmentGenerationBundleV2 : Type 0 where
  pub items : List GeneratedAssessmentItemV2

-- k in set(keys)
abbrev pub is_among : List String → String → Bool
is_among keys k = any (λ j. str_eq k j) keys

abbrev pub is_text_among : List Text → Text → Bool
is_text_among keys k = any (λ j. text_eq k j) keys

-- set(keys) <= set(others)
abbrev pub is_subset : List String → List String → Bool
is_subset keys others = all (is_among others) keys

-- len(set(keys))
unfoldable pub count_distinct {ℓ} : {A : Type ℓ} → (A → A → Bool) → List A → ℕ
count_distinct eq [] = 0
count_distinct eq (k ∷ keys) =
    let rest = count_distinct eq keys in if any (λ j. eq k j) keys then rest else suc rest

abbrev pub total_points : List RubricCriterionV2 → ℕ
total_points [] = 0
total_points (c ∷ rest) = c.max_points + total_points rest

abbrev is_choice : AssessmentQuestionType → Bool
is_choice choice = true
is_choice _ = false

-- The checks of the options of one item.
unfoldable pub check_options : GeneratedAssessmentItemV2 → Result AssessmentError (Unit {0})
unfolding count_distinct
check_options item =
    let option_ids = map (λ (o : GeneratedOptionV2). o.option_key) item.options in
    if is_choice item.question_type
    then refuse
        (ltb (length option_ids) 2
          || not (length option_ids == count_distinct text_eq option_ids)
          || not (is_text_among option_ids item.reference_answer))
        invalid_rubric
    else refuse (not (is_empty item.options)) invalid_rubric

-- One round of the loop over the items.
unfoldable pub check_generated_item :
    AssessmentGenerationContextV2 → GeneratedAssessmentItemV2 → Result AssessmentError (Unit {0})
unfolding check_options count_distinct
check_generated_item context item =
    let criterion_ids = map (λ (c : RubricCriterionV2). c.criterion_id) item.rubric in
    do
      refuse (not (is_among context.requested_knowledge_node_ids item.knowledge_node_id))
          generation_output_invalid
      refuse (not (is_subset item.source_chunk_ids context.source_chunk_ids))
          invalid_source_reference
      refuse (not (total_points item.rubric == 100)) invalid_rubric
      refuse (not (length criterion_ids == count_distinct str_eq criterion_ids)) invalid_rubric
      check_options item

unfoldable pub validate_generation_bundle :
    AssessmentGenerationContextV2 → AssessmentGenerationBundleV2 → Result AssessmentError (Unit {0})
unfolding check_generated_item count_distinct
validate_generation_bundle context bundle =
    let item_keys = map (λ (i : GeneratedAssessmentItemV2). i.item_key) bundle.items in
    let generated_nodes =
      map (λ (i : GeneratedAssessmentItemV2). i.knowledge_node_id) bundle.items in
    do
      refuse (not (length bundle.items == context.requested_item_count)) generation_output_invalid
      refuse (not (length item_keys == count_distinct str_eq item_keys)) generation_output_invalid
      refuse (not (is_subset context.requested_knowledge_node_ids generated_nodes))
          generation_output_invalid
      each_do (check_generated_item context) bundle.items
