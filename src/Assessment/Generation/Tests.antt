-- ===== src/Assessment/Generation/Tests.antt =====
-- A generated assessment of one choice question.
use learning_system.Prelude.{ℕ, ◌≡◌, refl, ◌↔◌, [], ◌∷◌, ok}
use learning_system.Assessment.Contracts.{choice, GeneratedOptionV2, RubricCriterionV2}
use learning_system.Assessment.Generation.{
  AssessmentGenerationContextV2, AssessmentGenerationBundleV2, validate_generation_bundle,
}
use learning_system.Assessment.Generation.Validity.{
  IsValidBundle, validate_generation_bundle-IsValidBundle,
}

abbrev option : ℕ → GeneratedOptionV2
option c = record { option_key = c ∷ []; label = c ∷ [] }

abbrev criterion : RubricCriterionV2
criterion = record {
  criterion_id = "k";
  description = [];
  max_points = 100;
  required_evidence = [];
  accepted_concepts = [];
  common_error_tags = [];
  deterministic_signals = [];
}

abbrev context : AssessmentGenerationContextV2
context = record {
  requested_item_count = 1;
  requested_knowledge_node_ids = "n" ∷ [];
  source_chunk_ids = "c" ∷ [];
}

abbrev bundle : AssessmentGenerationBundleV2
bundle = record {
  items =
      record {
        item_key = "i";
        knowledge_node_id = "n";
        question_type = choice;
        prompt = [];
        options = option 97 ∷ option 98 ∷ [];
        reference_answer = 98 ∷ [];
        rubric = criterion ∷ [];
        difficulty = 1;
        source_chunk_ids = "c" ∷ [];
      }
      ∷ [];
}

-- The bundle passes.
passes : validate_generation_bundle context bundle ≡ ok tt
unfolding validate_generation_bundle
passes = refl

validate_generation_bundle-IsValidBundle_example :
    (validate_generation_bundle context bundle ≡ ok tt) ↔ IsValidBundle context bundle
validate_generation_bundle-IsValidBundle_example =
    validate_generation_bundle-IsValidBundle context bundle
