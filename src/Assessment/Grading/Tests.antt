-- ===== src/Assessment/Grading/Tests.antt =====
-- The grader on an assessment of one open question.
use learning_system.Prelude.{
  ℕ, ◌+◌, ◌-◌, ◌≡◌, refl, ◌≢◌, false, ◌&&◌, List, [], ◌∷◌, leb, if◌then◌else◌, All, here, ok,
  lookup, put, Text, contains, strip,
}
use learning_system.Assessment.Contracts.{
  explain, satisfied, RubricCriterionV2, AssessmentItemForGrading, AssessmentGradingContextV2,
  AssessmentGradeBundleV2, new_criterion_grade,
}
use mathlib.Core.List.{flat_map}
use learning_system.Assessment.Grading.{
  check_item, check_grade, check_criterion, matched_signals, casefold, grade_item,
  validate_grade_bundle, deterministic_grade, answer_of,
}
use learning_system.Assessment.Grading.Validation.{IsBackedItem, validate_grade_bundle-IsBacked}
use learning_system.Assessment.Grading.Quotes.{folded_match_rejected}

-- Case folding of the Latin capitals.
abbrev fold : ℕ → Text
fold c = if leb 65 c && leb c 90 then (c + 32) ∷ [] else c ∷ []

-- "jwt" and "JWT"
abbrev lower : Text
lower = 106 ∷ 119 ∷ 116 ∷ []

abbrev upper : Text
upper = 74 ∷ 87 ∷ 84 ∷ []

abbrev criterion : RubricCriterionV2
criterion = record {
  criterion_id = "k";
  description = lower;
  max_points = 10;
  required_evidence = [];
  accepted_concepts = [];
  common_error_tags = [];
  deterministic_signals = lower ∷ [];
}

abbrev item : AssessmentItemForGrading
item = record {
  item_id = "i";
  knowledge_node_id = "n";
  question_type = explain;
  prompt = lower;
  options = [];
  reference_answer = lower;
  rubric = criterion ∷ [];
  difficulty = 1;
}

abbrev context : Text → AssessmentGradingContextV2
context answer = record {
  assessment_id = "a";
  attempt_id = "t";
  items = item ∷ [];
  submitted_answers = ("i", answer) ∷ [];
}

abbrev bundle : AssessmentGradeBundleV2
bundle = record {
  item_grades =
      record {
        item_id = "i";
        criterion_grades =
            record {
              criterion_id = "k";
              points_awarded = 10;
              evidence_quote = lower;
              reason_code = satisfied;
              feedback = "A deterministic rubric signal was present.";
            }
            ∷ [];
        wrong_reason_tags = [];
        confidence = 55;
        needs_human_review = false;
        feedback = "Deterministic fallback score.";
      }
      ∷ [];
  overall_feedback = "Assessment grading completed.";
}

-- The grader's own bundle passes its check.
graded : deterministic_grade fold (context lower) ≡ ok bundle
unfolding deterministic_grade grade_item casefold matched_signals validate_grade_bundle check_item
    check_grade check_criterion new_criterion_grade contains flat_map lookup strip
    learning_system.Prelude.dict_from put
graded = refl

passes : validate_grade_bundle (context lower) bundle ≡ ok tt
unfolding validate_grade_bundle check_item check_grade check_criterion contains lookup
    learning_system.Prelude.dict_from put
passes = refl

validate_grade_bundle-IsBacked_example : All (IsBackedItem (context lower)) bundle.item_grades
validate_grade_bundle-IsBacked_example =
    validate_grade_bundle-IsBacked (context lower) bundle passes

matched : matched_signals fold criterion (answer_of (context upper) "i") ≡ lower ∷ []
unfolding matched_signals casefold contains flat_map lookup
matched = refl

folded_match_rejected_example : deterministic_grade fold (context upper) ≢ ok bundle
unfolding strip lookup contains
folded_match_rejected_example =
    folded_match_rejected fold (context upper) item criterion lower [] here (λ e. cc) refl here
      matched refl bundle
