-- ===== src/Assessment/Contracts.antt =====
-- contracts.py: the shapes that grading reads and writes. Identifiers and feedback are native
-- strings, answers and quotes are texts. Confidence is in hundredths. A field that only carries a
-- fixed schema version is left out.
use learning_system.Prelude.{
  ℕ, String, Bool, Text, List, Dict, Result, ok, ltb, length, ◌>>◌, refuse,
}

pub data AssessmentError : Type 0 where
  grading_output_invalid generation_output_invalid : AssessmentError
  invalid_source_reference invalid_rubric : AssessmentError
  generation_unavailable : List String → AssessmentError
  validation_error key_error : AssessmentError

pub data AssessmentQuestionType : Type 0 where
  choice explain code_reading scenario : AssessmentQuestionType

pub data ReasonCode : Type 0 where
  satisfied partially_satisfied missing incorrect contradictory : ReasonCode

pub record GeneratedOptionV2 : Type 0 where
  pub option_key : Text
  pub label : Text

pub record RubricCriterionV2 : Type 0 where
  pub criterion_id : String
  pub description : Text
  pub max_points : ℕ
  pub required_evidence : List Text
  pub accepted_concepts : List Text
  pub common_error_tags : List String
  pub deterministic_signals : List Text

pub record AssessmentItemForGrading : Type 0 where
  pub item_id : String
  pub knowledge_node_id : String
  pub question_type : AssessmentQuestionType
  pub prompt : Text
  pub options : List GeneratedOptionV2
  pub reference_answer : Text
  pub rubric : List RubricCriterionV2
  pub difficulty : ℕ

pub record AssessmentGradingContextV2 : Type 0 where
  pub assessment_id : String
  pub attempt_id : String
  pub items : List AssessmentItemForGrading
  pub submitted_answers : Dict Text

pub record CriterionGradeV2 : Type 0 where
  pub criterion_id : String
  pub points_awarded : ℕ
  pub evidence_quote : Text
  pub reason_code : ReasonCode
  pub feedback : String

pub record ItemGradeV2 : Type 0 where
  pub item_id : String
  pub criterion_grades : List CriterionGradeV2
  pub wrong_reason_tags : List String
  pub confidence : ℕ
  pub needs_human_review : Bool
  pub feedback : String

pub record AssessmentGradeBundleV2 : Type 0 where
  pub item_grades : List ItemGradeV2
  pub overall_feedback : String

-- The constructor checks the bounds of its fields; the feedback of this program is a short literal.
unfoldable pub new_criterion_grade :
    String → ℕ → Text → ReasonCode → String → Result AssessmentError CriterionGradeV2
new_criterion_grade criterion points quote reason feedback = do
  refuse (ltb 100 points) validation_error
  refuse (ltb 500 (length quote)) validation_error
  ok (record {
    criterion_id = criterion;
    points_awarded = points;
    evidence_quote = quote;
    reason_code = reason;
    feedback = feedback;
  })
