-- ===== src/Assessment/Grading.antt =====
-- grading_policy.py: the deterministic grader and the check of every grade bundle.
-- `fold` is Unicode case folding of one character, which Python's `casefold` applies to each.
pub mod Validation
pub mod Quotes
mod Tests
use mathlib.Core.List.{flat_map}
use learning_system.Prelude.{
  ℕ, zero, suc, String, Bool, true, false, not, ◌&&◌, ◌||◌, Option, none, some, List, [], ◌∷◌, map,
  ltb, ◌==◌, length, any, all, filter_by, Dict, lookup, has, dict_of, same_keys, Text, is_empty,
  text_eq, contains, strip, Result, ok, err, ◌>>=◌, ◌>>◌, refuse, each, each_do, if◌then◌else◌,
}
use learning_system.Assessment.Contracts.{
  AssessmentError, grading_output_invalid, key_error, choice, satisfied, missing, incorrect,
  RubricCriterionV2, AssessmentItemForGrading, AssessmentGradingContextV2, CriterionGradeV2,
  ItemGradeV2, AssessmentGradeBundleV2, new_criterion_grade,
}

-- context.submitted_answers.get(item_id, "")
abbrev pub answer_of : AssessmentGradingContextV2 → String → Text
answer_of context id = elim (lookup id context.submitted_answers) [ none ↦ [] | some t ↦ t ]

blank_criterion : RubricCriterionV2 → Result AssessmentError CriterionGradeV2
blank_criterion c = new_criterion_grade c.criterion_id 0 [] missing "No answer was submitted."

blank_grade : AssessmentItemForGrading → Result AssessmentError ItemGradeV2
unfolding blank_criterion
blank_grade item = do
  grades ← each blank_criterion item.rubric
  ok (record {
    item_id = item.item_id;
    criterion_grades = grades;
    wrong_reason_tags = "unanswered" ∷ [];
    confidence = 100;
    needs_human_review = false;
    feedback = "No answer was submitted.";
  })

choice_criterion : Bool → Text → RubricCriterionV2 → Result AssessmentError CriterionGradeV2
choice_criterion correct answer c =
    new_criterion_grade c.criterion_id (if correct then c.max_points else 0)
      (if correct then strip answer else []) (if correct then satisfied else incorrect)
      (if correct then "Correct option selected." else "The selected option is not correct.")

choice_grade : AssessmentItemForGrading → Text → Result AssessmentError ItemGradeV2
unfolding choice_criterion
choice_grade item answer = do
  let correct = text_eq (strip answer) item.reference_answer
  grades ← each (choice_criterion correct answer) item.rubric
  ok (record {
    item_id = item.item_id;
    criterion_grades = grades;
    wrong_reason_tags = if correct then [] else "incorrect_choice" ∷ [];
    confidence = 100;
    needs_human_review = false;
    feedback = if correct then "Correct." else "Review the selected option.";
  })

module _ (fold : ℕ → Text) where
  unfoldable pub casefold : Text → Text
  casefold = flat_map fold

  -- [signal for signal in signals if signal in lowered]
  unfoldable pub matched_signals : RubricCriterionV2 → Text → List Text
  unfolding casefold
  matched_signals c answer =
      filter_by (λ s. contains s (casefold answer))
        (map casefold (filter_by (λ s. not (is_empty s)) c.deterministic_signals))

  open_criterion : Text → RubricCriterionV2 → Result AssessmentError CriterionGradeV2
  open_criterion answer c = elim (matched_signals c answer) [
    | [] ↦
        new_criterion_grade c.criterion_id 0 [] missing
          "The answer could not be reliably scored by deterministic signals."
    | s ∷ _ ↦
        new_criterion_grade c.criterion_id c.max_points s satisfied
          "A deterministic rubric signal was present."
  ]

  open_grade : AssessmentItemForGrading → Text → Result AssessmentError ItemGradeV2
  unfolding open_criterion
  open_grade item answer = do
    grades ← each (open_criterion answer) item.rubric
    let reliable = any (λ c. not (is_empty (matched_signals c answer))) item.rubric
    ok (record {
      item_id = item.item_id;
      criterion_grades = grades;
      wrong_reason_tags = if reliable then [] else "insufficient_deterministic_evidence" ∷ [];
      confidence = if reliable then 55 else 0;
      needs_human_review = not reliable;
      feedback =
          if reliable then "Deterministic fallback score." else "This answer requires review.";
    })

  -- One round of the grader's loop.
  pub grade_item :
      AssessmentGradingContextV2 → AssessmentItemForGrading → Result AssessmentError ItemGradeV2
  unfolding blank_grade choice_grade open_grade
  grade_item context item =
      let answer = answer_of context item.item_id in
      if is_empty (strip answer) then blank_grade item else elim item.question_type [
        | choice ↦ choice_grade item answer
        | _ ↦ open_grade item answer
      ]

-- The checks of one criterion grade against its rubric entry and the answer.
check_criterion :
    Dict RubricCriterionV2 → Text → String × CriterionGradeV2 → Result AssessmentError (Unit {0})
check_criterion criteria answer (criterion_id, grade) = elim (lookup criterion_id criteria) [
  | none ↦ err key_error
  | some c ↦ do
    refuse (ltb c.max_points grade.points_awarded) grading_output_invalid
    refuse (not (contains grade.evidence_quote answer)) grading_output_invalid
]

check_grade : AssessmentItemForGrading → Text → ItemGradeV2 → Result AssessmentError (Unit {0})
check_grade item answer grade =
    let criteria = dict_of (λ c. c.criterion_id) item.rubric in
    let returned = dict_of (λ c. c.criterion_id) grade.criterion_grades in
    do
      refuse
          (not (same_keys criteria returned)
            || not (length returned == length grade.criterion_grades))
          grading_output_invalid
      each_do (check_criterion criteria answer) returned

check_item :
    AssessmentGradingContextV2
    → Dict ItemGradeV2
    → String × AssessmentItemForGrading
    → Result AssessmentError (Unit {0})
check_item context grades (item_id, item) = elim (lookup item_id grades) [
  | none ↦ err key_error
  | some grade ↦ check_grade item (answer_of context item_id) grade
]

pub validate_grade_bundle :
    AssessmentGradingContextV2 → AssessmentGradeBundleV2 → Result AssessmentError (Unit {0})
validate_grade_bundle context bundle =
    let context_items = dict_of (λ i. i.item_id) context.items in
    let grades = dict_of (λ g. g.item_id) bundle.item_grades in
    do
      refuse
          (not (same_keys grades context_items) || not (length grades == length bundle.item_grades))
          grading_output_invalid
      each_do (check_item context grades) context_items

pub deterministic_grade :
    (ℕ → Text) → AssessmentGradingContextV2 → Result AssessmentError AssessmentGradeBundleV2
deterministic_grade fold context = do
  grades ← each (grade_item fold context) context.items
  let result : AssessmentGradeBundleV2 = record {
    item_grades = grades;
    overall_feedback = "Assessment grading completed.";
  }
  validate_grade_bundle context result
  ok result
