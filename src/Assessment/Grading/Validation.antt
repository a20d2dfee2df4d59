-- ===== src/Assessment/Grading/Validation.antt =====
-- What a grade bundle that passes `validate_grade_bundle` (grading_policy.py) is known to satisfy.
use learning_system.Prelude.{
  String, ◌≡◌, ◌>>◌, ◌==◌, inl, inr, ◌≤◌, Bool, true, false, not, ◌||◌, some, List, ==_iff,
  Option-cases, length, Dict, lookup, dict_of, same_keys, same_keys-left, lookup-dict_of,
  dict_of-origin, In-lookup, In, All, All-of, Text, contains, Result, ok, refuse, each_do,
  each_do-In, arith, refl,
}
use learning_system.Assessment.Contracts.{
  AssessmentError, grading_output_invalid, RubricCriterionV2, AssessmentItemForGrading,
  AssessmentGradingContextV2, CriterionGradeV2, ItemGradeV2, AssessmentGradeBundleV2,
}
use learning_system.Assessment.Grading.{
  answer_of, check_criterion, check_grade, check_item, validate_grade_bundle,
}

-- A criterion grade that the rubric and the answer bear out.
abbrev pub IsBacked : List RubricCriterionV2 → Text → CriterionGradeV2 → Type 0
IsBacked rubric answer g =
    (k : RubricCriterionV2) × In k rubric
    × (k.criterion_id ≡ g.criterion_id)
    × (g.points_awarded ≤ k.max_points)
    × (contains g.evidence_quote answer ≡ true)

-- An item's grade that belongs to an item of the assessment.
abbrev pub IsBackedItem : AssessmentGradingContextV2 → ItemGradeV2 → Type 0
IsBackedItem context g =
    (item : AssessmentItemForGrading) × In item context.items
    × (item.item_id ≡ g.item_id)
    × All (IsBacked item.rubric (answer_of context g.item_id)) g.criterion_grades

check_criterion-ok :
    (criteria : Dict RubricCriterionV2) (answer : Text) (id : String) (g : CriterionGradeV2)
    → check_criterion criteria answer (id, g) ≡ ok tt
    → (k : RubricCriterionV2) × (lookup id criteria ≡ some k)
      × (g.points_awarded ≤ k.max_points)
      × (contains g.evidence_quote answer ≡ true)
unfolding check_criterion
check_criterion-ok criteria answer id g h = elim (Option-cases (lookup id criteria)) [
  | inl e ↦ absurd (ground arith)
  | inr (k, e) ↦ (k, e, ground arith, ground arith)
]

-- The shape of both checks: as many keys as grades, and every grade checked under its key.
guarded {ℓ} :
    {A : Type ℓ} (f : A → Result AssessmentError (Unit {0})) (xs : List A) (a b : Bool)
    → (do refuse (not a || not b) grading_output_invalid; each_do f xs) ≡ ok tt
    → (a ≡ true) × (b ≡ true) × (each_do f xs ≡ ok tt)
guarded f xs true true h = (refl, refl, h)
guarded f xs true false h = cc
guarded f xs false b h = cc

check_grade-ok :
    (item : AssessmentItemForGrading) (answer : Text) (grade : ItemGradeV2)
    → check_grade item answer grade ≡ ok tt
    → All (IsBacked item.rubric answer) grade.criterion_grades
unfolding check_grade
check_grade-ok item answer grade h = All-of _ grade.criterion_grades λ g i.
    let criteria = dict_of (λ (c : RubricCriterionV2). c.criterion_id) item.rubric in
    let returned = dict_of (λ (c : CriterionGradeV2). c.criterion_id) grade.criterion_grades in
    let (same, count, rounds) =
      guarded (check_criterion criteria answer) returned (same_keys criteria returned)
        (length returned == length grade.criterion_grades) h in
    let kept =
      lookup-dict_of (λ (c : CriterionGradeV2). c.criterion_id) _ ((==_iff _ _).0 count) i in
    let passed = each_do-In (check_criterion criteria answer) (In-lookup _ returned kept) rounds in
    let (k, found, points, quote) = check_criterion-ok criteria answer _ g passed in
    let (j, e) = dict_of-origin (λ (c : RubricCriterionV2). c.criterion_id) item.rubric _ found in
    (k, j, e, points, quote)

check_item-ok :
    (context : AssessmentGradingContextV2) (grades : Dict ItemGradeV2) (id : String)
    (item : AssessmentItemForGrading) {grade : ItemGradeV2}
    → lookup id grades ≡ some grade
    → check_item context grades (id, item) ≡ ok tt
    → check_grade item (answer_of context id) grade ≡ ok tt
unfolding check_item
check_item-ok context grades id item e h = rw (e, check_item) at h

module _ (context : AssessmentGradingContextV2) (bundle : AssessmentGradeBundleV2)
    (valid : validate_grade_bundle context bundle ≡ ok tt) where
  abbrev items : Dict AssessmentItemForGrading
  items = dict_of (λ i. i.item_id) context.items

  abbrev grades : Dict ItemGradeV2
  grades = dict_of (λ g. g.item_id) bundle.item_grades

  checked :
      (same_keys grades items ≡ true)
      × ((length grades == length bundle.item_grades) ≡ true)
      × (each_do (check_item context grades) items ≡ ok tt)
  unfolding validate_grade_bundle
  checked =
      guarded (check_item context grades) items (same_keys grades items)
        (length grades == length bundle.item_grades) valid

  -- A bundle that passes has for each grade its item, and for each criterion grade a criterion of
  -- that item's rubric whose maximum the points keep and a quote that stands in the answer.
  pub validate_grade_bundle-IsBacked : All (IsBackedItem context) bundle.item_grades
  validate_grade_bundle-IsBacked = All-of _ bundle.item_grades λ g i.
      let kept = lookup-dict_of (λ (g : ItemGradeV2). g.item_id) _ ((==_iff _ _).0 checked.1) i in
      let (item, found) = same_keys-left grades items g.item_id checked.0 kept in
      let (j, e) =
        dict_of-origin (λ (i : AssessmentItemForGrading). i.item_id) context.items _ found in
      let passed = each_do-In (check_item context grades) (In-lookup _ items found) checked.2 in
      (item, j, e, check_grade-ok item _ g (check_item-ok context grades _ item kept passed))
