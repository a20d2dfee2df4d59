-- ===== src/Assessment/Grading/Quotes.antt =====
-- The quotes of the deterministic grader (grading_policy.py) against its own check.
use learning_system.Prelude.{
  ℕ, String, ◌≡◌, sym, ap, ◌∙◌, subst, ◌≢◌, true, false, List, ◌∷◌, arith, In, All-In, ok,
  >>=-eq-ok, each, Text, is_empty, contains, strip, each-In, ok-injective,
}
use mathlib.Core.Path.{subst₂}
use learning_system.Assessment.Contracts.{
  choice, RubricCriterionV2, AssessmentItemForGrading, AssessmentGradingContextV2, CriterionGradeV2,
  ItemGradeV2, AssessmentGradeBundleV2, satisfied, new_criterion_grade,
}
use learning_system.Assessment.Grading.{
  answer_of, matched_signals, open_criterion, open_grade, grade_item, validate_grade_bundle,
  deterministic_grade,
}
use learning_system.Assessment.Grading.Validation.{
  IsBacked, IsBackedItem, validate_grade_bundle-IsBacked,
}

new_criterion_grade-quote :
    (id : String) (points : ℕ) (quote : Text) (feedback : String) {g : CriterionGradeV2}
    → new_criterion_grade id points quote satisfied feedback ≡ ok g
    → g.evidence_quote ≡ quote
unfolding new_criterion_grade
new_criterion_grade-quote id points quote feedback h = ground arith

module _ (fold : ℕ → Text) (context : AssessmentGradingContextV2) where
  -- The bundle that the grader returns has passed its own check, grade by grade.
  deterministic_grade-parts :
      {bundle : AssessmentGradeBundleV2}
      → deterministic_grade fold context ≡ ok bundle
      → (each (grade_item fold context) context.items ≡ ok bundle.item_grades)
        × (validate_grade_bundle context bundle ≡ ok tt)
  unfolding deterministic_grade
  deterministic_grade-parts {bundle} h =
      let (grades, e, p) = >>=-eq-ok (each (grade_item fold context) context.items) _ h in
      let (u, v, q) = >>=-eq-ok (validate_grade_bundle context _) _ p in
      let same = ok-injective q in
      (
        e ∙ ap ok (ap (λ (b : AssessmentGradeBundleV2). b.item_grades) same),
        subst (λ b. validate_grade_bundle context b ≡ ok tt) same v,
      )

  open_grade-quote :
      (item : AssessmentItemForGrading) (answer : Text) (c : RubricCriterionV2) {g : ItemGradeV2}
      {s : Text} {rest : List Text}
      → open_grade fold item answer ≡ ok g
      → In c item.rubric
      → matched_signals fold c answer ≡ s ∷ rest
      → (g.item_id ≡ item.item_id)
        × ((k : CriterionGradeV2) × In k g.criterion_grades × (k.evidence_quote ≡ s))
  unfolding open_grade
  open_grade-quote item answer c {g} {s} h i e =
      let (grades, r, p) = >>=-eq-ok (each (open_criterion fold answer) item.rubric) _ h in
      let (k, made, j) = each-In (open_criterion fold answer) i r in
      let same = ok-injective p in
      (
        ap (λ (b : ItemGradeV2). b.item_id) (sym same),
        (
          k,
          subst (λ (b : ItemGradeV2). In k b.criterion_grades) same j,
          new_criterion_grade-quote c.criterion_id c.max_points s _
              (rw (e, open_criterion) at made),
        ),
      )

  -- An open answer that is not blank goes to the signal grader.
  grade_item-open :
      (item : AssessmentItemForGrading)
      → item.question_type ≢ choice
      → is_empty (strip (answer_of context item.item_id)) ≡ false
      → grade_item fold context item ≡ open_grade fold item (answer_of context item.item_id)
  unfolding grade_item
  grade_item-open item n h = ground arith

  -- An open answer can never be graded deterministically when the first signal that matches it
  -- after case folding does not stand in it literally: the grader quotes the folded signal, and
  -- its own check then refuses the whole bundle.
  pub folded_match_rejected :
      (item : AssessmentItemForGrading) (c : RubricCriterionV2) (s : Text) (rest : List Text)
      → In item context.items
      → item.question_type ≢ choice
      → is_empty (strip (answer_of context item.item_id)) ≡ false
      → In c item.rubric
      → matched_signals fold c (answer_of context item.item_id) ≡ s ∷ rest
      → contains s (answer_of context item.item_id) ≡ false
      → (bundle : AssessmentGradeBundleV2) → deterministic_grade fold context ≢ ok bundle
  folded_match_rejected item c s rest i n nonblank j e absent bundle h =
      let (graded, valid) = deterministic_grade-parts h in
      let (g, made, at) = each-In (grade_item fold context) i graded in
      let (id, kept) =
        open_grade-quote item (answer_of context item.item_id) c
          (sym (grade_item-open item n nonblank) ∙ made) j e in
      let (k, at_k, quote) = kept in
      let (_, _, _, backed) =
        All-In (IsBackedItem context) at (validate_grade_bundle-IsBacked context bundle valid) in
      let (_, _, _, _, stands) = All-In (IsBacked _ (answer_of context g.item_id)) at_k backed in
      let stands_s : contains s (answer_of context item.item_id) ≡ true =
        subst₂ (λ (q : Text) (m : String). contains q (answer_of context m) ≡ true) quote id
          stands in
      cc
