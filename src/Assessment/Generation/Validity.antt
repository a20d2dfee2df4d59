-- ===== src/Assessment/Generation/Validity.antt =====
-- What passes `validate_generation_bundle` (generation_policy.py), and that all of it does.
use learning_system.Prelude.{
  ℕ, suc, ◌≤◌, String, ◌≡◌, refl, ap, ◌≢◌, ◌↔◌, ◌⊎◌, inl, inr, Bool, true, false, not, List, [],
  ◌∷◌, map, arith, str_eq, eq_iff, ◌==◌, Bool-cases, and-parts, length, any, All, In, there,
  In-head, All-In, All-of, Result, ok, ◌>>◌, refuse, each_do-In, each_do-All, text_eq, text_eq_iff,
  In-cons,
}
use learning_system.Assessment.Contracts.{
  AssessmentError, choice, GeneratedOptionV2, RubricCriterionV2,
}
use learning_system.Assessment.Generation.{
  AssessmentGenerationContextV2, GeneratedAssessmentItemV2, AssessmentGenerationBundleV2, is_subset,
  count_distinct, total_points, check_options, check_generated_item, validate_generation_bundle,
}

-- No two places of a list hold equal elements.
pub Distinct {ℓ} : {A : Type ℓ} → List A → Type ℓ
Distinct [] = Unit
Distinct (k ∷ keys) = ¬ (In k keys) × Distinct keys

module _ {ℓ} {A : Type ℓ} (eq : A → A → Bool)
    (eq_sound : (a b : A) → (eq a b ≡ true) ↔ (a ≡ b)) where
  pub any-In_iff : (a : A) (xs : List A) → (any (λ j. eq a j) xs ≡ true) ↔ In a xs
  any-In_iff a [] = ((λ h. absurd (cc)), λ i. elim i [ ])
  any-In_iff a (x ∷ xs) = (
    (λ h. elim (Bool-cases (eq a x)) [
      | inl e ↦ In-head ((eq_sound a x).0 e)
      | inr e ↦ there ((any-In_iff a xs).0 (rw e at h))
    ]),
    λ i. elim (In-cons i) [
      | inl same ↦ rw ((eq_sound a x).1 same) refl
      | inr j ↦ ground (arith, (any-In_iff a xs).1 j)
    ],
  )

  count_distinct_le : (xs : List A) → count_distinct eq xs ≤ length xs
  unfolding count_distinct
  count_distinct_le [] = omega arith
  count_distinct_le (x ∷ xs) = ground (arith, count_distinct_le xs)

  -- `len(keys) == len(set(keys))` holds of a list exactly when no element is repeated.
  pub count_distinct-Distinct : (xs : List A) → (length xs ≡ count_distinct eq xs) ↔ Distinct xs
  unfolding count_distinct Distinct
  count_distinct-Distinct [] = ((λ h. tt), λ h. refl)
  count_distinct-Distinct (x ∷ xs) = elim (Bool-cases (any (λ j. eq x j) xs)) [
    | inl e ↦ rw e (
      (λ h. absurd (omega (arith, h, count_distinct_le xs))),
      λ d. absurd (d.0 ((any-In_iff x xs).0 e)),
    )
    | inr e ↦ rw e (
      (λ h. (
        (λ i. let hit = (any-In_iff x xs).1 i in cc),
        (count_distinct-Distinct xs).0 (omega (arith, h)),
      )),
      λ d. omega (arith, (count_distinct-Distinct xs).1 d.1),
    )
  ]

guarded :
    (b : Bool) (e : AssessmentError) (k : Result AssessmentError (Unit {0}))
    → ((refuse b e >> k) ≡ ok tt) ↔ ((b ≡ false) × (k ≡ ok tt))
guarded true e k = ground arith
guarded false e k = ground arith

differ_iff : (m n : ℕ) → (not (m == n) ≡ false) ↔ (m ≡ n)
differ_iff m n = ground arith

not-eq-false : (b : Bool) → (not b ≡ false) ↔ (b ≡ true)
not-eq-false b = ground arith

is_subset_iff : (xs ys : List String) → (is_subset xs ys ≡ true) ↔ All (λ k. In k ys) xs
is_subset_iff [] ys = ((λ h. tt), λ h. refl)
is_subset_iff (x ∷ xs) ys = (
  (λ h. (
    (any-In_iff str_eq eq_iff x ys).0 (and-parts _ _ h).0,
    (is_subset_iff xs ys).0 (and-parts _ _ h).1,
  )),
  λ h. ground (arith, (any-In_iff str_eq eq_iff x ys).1 h.0, (is_subset_iff xs ys).1 h.1),
)

-- The options of a choice item, and of any other.
abbrev pub HasValidOptions : GeneratedAssessmentItemV2 → Type 0
HasValidOptions item =
    ((item.question_type ≡ choice)
      × (2 ≤ length item.options)
      × Distinct (map (λ (o : GeneratedOptionV2). o.option_key) item.options)
      × In item.reference_answer (map (λ (o : GeneratedOptionV2). o.option_key) item.options))
    ⊎ ((item.question_type ≢ choice) × (item.options ≡ []))

abbrev pub IsValidItem : AssessmentGenerationContextV2 → GeneratedAssessmentItemV2 → Type 0
IsValidItem context item =
    In item.knowledge_node_id context.requested_knowledge_node_ids
    × All (λ k. In k context.source_chunk_ids) item.source_chunk_ids
    × (total_points item.rubric ≡ 100)
    × Distinct (map (λ (c : RubricCriterionV2). c.criterion_id) item.rubric)
    × HasValidOptions item

length-map {ℓ κ} :
    {A : Type ℓ} {B : Type κ} (f : A → B) (xs : List A) → length (map f xs) ≡ length xs
length-map f [] = refl
length-map f (x ∷ xs) = ap suc (length-map f xs)

refuse_iff : (b : Bool) (e : AssessmentError) → (refuse b e ≡ ok tt) ↔ (b ≡ false)
refuse_iff true e = ground arith
refuse_iff false e = ground arith

check_options_iff :
    (item : GeneratedAssessmentItemV2) → (check_options item ≡ ok tt) ↔ HasValidOptions item
unfolding check_options
check_options_iff item =
    let keys = map (λ (o : GeneratedOptionV2). o.option_key) item.options in
    let d = count_distinct-Distinct text_eq text_eq_iff keys in
    let a = any-In_iff text_eq text_eq_iff item.reference_answer keys in
    let n = length-map (λ (o : GeneratedOptionV2). o.option_key) item.options in
    ground (arith, d, a, n)

check_generated_item_iff :
    (context : AssessmentGenerationContextV2) (item : GeneratedAssessmentItemV2)
    → (check_generated_item context item ≡ ok tt) ↔ IsValidItem context item
unfolding check_generated_item
check_generated_item_iff context item =
    let a = any-In_iff str_eq eq_iff item.knowledge_node_id context.requested_knowledge_node_ids in
    let b = is_subset_iff item.source_chunk_ids context.source_chunk_ids in
    let d =
      count_distinct-Distinct str_eq eq_iff
        (map (λ (c : RubricCriterionV2). c.criterion_id) item.rubric) in
    let o = check_options_iff item in
    (
      (λ h.
          let (node, h1) = (guarded _ _ _).0 h in
          let (sources, h2) = (guarded _ _ _).0 h1 in
          let (points, h3) = (guarded _ _ _).0 h2 in
          let (keys, h4) = (guarded _ _ _).0 h3 in
          (
            a.0 ((not-eq-false _).0 node),
            b.0 ((not-eq-false _).0 sources),
            (differ_iff _ _).0 points,
            d.0 ((differ_iff _ _).0 keys),
            o.0 h4,
          )),
      λ (node, sources, points, keys, options). (guarded _ _ _).1 (
        (not-eq-false _).1 (a.1 node),
        (guarded _ _ _).1 (
          (not-eq-false _).1 (b.1 sources),
          (guarded _ _ _).1 (
            (differ_iff _ _).1 points,
            (guarded _ _ _).1 ((differ_iff _ _).1 (d.1 keys), o.1 options),
          ),
        ),
      ),
    )

-- A bundle that answers the request.
abbrev pub IsValidBundle : AssessmentGenerationContextV2 → AssessmentGenerationBundleV2 → Type 0
IsValidBundle context bundle =
    (length bundle.items ≡ context.requested_item_count)
    × Distinct (map (λ (i : GeneratedAssessmentItemV2). i.item_key) bundle.items)
    × All (λ n. In n (map (λ (i : GeneratedAssessmentItemV2). i.knowledge_node_id) bundle.items))
        context.requested_knowledge_node_ids
    × All (IsValidItem context) bundle.items

-- A bundle passes exactly when it has the requested number of items under distinct keys, they
-- cover every requested node, and each item is about a requested node, cites available sources
-- only, has a rubric of 100 points in distinct criteria, and has options exactly if it is a choice:
-- then two or more, under distinct keys, with the reference answer among them.
pub validate_generation_bundle-IsValidBundle :
    (context : AssessmentGenerationContextV2) (bundle : AssessmentGenerationBundleV2)
    → (validate_generation_bundle context bundle ≡ ok tt) ↔ IsValidBundle context bundle
unfolding validate_generation_bundle
validate_generation_bundle-IsValidBundle context bundle =
    let keys = map (λ (i : GeneratedAssessmentItemV2). i.item_key) bundle.items in
    let nodes = map (λ (i : GeneratedAssessmentItemV2). i.knowledge_node_id) bundle.items in
    let d = count_distinct-Distinct str_eq eq_iff keys in
    let b = is_subset_iff context.requested_knowledge_node_ids nodes in
    (
      (λ h.
          let (count, h1) = (guarded _ _ _).0 h in
          let (unique, h2) = (guarded _ _ _).0 h1 in
          let (covered, h3) = (guarded _ _ _).0 h2 in
          (
            (differ_iff _ _).0 count,
            d.0 ((differ_iff _ _).0 unique),
            b.0 ((not-eq-false _).0 covered),
            All-of _ bundle.items λ i j.
                (check_generated_item_iff context i).0
                  (each_do-In (check_generated_item context) j h3),
          )),
      λ (count, unique, covered, items). (guarded _ _ _).1 (
        (differ_iff _ _).1 count,
        (guarded _ _ _).1 (
          (differ_iff _ _).1 (d.1 unique),
          (guarded _ _ _).1 (
            (not-eq-false _).1 (b.1 covered),
            each_do-All (check_generated_item context) bundle.items (
                All-of _ bundle.items λ i j.
                  (check_generated_item_iff context i).1 (All-In (IsValidItem context) j items)),
          ),
        ),
      ),
    )
