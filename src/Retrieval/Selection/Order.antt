-- ===== src/Retrieval/Selection/Order.antt =====
-- The order of the candidates (`_selection_order` of selection.py) keeps them all, and adds none.
use learning_system.Prelude.{
  ◌≡◌, ◌↔◌, ◌⊎◌, inl, inr, List, [], ◌∷◌, ◌++◌, Bool-cases, In, there, In-head, Text, In-append,
  In-append_left, In-cons,
}
use learning_system.Retrieval.Candidates.{FusedCandidate}
use learning_system.Retrieval.Selection.{
  ContextSelectionConfig, insert, sorted, by_document, has_document, comes_before, selection_order,
}

insert-In :
    (c : FusedCandidate) (xs : List FusedCandidate) {a : FusedCandidate}
    → In a (insert c xs) ↔ ((a ≡ c) ⊎ In a xs)
unfolding insert
insert-In c [] = ((λ i. In-cons i), λ s. elim s [ inl e ↦ In-head e | inr i ↦ there i ])
insert-In c (d ∷ rest) {a} = elim (Bool-cases (comes_before d c)) [
  | inl e ↦ rw e (
    (λ i. elim (In-cons i) [
      | inl same ↦ inr (In-head same)
      | inr j ↦ elim ((insert-In c rest).0 j) [ inl same ↦ inl same | inr m ↦ inr (there m) ]
    ]),
    λ s. elim s [
      | inl same ↦ there ((insert-In c rest).1 (inl same))
      | inr i ↦ elim (In-cons i) [
        | inl same ↦ In-head same
        | inr j ↦ there ((insert-In c rest).1 (inr j))
      ]
    ],
  )
  | inr e ↦ rw e ((λ i. In-cons i), λ s. elim s [ inl same ↦ In-head same | inr i ↦ there i ])
]

sorted-In : (xs : List FusedCandidate) {a : FusedCandidate} → In a (sorted xs) ↔ In a xs
unfolding sorted
sorted-In [] = ((λ i. i), λ i. i)
sorted-In (c ∷ rest) = (
  (λ i. elim ((insert-In c (sorted rest)).0 i) [
    | inl same ↦ In-head same
    | inr j ↦ there ((sorted-In rest).0 j)
  ]),
  λ i. elim (In-cons i) [
    | inl same ↦ (insert-In c (sorted rest)).1 (inl same)
    | inr j ↦ (insert-In c (sorted rest)).1 (inr ((sorted-In rest).1 j))
  ],
)

by_document-In :
    (seen : List Text) (xs : List FusedCandidate) {a : FusedCandidate}
    → let split = by_document seen xs in (In a split.0 ⊎ In a split.1) ↔ In a xs
unfolding by_document
by_document-In seen [] = ((λ s. elim s [ inl i ↦ i | inr i ↦ i ]), λ i. inl i)
by_document-In seen (c ∷ rest) {a} = elim (Bool-cases (has_document c.document_id seen)) [
  | inl e ↦ rw e (
    (λ s. elim s [
      | inl i ↦ there ((by_document-In seen rest).0 (inl i))
      | inr i ↦ elim (In-cons i) [
        | inl same ↦ In-head same
        | inr j ↦ there ((by_document-In seen rest).0 (inr j))
      ]
    ]),
    λ i. elim (In-cons i) [
      | inl same ↦ inr (In-head same)
      | inr j ↦ elim ((by_document-In seen rest).1 j) [ inl m ↦ inl m | inr m ↦ inr (there m) ]
    ],
  )
  | inr e ↦ rw e (
    (λ s. elim s [
      | inl i ↦ elim (In-cons i) [
        | inl same ↦ In-head same
        | inr j ↦ there ((by_document-In (c.document_id ∷ seen) rest).0 (inl j))
      ]
      | inr i ↦ there ((by_document-In (c.document_id ∷ seen) rest).0 (inr i))
    ]),
    λ i. elim (In-cons i) [
      | inl same ↦ inl (In-head same)
      | inr j ↦ elim ((by_document-In (c.document_id ∷ seen) rest).1 j) [
        | inl m ↦ inl (there m)
        | inr m ↦ inr m
      ]
    ],
  )
]

pub In-append_right : (xs ys : List FusedCandidate) {a : FusedCandidate} → In a ys → In a (xs ++ ys)
In-append_right [] ys i = i
In-append_right (x ∷ xs) ys i = there (In-append_right xs ys i)

pub selection_order-In :
    (k : ContextSelectionConfig) (xs : List FusedCandidate) {a : FusedCandidate}
    → In a (selection_order k xs) ↔ In a xs
unfolding selection_order
selection_order-In k xs {a} = elim (Bool-cases k.diversity_first) [
  | inl e ↦ rw e (
      let split = by_document [] (sorted xs) in
      (
        (λ i. (sorted-In xs).0 ((by_document-In [] (sorted xs)).0 (In-append split.0 split.1 i))),
        λ i. elim ((by_document-In [] (sorted xs)).1 ((sorted-In xs).1 i)) [
          | inl j ↦ In-append_left split.0 split.1 j
          | inr j ↦ In-append_right split.0 split.1 j
        ],
      ))
  | inr e ↦ rw e (sorted-In xs)
]
