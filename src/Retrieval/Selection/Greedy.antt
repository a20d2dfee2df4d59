-- ===== src/Retrieval/Selection/Greedy.antt =====
-- `select` of selection.py leaves nothing out that it could still take.
use learning_system.Prelude.{
  ℕ, ◌≤◌, ◌≡◌, refl, sym, ◌∙◌, subst, ◌⊎◌, inl, inr, Bool, true, ◌||◌, List, [], ◌∷◌, ◌++◌,
  append-nil, append_assoc, arith, leb, if◌then◌else◌, Bool-cases, length, any, In, here, Text,
  text_eq, In-append_left, In-cons,
}
use learning_system.Retrieval.Candidates.{FusedCandidate, same_content, are_neighbors}
use learning_system.Retrieval.Selection.{
  ContextSelectionConfig, added_chars, selection_order, overlaps, is_refused, is_over_budget,
  select_from, select,
}
use learning_system.Retrieval.Selection.Order.{selection_order-In, In-append_right}
use learning_system.Retrieval.Selection.Limits.{context_char_count-snoc}

any-append :
    (p : FusedCandidate → Bool) (xs ys : List FusedCandidate)
    → any p xs ≡ true
    → any p (xs ++ ys) ≡ true
any-append p [] ys h = absurd (cc)
any-append p (x ∷ xs) ys h = ground (arith, any-append p xs ys)

added_chars_grow :
    (k : ContextSelectionConfig) (xs : List FusedCandidate) (d c : FusedCandidate)
    → added_chars k xs c ≤ added_chars k (xs ++ (d ∷ [])) c
added_chars_grow k [] d c = omega arith
added_chars_grow k (x ∷ xs) d c = omega arith

module _ (fold : ℕ → Text) (k : ContextSelectionConfig) where
  -- What the loop has selected stays selected.
  select_from-extends :
      (xs rest : List FusedCandidate)
      → (more : List FusedCandidate) × (select_from fold k xs rest ≡ xs ++ more)
  unfolding select_from
  select_from-extends xs [] = ([], sym (append-nil xs))
  select_from-extends xs (c ∷ rest) = elim (Bool-cases (leb k.max_chunks (length xs))) [
    | inl full ↦ ([], rw full (sym (append-nil xs)))
    | inr room ↦ elim (Bool-cases (is_refused fold k xs c || is_over_budget fold k xs c)) [
      | inl skip ↦ let (more, e) = select_from-extends xs rest in (more, rw (room, skip) e)
      | inr keep ↦
          let (more, e) = select_from-extends (xs ++ (c ∷ [])) rest in
          (c ∷ more, rw (room, keep) (e ∙ append_assoc xs (c ∷ []) more))
    ]
  ]

  is_refused-append :
      (xs ys : List FusedCandidate) (c : FusedCandidate)
      → is_refused fold k xs c ≡ true
      → is_refused fold k (xs ++ ys) c ≡ true
  unfolding is_refused
  is_refused-append xs ys c h = ground (
    arith,
    any-append (λ e. text_eq c.chunk_id e.chunk_id) xs ys,
    any-append (λ e. same_content fold c e) xs ys,
    any-append (λ e. are_neighbors c e) xs ys,
    any-append (λ e. overlaps fold k c e) xs ys,
  )

  is_over_budget-append :
      (xs ys : List FusedCandidate) (c : FusedCandidate)
      → is_over_budget fold k xs c ≡ true
      → is_over_budget fold k (xs ++ ys) c ≡ true
  unfolding is_over_budget
  is_over_budget-append xs [] c h =
      subst (λ l. is_over_budget fold k l c ≡ true) (sym (append-nil xs)) h
  is_over_budget-append xs (d ∷ ys) c h =
      subst (λ l. is_over_budget fold k l c ≡ true) (append_assoc xs (d ∷ []) ys)
        (is_over_budget-append (xs ++ (d ∷ [])) ys c
          (ground (arith, context_char_count-snoc k xs d, added_chars_grow k xs d c)))

  -- Why a candidate that was offered is missing from a selection.
  abbrev pub IsSettled : List FusedCandidate → FusedCandidate → Type 0
  IsSettled chosen c =
      In c chosen
      ⊎ ((k.max_chunks ≤ length chosen)
          ⊎ ((is_refused fold k chosen c ≡ true) ⊎ (is_over_budget fold k chosen c ≡ true)))

  first-IsSettled :
      (xs rest : List FusedCandidate) (c : FusedCandidate)
      → IsSettled (select_from fold k xs (c ∷ rest)) c
  unfolding select_from
  first-IsSettled xs rest c = elim (Bool-cases (leb k.max_chunks (length xs))) [
    | inl full ↦ rw full (inr (inl (ground arith)))
    | inr room ↦ rw room (elim (Bool-cases (is_refused fold k xs c)) [
      | inl bad ↦ rw bad (
          let (more, e) = select_from-extends xs rest in
          rw e (inr (inr (inl (is_refused-append xs more c bad)))))
      | inr good ↦ rw good (elim (Bool-cases (is_over_budget fold k xs c)) [
        | inl over ↦ rw over (
            let (more, e) = select_from-extends xs rest in
            rw e (inr (inr (inr (is_over_budget-append xs more c over)))))
        | inr fits ↦ rw fits (
            let (more, e) = select_from-extends (xs ++ (c ∷ [])) rest in
            rw e (inl (In-append_left (xs ++ (c ∷ [])) more (In-append_right xs (c ∷ []) here))))
      ])
    ])
  ]

  -- The loop goes on with some selection, unless it is full.
  step_on :
      (xs rest : List FusedCandidate) (d : FusedCandidate)
      → (k.max_chunks ≤ length (select_from fold k xs (d ∷ rest)))
        ⊎ ((ys : List FusedCandidate) × (select_from fold k xs (d ∷ rest)
              ≡ select_from fold k ys rest))
  unfolding select_from
  step_on xs rest d = elim (Bool-cases (leb k.max_chunks (length xs))) [
    | inl full ↦ inl (rw full (ground arith))
    | inr room ↦ inr (
      if is_refused fold k xs d || is_over_budget fold k xs d then xs else xs ++ (d ∷ []),
      rw room refl,
    )
  ]

  select_from-IsSettled :
      (xs rest : List FusedCandidate) (c : FusedCandidate)
      → In c rest
      → IsSettled (select_from fold k xs rest) c
  select_from-IsSettled xs [] c i = elim i [ ]
  select_from-IsSettled xs (d ∷ rest) c i = elim (In-cons i) [
    | inl same ↦
        subst (λ x. IsSettled (select_from fold k xs (d ∷ rest)) x) (sym same)
          (first-IsSettled xs rest d)
    | inr j ↦ elim (step_on xs rest d) [
      | inl full ↦ inr (inl full)
      | inr (ys, e) ↦ subst (λ l. IsSettled l c) (sym e) (select_from-IsSettled ys rest c j)
    ]
  ]

  -- The selection is greedy and complete: every candidate offered is selected, unless the
  -- selection has `max_chunks` members, or the candidate is refused by a comparison with a selected
  -- one, or it no longer fits the budget beside the selected ones.
  pub select_settles :
      (candidates : List FusedCandidate) (c : FusedCandidate)
      → In c candidates
      → IsSettled (select fold k candidates) c
  unfolding select
  select_settles candidates c i =
      select_from-IsSettled [] (selection_order k candidates) c
        ((selection_order-In k candidates).1 i)
