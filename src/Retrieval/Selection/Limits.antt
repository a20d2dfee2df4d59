-- ===== src/Retrieval/Selection/Limits.antt =====
-- What the candidates that `select` of selection.py returns have in common.
use learning_system.Prelude.{
  ℕ, ◌+◌, ◌≤◌, ◌<◌, ◌≡◌, sym, subst, ◌≢◌, inl, inr, false, not, ◌&&◌, ◌||◌, List, [], ◌∷◌, ◌++◌,
  append-nil, append_assoc, arith, leb, ltb→le, Bool-cases, length, length-append, All, In, here,
  there, All-of, any-In, Text, text_eq, text_eq_iff, In-append, In-cons,
}
use learning_system.Retrieval.Candidates.{FusedCandidate, same_content, are_neighbors}
use learning_system.Retrieval.Selection.{
  ContextSelectionConfig, context_char_count, added_chars, selection_order, overlaps, is_refused,
  is_over_budget, select_from, select,
}
use learning_system.Retrieval.Selection.Order.{selection_order-In}

pub context_char_count-snoc :
    (k : ContextSelectionConfig) (xs : List FusedCandidate) (c : FusedCandidate)
    → context_char_count k (xs ++ (c ∷ [])) ≡ context_char_count k xs + added_chars k xs c
unfolding context_char_count
context_char_count-snoc k [] c = omega arith
context_char_count-snoc k (x ∷ []) c = omega arith
context_char_count-snoc k (x ∷ y ∷ xs) c = ground (arith, context_char_count-snoc k (y ∷ xs) c)

module _ (fold : ℕ → Text) (k : ContextSelectionConfig) where
  -- Every candidate of `xs` passes the comparisons with those that stand before it.
  Clear : List FusedCandidate → List FusedCandidate → Type 0
  Clear before [] = Unit
  Clear before (c ∷ rest) = (is_refused fold k before c ≡ false) × Clear (before ++ (c ∷ [])) rest

  Clear-snoc :
      (before xs : List FusedCandidate) (c : FusedCandidate)
      → Clear before xs
      → is_refused fold k (before ++ xs) c ≡ false
      → Clear before (xs ++ (c ∷ []))
  unfolding Clear
  Clear-snoc before [] c h e =
      (subst (λ l. is_refused fold k l c ≡ false) (append-nil before) e, tt)
  Clear-snoc before (x ∷ xs) c h e = (
    h.0,
    Clear-snoc (before ++ (x ∷ [])) xs c h.1
        (subst (λ l. is_refused fold k l c ≡ false) (sym (append_assoc before (x ∷ []) xs)) e),
  )

  Clear-at :
      (before pre post : List FusedCandidate) (c : FusedCandidate)
      → Clear before (pre ++ (c ∷ post))
      → is_refused fold k (before ++ pre) c ≡ false
  unfolding Clear
  Clear-at before [] post c h =
      subst (λ l. is_refused fold k l c ≡ false) (sym (append-nil before)) h.0
  Clear-at before (x ∷ pre) post c h =
      subst (λ l. is_refused fold k l c ≡ false) (append_assoc before (x ∷ []) pre)
        (Clear-at (before ++ (x ∷ [])) pre post c h.1)

  -- What the loop keeps.
  record IsSelection (candidates xs : List FusedCandidate) : Type 0 where
    few : length xs ≤ k.max_chunks
    short : context_char_count k xs ≤ k.char_budget
    clear : Clear [] xs
    origin : (a : FusedCandidate) → In a xs → In a candidates

  added :
      (candidates xs : List FusedCandidate) (c : FusedCandidate)
      → In c candidates
      → IsSelection candidates xs
      → length xs < k.max_chunks
      → is_refused fold k xs c ≡ false
      → is_over_budget fold k xs c ≡ false
      → IsSelection candidates (xs ++ (c ∷ []))
  unfolding is_over_budget
  added candidates xs c i v room passes fits = record {
    few = omega (arith, length-append xs (c ∷ []), room);
    short = omega (arith, context_char_count-snoc k xs c, ltb→le k.char_budget _ fits);
    clear = Clear-snoc [] xs c v.clear passes;
    origin = λ a j. elim (In-append xs (c ∷ []) j) [
      | inl m ↦ v.origin a m
      | inr m ↦ elim (In-cons m) [
        | inl same ↦ subst (λ x. In x candidates) (sym same) i
        | inr n ↦ elim n [ ]
      ]
    ];
  }

  select_from-IsSelection :
      (candidates xs rest : List FusedCandidate)
      → ((a : FusedCandidate) → In a rest → In a candidates)
      → IsSelection candidates xs
      → IsSelection candidates (select_from fold k xs rest)
  unfolding select_from
  select_from-IsSelection candidates xs [] sub v = v
  select_from-IsSelection candidates xs (c ∷ rest) sub v =
      elim (Bool-cases (leb k.max_chunks (length xs))) [
        | inl full ↦ rw full v
        | inr room ↦
            rw room (elim (Bool-cases (is_refused fold k xs c || is_over_budget fold k xs c)) [
              | inl skip ↦
                  rw skip (select_from-IsSelection candidates xs rest (λ a i. sub a (there i)) v)
              | inr keep ↦ rw keep (
                  select_from-IsSelection candidates (xs ++ (c ∷ [])) rest (λ a i. sub a (there i))
                    (added candidates xs c (sub c here) v (ground arith) (ground arith)
                      (ground arith)))
            ])
      ]

  select-IsSelection :
      (candidates : List FusedCandidate) → IsSelection candidates (select fold k candidates)
  unfolding select context_char_count Clear
  select-IsSelection candidates =
      select_from-IsSelection candidates [] (selection_order k candidates)
        (λ a i. (selection_order-In k candidates).0 i)
        (record { few = omega arith; short = omega arith; clear = tt; origin = λ a i. elim i [ ] })

  -- The selection holds candidates only, at most `max_chunks` of them, and joined by the separator
  -- they are at most `char_budget` characters long.
  pub select_within_limits :
      (candidates : List FusedCandidate)
      → let chosen = select fold k candidates in
        (length chosen ≤ k.max_chunks)
        × (context_char_count k chosen ≤ k.char_budget)
        × All (λ a. In a candidates) chosen
  select_within_limits candidates =
      let v = select-IsSelection candidates in
      (v.few, v.short, All-of _ (select fold k candidates) v.origin)

  -- Of two selected candidates the later one has another identifier than the earlier one; it has
  -- other content when contents are deduplicated, is no neighbour of it when neighbours are not
  -- allowed, and does not overlap it beyond the largest ratio when there is one.
  pub select_pairwise :
      (candidates pre post : List FusedCandidate) (c e : FusedCandidate)
      → select fold k candidates ≡ pre ++ (c ∷ post)
      → In e pre
      → (c.chunk_id ≢ e.chunk_id)
        × ((k.deduplicate_content && same_content fold c e) ≡ false)
        × ((not k.allow_neighbor_chunks && are_neighbors c e) ≡ false)
        × (overlaps fold k c e ≡ false)
  unfolding is_refused
  select_pairwise candidates pre post c e same i =
      let passes =
        Clear-at [] pre post c (subst (Clear []) same (select-IsSelection candidates).clear) in
      (
        (λ q. ground (
          arith,
          any-In (λ (e : FusedCandidate). text_eq c.chunk_id e.chunk_id) i,
          text_eq_iff c.chunk_id e.chunk_id,
        )),
        ground (arith, any-In (λ e. same_content fold c e) i),
        ground (arith, any-In (λ e. are_neighbors c e) i),
        ground (arith, any-In (λ e. overlaps fold k c e) i),
      )
