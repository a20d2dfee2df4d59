-- ===== src/Retrieval/Selection.antt =====
-- selection.py: the candidates that become the context of an answer. The largest overlap ratio is in
-- hundredths. The set of the selected identifiers is read off the selected candidates.
pub mod Order
pub mod Limits
pub mod Greedy
mod Tests
use learning_system.Prelude.{
  ℕ, ◌+◌, ◌*◌, Bool, true, false, not, ◌&&◌, ◌||◌, Option, none, some, List, [], ◌∷◌, ◌++◌, ltb,
  leb, ◌==◌, if◌then◌else◌, length, any, Result, refuse, Text, is_empty, text_eq, ◌>>◌,
}
use learning_system.Retrieval.Candidates.{
  FusedCandidate, same_content, are_neighbors, boundary_overlap_ratio,
}

pub data SelectionError : Type 0 where
  max_chunks_not_positive char_budget_not_positive max_overlap_ratio_out_of_range : SelectionError

pub record ContextSelectionConfig : Type 0 where
  pub max_chunks : ℕ
  pub char_budget : ℕ
  pub separator : Text
  pub diversity_first : Bool
  pub deduplicate_content : Bool
  pub allow_neighbor_chunks : Bool
  pub max_overlap_ratio : Option ℕ

-- ContextSelectionConfig.__post_init__
pub check_config : ContextSelectionConfig → Result SelectionError (Unit {0})
check_config k = do
  refuse (k.max_chunks == 0) max_chunks_not_positive
  refuse (k.char_budget == 0) char_budget_not_positive
  refuse (elim k.max_overlap_ratio [ none ↦ false | some r ↦ ltb 100 r ])
      max_overlap_ratio_out_of_range

-- The order of texts, by code points.
unfoldable pub text_lt : Text → Text → Bool
text_lt [] [] = false
text_lt [] (d ∷ t) = true
text_lt (c ∷ s) [] = false
text_lt (c ∷ s) (d ∷ t) = ltb c d || (c == d && text_lt s t)

abbrev pub rank : FusedCandidate → ℕ
rank c = elim c.reranked_rank [ none ↦ c.fused_rank | some r ↦ r ]

-- The keys of `sorted`, compared as tuples.
abbrev pub comes_before : FusedCandidate → FusedCandidate → Bool
comes_before c d = ltb (rank c) (rank d) || (rank c == rank d && text_lt c.chunk_id d.chunk_id)

insert : FusedCandidate → List FusedCandidate → List FusedCandidate
unfolding text_lt
insert c [] = c ∷ []
insert c (d ∷ rest) =
    let later = insert c rest in if comes_before d c then d ∷ later else c ∷ d ∷ rest

-- The stable sort.
pub sorted : List FusedCandidate → List FusedCandidate
unfolding insert
sorted [] = []
sorted (c ∷ rest) = insert c (sorted rest)

abbrev has_document : Text → List Text → Bool
has_document d = any (λ e. text_eq d e)

-- The loop over the sorted candidates: the first of each document, and the others.
pub by_document : List Text → List FusedCandidate → List FusedCandidate × List FusedCandidate
by_document seen [] = ([], [])
by_document seen (c ∷ rest) =
    let known = has_document c.document_id seen in
    let split = by_document (if known then seen else c.document_id ∷ seen) rest in
    if known then (split.0, c ∷ split.1) else (c ∷ split.0, split.1)

pub context_char_count : ContextSelectionConfig → List FusedCandidate → ℕ
context_char_count k [] = 0
context_char_count k (c ∷ []) = length c.content
context_char_count k (c ∷ d ∷ rest) =
    length c.content + (length k.separator + context_char_count k (d ∷ rest))

pub selection_order : ContextSelectionConfig → List FusedCandidate → List FusedCandidate
unfolding sorted by_document
selection_order k candidates =
    let ordered = sorted candidates in
    let split = by_document [] ordered in
    if not k.diversity_first then ordered else split.0 ++ split.1

-- added_chars
abbrev pub added_chars : ContextSelectionConfig → List FusedCandidate → FusedCandidate → ℕ
added_chars k selected c = length c.content + (if is_empty selected then 0 else length k.separator)

module _ (fold : ℕ → Text) (k : ContextSelectionConfig) where
  unfoldable pub overlaps : FusedCandidate → FusedCandidate → Bool
  overlaps c e = elim k.max_overlap_ratio [
    | none ↦ false
    | some r ↦
        let ratio = boundary_overlap_ratio fold c.content e.content in
        ltb (r * ratio.1) (100 * ratio.0)
  ]

  -- The four tests of the loop that compare a candidate with the selected ones.
  pub is_refused : List FusedCandidate → FusedCandidate → Bool
  unfolding overlaps
  is_refused selected c =
      any (λ e. text_eq c.chunk_id e.chunk_id) selected
      || (k.deduplicate_content && any (λ e. same_content fold c e) selected)
      || (not k.allow_neighbor_chunks && any (λ e. are_neighbors c e) selected)
      || any (λ e. overlaps c e) selected

  pub is_over_budget : List FusedCandidate → FusedCandidate → Bool
  unfolding context_char_count
  is_over_budget selected c =
      ltb k.char_budget (context_char_count k selected + added_chars k selected c)

  -- The loop of `select`.
  pub select_from : List FusedCandidate → List FusedCandidate → List FusedCandidate
  unfolding is_refused is_over_budget
  select_from selected [] = selected
  select_from selected (c ∷ rest) =
      let next =
        select_from
          (if is_refused selected c || is_over_budget selected c
            then selected
            else selected ++ (c ∷ []))
          rest in
      if leb k.max_chunks (length selected) then selected else next

  pub select : List FusedCandidate → List FusedCandidate
  unfolding select_from selection_order
  select candidates = select_from [] (selection_order k candidates)
