-- ===== src/Retrieval/Selection/Tests.antt =====
-- The selection among four candidates of two documents.
use learning_system.Prelude.{
  ℕ, ◌≤◌, ◌≡◌, refl, ◌≢◌, true, false, ◌&&◌, none, some, List, [], ◌∷◌, length, All, In, here, Text,
  pos,
}
use learning_system.Retrieval.Candidates.{
  integer, FusedCandidate, same_content, are_neighbors, boundary_overlap_ratio,
}
use learning_system.Retrieval.Selection.{
  ContextSelectionConfig, context_char_count, overlaps, select,
}
use learning_system.Retrieval.Selection.Limits.{select_within_limits, select_pairwise}
use learning_system.Retrieval.Selection.Greedy.{IsSettled, select_settles}
use mathlib.Core.List.{flat_map}

abbrev fold : ℕ → Text
fold c = c ∷ []

abbrev candidate : ℕ → ℕ → ℕ → Text → ℕ → FusedCandidate
candidate id document index content rank = record {
  chunk_id = id ∷ [];
  document_id = document ∷ [];
  content = content;
  content_hash = none;
  previous_chunk_id = none;
  next_chunk_id = none;
  chunk_index = some (integer (pos index));
  fused_rank = rank;
  reranked_rank = none;
}

abbrev first : FusedCandidate
first = candidate 1 1 0 (97 ∷ 98 ∷ []) 1

-- A neighbour of the first.
abbrev second : FusedCandidate
second = candidate 2 1 1 (99 ∷ 100 ∷ []) 2

abbrev third : FusedCandidate
third = candidate 3 2 0 (101 ∷ 102 ∷ []) 3

abbrev offered : List FusedCandidate
offered = second ∷ third ∷ first ∷ []

abbrev config : ContextSelectionConfig
config = record {
  max_chunks = 5;
  char_budget = 100;
  separator = 10 ∷ 10 ∷ [];
  diversity_first = true;
  deduplicate_content = true;
  allow_neighbor_chunks = false;
  max_overlap_ratio = some 80;
}

chosen : select fold config offered ≡ first ∷ third ∷ []
unfolding select flat_map same_content are_neighbors boundary_overlap_ratio
chosen = refl

select_within_limits_example :
    let chosen = select fold config offered in
    (length chosen ≤ 5) × (context_char_count config chosen ≤ 100) × All (λ a. In a offered) chosen
select_within_limits_example = select_within_limits fold config offered

select_pairwise_example :
    (third.chunk_id ≢ first.chunk_id)
    × ((true && same_content fold third first) ≡ false)
    × ((true && are_neighbors third first) ≡ false)
    × (overlaps fold config third first ≡ false)
select_pairwise_example =
    select_pairwise fold config offered (first ∷ []) [] third first chosen here

select_settles_example : IsSettled fold config (select fold config offered) second
select_settles_example = select_settles fold config offered second here
