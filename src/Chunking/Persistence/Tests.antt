-- ===== src/Chunking/Persistence/Tests.antt =====
-- A witness for the outcomes of storing the ids of chunks.
use learning_system.Prelude.{
  ◌≡◌, refl, List, [], ◌∷◌, ◌++◌, map, length, Result, ok, err, Text, strip,
}
use learning_system.Chunking.Persistence.{
  PersistenceError, content_hash_invalid, persisted_chunk_ids,
}
use learning_system.Chunking.Persistence.Outcomes.{IsOutcome, persisted_chunk_ids-IsOutcome}

abbrev same_text : Text → Text
same_text t = t

abbrev eight : Text → Text
eight t = t ++ t ++ t ++ t ++ t ++ t ++ t ++ t

abbrev whole_hash : Text
whole_hash = eight (eight (97 ∷ []))

short_hash-refused :
    persisted_chunk_ids same_text (118 ∷ []) (whole_hash ∷ (97 ∷ []) ∷ [])
    ≡ err content_hash_invalid
unfolding persisted_chunk_ids strip
short_hash-refused = refl

-- The ids, or none.
abbrev ids_of : Result PersistenceError (List Text) → List Text
ids_of (ok ids) = ids
ids_of (err e) = []

whole_hash-stored :
    map length (ids_of (persisted_chunk_ids same_text (118 ∷ []) (whole_hash ∷ whole_hash ∷ [])))
    ≡ 38 ∷ 38 ∷ []
unfolding persisted_chunk_ids strip
whole_hash-stored = refl

persisted_chunk_ids-IsOutcome_example :
    IsOutcome same_text
      (118 ∷ [])
      1
      (whole_hash ∷ whole_hash ∷ [])
      (persisted_chunk_ids same_text (118 ∷ []) (whole_hash ∷ whole_hash ∷ []))
persisted_chunk_ids-IsOutcome_example =
    persisted_chunk_ids-IsOutcome same_text (118 ∷ []) (whole_hash ∷ whole_hash ∷ [])
