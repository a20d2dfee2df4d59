-- ===== src/Chunking/Persistence.antt =====
-- persistence.py of the chunking domain: the ids under which the chunks of an index version are
-- stored. The digest of a text, SHA-256 of its UTF-8 form in hexadecimal, is a parameter; an index
-- below 1, which the source refuses, is 0.
pub mod Outcomes
mod Tests
use learning_system.Prelude.{
  ℕ, suc, ◌+◌, not, List, [], ◌∷◌, ◌++◌, ◌==◌, length, take, Result, ok, refuse, Text, is_empty,
  strip, ◌>>◌, ◌>>=◌,
}
use learning_system.Chunking.Metadata.{decimal}

pub data PersistenceError : Type 0 where
  index_version_id_required chunk_index_not_positive content_hash_invalid : PersistenceError

-- f"chunk-v2\0{index_version_id}\0{chunk_index}\0{content_hash}"
unfoldable pub persisted_identity : Text → ℕ → Text → Text
unfolding decimal
persisted_identity index_version_id chunk_index content_hash =
    (99 ∷ 104 ∷ 117 ∷ 110 ∷ 107 ∷ 45 ∷ 118 ∷ 50 ∷ 0 ∷ index_version_id)
    ++ (0 ∷ decimal chunk_index)
    ++ (0 ∷ content_hash)

unfoldable pub persisted_chunk_id : (Text → Text) → Text → ℕ → Text → Result PersistenceError Text
unfolding persisted_identity
persisted_chunk_id digest index_version_id chunk_index content_hash = do
  refuse (is_empty (strip index_version_id)) index_version_id_required
  refuse (chunk_index == 0) chunk_index_not_positive
  refuse (not (length content_hash == 64)) content_hash_invalid
  ok (
      (99 ∷ 104 ∷ 117 ∷ 110 ∷ 107 ∷ 45 ∷ [])
      ++ take 32 (digest (persisted_identity index_version_id chunk_index content_hash)))

-- The comprehension, from the hash numbered `index` on.
unfoldable pub persisted_from :
    (Text → Text) → Text → ℕ → List Text → Result PersistenceError (List Text)
unfolding persisted_chunk_id
persisted_from digest index_version_id index [] = ok []
persisted_from digest index_version_id index (h ∷ hashes) =
    let rest = persisted_from digest index_version_id (suc index) hashes in
    do id ← persisted_chunk_id digest index_version_id index h; ids ← rest; ok (id ∷ ids)

unfoldable pub persisted_chunk_ids :
    (Text → Text) → Text → List Text → Result PersistenceError (List Text)
unfolding persisted_from
persisted_chunk_ids digest index_version_id hashes = persisted_from digest index_version_id 1 hashes
