-- ===== src/Chunking/Metadata/Links.antt =====
-- The chunks that ChunkMetadataBuilder.build returns form one chain.
use learning_system.Prelude.{
  ℕ, zero, suc, ◌+◌, ◌≡◌, refl, ap, ◌∙◌, subst, Option, none, some, List, [], ◌∷◌, map, arith, ok,
  Dict, lookup, lookup-put, Text, ok-injective, Json,
}
use learning_system.Chunking.Policy.{ChunkError, ChunkPolicy, ChunkDraft, normalize_chunk_text}
use learning_system.Chunking.Metadata.{
  texts, text, integer, optional, Chunk, chunk_metadata, chunk_content_hash, item_at, chunk_ids,
  previous_id, build_chunk, build_from, build,
}

abbrev pub first_id : List Chunk → Option Text
first_id [] = none
first_id (c ∷ cs) = some c.chunk_id

-- The metadata, which is what retrieval reads, says the same as the chunk.
pub record IsDescribed (c : Chunk) : Type 0 where
  pub own : lookup "chunk_id" c.metadata ≡ some (text c.chunk_id)
  pub number : lookup "chunk_index" c.metadata ≡ some (integer c.chunk_index)
  pub hash : lookup "content_hash" c.metadata ≡ some (text c.content_hash)
  pub before : lookup "previous_chunk_id" c.metadata ≡ some (optional c.previous_chunk_id)
  pub after : lookup "next_chunk_id" c.metadata ≡ some (optional c.next_chunk_id)

-- The chunk carries the text of the draft, with its type and the path of its headings.
pub record IsChunkOf (nfc digest : Text → Text) (d : ChunkDraft) (c : Chunk) : Type 0 where
  pub content : c.content ≡ normalize_chunk_text nfc d.content
  pub content_hash : c.content_hash ≡ chunk_content_hash nfc digest c.content
  pub chunk_type : c.chunk_type ≡ d.chunk_type
  pub heading_path : lookup "heading_path" c.metadata ≡ some (texts d.heading_path)

-- The chunks of drafts, one for each in their order, numbered from `index` and each linked to the one
-- before and the one after.
pub data IsChain (nfc digest : Text → Text)
    : Option Text → ℕ → List ChunkDraft → List Chunk → Type 0 where
  done : (before : Option Text) (index : ℕ) → IsChain nfc digest before index [] []
  link :
      (before : Option Text) (index : ℕ) (d : ChunkDraft) (ds : List ChunkDraft) (c : Chunk)
      (cs : List Chunk)
      → IsChunkOf nfc digest d c
      → c.chunk_index ≡ index
      → c.previous_chunk_id ≡ before
      → c.next_chunk_id ≡ first_id cs
      → IsDescribed c
      → IsChain nfc digest (some c.chunk_id) (suc index) ds cs
      → IsChain nfc digest before index (d ∷ ds) (c ∷ cs)

module _ (nfc : Text → Text) (digest : Text → Text) (p : ChunkPolicy) (document_id : Text)
    (base : Dict Json) where
  abbrev hash_of : ChunkDraft → Text
  hash_of d = chunk_content_hash nfc digest (normalize_chunk_text nfc d.content)

  build_chunk-IsDescribed :
      (ids : List Text) (offset : ℕ) (draft : ChunkDraft)
      → IsDescribed (build_chunk nfc digest p document_id base ids offset draft)
  unfolding build_chunk chunk_metadata
  build_chunk-IsDescribed ids offset draft = record {
    own = simp (lookup-put);
    number = simp (lookup-put);
    hash = simp (lookup-put);
    before = simp (lookup-put);
    after = simp (lookup-put);
  }

  build_chunk-IsChunkOf :
      (ids : List Text) (offset : ℕ) (draft : ChunkDraft)
      → IsChunkOf nfc digest draft (build_chunk nfc digest p document_id base ids offset draft)
  unfolding build_chunk chunk_metadata
  build_chunk-IsChunkOf ids offset draft = record {
    content = refl;
    content_hash = refl;
    chunk_type = refl;
    heading_path = simp (lookup-put);
  }

  abbrev ids_from : ℕ → List ChunkDraft → List Text
  ids_from index drafts = chunk_ids digest document_id index (map hash_of drafts)

  next_first :
      (ids : List Text) (offset : ℕ) (drafts : List ChunkDraft)
      → item_at zero (ids_from (suc offset) drafts)
        ≡ first_id (build_from nfc digest p document_id base ids offset drafts)
  unfolding build_from build_chunk chunk_ids item_at
  next_first ids offset [] = refl
  next_first ids offset (d ∷ drafts) = refl

  build_from-IsChain :
      (ids : List Text) (offset : ℕ) (drafts : List ChunkDraft)
      → ((j : ℕ) → item_at (offset + j) ids ≡ item_at j (ids_from (suc offset) drafts))
      → IsChain nfc digest
          (previous_id ids offset)
          (suc offset)
          drafts
          (build_from nfc digest p document_id base ids offset drafts)
  unfolding build_from build_chunk chunk_ids item_at previous_id
  build_from-IsChain ids offset [] h = IsChain.done _ _
  build_from-IsChain ids offset (d ∷ drafts) h =
      let at : (j k : ℕ) → j ≡ k → item_at j ids ≡ item_at k ids =
        λ j k e. ap (λ i. item_at i ids) e in
      let own = at offset (offset + 0) (omega arith) ∙ h 0 in
      let next =
        at (suc offset) (offset + 1) (omega arith) ∙ h 1 ∙ next_first ids (suc offset) drafts in
      let tail =
        build_from-IsChain ids (suc offset) drafts
          (λ j. at (suc offset + j) (offset + suc j) (omega arith) ∙ h (suc j)) in
      IsChain.link _ _ _ _ _ _ (build_chunk-IsChunkOf ids offset d) refl refl next
        (build_chunk-IsDescribed ids offset d)
        (subst
          (λ b.
            IsChain nfc digest b (suc (suc offset)) drafts
              (build_from nfc digest p document_id base ids (suc offset) drafts))
          own tail)

-- There is one chunk for each draft of a document, in the order of the drafts: it holds the draft's
-- text, normalised, with the hash of it, and the draft's type and headings. The chunks are numbered from
-- 1, each names the one before it and the one after it and no other, and its metadata says the same,
-- whatever the metadata of the document and of the draft contain.
pub build-IsChain :
    (nfc digest : Text → Text) (p : ChunkPolicy) (drafts : List ChunkDraft) (document_id : Text)
    (base : Dict Json) (chunks : List Chunk)
    → build nfc digest p drafts document_id base ≡ ok chunks
    → IsChain nfc digest none 1 drafts chunks
unfolding build previous_id
build-IsChain nfc digest p drafts document_id base chunks h =
    let hash : ChunkDraft → Text =
      λ d. chunk_content_hash nfc digest (normalize_chunk_text nfc d.content) in
    let ids = chunk_ids digest document_id 1 (map hash drafts) in
    let made : build_from nfc digest p document_id base ids 0 drafts ≡ chunks =
      ok-injective {E = ChunkError} (ground arith) in
    subst (IsChain nfc digest none 1 drafts) made (
      build_from-IsChain nfc digest p document_id base ids 0 drafts
        (λ j. ap (λ i. item_at i ids) (omega arith)))
