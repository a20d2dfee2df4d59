-- ===== src/Chunking/Metadata.antt =====
-- ChunkMetadataBuilder of metadata.py and `chunk_content_hash` of normalization.py: the chunks of a
-- document, numbered and linked. The digest of a text, SHA-256 of its UTF-8 form in hexadecimal, is a
-- parameter.
pub mod Links
mod Tests
use learning_system.Prelude.{
  ℕ, zero, suc, ◌+◌, ◌/◌, ◌%◌, Option, none, some, List, [], ◌∷◌, ◌++◌, map, ltb, if◌then◌else◌,
  take, here, Result, ok, refuse, Dict, put, Text, is_empty, strip, Json, ◌>>◌,
}
use learning_system.Chunking.Policy.{
  ChunkError, document_id_required, ChunkType, ChunkPolicy, ChunkDraft, normalize_chunk_text,
}

-- A value of the metadata.
pub data Entry : Type 0 where
  given : Json → Entry
  text : Text → Entry
  texts : List Text → Entry
  integer : ℕ → Entry
  kind : ChunkType → Entry
  policy : ChunkPolicy → Entry
  nothing : Entry

pub record Chunk : Type 0 where
  pub chunk_id : Text
  pub document_id : Text
  pub chunk_index : ℕ
  pub content : Text
  pub content_hash : Text
  pub chunk_type : ChunkType
  pub previous_chunk_id : Option Text
  pub next_chunk_id : Option Text
  pub metadata : Dict Entry

-- The decimal digits of a number, in at most `rounds` rounds.
unfoldable pub digits : ℕ → ℕ → Text → Text
digits zero n after = after
digits (suc rounds) n after =
    let here = (48 + n % 10) ∷ after in
    let more = digits rounds (n / 10) here in if ltb n 10 then here else more

unfoldable pub decimal : ℕ → Text
unfolding digits
decimal n = digits (suc n) n []

-- f"v2\0{document_id}\0{chunk_index}\0{content_hash}"
unfoldable pub identity : Text → ℕ → Text → Text
unfolding decimal
identity document_id chunk_index content_hash =
    (118 ∷ 50 ∷ 0 ∷ document_id) ++ (0 ∷ decimal chunk_index) ++ (0 ∷ content_hash)

unfoldable pub stable_chunk_id : (Text → Text) → Text → ℕ → Text → Text
unfolding identity
stable_chunk_id digest document_id chunk_index content_hash =
    (99 ∷ 104 ∷ 117 ∷ 110 ∷ 107 ∷ 45 ∷ [])
    ++ take 32 (digest (identity document_id chunk_index content_hash))

unfoldable pub chunk_content_hash : (Text → Text) → (Text → Text) → Text → Text
chunk_content_hash nfc digest content = digest (normalize_chunk_text nfc content)

-- xs[n]
unfoldable pub item_at {ℓ} : {A : Type ℓ} → ℕ → List A → Option A
item_at n [] = none
item_at zero (x ∷ xs) = some x
item_at (suc n) (x ∷ xs) = item_at n xs

-- The ids of the hashes, numbered from `index`.
unfoldable pub chunk_ids : (Text → Text) → Text → ℕ → List Text → List Text
unfolding stable_chunk_id
chunk_ids digest document_id index [] = []
chunk_ids digest document_id index (h ∷ hashes) =
    stable_chunk_id digest document_id index h ∷ chunk_ids digest document_id (suc index) hashes

-- chunk_ids[offset - 1] if offset else None
unfoldable pub previous_id : List Text → ℕ → Option Text
unfolding item_at
previous_id ids zero = none
previous_id ids (suc before) = item_at before ids

-- A mapping and then the items of another, which win.
unfoldable pub update_all : Dict Entry → Dict Json → Dict Entry
update_all m [] = m
update_all m ((k, v) ∷ more) = update_all (put k (given v) m) more

abbrev pub optional : Option Text → Entry
optional none = nothing
optional (some t) = text t

-- {**base_metadata, **draft.metadata, "chunk_schema_version": "v2", ...}
unfoldable pub chunk_metadata :
    ChunkPolicy → Dict Json → ChunkDraft → Text → ℕ → Text → Option Text → Option Text → Dict Entry
unfolding update_all
chunk_metadata p base draft id index hash before after = put "chunk_policy" (policy p) (
    put "next_chunk_id" (optional after) (
      put "previous_chunk_id" (optional before) (
        put "content_hash" (text hash) (
          put "heading_path" (texts draft.heading_path) (
            put "chunk_type" (kind draft.chunk_type) (
              put "chunk_index" (integer index) (
                put "chunk_id" (text id) (
                  put "chunk_schema_version" (text (118 ∷ 50 ∷ []))
                    (update_all (update_all [] base) draft.metadata)))))))))

-- One round of the loop over the drafts.
unfoldable pub build_chunk :
    (Text → Text)
    → (Text → Text)
    → ChunkPolicy
    → Text
    → Dict Json
    → List Text
    → ℕ
    → ChunkDraft
    → Chunk
unfolding previous_id chunk_metadata chunk_content_hash
build_chunk nfc digest p document_id base ids offset draft =
    let index = suc offset in
    let hash = chunk_content_hash nfc digest (normalize_chunk_text nfc draft.content) in
    let id = stable_chunk_id digest document_id index hash in
    let before = previous_id ids offset in
    let after = item_at (suc offset) ids in
    record {
      chunk_id = id;
      document_id = document_id;
      chunk_index = index;
      content = normalize_chunk_text nfc draft.content;
      content_hash = hash;
      chunk_type = draft.chunk_type;
      previous_chunk_id = before;
      next_chunk_id = after;
      metadata = chunk_metadata p base draft id index hash before after;
    }

unfoldable pub build_from :
    (Text → Text)
    → (Text → Text)
    → ChunkPolicy
    → Text
    → Dict Json
    → List Text
    → ℕ
    → List ChunkDraft
    → List Chunk
unfolding build_chunk
build_from nfc digest p document_id base ids offset [] = []
build_from nfc digest p document_id base ids offset (draft ∷ drafts) =
    build_chunk nfc digest p document_id base ids offset draft
    ∷ build_from nfc digest p document_id base ids (suc offset) drafts

-- ChunkMetadataBuilder.build
unfoldable pub build :
    (Text → Text)
    → (Text → Text)
    → ChunkPolicy
    → List ChunkDraft
    → Text
    → Dict Json
    → Result ChunkError (List Chunk)
unfolding build_from chunk_ids
build nfc digest p drafts document_id base =
    let hashes =
      map (λ d. chunk_content_hash nfc digest (normalize_chunk_text nfc d.content)) drafts in
    let ids = chunk_ids digest document_id 1 hashes in
    do
      refuse (is_empty (strip document_id)) document_id_required
      ok (build_from nfc digest p document_id base ids 0 drafts)
