-- ===== src/Chunking/Metadata/Tests.antt =====
-- A witness for the links between chunks.
use learning_system.Prelude.{◌≡◌, refl, none, List, [], ◌∷◌, Result, ok, err, Text, strip}
use learning_system.Chunking.Policy.{ChunkType, ChunkPolicy, ChunkDraft, ChunkError}
use learning_system.Chunking.Metadata.{Chunk, build}
use learning_system.Chunking.Metadata.Links.{IsChain, build-IsChain}

abbrev same_text : Text → Text
same_text t = t

abbrev standard : ChunkPolicy
standard = record { target_chars = 600; max_chars = 900; overlap_chars = 90; min_chars = 200 }

abbrev draft : Text → ChunkDraft
draft content = record {
  content = content;
  chunk_type = ChunkType.text;
  heading_path = [];
  metadata = [];
}

abbrev two_drafts : List ChunkDraft
two_drafts = draft (97 ∷ []) ∷ draft (98 ∷ []) ∷ []

-- The outcome for a document "d", or no chunks.
abbrev chunks_of : Result ChunkError (List Chunk) → List Chunk
chunks_of (ok chunks) = chunks
chunks_of (err e) = []

abbrev two_chunks : List Chunk
two_chunks = chunks_of (build same_text same_text standard two_drafts (100 ∷ []) [])

two_chunks-build : build same_text same_text standard two_drafts (100 ∷ []) [] ≡ ok two_chunks
unfolding build strip
two_chunks-build = refl

build-IsChain_example : IsChain same_text same_text none 1 two_drafts two_chunks
build-IsChain_example =
    build-IsChain same_text same_text standard two_drafts (100 ∷ []) [] two_chunks two_chunks-build
