-- ===== src/Chunking/Text/Tests.antt =====
-- Witnesses for the text chunker.
use learning_system.Prelude.{err, has_prefix, refl, ◌≡◌, some, List, [], ◌∷◌, arith, Text}
use learning_system.Chunking.Policy.{
  ChunkType, ChunkPolicy, content_required, IsPolicy, normalize_chunk_text, new_draft,
}
use learning_system.Chunking.Text.{split_text, text_chunk}
use learning_system.Chunking.Text.Coverage.{IsSplit, split_text-IsSplit}

-- NFC leaves ASCII text as it is.
abbrev ascii : Text → Text
ascii t = t

abbrev small : ChunkPolicy
small = record { target_chars = 2; max_chars = 3; overlap_chars = 0; min_chars = 1 }

small-IsPolicy : IsPolicy small
small-IsPolicy = record {
  positive = omega arith;
  target = omega arith;
  greatest = omega arith;
  overlap = omega arith;
}

-- "a\n\n\n\n\nb"
abbrev spaced : Text
spaced = 97 ∷ 10 ∷ 10 ∷ 10 ∷ 10 ∷ 10 ∷ 98 ∷ []

split_text-IsSplit_example :
    (parts : List Text) × (split_text ascii spaced small ≡ some parts)
    × IsSplit small (normalize_chunk_text ascii spaced) parts
split_text-IsSplit_example = split_text-IsSplit ascii spaced small small-IsPolicy

-- A text with two visible characters of which no chunk is made: some of its parts are line feeds only.
blank_part-refused :
    text_chunk ascii small ChunkType.text spaced [] [] ≡ some (err content_required)
unfolding text_chunk split_text normalize_chunk_text has_prefix new_draft
blank_part-refused = refl
