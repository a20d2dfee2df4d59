-- ===== src/Chunking/Text.antt =====
-- `_split_text`, `_choose_boundary`, `_is_boundary` and TextChunker of chunkers.py. The loop has fuel;
-- one more than the length of the text is enough.
pub mod Windows
pub mod Coverage
mod Tests
use learning_system.Prelude.{
  ℕ, zero, suc, ◌+◌, ◌-◌, min, max, Bool, false, not, ◌&&◌, ◌||◌, Option, none, some, List, [], ◌∷◌,
  ltb, leb, ◌==◌, if◌then◌else◌, length, drop, any, Result, each, Dict, Text, is_empty, is_space,
  strip, rstrip, Json,
}
use learning_system.Prelude.Slices.{slice}
use learning_system.Chunking.Policy.{
  ChunkError, ChunkType, ChunkPolicy, ChunkDraft, normalize_chunk_text, new_draft,
}

-- _BOUNDARY_CHARACTERS
abbrev boundary_characters : List ℕ
boundary_characters = 46 ∷ 63 ∷ 33 ∷ 59 ∷ 12290 ∷ 65281 ∷ 65311 ∷ 65307 ∷ []

-- The character at a position satisfies a test; none does beyond the end.
unfoldable pub holds_at : (ℕ → Bool) → ℕ → Text → Bool
holds_at test n [] = false
holds_at test zero (c ∷ t) = test c
holds_at test (suc n) (c ∷ t) = holds_at test n t

unfoldable pub is_boundary : Text → ℕ → Bool
unfolding holds_at is_space
is_boundary t zero = false
is_boundary t (suc before) =
    holds_at (λ c. is_space c || any (λ d. c == d) boundary_characters) before t

-- for position in range(position, position - rounds, -1)
unfoldable pub last_boundary : Text → ℕ → ℕ → Option ℕ
unfolding is_boundary
last_boundary t zero position = none
last_boundary t (suc rounds) position =
    let before = last_boundary t rounds (position - 1) in
    if is_boundary t position then some position else before

-- for position in range(position, position + rounds)
unfoldable pub first_boundary : Text → ℕ → ℕ → Option ℕ
unfolding is_boundary
first_boundary t zero position = none
first_boundary t (suc rounds) position =
    let after = first_boundary t rounds (position + 1) in
    if is_boundary t position then some position else after

unfoldable pub choose_boundary : Text → ℕ → ℕ → ℕ → ChunkPolicy → ℕ
unfolding last_boundary first_boundary
choose_boundary t start target_end hard_end p =
    let earliest = min target_end (start + p.min_chars) in
    elim (last_boundary t (target_end + 1 - earliest) target_end) [
      | some position ↦ position
      | none ↦ elim (first_boundary t (hard_end - target_end) (target_end + 1)) [
        | some position ↦ position
        | none ↦ target_end
      ]
    ]

-- part[-overlap].isspace(), where part[-0] is the first character
unfoldable pub is_space_back : ℕ → Text → Bool
unfolding holds_at is_space
is_space_back zero part = holds_at is_space 0 part
is_space_back (suc n) part = holds_at is_space (length part - suc n) part

-- The inner loop, which moves the end on by at most `rounds`.
unfoldable pub extend : Text → ℕ → ℕ → ℕ → ℕ → ℕ
unfolding is_space_back
extend t overlap start zero end = end
extend t overlap start (suc rounds) end =
    let part = strip (slice start end t) in
    let on = extend t overlap start rounds (end + 1) in
    if ltb overlap (length part) && is_space_back overlap part then on else end

abbrev pub hard_end : Text → ℕ → ChunkPolicy → ℕ
hard_end t start p = min (start + p.max_chars) (length t - p.min_chars + p.overlap_chars)

-- The end of the slice, and the part that is kept of it.
unfoldable pub window : Text → ℕ → ChunkPolicy → ℕ × Text
unfolding choose_boundary extend
window t start p =
    let hard = hard_end t start p in
    let target_end = min (start + p.target_chars) hard in
    let chosen = choose_boundary t start target_end hard p in
    let end = extend t p.overlap_chars start (hard - chosen) chosen in
    let part = strip (slice start end t) in
    if is_empty part then (target_end, slice start target_end t) else (end, part)

-- max(start + 1, content_end - overlap)
unfoldable pub next_start : Text → ℕ → ℕ → ChunkPolicy → ℕ
next_start t start end p =
    max (start + 1) (start + length (rstrip (slice start end t)) - p.overlap_chars)

-- The outer loop; `none` means that the fuel ran out.
unfoldable pub split_from : ℕ → Text → ℕ → ChunkPolicy → Option (List Text)
unfolding window next_start
split_from zero t start p = none
split_from (suc fuel) t start p =
    let cut = window t start p in
    let rest = split_from fuel t (next_start t start cut.0 p) p in
    if not (ltb start (length t))
    then some []
    else if leb (length t - start) p.max_chars
    then some (strip (drop start t) ∷ [])
    else elim rest [ none ↦ none | some parts ↦ some (cut.1 ∷ parts) ]

unfoldable pub split_text : (Text → Text) → Text → ChunkPolicy → Option (List Text)
unfolding split_from
split_text nfc content p =
    let t = normalize_chunk_text nfc content in
    if is_empty t
    then some []
    else if leb (length t) p.max_chars
    then some (t ∷ [])
    else split_from (length t + 1) t 0 p

-- The parts as drafts, in order; the first that is refused raises.
unfoldable pub drafts_of :
    (Text → Text)
    → ChunkType
    → List Text
    → Dict Json
    → List Text
    → Result ChunkError (List ChunkDraft)
drafts_of nfc kind path metadata = each (λ part. new_draft nfc part kind path metadata)

-- TextChunker.chunk
unfoldable pub text_chunk :
    (Text → Text)
    → ChunkPolicy
    → ChunkType
    → Text
    → List Text
    → Dict Json
    → Option (Result ChunkError (List ChunkDraft))
unfolding split_text drafts_of
text_chunk nfc p kind content path metadata = elim (split_text nfc content p) [
  | none ↦ none
  | some parts ↦ some (drafts_of nfc kind path metadata parts)
]
