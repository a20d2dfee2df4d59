-- ===== src/Chunking/Policy.antt =====
-- domain.py and normalization.py: the policy of a chunker, and the normal form of a text.
use learning_system.Prelude.{
  ℕ, ◌≤◌, ◌<◌, ◌≡◌, ◌↔◌, not, ◌&&◌, ◌||◌, List, [], ◌∷◌, map, arith, ltb, leb, ◌==◌, if◌then◌else◌,
  filter_by, Result, ok, ◌>>◌, refuse, Dict, Text, is_empty, strip, Json,
}
use learning_system.Prelude.Codes.{replace, split_on, join_with}

pub data ChunkError : Type 0 where
  min_chars_not_positive target_chars_too_small max_chars_too_small : ChunkError
  overlap_chars_out_of_range content_required document_id_required : ChunkError

pub data ChunkType : Type 0 where
  text markdown code table slide image_description : ChunkType

pub record ChunkPolicy : Type 0 where
  pub target_chars : ℕ
  pub max_chars : ℕ
  pub overlap_chars : ℕ
  pub min_chars : ℕ

-- ChunkPolicy.__post_init__
unfoldable pub check_policy : ChunkPolicy → Result ChunkError (Unit {0})
check_policy p = do
  refuse (p.min_chars == 0) min_chars_not_positive
  refuse (ltb p.target_chars p.min_chars) target_chars_too_small
  refuse (ltb p.max_chars p.target_chars) max_chars_too_small
  refuse (leb p.target_chars p.overlap_chars) overlap_chars_out_of_range

-- What a policy that was constructed satisfies.
pub record IsPolicy (p : ChunkPolicy) : Type 0 where
  pub positive : 0 < p.min_chars
  pub target : p.min_chars ≤ p.target_chars
  pub greatest : p.target_chars ≤ p.max_chars
  pub overlap : p.overlap_chars < p.target_chars

pub check_policy-IsPolicy : (p : ChunkPolicy) → (check_policy p ≡ ok tt) ↔ IsPolicy p
unfolding check_policy
check_policy-IsPolicy p = ground arith

-- line.rstrip(" \t")
unfoldable pub rstrip_blanks : Text → Text
rstrip_blanks [] = []
rstrip_blanks (c ∷ t) =
    let rest = rstrip_blanks t in if is_empty rest && (c == 32 || c == 9) then [] else c ∷ rest

-- normalize_chunk_text
unfoldable pub normalize_chunk_text : (Text → Text) → Text → Text
unfolding rstrip_blanks strip join_with split_on replace
normalize_chunk_text nfc content =
    let canonical = replace (13 ∷ []) (10 ∷ []) (replace (13 ∷ 10 ∷ []) (10 ∷ []) (nfc content)) in
    strip (join_with (10 ∷ []) (map rstrip_blanks (split_on 10 canonical)))

pub record ChunkDraft : Type 0 where
  pub content : Text
  pub chunk_type : ChunkType
  pub heading_path : List Text
  pub metadata : Dict Json

-- ChunkDraft.__post_init__
unfoldable pub new_draft :
    (Text → Text) → Text → ChunkType → List Text → Dict Json → Result ChunkError ChunkDraft
new_draft nfc content kind path metadata =
    let normalized = normalize_chunk_text nfc content in
    do
      refuse (is_empty normalized) content_required
      ok (record {
        content = normalized;
        chunk_type = kind;
        heading_path = filter_by (λ p. not (is_empty p)) (map strip path);
        metadata = metadata;
      })
