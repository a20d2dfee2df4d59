-- ===== src/Chunking/Code/Tests.antt =====
-- Tests of the fences and a witness for the parts of a fenced block.
use learning_system.Prelude.{
  ◌≤◌, ◌≡◌, refl, true, none, some, List, [], ◌∷◌, ◌++◌, arith, length, All, ok, err, Text,
}
use learning_system.Chunking.Policy.{normalize_chunk_text, overlap_chars_out_of_range, ChunkPolicy}
use learning_system.Chunking.Code.{
  parse_opening_fence, is_matching_closing_fence, code_parts, code_chunk,
}
use learning_system.Chunking.Code.Fitting.{code_parts-fit}

abbrev same_text : Text → Text
same_text t = t

abbrev small_policy : ChunkPolicy
small_policy = record { target_chars = 10; max_chars = 16; overlap_chars = 1; min_chars = 2 }

-- An overlap above the least size, which a policy may have.
abbrev wide_overlap : ChunkPolicy
wide_overlap = record { target_chars = 10; max_chars = 40; overlap_chars = 5; min_chars = 1 }

abbrev ticks : Text
ticks = 96 ∷ 96 ∷ 96 ∷ []

abbrev body : Text
body = 97 ∷ 98 ∷ 46 ∷ 32 ∷ 99 ∷ 100 ∷ 46 ∷ 32 ∷ 101 ∷ 102 ∷ 103 ∷ []

opening-language : parse_opening_fence (32 ∷ ticks ++ (32 ∷ 99 ∷ 32 ∷ [])) ≡ some (ticks, 99 ∷ [])
unfolding parse_opening_fence
opening-language = refl

opening-info_with_tick : parse_opening_fence (ticks ++ (99 ∷ 96 ∷ [])) ≡ none
unfolding parse_opening_fence
opening-info_with_tick = refl

closing-longer : is_matching_closing_fence (96 ∷ ticks ++ (32 ∷ [])) ticks ≡ true
unfolding is_matching_closing_fence
closing-longer = refl

-- A policy that can be constructed, and a fenced block of which no chunk is made.
wide_overlap-refused :
    code_chunk same_text wide_overlap (ticks ++ (10 ∷ body ++ (10 ∷ ticks))) [] []
    ≡ some (err overlap_chars_out_of_range)
unfolding code_chunk normalize_chunk_text
wide_overlap-refused = refl

code_parts-fit_example :
    (texts : List Text) × (code_parts same_text small_policy ticks ticks body ≡ some (ok texts))
    × All (λ t. length t ≤ 16) texts
code_parts-fit_example =
    code_parts-fit same_text small_policy ticks ticks body
      (record {
        positive = omega arith;
        target = omega arith;
        greatest = omega arith;
        overlap = omega arith;
      })
      (omega arith) (omega arith)
