-- ===== src/Chunking/Code.antt =====
-- CodeChunker of chunkers.py and the fences it looks for.
pub mod Fitting
mod Tests
use learning_system.Prelude.{
  ℕ, ◌+◌, ◌-◌, max, Bool, false, ◌&&◌, ◌||◌, Option, none, some, List, [], ◌∷◌, ◌++◌, map, ltb, leb,
  ◌==◌, if◌then◌else◌, length, any, all, Result, ok, err, ◌>>=◌, ◌>>◌, Dict, put, Text, is_empty,
  is_space, strip, Json, has_prefix,
}
use learning_system.Prelude.Codes.{join_with}
use learning_system.Chunking.Policy.{
  ChunkError, ChunkType, ChunkPolicy, ChunkDraft, check_policy, normalize_chunk_text,
}
use learning_system.Chunking.Text.{split_text, drafts_of, text_chunk}

-- The characters at which str.splitlines ends a line.
abbrev is_line_end : ℕ → Bool
is_line_end c =
    (leb 10 c && leb c 13) || (leb 28 c && leb c 30) || (c == 133 || (c == 8232 || c == 8233))

-- A character before the first line.
abbrev onto_first : ℕ → List Text → List Text
onto_first c [] = (c ∷ []) ∷ []
onto_first c (line ∷ lines) = (c ∷ line) ∷ lines

-- str.splitlines, for which a return and a line feed are one end
unfoldable pub split_lines : Text → List Text
unfolding has_prefix
split_lines [] = []
split_lines (c ∷ t) =
    let rest = split_lines t in
    if c == 13 && has_prefix (10 ∷ []) t
    then rest
    else if is_line_end c
    then [] ∷ rest
    else onto_first c rest

-- The characters `c` that a text begins with, and the rest of it.
unfoldable pub run_of : ℕ → Text → Text × Text
run_of c [] = ([], [])
run_of c (d ∷ t) = let more = run_of c t in if d == c then (d ∷ more.0, more.1) else ([], d ∷ t)

-- At most three blanks, a delimiter of three or more backticks or tildes, and the rest.
unfoldable pub fence : Text → Option (Text × Text)
unfolding run_of
fence line =
    let blanks = run_of 32 line in
    let ticks = run_of 96 blanks.1 in
    let tildes = run_of 126 blanks.1 in
    if ltb 3 (length blanks.0)
    then none
    else if leb 3 (length ticks.0)
    then some ticks
    else if leb 3 (length tildes.0)
    then some tildes
    else none

abbrev starts_alike : Text → Text → Bool
starts_alike (c ∷ s) (d ∷ t) = c == d
starts_alike s t = false

-- _parse_opening_fence
unfoldable pub parse_opening_fence : Text → Option (Text × Text)
unfolding fence strip
parse_opening_fence line = elim (fence line) [
  | none ↦ none
  | some (delimiter, after) ↦
      let info = strip after in
      if any (λ c. c == 10) after
      then none
      else if starts_alike delimiter (96 ∷ []) && any (λ c. c == 96) info
      then none
      else some (delimiter, info)
]

-- _is_matching_closing_fence
unfoldable pub is_matching_closing_fence : Text → Text → Bool
unfolding fence is_space
is_matching_closing_fence line opening_delimiter = elim (fence line) [
  | none ↦ false
  | some (delimiter, after) ↦
      all is_space after
      && (starts_alike delimiter opening_delimiter
          && leb (length opening_delimiter) (length delimiter))
]

-- lines[-1], of a first line and the others
abbrev last_of : Text → List Text → Text
last_of line [] = line
last_of line (next ∷ lines) = last_of next lines

abbrev but_last : List Text → List Text
but_last [] = []
but_last (line ∷ []) = []
but_last (line ∷ next ∷ lines) = line ∷ but_last (next ∷ lines)

-- lines[0].strip(), lines[-1].strip() and "\n".join(lines[1:-1])
unfoldable pub opener_of : List Text → Text
unfolding strip
opener_of [] = []
opener_of (line ∷ lines) = strip line

unfoldable pub closer_of : List Text → Text
unfolding strip
closer_of [] = []
closer_of (line ∷ lines) = strip (last_of line lines)

unfoldable pub body_of : List Text → Text
unfolding join_with
body_of [] = []
body_of (line ∷ lines) = join_with (10 ∷ []) (but_last lines)

-- The info of the opening fence, when the lines are those of a fenced block.
unfoldable pub fenced_info : List Text → Option Text
unfolding parse_opening_fence is_matching_closing_fence
fenced_info [] = none
fenced_info (line ∷ []) = none
fenced_info (line ∷ next ∷ lines) = elim (parse_opening_fence line) [
  | none ↦ none
  | some (delimiter, info) ↦
      if is_matching_closing_fence (last_of next lines) delimiter then some info else none
]

abbrev pub wrapper_chars : Text → Text → ℕ
wrapper_chars opener closer = length opener + length closer + 2

-- replace(self.policy, target_chars=..., max_chars=...), before __post_init__ checks it
unfoldable pub inner_policy : ChunkPolicy → ℕ → ChunkPolicy
inner_policy p wrapper = record {
  target_chars = max p.min_chars (p.target_chars - wrapper);
  max_chars = p.max_chars - wrapper;
  overlap_chars = p.overlap_chars;
  min_chars = p.min_chars;
}

-- f"{opener}\n{part}\n{closer}"
abbrev pub wrap : Text → Text → Text → Text
wrap opener closer part = opener ++ (10 ∷ part ++ (10 ∷ closer))

-- The texts of the drafts of a fenced block.
unfoldable pub code_parts :
    (Text → Text) → ChunkPolicy → Text → Text → Text → Option (Result ChunkError (List Text))
unfolding inner_policy check_policy split_text
code_parts nfc p opener closer body =
    let inner = inner_policy p (wrapper_chars opener closer) in
    elim (check_policy inner) [
      | err e ↦ some (err e)
      | ok _ ↦ elim (split_text nfc body inner) [
        | none ↦ none
        | some parts ↦ some (ok (map (wrap opener closer) parts))
      ]
    ]

abbrev with_language : Text → Dict Json → Dict Json
with_language info metadata =
    if is_empty info then metadata else put "code_language" (Json.string info) metadata

-- The drafts of a block whose fences are the first and the last line.
unfoldable pub fenced_chunk :
    (Text → Text)
    → ChunkPolicy
    → List Text
    → Text
    → List Text
    → Dict Json
    → Option (Result ChunkError (List ChunkDraft))
unfolding code_parts drafts_of opener_of closer_of body_of
fenced_chunk nfc p lines info path metadata =
    elim (code_parts nfc p (opener_of lines) (closer_of lines) (body_of lines)) [
      | none ↦ none
      | some r ↦ some (r >>= drafts_of nfc ChunkType.code path (with_language info metadata))
    ]

-- CodeChunker.chunk
unfoldable pub code_chunk :
    (Text → Text)
    → ChunkPolicy
    → Text
    → List Text
    → Dict Json
    → Option (Result ChunkError (List ChunkDraft))
unfolding split_lines fenced_info fenced_chunk text_chunk
code_chunk nfc p content path metadata =
    let normalized = normalize_chunk_text nfc content in
    let lines = split_lines normalized in
    let as_text = text_chunk nfc p ChunkType.code normalized path metadata in
    elim (fenced_info lines) [
      | none ↦ as_text
      | some info ↦
          if ltb p.max_chars (wrapper_chars (opener_of lines) (closer_of lines) + p.min_chars)
          then as_text
          else fenced_chunk nfc p lines info path metadata
    ]
