-- ===== src/Retrieval/Candidates.antt =====
-- FusedCandidate of domain.py and the comparisons of candidates in selection.py. Of the metadata the
-- record has the entries that selection reads; a content hash is a text. `fold` is Unicode case
-- folding of one character.
use learning_system.Prelude.{
  ℕ, zero, suc, ◌+◌, ◌-◌, ◌*◌, min, Bool, true, false, not, ◌&&◌, ◌||◌, Option, none, some, List,
  [], ◌∷◌, ◌++◌, leb, ◌==◌, if◌then◌else◌, length, take, drop, all, Text, is_empty, text_eq,
  is_space, ℤ, pos, negsuc,
}
use mathlib.Core.List.{flat_map}

-- An entry of a metadata mapping.
pub data Entry : Type 0 where
  flag : Bool → Entry
  integer : ℤ → Entry
  text : Text → Entry
  other : Entry

pub record FusedCandidate : Type 0 where
  pub chunk_id : Text
  pub document_id : Text
  pub content : Text
  pub content_hash : Option Text
  pub previous_chunk_id : Option Entry
  pub next_chunk_id : Option Entry
  pub chunk_index : Option Entry
  pub fused_rank : ℕ
  pub reranked_rank : Option ℕ

-- str.split() : the words between white space
starts_word : Text → Bool
unfolding is_space
starts_word [] = false
starts_word (c ∷ t) = not (is_space c)

push : ℕ → List Text → List Text
push c [] = (c ∷ []) ∷ []
push c (w ∷ ws) = (c ∷ w) ∷ ws

unfoldable pub words : Text → List Text
unfolding is_space starts_word push
words [] = []
words (c ∷ t) =
    let rest = words t in
    if is_space c then rest else if starts_word t then push c rest else (c ∷ []) ∷ rest

-- " ".join(words)
unfoldable pub join_words : List Text → Text
join_words [] = []
join_words (w ∷ []) = w
join_words (w ∷ v ∷ ws) = w ++ (32 ∷ join_words (v ∷ ws))

-- `_neighbor_links`: an entry counts if it is a text and not empty.
unfoldable pub links_to : Text → Option Entry → Bool
links_to id none = false
links_to id (some (text t)) = not (is_empty t) && text_eq t id
links_to id (some e) = false

pub is_linked : FusedCandidate → Text → Bool
unfolding links_to
is_linked c id = links_to id c.previous_chunk_id || links_to id c.next_chunk_id

-- int(value) where value.isdigit(), for ASCII digits
is_digit : ℕ → Bool
is_digit c = leb 48 c && leb c 57

number_from : ℕ → Text → ℕ
number_from n [] = n
number_from n (c ∷ t) = number_from (n * 10 + (c - 48)) t

unfoldable pub chunk_index_of : Option Entry → Option ℤ
unfolding is_digit number_from
chunk_index_of none = none
chunk_index_of (some (flag b)) = none
chunk_index_of (some (integer i)) = some i
chunk_index_of (some (text t)) =
    if not (is_empty t) && all is_digit t then some (pos (number_from 0 t)) else none
chunk_index_of (some other) = none

-- abs(left - right) == 1
unfoldable pub is_next_to : ℤ → ℤ → Bool
is_next_to (pos m) (pos n) = m + 1 == n || n + 1 == m
is_next_to (negsuc m) (negsuc n) = m + 1 == n || n + 1 == m
is_next_to (pos m) (negsuc n) = m == 0 && n == 0
is_next_to (negsuc m) (pos n) = m == 0 && n == 0

unfoldable pub are_neighbors : FusedCandidate → FusedCandidate → Bool
unfolding is_linked chunk_index_of is_next_to
are_neighbors left right =
    if not (text_eq left.document_id right.document_id)
    then false
    else if is_linked left right.chunk_id || is_linked right left.chunk_id
    then true
    else elim (chunk_index_of left.chunk_index) [
      | none ↦ false
      | some i ↦ elim (chunk_index_of right.chunk_index) [ none ↦ false | some j ↦ is_next_to i j ]
    ]

-- left_hash and right_hash and left_hash == right_hash
unfoldable pub same_hash : Option Text → Option Text → Bool
same_hash (some s) (some t) = not (is_empty s) && not (is_empty t) && text_eq s t
same_hash _ _ = false

-- value[-size:] for 0 < size
abbrev pub last : ℕ → Text → Text
last size t = drop (length t - size) t

-- The loop over the sizes, from `size` down to 1; the size that meets, or 0.
unfoldable pub overlap_size : ℕ → Text → Text → ℕ
overlap_size zero left right = 0
overlap_size (suc n) left right =
    let smaller = overlap_size n left right in
    if text_eq (last (suc n) left) (take (suc n) right)
      || text_eq (last (suc n) right) (take (suc n) left)
    then suc n
    else smaller

module _ (fold : ℕ → Text) where
  unfoldable pub normalized_content : Text → Text
  unfolding words join_words
  normalized_content t = join_words (words (flat_map fold t))

  unfoldable pub same_content : FusedCandidate → FusedCandidate → Bool
  unfolding normalized_content same_hash
  same_content left right =
      if same_hash left.content_hash right.content_hash
      then true
      else text_eq (normalized_content left.content) (normalized_content right.content)

  -- The ratio as a fraction.
  unfoldable pub boundary_overlap_ratio : Text → Text → ℕ × ℕ
  unfolding normalized_content overlap_size
  boundary_overlap_ratio left right =
      let l = normalized_content left in
      let r = normalized_content right in
      let shortest = min (length l) (length r) in
      if shortest == 0 then (0, 1) else (overlap_size shortest l r, shortest)
