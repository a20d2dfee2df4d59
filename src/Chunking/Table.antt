-- ===== src/Chunking/Table.antt =====
-- `_group_table_rows`, `_overlap_table_rows` and `_split_fixed_width` of chunkers.py.
pub mod Pieces
pub mod Sizes
pub mod Groups
mod Tests
use mathlib.Core.List.{reverse}
use learning_system.Prelude.{
  ℕ, zero, suc, ◌+◌, ◌-◌, not, ◌&&◌, List, [], ◌∷◌, ◌++◌, ltb, leb, ◌==◌, if◌then◌else◌, length,
  take, drop, Text, is_empty,
}
use learning_system.Prelude.Codes.{join_with}
use learning_system.Chunking.Policy.{ChunkPolicy}

-- value[index:index + width] for index in range(0, len(value), width); there are at most as many
-- pieces as characters.
unfoldable pub pieces : ℕ → ℕ → Text → List Text
pieces zero width value = []
pieces (suc rounds) width value =
    let rest = pieces rounds width (drop width value) in
    if is_empty value then [] else take width value ∷ rest

unfoldable pub split_fixed_width : Text → ℕ → List Text
unfolding pieces
split_fixed_width value width =
    let cut = pieces (length value) width value in
    if width == 0 then value ∷ [] else if is_empty cut then [] ∷ [] else cut

-- The loop over the reversed rows; the selected rows are kept in their order.
unfoldable pub overlap_from : ℕ → ℕ → List Text → List Text → List Text
overlap_from overlap size selected [] = selected
overlap_from overlap size selected (row ∷ rest) =
    let row_size = length row + (if is_empty selected then 0 else 1) in
    let more = overlap_from overlap (size + row_size) (row ∷ selected) rest in
    if ltb overlap (size + row_size) then selected else more

unfoldable pub overlap_table_rows : List Text → ℕ → List Text
unfolding overlap_from
overlap_table_rows rows overlap =
    if overlap == 0 then [] else overlap_from overlap 0 [] (reverse rows)

-- "\n".join([*header, *rows])
abbrev pub render : List Text → List Text → Text
render header rows = join_with (10 ∷ []) (header ++ rows)

-- One round of the loop: the groups that are finished, and the current one.
unfoldable pub add_row : List Text → ChunkPolicy → List Text → Text → List (List Text) × List Text
unfolding overlap_table_rows
add_row header p current row =
    let full =
      not (is_empty current)
      && ltb p.target_chars (length (render header (current ++ (row ∷ [])))) in
    let kept = if full then overlap_table_rows current p.overlap_chars else current in
    let over =
      not (is_empty kept) && ltb p.max_chars (length (render header (kept ++ (row ∷ [])))) in
    (
      (if full then current ∷ [] else []) ++ (if over then kept ∷ [] else []),
      (if over then [] else kept) ++ (row ∷ []),
    )

unfoldable pub group_from : List Text → ChunkPolicy → List Text → List Text → List (List Text)
unfolding add_row
group_from header p current [] = if is_empty current then [] else current ∷ []
group_from header p current (row ∷ rows) =
    let next = add_row header p current row in next.0 ++ group_from header p next.1 rows

-- The rows, each cut to the room beside the header.
unfoldable pub bounded_rows : ℕ → List Text → List Text
unfolding split_fixed_width
bounded_rows capacity [] = []
bounded_rows capacity (row ∷ rows) = split_fixed_width row capacity ++ bounded_rows capacity rows

unfoldable pub group_table_rows : List Text → List Text → ChunkPolicy → List (List Text)
unfolding group_from bounded_rows
group_table_rows header rows p =
    let header_size = length (join_with (10 ∷ []) header) in
    let groups = group_from header p [] (bounded_rows (p.max_chars - header_size - 1) rows) in
    if leb p.max_chars header_size then rows ∷ [] else if is_empty groups then [] ∷ [] else groups
