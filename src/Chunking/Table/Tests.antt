-- ===== src/Chunking/Table/Tests.antt =====
-- Witnesses for tables.
use learning_system.Prelude.{◌+◌, ◌≤◌, ◌<◌, ◌≡◌, List, [], ◌∷◌, arith, length, All, Text}
use learning_system.Chunking.Policy.{ChunkPolicy}
use learning_system.Chunking.Text.Coverage.{all_parts}
use learning_system.Prelude.Codes.{join_with}
use learning_system.Chunking.Table.{split_fixed_width, group_table_rows}
use learning_system.Chunking.Table.Pieces.{split_fixed_width-all_parts}
use learning_system.Chunking.Table.Groups.{IsGrouping, group_table_rows-IsGrouping}

-- "|a|b|", "|---|---|", and rows, one of which is longer than the room for it.
abbrev header : List Text
header =
    (124 ∷ 97 ∷ 124 ∷ 98 ∷ 124 ∷ []) ∷ (124 ∷ 45 ∷ 45 ∷ 45 ∷ 124 ∷ 45 ∷ 45 ∷ 45 ∷ 124 ∷ []) ∷ []

abbrev rows : List Text
rows =
    (124 ∷ 49 ∷ 124 ∷ 50 ∷ 124 ∷ [])
    ∷ (124 ∷ 51 ∷ 52 ∷ 53 ∷ 124 ∷ 54 ∷ 124 ∷ [])
    ∷ (124 ∷ 55 ∷ [])
    ∷ []

abbrev narrow : ChunkPolicy
narrow = record { target_chars = 18; max_chars = 20; overlap_chars = 5; min_chars = 4 }

split_fixed_width-all_parts_example :
    (all_parts (split_fixed_width (1 ∷ 2 ∷ 3 ∷ 4 ∷ 5 ∷ []) 2) ≡ 1 ∷ 2 ∷ 3 ∷ 4 ∷ 5 ∷ [])
    × All (λ piece. length piece ≤ 2) (split_fixed_width (1 ∷ 2 ∷ 3 ∷ 4 ∷ 5 ∷ []) 2)
split_fixed_width-all_parts_example =
    split_fixed_width-all_parts (1 ∷ 2 ∷ 3 ∷ 4 ∷ 5 ∷ []) 2 (omega arith)

header_fits : length (join_with (10 ∷ []) header) + 1 < narrow.max_chars
unfolding join_with
header_fits = omega arith

group_table_rows-IsGrouping_example :
    IsGrouping header rows narrow (group_table_rows header rows narrow)
group_table_rows-IsGrouping_example = group_table_rows-IsGrouping header rows narrow header_fits
