-- ===== src/Chunking/Table/Sizes.antt =====
-- The size of rows of a table, and of the rows that overlap (chunkers.py).
use learning_system.Prelude.{
  ℕ, suc, ◌+◌, ◌-◌, ◌≤◌, ◌≡◌, refl, sym, ap, ◌∙◌, inl, inr, List, [], ◌∷◌, ◌++◌, append_assoc,
  arith, ltb, ◌==◌, if◌then◌else◌, Bool-cases, length, length-append, Text, is_empty,
}
use mathlib.Core.List.{reverse_aux, reverse}
use learning_system.Prelude.Codes.{join_with}
use learning_system.Chunking.Table.{overlap_from, overlap_table_rows}

-- The lengths of the rows, each with its line feed.
abbrev pub row_total : List Text → ℕ
row_total [] = 0
row_total (r ∷ rs) = suc (length r) + row_total rs

pub row_total-append : (xs ys : List Text) → row_total (xs ++ ys) ≡ row_total xs + row_total ys
row_total-append [] ys = omega arith
row_total-append (x ∷ xs) ys = omega (arith, row_total-append xs ys)

pub row_total-reverse_aux :
    (xs ys : List Text) → row_total (reverse_aux xs ys) ≡ row_total xs + row_total ys
row_total-reverse_aux [] ys = omega arith
row_total-reverse_aux (x ∷ xs) ys = omega (arith, row_total-reverse_aux xs (x ∷ ys))

pub length-join_with : (rows : List Text) → length (join_with (10 ∷ []) rows) ≡ row_total rows - 1
unfolding join_with
length-join_with [] = refl
length-join_with (w ∷ []) = omega arith
length-join_with (w ∷ v ∷ ws) =
    omega (
      arith,
      length-append w ((10 ∷ []) ++ join_with (10 ∷ []) (v ∷ ws)),
      length-join_with (v ∷ ws),
    )

overlap_from-le :
    (overlap size : ℕ) (selected rest : List Text)
    → row_total (overlap_from overlap size selected rest) ≤ row_total selected + row_total rest
unfolding overlap_from
overlap_from-le overlap size selected [] = omega arith
overlap_from-le overlap size selected (row ∷ rest) =
    let grown = size + (length row + (if is_empty selected then 0 else 1)) in
    elim (Bool-cases (ltb overlap grown)) [
      | inl e ↦ rw e (omega arith)
      | inr e ↦ rw e (omega (arith, overlap_from-le overlap grown (row ∷ selected) rest))
    ]

pub overlap_table_rows-le :
    (rows : List Text) (overlap : ℕ) → row_total (overlap_table_rows rows overlap) ≤ row_total rows
unfolding overlap_table_rows
overlap_table_rows-le rows overlap = elim (Bool-cases (overlap == 0)) [
  | inl e ↦ rw e (omega arith)
  | inr e ↦
      rw e
        (omega (arith, overlap_from-le overlap 0 [] (reverse rows), row_total-reverse_aux rows []))
]

-- All rows of the groups, in order.
abbrev pub all_rows : List (List Text) → List Text
all_rows [] = []
all_rows (g ∷ gs) = g ++ all_rows gs

pub all_rows-append : (gs hs : List (List Text)) → all_rows (gs ++ hs) ≡ all_rows gs ++ all_rows hs
all_rows-append [] hs = refl
all_rows-append (g ∷ gs) hs =
    ap (λ l. g ++ l) (all_rows-append gs hs) ∙ sym (append_assoc g (all_rows gs) (all_rows hs))
