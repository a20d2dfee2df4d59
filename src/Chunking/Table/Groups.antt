-- ===== src/Chunking/Table/Groups.antt =====
-- `_group_table_rows` of chunkers.py: the size of the groups, and that no row is lost.
use learning_system.Prelude.{
  ℕ, suc, ◌+◌, ◌-◌, ◌≤◌, ◌<◌, ◌≡◌, refl, sym, ap, ◌∙◌, subst, inl, inr, Bool, true, false, not,
  ◌&&◌, List, [], ◌∷◌, ◌++◌, append-nil, append_assoc, arith, ltb, leb, Bool-cases, length, All,
  All-append, Text, is_empty,
}
use mathlib.Core.List.{Sublist, sublist-append_right}
use mathlib.Core.List.Sublist
use learning_system.Prelude.Codes.{join_with}
use learning_system.Chunking.Policy.{ChunkPolicy}
use learning_system.Chunking.Text.Coverage.{all_parts}
use learning_system.Chunking.Table.{
  overlap_table_rows, render, add_row, group_from, bounded_rows, group_table_rows,
  split_fixed_width,
}
use learning_system.Chunking.Table.Pieces.{split_fixed_width-all_parts}
use learning_system.Chunking.Table.Sizes.{
  row_total, row_total-append, length-join_with, overlap_table_rows-le, all_rows, all_rows-append,
}

module _ (header : List Text) (p : ChunkPolicy) where
  -- A group that keeps the limit together with the header.
  abbrev Fits : List Text → Type 0
  Fits g = row_total header + row_total g ≤ suc p.max_chars

  length-render : (g : List Text) → length (render header g) ≡ row_total header + row_total g - 1
  length-render g = length-join_with (header ++ g) ∙ omega (arith, row_total-append header g)

  Fits-snoc :
      (g : List Text) (row : Text)
      → ltb p.max_chars (length (render header (g ++ (row ∷ [])))) ≡ false
      → Fits (g ++ (row ∷ []))
  Fits-snoc g row h = ground (arith, length-render (g ++ (row ∷ [])))

  abbrev is_over : List Text → Text → Bool
  is_over kept row =
      not (is_empty kept) && ltb p.max_chars (length (render header (kept ++ (row ∷ []))))

  kept-Fits :
      (kept : List Text) (row : Text)
      → is_over kept row ≡ false
      → Fits (row ∷ [])
      → Fits (kept ++ (row ∷ []))
  kept-Fits [] row e r = r
  kept-Fits (k ∷ kept) row e r = Fits-snoc (k ∷ kept) row e

  add_row-Fits :
      (current : List Text) (row : Text)
      → Fits current
      → Fits (row ∷ [])
      → All Fits (add_row header p current row).0 × Fits (add_row header p current row).1
  unfolding add_row
  add_row-Fits current row c r =
      let full =
        not (is_empty current)
        && ltb p.target_chars (length (render header (current ++ (row ∷ [])))) in
      elim (Bool-cases full) [
        | inl e ↦
            let kept = overlap_table_rows current p.overlap_chars in
            elim (Bool-cases (is_over kept row)) [
              | inl f ↦
                  rw (e, f)
                    ((c, (omega (arith, overlap_table_rows-le current p.overlap_chars), tt)), r)
              | inr f ↦ rw (e, f) ((c, tt), kept-Fits kept row f r)
            ]
        | inr e ↦ elim (Bool-cases (is_over current row)) [
          | inl f ↦ rw (e, f) ((c, tt), r)
          | inr f ↦ rw (e, f) (tt, kept-Fits current row f r)
        ]
      ]

  add_row-all_rows :
      (current : List Text) (row : Text)
      → Sublist
          (current ++ (row ∷ []))
          (all_rows (add_row header p current row).0 ++ (add_row header p current row).1)
  unfolding add_row
  add_row-all_rows current row =
      let full =
        not (is_empty current)
        && ltb p.target_chars (length (render header (current ++ (row ∷ [])))) in
      let one = row ∷ [] in
      elim (Bool-cases full) [
        | inl e ↦
            let kept = overlap_table_rows current p.overlap_chars in
            let tail = Sublist.append (Sublist.refl current) (sublist-append_right kept one) in
            elim (Bool-cases (is_over kept row)) [
              | inl f ↦
                  rw (e, f)
                    (subst (Sublist (current ++ one))
                      (sym (
                        ap (λ l. (current ++ l) ++ one) (append-nil kept)
                        ∙ append_assoc current kept one))
                      tail)
              | inr f ↦
                  rw (e, f)
                    (subst (λ l. Sublist (current ++ one) (l ++ (kept ++ one)))
                      (sym (append-nil current)) tail)
            ]
        | inr e ↦ elim (Bool-cases (is_over current row)) [
          | inl f ↦
              rw (e, f)
                (subst (λ l. Sublist (current ++ one) (l ++ one)) (sym (append-nil current))
                  (Sublist.refl _))
          | inr f ↦ rw (e, f) (Sublist.refl _)
        ]
      ]

  group_from-Fits :
      (current rows : List Text)
      → Fits current
      → All (λ row. Fits (row ∷ [])) rows
      → All Fits (group_from header p current rows)
  unfolding group_from
  group_from-Fits [] [] c r = tt
  group_from-Fits (x ∷ current) [] c r = (c, tt)
  group_from-Fits current (row ∷ rows) c r =
      let (done, next) = add_row-Fits current row c r.0 in
      All-append Fits (add_row header p current row).0 _ done
        (group_from-Fits (add_row header p current row).1 rows next r.1)

  group_from-all_rows :
      (current rows : List Text)
      → Sublist (current ++ rows) (all_rows (group_from header p current rows))
  unfolding group_from
  group_from-all_rows [] [] = Sublist.refl _
  group_from-all_rows (x ∷ current) [] = Sublist.refl _
  group_from-all_rows current (row ∷ rows) =
      let next = add_row header p current row in
      let rest = group_from header p next.1 rows in
      let joined : (all_rows next.0 ++ next.1) ++ rows ≡ all_rows next.0 ++ (next.1 ++ rows) =
        append_assoc (all_rows next.0) next.1 rows in
      let here_rows = Sublist.append (add_row-all_rows current row) (Sublist.refl rows) in
      let later =
        Sublist.append (Sublist.refl (all_rows next.0)) (group_from-all_rows next.1 rows) in
      subst (λ l. Sublist l (all_rows (next.0 ++ rest))) (append_assoc current (row ∷ []) rows)
        (Sublist.trans here_rows (
          subst (λ l. Sublist l (all_rows (next.0 ++ rest))) (sym joined)
            (subst (Sublist (all_rows next.0 ++ (next.1 ++ rows)))
              (sym (all_rows-append next.0 rest)) later)))

bounded_rows-narrow :
    (capacity : ℕ) (rows : List Text)
    → 0 < capacity
    → (all_parts (bounded_rows capacity rows) ≡ all_parts rows)
      × All (λ row. length row ≤ capacity) (bounded_rows capacity rows)
unfolding bounded_rows
bounded_rows-narrow capacity [] h = (refl, tt)
bounded_rows-narrow capacity (row ∷ rows) h =
    let (one, narrow) = split_fixed_width-all_parts row capacity h in
    let (more, rest) = bounded_rows-narrow capacity rows h in
    (
      all_parts-append (split_fixed_width row capacity) (bounded_rows capacity rows)
          ∙ ap (λ l. l ++ all_parts (bounded_rows capacity rows)) one
          ∙ ap (λ l. row ++ l) more,
      All-append (λ r. length r ≤ capacity) (split_fixed_width row capacity) _ narrow rest,
    )
  where
    all_parts-append : (xs ys : List Text) → all_parts (xs ++ ys) ≡ all_parts xs ++ all_parts ys
    all_parts-append [] ys = refl
    all_parts-append (x ∷ xs) ys =
        ap (λ l. x ++ l) (all_parts-append xs ys)
        ∙ sym (append_assoc x (all_parts xs) (all_parts ys))

All-map :
    {A : Type 0} {P Q : A → Type 0} (xs : List A) → ((a : A) → P a → Q a) → All P xs → All Q xs
All-map [] f h = tt
All-map (x ∷ xs) f h = (f x h.0, All-map xs f h.1)

no_groups :
    (groups : List (List Text)) → is_empty groups ≡ true → all_rows groups ≡ all_rows ([] ∷ [])
no_groups [] h = refl
no_groups (x ∷ groups) h = absurd (cc)

-- The pieces of the rows, each as long as the room beside the header, and the groups made of them.
pub record IsGrouping (header rows : List Text) (p : ChunkPolicy) (groups : List (List Text))
    : Type 0 where
  pub same_text :
      all_parts (bounded_rows (p.max_chars - length (join_with (10 ∷ []) header) - 1) rows)
      ≡ all_parts rows
  pub no_row_lost :
      Sublist
        (bounded_rows (p.max_chars - length (join_with (10 ∷ []) header) - 1) rows)
        (all_rows groups)
  pub bounded : All (λ g. length (render header g) ≤ p.max_chars) groups

-- When the header leaves room for at least one character of a row, every group of table rows, written
-- with the header, keeps `max_chars`; the rows cut to that room are the text of the given rows, and
-- the groups hold all of them in their order.
pub group_table_rows-IsGrouping :
    (header rows : List Text) (p : ChunkPolicy)
    → length (join_with (10 ∷ []) header) + 1 < p.max_chars
    → IsGrouping header rows p (group_table_rows header rows p)
unfolding group_table_rows
group_table_rows-IsGrouping header rows p h =
    let size = length (join_with (10 ∷ []) header) in
    let capacity = p.max_chars - size - 1 in
    let cut = bounded_rows capacity rows in
    let groups = group_from header p [] cut in
    let (same, narrow) = bounded_rows-narrow capacity rows (omega arith) in
    let lines = length-join_with header in
    let small : leb p.max_chars size ≡ false = ground arith in
    let kept = group_from-all_rows header p [] cut in
    let fits =
      group_from-Fits header p [] cut (omega (arith, lines))
        (All-map cut (λ row r. omega (arith, lines)) narrow) in
    elim (Bool-cases (is_empty groups)) [
      | inl e ↦
          rw (small, e)
            (record {
              same_text = same;
              no_row_lost = subst (Sublist cut) (no_groups groups e) kept;
              bounded = (omega (arith, lines, length-render header p []), tt);
            })
      | inr e ↦
          rw (small, e)
            (record {
              same_text = same;
              no_row_lost = kept;
              bounded = All-map groups (λ g f. omega (arith, length-render header p g)) fits;
            })
    ]
