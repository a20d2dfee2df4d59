-- ===== src/Chunking/Table/Pieces.antt =====
-- `_split_fixed_width` of chunkers.py cuts a text into pieces that make it up again.
use learning_system.Prelude.{
  ℕ, zero, suc, ◌≤◌, ◌<◌, ◌≡◌, refl, sym, ap, ◌∙◌, inl, inr, true, false, List, [], ◌∷◌, ◌++◌,
  arith, ◌==◌, Bool-cases, length, take, drop, All, Text, is_empty,
}
use learning_system.Prelude.Slices.{take-append-drop, length-take-le, length-drop}
use learning_system.Chunking.Text.Coverage.{all_parts, empty_nil}
use learning_system.Chunking.Table.{pieces, split_fixed_width}

pieces-all_parts :
    (rounds width : ℕ) (value : Text)
    → 0 < width
    → length value ≤ rounds
    → all_parts (pieces rounds width value) ≡ value
unfolding pieces
pieces-all_parts zero width [] w h = refl
pieces-all_parts zero width (c ∷ value) w h = absurd (omega arith)
pieces-all_parts (suc rounds) width value w h = elim (Bool-cases (is_empty value)) [
  | inl e ↦ rw e (sym (empty_nil value e))
  | inr e ↦ rw e (
      ap (λ l. take width value ++ l)
        (pieces-all_parts rounds width (drop width value) w
          (omega (arith, length-drop width value)))
      ∙ take-append-drop width value)
]

pieces-narrow :
    (rounds width : ℕ) (value : Text)
    → All (λ piece. length piece ≤ width) (pieces rounds width value)
unfolding pieces
pieces-narrow zero width value = tt
pieces-narrow (suc rounds) width value = elim (Bool-cases (is_empty value)) [
  | inl e ↦ rw e tt
  | inr e ↦ rw e (length-take-le width value, pieces-narrow rounds width (drop width value))
]

no_pieces : (cut : List Text) → is_empty cut ≡ true → cut ≡ []
no_pieces [] h = refl
no_pieces (x ∷ cut) h = absurd (cc)

-- The pieces of a text for a positive width are at most that long, and one after the other they are
-- the text.
pub split_fixed_width-all_parts :
    (value : Text) (width : ℕ)
    → 0 < width
    → (all_parts (split_fixed_width value width) ≡ value)
      × All (λ piece. length piece ≤ width) (split_fixed_width value width)
unfolding split_fixed_width
split_fixed_width-all_parts value width w =
    let cut = pieces (length value) width value in
    let whole = pieces-all_parts (length value) width value w (omega arith) in
    let wide : (width == 0) ≡ false = ground arith in
    elim (Bool-cases (is_empty cut)) [
      | inl e ↦
          let gone : value ≡ [] = sym whole ∙ ap all_parts (no_pieces cut e) in
          rw (wide, e) (sym gone, (omega arith, tt))
      | inr e ↦ rw (wide, e) (whole, pieces-narrow (length value) width value)
    ]
