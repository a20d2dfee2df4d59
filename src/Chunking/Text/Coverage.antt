-- ===== src/Chunking/Text/Coverage.antt =====
-- `_split_text` (chunkers.py) ends, keeps the size limit and loses no visible character.
use learning_system.Prelude.{
  ℕ, zero, suc, ◌+◌, ◌-◌, ◌≤◌, ◌<◌, ◌≡◌, refl, sym, ap, ◌∙◌, subst, inl, inr, Bool, true, not, some,
  List, [], ◌∷◌, ◌++◌, append-nil, arith, ltb, leb, Bool-cases, length, drop, All, Text, is_empty,
  is_space, strip,
}
use mathlib.Core.List.{Sublist, sublist-append_right}
use mathlib.Core.List.Sublist
use learning_system.Prelude.Slices.{
  slice, visible, visible-strip, filter_by-append, length-strip, length-drop, take-append-drop,
  drop-drop,
}
use learning_system.Chunking.Policy.{ChunkPolicy, IsPolicy, normalize_chunk_text}
use learning_system.Chunking.Text.{window, next_start, split_from, split_text}
use learning_system.Chunking.Text.Windows.{IsWindow, window-IsWindow, next_start_bounds}

-- The parts one after the other.
abbrev pub all_parts : List Text → Text
all_parts [] = []
all_parts (x ∷ xs) = x ++ all_parts xs

-- The parts keep the limit, and hold the visible characters of the text in their order.
pub record IsSplit (p : ChunkPolicy) (t : Text) (parts : List Text) : Type 0 where
  pub bounded : All (λ part. length part ≤ p.max_chars) parts
  pub covered : Sublist (visible t) (visible (all_parts parts))

drop_all : (n : ℕ) (t : Text) → length t ≤ n → drop n t ≡ []
drop_all zero [] h = refl
drop_all zero (c ∷ t) h = absurd (omega arith)
drop_all (suc n) [] h = refl
drop_all (suc n) (c ∷ t) h = drop_all n t (omega arith)

drop-slice :
    (start end : ℕ) (t : Text) → start ≤ end → slice start end t ++ drop end t ≡ drop start t
drop-slice start end t h =
    let same : start + (end - start) ≡ end = omega arith in
    ap (λ l. slice start end t ++ l)
      (sym (drop-drop (end - start) start t ∙ ap (λ k. drop k t) same))
    ∙ take-append-drop (end - start) (drop start t)

-- A later end of the text is a part of an earlier one.
drop-sublist :
    (next end : ℕ) (t : Text) → next ≤ end → Sublist (visible (drop end t)) (visible (drop next t))
drop-sublist next end t h =
    subst (Sublist (visible (drop end t)))
      (sym (filter_by-append (λ c. not (is_space c)) (slice next end t) (drop end t))
        ∙ ap visible (drop-slice next end t h))
      (sublist-append_right _ _)

one_part : (p : ChunkPolicy) (t : Text) → length t ≤ p.max_chars → IsSplit p t (strip t ∷ [])
one_part p t h = record {
  bounded = (omega (arith, length-strip t), tt);
  covered =
      subst (Sublist (visible t)) (sym (visible-strip t) ∙ ap visible (sym (append-nil (strip t))))
        (Sublist.refl _);
}

more_parts :
    (p : ChunkPolicy) (t : Text) (start end next : ℕ) (part : Text) (parts : List Text)
    → IsWindow t start p end part
    → next ≤ end
    → IsSplit p (drop next t) parts
    → IsSplit p (drop start t) (part ∷ parts)
more_parts p t start end next part parts w h v =
    let shown : ℕ → Bool = λ c. not (is_space c) in
    let cut : visible (slice start end t) ++ visible (drop end t) ≡ visible (drop start t) =
      sym (filter_by-append shown (slice start end t) (drop end t))
      ∙ ap visible (drop-slice start end t (omega (arith, w.after))) in
    let first : Sublist (visible (slice start end t)) (visible part) =
      subst (Sublist (visible (slice start end t))) (sym w.same) (Sublist.refl _) in
    record {
      bounded = (w.short, v.bounded);
      covered =
          subst (λ l. Sublist l (visible (part ++ all_parts parts))) cut
            (subst (Sublist (visible (slice start end t) ++ visible (drop end t)))
              (sym (filter_by-append shown part (all_parts parts)))
              (Sublist.append first (Sublist.trans (drop-sublist next end t h) v.covered)));
    }

split_from-IsSplit :
    (fuel : ℕ) (t : Text) (start : ℕ) (p : ChunkPolicy)
    → IsPolicy p
    → length t - start < fuel
    → (parts : List Text) × (split_from fuel t start p ≡ some parts)
      × IsSplit p (drop start t) parts
unfolding split_from
split_from-IsSplit zero t start p v h = absurd (omega arith)
split_from-IsSplit (suc fuel) t start p v h = elim (Bool-cases (ltb start (length t))) [
  | inr past ↦
      let none_left : drop start t ≡ [] = drop_all start t (ground arith) in
      (
        [],
        rw past refl,
        subst (λ l. IsSplit p l []) (sym none_left)
            (record { bounded = tt; covered = Sublist.refl _ }),
      )
  | inl inside ↦ elim (Bool-cases (leb (length t - start) p.max_chars)) [
    | inl last ↦ (
      strip (drop start t) ∷ [],
      rw (inside, last) refl,
      one_part p (drop start t) (ground (arith, length-drop start t)),
    )
    | inr long ↦
        let cut = window t start p in
        let w = window-IsWindow t start p v (ground arith) in
        let b = next_start_bounds t start cut.0 p w.after in
        let (parts, e, s) =
          split_from-IsSplit fuel t (next_start t start cut.0 p) p v (ground (arith, b)) in
        (
          cut.1 ∷ parts,
          rw (inside, long, e) refl,
          more_parts p t start cut.0 (next_start t start cut.0 p) cut.1 parts w b.1 s,
        )
  ]
]

pub empty_nil : (t : Text) → is_empty t ≡ true → t ≡ []
empty_nil [] h = refl
empty_nil (c ∷ t) h = absurd (cc)

-- With a policy that could be constructed, splitting a text always ends with parts: each has at most
-- `max_chars` characters, and one after the other they hold every character of the normalised text
-- that is no white space, in its order.
pub split_text-IsSplit :
    (nfc : Text → Text) (content : Text) (p : ChunkPolicy)
    → IsPolicy p
    → (parts : List Text) × (split_text nfc content p ≡ some parts)
      × IsSplit p (normalize_chunk_text nfc content) parts
unfolding split_text
split_text-IsSplit nfc content p v =
    let t = normalize_chunk_text nfc content in
    elim (Bool-cases (is_empty t)) [
      | inl e ↦ (
        [],
        rw e refl,
        subst (λ l. IsSplit p l []) (sym (empty_nil t e))
            (record { bounded = tt; covered = Sublist.refl _ }),
      )
      | inr e ↦ elim (Bool-cases (leb (length t) p.max_chars)) [
        | inl short ↦ (
          t ∷ [],
          rw (e, short) refl,
          record {
            bounded = (ground arith, tt);
            covered =
                subst (λ l. Sublist (visible t) (visible l)) (sym (append-nil t)) (Sublist.refl _);
          },
        )
        | inr long ↦
            let (parts, q, s) = split_from-IsSplit (length t + 1) t 0 p v (omega arith) in
            (parts, rw (e, long) q, s)
      ]
    ]
