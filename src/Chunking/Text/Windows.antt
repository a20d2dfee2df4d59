-- ===== src/Chunking/Text/Windows.antt =====
-- Where the slices of `_split_text` (chunkers.py) begin and end.
use learning_system.Prelude.{
  ℕ, zero, suc, ◌+◌, ◌-◌, ◌≤◌, ◌<◌, min, ◌≡◌, refl, inl, inr, some, arith, Bool-cases, Option-cases,
  length, drop, Text, is_empty, strip,
}
use learning_system.Prelude.Slices.{
  slice, visible, visible-strip, length-strip, length-rstrip, length-take-le,
}
use learning_system.Chunking.Policy.{ChunkPolicy, IsPolicy}
use learning_system.Chunking.Text.{
  last_boundary, first_boundary, choose_boundary, extend, hard_end, window, next_start,
}

last_boundary_bounds :
    (t : Text) (rounds position : ℕ) {q : ℕ}
    → last_boundary t rounds position ≡ some q
    → (q ≤ position) × (position < q + rounds)
unfolding last_boundary
last_boundary_bounds t zero position h = absurd (cc)
last_boundary_bounds t (suc rounds) position {q} h =
    ground (arith, last_boundary_bounds t rounds (position - 1) {q = q})

first_boundary_bounds :
    (t : Text) (rounds position : ℕ) {q : ℕ}
    → first_boundary t rounds position ≡ some q
    → (position ≤ q) × (q < position + rounds)
unfolding first_boundary
first_boundary_bounds t zero position h = absurd (cc)
first_boundary_bounds t (suc rounds) position {q} h =
    ground (arith, first_boundary_bounds t rounds (position + 1) {q = q})

choose_boundary_bounds :
    (t : Text) (start target_end hard : ℕ) (p : ChunkPolicy)
    → 0 < p.min_chars
    → start < target_end
    → target_end ≤ hard
    → (start < choose_boundary t start target_end hard p)
      × (choose_boundary t start target_end hard p ≤ hard)
unfolding choose_boundary
choose_boundary_bounds t start target_end hard p positive before within =
    let earliest = min target_end (start + p.min_chars) in
    elim (Option-cases (last_boundary t (target_end + 1 - earliest) target_end)) [
      | inr (q, e) ↦
          let b = last_boundary_bounds t (target_end + 1 - earliest) target_end e in
          rw (e, choose_boundary) (omega (arith, b), omega (arith, b))
      | inl e ↦ elim (Option-cases (first_boundary t (hard - target_end) (target_end + 1))) [
        | inr (q, f) ↦
            let b = first_boundary_bounds t (hard - target_end) (target_end + 1) f in
            rw (e, choose_boundary, f) (omega (arith, b), omega (arith, b))
        | inl f ↦ rw (e, choose_boundary, f) (omega arith, omega arith)
      ]
    ]

extend_bounds :
    (t : Text) (overlap start rounds end : ℕ)
    → (end ≤ extend t overlap start rounds end) × (extend t overlap start rounds end ≤ end + rounds)
unfolding extend
extend_bounds t overlap start zero end = omega arith
extend_bounds t overlap start (suc rounds) end =
    ground (arith, extend_bounds t overlap start rounds (end + 1))

-- A slice that the loop cuts off, when more than `max_chars` characters are left.
pub record IsWindow (t : Text) (start : ℕ) (p : ChunkPolicy) (end : ℕ) (part : Text) : Type 0 where
  pub after : start < end
  pub near : end ≤ start + p.max_chars
  pub short : length part ≤ p.max_chars
  pub same : visible part ≡ visible (slice start end t)

pub window-IsWindow :
    (t : Text) (start : ℕ) (p : ChunkPolicy)
    → IsPolicy p
    → p.max_chars < length t - start
    → let cut = window t start p in IsWindow t start p cut.0 cut.1
unfolding window
window-IsWindow t start p v long =
    let hard = hard_end t start p in
    let target_end = min (start + p.target_chars) hard in
    let chosen = choose_boundary t start target_end hard p in
    let end = extend t p.overlap_chars start (hard - chosen) chosen in
    let room : (start < target_end) × (target_end ≤ hard) × (hard ≤ start + p.max_chars) =
      omega (arith, v.positive, v.target, v.greatest, v.overlap) in
    let (c, d) =
      choose_boundary_bounds t start target_end hard p v.positive (omega (arith, room))
        (omega (arith, room)) in
    let (e, f) = extend_bounds t p.overlap_chars start (hard - chosen) chosen in
    let a = length-take-le (target_end - start) (drop start t) in
    let b = length-take-le (end - start) (drop start t) in
    elim (Bool-cases (is_empty (strip (slice start end t)))) [
      | inl blank ↦ rw blank (record {
        after = omega (arith, room);
        near = omega (arith, room);
        short = omega (arith, room, a);
        same = refl;
      })
      | inr kept ↦ rw kept (record {
        after = omega (arith, c, e);
        near = omega (arith, room, d, f);
        short = omega (arith, room, d, f, b, length-strip (slice start end t));
        same = visible-strip (slice start end t);
      })
    ]

pub next_start_bounds :
    (t : Text) (start end : ℕ) (p : ChunkPolicy)
    → start < end
    → (start < next_start t start end p) × (next_start t start end p ≤ end)
unfolding next_start
next_start_bounds t start end p h =
    omega (arith, length-rstrip (slice start end t), length-take-le (end - start) (drop start t))
