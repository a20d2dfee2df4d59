-- ===== src/Chunking/Code/Fitting.antt =====
-- The parts of a fenced block of code, each with the fences around it.
use learning_system.Prelude.{
  ℕ, ◌+◌, ◌-◌, ◌≤◌, ◌<◌, ◌≡◌, refl, some, List, [], ◌∷◌, ◌++◌, map, arith, length, length-append,
  All, ok, Text,
}
use learning_system.Chunking.Policy.{ChunkPolicy, check_policy, IsPolicy, check_policy-IsPolicy}
use learning_system.Chunking.Text.{split_text}
use learning_system.Chunking.Text.Coverage.{split_text-IsSplit}
use learning_system.Chunking.Code.{wrapper_chars, inner_policy, wrap, code_parts}

inner_policy-IsPolicy :
    (p : ChunkPolicy) (wrapper : ℕ)
    → IsPolicy p
    → p.overlap_chars < p.min_chars
    → wrapper + p.min_chars ≤ p.max_chars
    → IsPolicy (inner_policy p wrapper)
unfolding inner_policy
inner_policy-IsPolicy p wrapper v small room = record {
  positive = v.positive;
  target = omega arith;
  greatest = ground (arith, v.greatest);
  overlap = omega arith;
}

length-wrap :
    (opener closer part : Text)
    → length (wrap opener closer part) ≡ wrapper_chars opener closer + length part
length-wrap opener closer part =
    ground
      (arith, length-append opener (10 ∷ part ++ (10 ∷ closer)), length-append part (10 ∷ closer))

wrapped-fit :
    (p : ChunkPolicy) (opener closer : Text) (parts : List Text)
    → wrapper_chars opener closer ≤ p.max_chars
    → All (λ part. length part ≤ p.max_chars - wrapper_chars opener closer) parts
    → All (λ t. length t ≤ p.max_chars) (map (wrap opener closer) parts)
wrapped-fit p opener closer [] room h = tt
wrapped-fit p opener closer (part ∷ parts) room h = (
  ground (arith, length-wrap opener closer part, h.0),
  wrapped-fit p opener closer parts room h.1,
)

code_parts-ok :
    (nfc : Text → Text) (p : ChunkPolicy) (opener closer body : Text) {parts : List Text}
    → check_policy (inner_policy p (wrapper_chars opener closer)) ≡ ok tt
    → split_text nfc body (inner_policy p (wrapper_chars opener closer)) ≡ some parts
    → code_parts nfc p opener closer body ≡ some (ok (map (wrap opener closer) parts))
unfolding code_parts
code_parts-ok nfc p opener closer body c e = rw (c, code_parts, e) refl

-- With a policy that could be constructed, whose overlap is below its least size, and fences that
-- leave room for that size, splitting the body of a fenced block ends with texts, and each of them,
-- its two fences included, has at most `max_chars` characters.
pub code_parts-fit :
    (nfc : Text → Text) (p : ChunkPolicy) (opener closer body : Text)
    → IsPolicy p
    → p.overlap_chars < p.min_chars
    → wrapper_chars opener closer + p.min_chars ≤ p.max_chars
    → (texts : List Text) × (code_parts nfc p opener closer body ≡ some (ok texts))
      × All (λ t. length t ≤ p.max_chars) texts
unfolding inner_policy
code_parts-fit nfc p opener closer body v small room =
    let wrapper = wrapper_chars opener closer in
    let w = inner_policy-IsPolicy p wrapper v small room in
    let (parts, e, s) = split_text-IsSplit nfc body (inner_policy p wrapper) w in
    (
      map (wrap opener closer) parts,
      code_parts-ok nfc p opener closer body ((check_policy-IsPolicy (inner_policy p wrapper)).1 w)
          e,
      wrapped-fit p opener closer parts (omega arith) s.bounded,
    )
