-- ===== src/Memory/Gate/Approvals.antt =====
-- What the gate (gate.py) is sure to approve.
use learning_system.Prelude.{
  ℕ, ◌≤◌, String, ◌≡◌, refl, sym, ap, ◌∙◌, ◌≢◌, ◌⊎◌, inl, inr, true, false, Option, none, some,
  List, [], ◌∷◌, ◌++◌, arith, str_eq, eq_iff, ltb, if◌then◌else◌, Bool-cases, length, any, All, In,
  here, there, ok, Text,
}
use learning_system.Memory.Contracts.{
  Fields, MemoryType, MemoryPrivacySettings, MemoryCandidate, MemoryDecision, approved,
}
use learning_system.Memory.Validation.{validate_memory_command, ValidatedMemoryCommand}
use learning_system.Memory.Gate.{
  is_source_of, source_allowed, privacy_rejection_reason, meets_confidence_threshold, reject,
  decide, validate_candidate_invariants, evaluate_from, evaluate_memory_candidates,
}

-- What the user's settings allow, with the confidence that is asked for.
pub record IsPermitted (s : MemoryPrivacySettings) (c : MemoryCandidate) : Type 0 where
  pub enabled : s.enabled ≡ true
  pub from_source : source_allowed s c.origin ≡ true
  pub confident : meets_confidence_threshold c ≡ true

-- The candidate is among those approved.
abbrev pub IsApproved : MemoryCandidate → List MemoryDecision → Type 0
IsApproved c ds = (d : MemoryDecision) × In d ds × (d.candidate ≡ c) × (d.decision ≡ approved)

module _ (fold : ℕ → Text) (iso : ℕ → Text) (model : MemoryType → Fields → Option Fields)
    (encode : Fields → List ℕ) (digest : List ℕ → String) (s : MemoryPrivacySettings)
    (user goal : String) (now : ℕ) where
  -- A candidate of the user and the goal, from a source of its origin, whose command is valid.
  pub record IsProper (c : MemoryCandidate) : Type 0 where
    pub owner : c.command.user_id ≡ user
    pub of_goal : (c.command.goal_id ≡ none) ⊎ (c.command.goal_id ≡ some goal)
    pub source : is_source_of c.origin c.command.source_kind ≡ true
    pub valid :
        (v : ValidatedMemoryCommand) × (validate_memory_command fold iso model encode digest
            c.command
            (some now)
          ≡ ok v)

  IsProper-valid :
      (c : MemoryCandidate)
      → IsProper c
      → validate_candidate_invariants fold iso model encode digest c user goal now ≡ ok tt
  unfolding validate_candidate_invariants
  IsProper-valid c h =
      let (v, e) = h.valid in
      let mine = (eq_iff c.command.user_id user).1 h.owner in
      let source = h.source in
      elim h.of_goal [
        | inl g ↦ rw (mine, source, e, g) refl
        | inr g ↦ rw (mine, source, e, g, (eq_iff goal goal).1 refl) refl
      ]

  abbrev seen_after : List String → MemoryCandidate → List String
  seen_after seen c =
      if any (λ k. str_eq c.command.idempotency_key k) seen
      then seen
      else c.command.idempotency_key ∷ seen

  abbrev decision_of : List String → MemoryCandidate → MemoryDecision
  decision_of seen c =
      if any (λ k. str_eq c.command.idempotency_key k) seen
      then reject c "duplicate_idempotency_key"
      else decide s c

  round-returns :
      (c : MemoryCandidate) (rest : List MemoryCandidate) (seen : List String)
      {ds : List MemoryDecision}
      → IsProper c
      → evaluate_from fold iso model encode digest s user goal now (seen_after seen c) rest ≡ ok ds
      → evaluate_from fold iso model encode digest s user goal now seen (c ∷ rest)
        ≡ ok (decision_of seen c ∷ ds)
  unfolding evaluate_from
  round-returns c rest seen h e = rw (IsProper-valid c h, e) refl

  evaluate_from-returns :
      (candidates : List MemoryCandidate) (seen : List String)
      → All IsProper candidates
      → (ds : List MemoryDecision) × (evaluate_from fold iso model encode digest s user goal now
            seen candidates
          ≡ ok ds)
  unfolding evaluate_from
  evaluate_from-returns [] seen h = ([], refl)
  evaluate_from-returns (c ∷ rest) seen h =
      let (ds, e) = evaluate_from-returns rest (seen_after seen c) h.1 in
      (decision_of seen c ∷ ds, round-returns c rest seen h.0 e)

  decide-approves :
      (c : MemoryCandidate)
      → IsPermitted s c
      → ((decide s c).candidate ≡ c) × ((decide s c).decision ≡ approved)
  unfolding decide privacy_rejection_reason
  decide-approves c h =
      let on = h.enabled in let allowed = h.from_source in let sure = h.confident in ground arith

  still_new :
      (key : String) (b : MemoryCandidate) (seen : List String)
      → b.command.idempotency_key ≢ key
      → any (λ k. str_eq key k) seen ≡ false
      → any (λ k. str_eq key k) (seen_after seen b) ≡ false
  still_new key b seen other new =
      elim (Bool-cases (any (λ k. str_eq b.command.idempotency_key k) seen)) [
        | inl e ↦ rw e new
        | inr e ↦ elim (Bool-cases (str_eq key b.command.idempotency_key)) [
          | inl same ↦ absurd (other (sym ((eq_iff key b.command.idempotency_key).0 same)))
          | inr differs ↦ rw (e, differs) new
        ]
      ]

  approves_from :
      (before : List MemoryCandidate) (c : MemoryCandidate) (after : List MemoryCandidate)
      (seen : List String)
      → All IsProper (before ++ (c ∷ after))
      → All (λ b. b.command.idempotency_key ≢ c.command.idempotency_key) before
      → any (λ k. str_eq c.command.idempotency_key k) seen ≡ false
      → IsPermitted s c
      → (ds : List MemoryDecision) × (evaluate_from fold iso model encode digest s user goal now
            seen
            (before ++ (c ∷ after))
          ≡ ok ds)
        × IsApproved c ds
  approves_from [] c after seen h others new permitted =
      let (ds, e) = evaluate_from-returns after (seen_after seen c) h.1 in
      let mine : decision_of seen c ≡ decide s c = rw new refl in
      let (same, accepted) = decide-approves c permitted in
      (
        decision_of seen c ∷ ds,
        round-returns c after seen h.0 e,
        (
          decision_of seen c,
          here,
          ap (λ (d : MemoryDecision). d.candidate) mine ∙ same,
          ap (λ (d : MemoryDecision). d.decision) mine ∙ accepted,
        ),
      )
  approves_from (b ∷ before) c after seen h others new permitted =
      let (ds, e, (d, m, same, accepted)) =
        approves_from before c after (seen_after seen b) h.1 others.1
          (still_new c.command.idempotency_key b seen others.0 new) permitted in
      (
        decision_of seen b ∷ ds,
        round-returns b (before ++ (c ∷ after)) seen h.0 e,
        (d, there m, same, accepted),
      )

  -- At a time with a zone, for at most 32 candidates that all are the user's, of the goal or of none,
  -- from a source of their origin and with a command that validates, the gate returns its decisions and
  -- approves each candidate that the settings allow, whose confidence meets the threshold and whose
  -- idempotency key no earlier candidate has.
  pub evaluate-approves :
      (before : List MemoryCandidate) (c : MemoryCandidate) (after : List MemoryCandidate)
      → length (before ++ (c ∷ after)) ≤ 32
      → All IsProper (before ++ (c ∷ after))
      → All (λ b. b.command.idempotency_key ≢ c.command.idempotency_key) before
      → IsPermitted s c
      → (ds : List MemoryDecision) × (evaluate_memory_candidates fold iso model encode digest
            (before ++ (c ∷ after))
            s
            user
            goal
            (some now)
          ≡ ok ds)
        × IsApproved c ds
  unfolding evaluate_memory_candidates
  evaluate-approves before c after few h others permitted =
      let (ds, e, found) = approves_from before c after [] h others refl permitted in
      let room : ltb 32 (length (before ++ (c ∷ after))) ≡ false = ground arith in
      (ds, rw (room, e) refl, found)
