-- ===== src/Memory/Gate/Policy.antt =====
-- What the gate (gate.py) approves.
use learning_system.Prelude.{
  ℕ, ◌+◌, ◌≤◌, String, ◌≡◌, refl, sym, ap, ◌∙◌, subst, ◌⊎◌, inl, inr, Bool, true, false, ◌&&◌,
  Option, List, [], ◌∷◌, map, arith, str_eq, eq_iff, ltb, if◌then◌else◌, Bool-cases, Option-cases,
  length, any, All, ok, refuse, >>=-eq-ok, Text, ok-injective, count_where,
}
use learning_system.Memory.Contracts.{
  memory_gate_limit, Fields, MemoryType, MemoryPrivacySettings, MemoryCandidate, MemoryDecision,
  approved, rejected,
}
use learning_system.Memory.Gate.{
  evaluate_memory_candidates, is_source_of, source_allowed, privacy_rejection_reason,
  meets_confidence_threshold, reject, decide, validate_candidate_invariants, evaluate_from,
}

abbrev pub is_approved : MemoryDecision → Bool
is_approved d = elim d.decision [ approved ↦ true | rejected ↦ false ]

-- An approval under a key.
abbrev pub approves : String → MemoryDecision → Bool
approves key d = is_approved d && str_eq d.candidate.command.idempotency_key key

-- What the user's settings and the evidence allow.
abbrev pub IsAllowed : MemoryPrivacySettings → String → MemoryCandidate → Type 0
IsAllowed s user c =
    (s.enabled ≡ true)
    × (source_allowed s c.origin ≡ true)
    × (meets_confidence_threshold c ≡ true)
    × (is_source_of c.origin c.command.source_kind ≡ true)
    × (c.command.user_id ≡ user)

decide-parts :
    (s : MemoryPrivacySettings) (c : MemoryCandidate)
    → ((decide s c).candidate ≡ c)
      × (((decide s c).decision ≡ rejected)
          ⊎ ((s.enabled ≡ true)
              × (source_allowed s c.origin ≡ true)
              × (meets_confidence_threshold c ≡ true)))
unfolding decide privacy_rejection_reason reject
decide-parts s c = ground arith

-- The decision of one round, for a key that is known or new.
abbrev decision_of : MemoryPrivacySettings → MemoryCandidate → Bool → MemoryDecision
decision_of s c known = if known then reject c "duplicate_idempotency_key" else decide s c

decision_of-parts :
    (s : MemoryPrivacySettings) (c : MemoryCandidate) (known : Bool)
    → ((decision_of s c known).candidate ≡ c)
      × (((decision_of s c known).decision ≡ rejected)
          ⊎ ((known ≡ false)
              × (s.enabled ≡ true)
              × (source_allowed s c.origin ≡ true)
              × (meets_confidence_threshold c ≡ true)))
unfolding reject
decision_of-parts s c true = (refl, inl refl)
decision_of-parts s c false =
    let (same, why) = decide-parts s c in
    (same, elim why [ inl r ↦ inl r | inr (x, y, z) ↦ inr (refl, x, y, z) ])

decision_of-key :
    (s : MemoryPrivacySettings) (c : MemoryCandidate) (known : Bool)
    → ((decision_of s c known).candidate ≡ c)
      × ((known ≡ true) → is_approved (decision_of s c known) ≡ false)
unfolding reject
decision_of-key s c true = (refl, λ e. refl)
decision_of-key s c false = ((decide-parts s c).0, λ e. cc)

-- An approval in a round uses a key that was new.
count_round :
    (key : String) (d : MemoryDecision) (es : List MemoryDecision) (seen : List String)
    (c : MemoryCandidate)
    → let known = any (λ k. str_eq c.command.idempotency_key k) seen in
      ((d.candidate ≡ c) × ((known ≡ true) → is_approved d ≡ false))
      → count_where (approves key) es
          + (if any (λ k. str_eq key k) (if known then seen else c.command.idempotency_key ∷ seen)
              then 1
              else 0)
        ≤ 1
      → count_where (approves key) (d ∷ es) + (if any (λ k. str_eq key k) seen then 1 else 0) ≤ 1
unfolding count_where
count_round key d es seen c (of_c, dup) few = elim (Bool-cases (approves key d)) [
  | inl hit ↦
      let at_d : str_eq d.candidate.command.idempotency_key key ≡ true = ground arith in
      let same : c.command.idempotency_key ≡ key =
        subst (λ (x : MemoryCandidate). x.command.idempotency_key ≡ key) of_c
          ((eq_iff d.candidate.command.idempotency_key key).0 at_d) in
      let seen_before = ap (λ x. any (λ k. str_eq x k) seen) same in
      let is_new : any (λ k. str_eq c.command.idempotency_key k) seen ≡ false =
        ground (arith, dup) in
      let now_seen = (eq_iff key c.command.idempotency_key).1 (sym same) in
      let absent : any (λ k. str_eq key k) seen ≡ false = sym seen_before ∙ is_new in
      rw (hit, absent) (ground (arith, (rw is_new at few)))
  | inr miss ↦ elim (Bool-cases (any (λ k. str_eq c.command.idempotency_key k) seen)) [
    | inl e ↦ rw miss (ground (arith, (rw e at few)))
    | inr e ↦ rw miss (ground (arith, (rw e at few)))
  ]
]

module _ (fold : ℕ → Text) (iso : ℕ → Text) (model : MemoryType → Fields → Option Fields)
    (encode : Fields → List ℕ) (digest : List ℕ → String) (s : MemoryPrivacySettings)
    (user goal : String) where
  -- One round of the loop that did not raise.
  round :
      (now : ℕ) (seen : List String) (c : MemoryCandidate) (rest : List MemoryCandidate)
      {ds : List MemoryDecision}
      → let known = any (λ k. str_eq c.command.idempotency_key k) seen in
        evaluate_from fold iso model encode digest s user goal now seen (c ∷ rest) ≡ ok ds
        → (es : List MemoryDecision) × (validate_candidate_invariants fold iso model encode digest c
              user goal now
            ≡ ok tt)
          × (evaluate_from fold iso model encode digest s user goal now
                (if known then seen else c.command.idempotency_key ∷ seen)
                rest
              ≡ ok es)
          × ((if known then reject c "duplicate_idempotency_key" else decide s c) ∷ es ≡ ds)
  unfolding evaluate_from
  round now seen c rest h =
      let (u, valid, p) =
        >>=-eq-ok (validate_candidate_invariants fold iso model encode digest c user goal now) _
          h in
      let (es, later, q) =
        >>=-eq-ok (evaluate_from fold iso model encode digest s user goal now _ rest) _ p in
      (es, valid, later, ok-injective q)

  owned :
      (now : ℕ) (c : MemoryCandidate)
      → validate_candidate_invariants fold iso model encode digest c user goal now ≡ ok tt
      → (is_source_of c.origin c.command.source_kind ≡ true) × (c.command.user_id ≡ user)
  unfolding validate_candidate_invariants
  owned now c h = ground (arith, eq_iff c.command.user_id user)

  decided_by_policy :
      (now : ℕ) (seen : List String) (candidates : List MemoryCandidate) {ds : List MemoryDecision}
      → evaluate_from fold iso model encode digest s user goal now seen candidates ≡ ok ds
      → (map (λ (d : MemoryDecision). d.candidate) ds ≡ candidates)
        × All (λ d. (d.decision ≡ rejected) ⊎ IsAllowed s user d.candidate) ds
  unfolding evaluate_from reject
  decided_by_policy now seen [] {ds} h =
      subst
        (λ ds.
          (map (λ (d : MemoryDecision). d.candidate) ds ≡ [])
          × All (λ d. (d.decision ≡ rejected) ⊎ IsAllowed s user d.candidate) ds)
        (ok-injective h) (refl, tt)
  decided_by_policy now seen (c ∷ rest) {ds} h =
      let (es, valid, later, same) = round now seen c rest h in
      let (a, b) =
        decided_by_policy now
          (if any (λ k. str_eq c.command.idempotency_key k) seen
            then seen
            else c.command.idempotency_key ∷ seen)
          rest later in
      let (source, owner) = owned now c valid in
      let known = any (λ k. str_eq c.command.idempotency_key k) seen in
      let (of_c, why) = decision_of-parts s c known in
      subst
        (λ ds.
          (map (λ (d : MemoryDecision). d.candidate) ds ≡ c ∷ rest)
          × All (λ d. (d.decision ≡ rejected) ⊎ IsAllowed s user d.candidate) ds)
        same
        (
          ap (λ x. x ∷ map (λ (d : MemoryDecision). d.candidate) es) of_c ∙ ap (λ l. c ∷ l) a,
          (
            elim why [
              | inl r ↦ inl r
              | inr (_, x, y, z) ↦
                  inr (subst (IsAllowed s user) (sym of_c) (x, y, z, source, owner))
            ],
            b,
          ),
        )

  once_per_key :
      (now : ℕ) (key : String) (seen : List String) (candidates : List MemoryCandidate)
      {ds : List MemoryDecision}
      → evaluate_from fold iso model encode digest s user goal now seen candidates ≡ ok ds
      → count_where (approves key) ds + (if any (λ k. str_eq key k) seen then 1 else 0) ≤ 1
  unfolding evaluate_from reject count_where
  once_per_key now key seen [] {ds} h =
      subst
        (λ ds. count_where (approves key) ds + (if any (λ k. str_eq key k) seen then 1 else 0) ≤ 1)
        (ok-injective h) (ground arith)
  once_per_key now key seen (c ∷ rest) {ds} h =
      let (es, valid, later, same) = round now seen c rest h in
      let few =
        once_per_key now key
          (if any (λ k. str_eq c.command.idempotency_key k) seen
            then seen
            else c.command.idempotency_key ∷ seen)
          rest later in
      let known = any (λ k. str_eq c.command.idempotency_key k) seen in
      subst
        (λ ds. count_where (approves key) ds + (if any (λ k. str_eq key k) seen then 1 else 0) ≤ 1)
        same (count_round key (decision_of s c known) es seen c (decision_of-key s c known) few)

  evaluated :
      (candidates : List MemoryCandidate) (now : Option ℕ) {ds : List MemoryDecision}
      → evaluate_memory_candidates fold iso model encode digest candidates s user goal now ≡ ok ds
      → (t : ℕ) × (evaluate_from fold iso model encode digest s user goal t [] candidates ≡ ok ds)
  unfolding evaluate_memory_candidates
  evaluated candidates now h =
      let (u, _, p) = >>=-eq-ok (refuse (ltb 32 (length candidates)) memory_gate_limit) _ h in
      elim (Option-cases now) [ inl e ↦ absurd (cc (rw e at p)) | inr (t, e) ↦ (t, rw e at p) ]

  -- When the gate does not raise, it decides on every candidate in its order, and rejects each one
  -- unless memories are enabled, the settings allow its origin, its confidence meets the
  -- threshold, its source belongs to its origin and it is the expected user's.
  pub evaluate-IsAllowed :
      (candidates : List MemoryCandidate) (now : Option ℕ) (ds : List MemoryDecision)
      → evaluate_memory_candidates fold iso model encode digest candidates s user goal now ≡ ok ds
      → (map (λ (d : MemoryDecision). d.candidate) ds ≡ candidates)
        × All (λ d. (d.decision ≡ rejected) ⊎ IsAllowed s user d.candidate) ds
  evaluate-IsAllowed candidates now ds h =
      let (t, e) = evaluated candidates now h in decided_by_policy t [] candidates e

  -- When the gate does not raise, it approves at most one candidate under an idempotency key.
  pub one_approval_per_key :
      (candidates : List MemoryCandidate) (now : Option ℕ) (ds : List MemoryDecision) (key : String)
      → evaluate_memory_candidates fold iso model encode digest candidates s user goal now ≡ ok ds
      → count_where (approves key) ds ≤ 1
  one_approval_per_key candidates now ds key h =
      let (t, e) = evaluated candidates now h in omega (arith, once_per_key t key [] candidates e)
