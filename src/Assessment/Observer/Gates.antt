-- ===== src/Assessment/Observer/Gates.antt =====
-- When the observer (observer_policy.py) lets a plan change, and what is proposed then.
use learning_system.Prelude.{
  ℕ, zero, suc, ◌≤◌, ◌<◌, String, ◌≡◌, refl, ap, ◌∙◌, ◌≢◌, ◌↔◌, ◌⊎◌, inl, inr, true, false, Option,
  none, some, List, [], ◌∷◌, arith, eq_iff, ltb, Option-cases, is_empty,
}
use learning_system.Assessment.Observer.{
  ObserverSignalBundleV2, keep, reduce, remediate, advance, manual_review, or_default, is_graded,
  needs_remediation, decide_observer, flag, build_plan_proposal,
}

-- The evidence that any automatic change rests on.
pub record IsReliable (s : ObserverSignalBundleV2) : Type 0 where
  pub no_review : s.needs_human_review ≡ false
  pub evidence : s.has_reliable_evidence ≡ true
  pub eligible : s.automatic_adjustment_eligible ≡ true

-- A change is automatic exactly when the evidence is reliable and the decision is a real change.
pub automation_iff :
    (s : ObserverSignalBundleV2)
    → let d = decide_observer s in
      (d.automation_allowed ≡ true) ↔ (IsReliable s × (d.decision ≢ keep))
unfolding decide_observer
automation_iff s = ground arith

-- What a learner has shown who may go on, in any order and with every score known that counts.
pub record IsReady (s : ObserverSignalBundleV2) : Type 0 where
  pub graded : s.phase_status ≡ some "graded"
  pub readiness : (r : ℕ) × (s.readiness_score ≡ some r) × (8000 ≤ r)
  pub completion : (c : ℕ) × (s.completion_rate_7d ≡ some c) × (8500 ≤ c)
  pub confidence : 7500 ≤ s.mastery_confidence
  pub mastery : (m : ℕ) → s.mastery_score ≡ some m → 6000 ≤ m
  pub no_misconception : s.repeated_misconceptions ≡ []
  pub prerequisites : s.low_prerequisite_count ≡ 0
  pub sessions : 2 ≤ s.valid_sessions

advance-guards :
    (s : ObserverSignalBundleV2)
    → ((decide_observer s).decision ≡ advance) ↔ (
        IsReliable s
        × (needs_remediation s ≡ false)
        × (is_graded s ≡ true)
        × (8000 ≤ or_default s.readiness_score 0)
        × (7500 ≤ s.mastery_confidence)
        × (8500 ≤ or_default s.completion_rate_7d 0)
        × (s.low_prerequisite_count ≡ 0)
        × (2 ≤ s.valid_sessions))
unfolding decide_observer
advance-guards s = ground arith

at_least : (o : Option ℕ) (n : ℕ) → 0 < n → n ≤ or_default o 0 → (r : ℕ) × (o ≡ some r) × (n ≤ r)
at_least none n h k = absurd (omega arith)
at_least (some zero) n h k = absurd (omega arith)
at_least (some (suc r)) n h k = (suc r, refl, k)

at_least_back : (o : Option ℕ) (n r : ℕ) → o ≡ some r → n ≤ r → n ≤ or_default o 0
at_least_back o zero r e k = omega arith
at_least_back o (suc n) zero e k = absurd (omega arith)
at_least_back o (suc n) (suc r) e k = rw e k

empty_list : (l : List String) → is_empty l ≡ true → l ≡ []
empty_list [] h = refl
empty_list (x ∷ l) h = cc

is_graded-status :
    (s : ObserverSignalBundleV2) → is_graded s ≡ true → s.phase_status ≡ some "graded"
is_graded-status s h = elim (Option-cases s.phase_status) [
  | inl e ↦ absurd (cc (rw e at h))
  | inr (t, e) ↦ e ∙ ap some ((eq_iff t "graded").0 (rw e at h))
]

status-is_graded :
    (s : ObserverSignalBundleV2) → s.phase_status ≡ some "graded" → is_graded s ≡ true
status-is_graded s e = rw e refl

no_remediation :
    (s : ObserverSignalBundleV2)
    → needs_remediation s ≡ false
    → ((m : ℕ) → s.mastery_score ≡ some m → 6000 ≤ m) × (s.repeated_misconceptions ≡ [])
no_remediation s h = (λ m e. ground arith, empty_list s.repeated_misconceptions (ground arith))

remediation_needless :
    (s : ObserverSignalBundleV2)
    → IsReady s
    → 8000 ≤ or_default s.readiness_score 0
    → needs_remediation s ≡ false
remediation_needless s r enough =
    let ready_enough : ltb (or_default s.readiness_score 0) 7000 ≡ false = ground arith in
    let plain : is_empty s.repeated_misconceptions ≡ true = rw (r.no_misconception) refl in
    elim (Option-cases s.mastery_score) [
      | inl e ↦ rw e (ground arith)
      | inr (m, e) ↦ let high = r.mastery m e in rw e (ground arith)
    ]

-- The learner is advanced exactly when the evidence is reliable, the phase is graded with a known
-- readiness of at least 80 and a known completion rate of at least 0.85, the mastery confidence is at
-- least 0.75, the mastery score is unknown or at least 60, no misconception is repeated, no
-- prerequisite is low and at least two sessions are valid.
pub advance_iff :
    (s : ObserverSignalBundleV2)
    → ((decide_observer s).decision ≡ advance) ↔ (IsReliable s × IsReady s)
advance_iff s = (
  λ h.
      let (reliable, low, graded, ready, sure, done, gaps, sessions) = (advance-guards s).0 h in
      let (mastery, plain) = no_remediation s low in
      (
        reliable,
        record {
          graded = is_graded-status s graded;
          readiness = at_least s.readiness_score 8000 (omega arith) ready;
          completion = at_least s.completion_rate_7d 8500 (omega arith) done;
          confidence = sure;
          mastery = mastery;
          no_misconception = plain;
          prerequisites = gaps;
          sessions = sessions;
        },
      ),
  λ (reliable, r).
      let (ready, is_ready, high) = r.readiness in
      let (rate, is_rate, done) = r.completion in
      let enough = at_least_back s.readiness_score 8000 ready is_ready high in
      (advance-guards s).1 (
        reliable,
        remediation_needless s r enough,
        status-is_graded s r.graded,
        enough,
        r.confidence,
        at_least_back s.completion_rate_7d 8500 rate is_rate done,
        r.prerequisites,
        r.sessions,
      ),
)

-- When the mastery score is known and below 60, the decision is to remediate or to ask for a manual
-- review, whatever the other signals are.
pub weak_mastery_blocks :
    (s : ObserverSignalBundleV2) (m : ℕ)
    → s.mastery_score ≡ some m
    → m < 6000
    → ((decide_observer s).decision ≡ remediate) ⊎ ((decide_observer s).decision ≡ manual_review)
unfolding decide_observer
weak_mastery_blocks s m e h = ground arith

-- A learner who completed nothing in seven days is never given a reduced load, whatever the other
-- signals are: `completion_rate_7d or 1` reads the rate 0 as 1.
pub zero_completion_never_reduces :
    (s : ObserverSignalBundleV2)
    → s.completion_rate_7d ≡ some 0
    → (decide_observer s).decision ≢ reduce
unfolding decide_observer
zero_completion_never_reduces s e = ground arith

-- The proposal of a decision changes the plan exactly when it may be applied automatically.
pub patch_iff_automation :
    (s : ObserverSignalBundleV2)
    → let p = build_plan_proposal (decide_observer s) in
      (p.automation_allowed ≡ true) ↔ (p.plan_patch ≢ (("no_change", flag true) ∷ []))
unfolding build_plan_proposal decide_observer
patch_iff_automation s = ground arith
