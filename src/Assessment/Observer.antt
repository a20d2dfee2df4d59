-- ===== src/Assessment/Observer.antt =====
-- observer_policy.py and plan_policy.py: the decision from the learner's signals, and the plan
-- change proposed for it. Scores are in hundredths, rates and confidence in ten-thousandths; the
-- literal texts for the user are kept, and the JSON dictionaries are lists of keys and values.
pub mod Gates
mod Tests
use learning_system.Prelude.{
  ℕ, zero, suc, String, Bool, true, false, not, ◌&&◌, ◌||◌, Option, none, some, List, [], ◌∷◌,
  str_eq, ltb, leb, ◌==◌, if◌then◌else◌, is_empty,
}

-- ObserverSignalBundleV2 of contracts.py
pub record ObserverSignalBundleV2 : Type 0 where
  pub phase_status : Option String
  pub readiness_score : Option ℕ
  pub mastery_score : Option ℕ
  pub mastery_confidence : ℕ
  pub completion_rate_7d : Option ℕ
  pub recent_task_count : ℕ
  pub low_prerequisite_count : ℕ
  pub valid_sessions : ℕ
  pub repeated_misconceptions : List String
  pub needs_human_review : Bool
  pub has_reliable_evidence : Bool
  pub automatic_adjustment_eligible : Bool

pub data Decision : Type 0 where
  keep reduce remediate advance manual_review : Decision

pub record ObserverDecisionV2 : Type 0 where
  pub decision : Decision
  pub automation_allowed : Bool
  pub confidence : ℕ
  pub evidence_summary : ObserverSignalBundleV2
  pub reason_codes : List String
  pub user_facing_rationale : String

-- Python's `value or default`: a missing value and a zero both give the default.
abbrev pub or_default : Option ℕ → ℕ → ℕ
or_default none d = d
or_default (some zero) d = d
or_default (some (suc n)) d = suc n

abbrev pub is_graded : ObserverSignalBundleV2 → Bool
is_graded s = elim s.phase_status [ none ↦ false | some t ↦ str_eq t "graded" ]

abbrev pub needs_remediation : ObserverSignalBundleV2 → Bool
needs_remediation s =
    elim s.mastery_score [ none ↦ false | some m ↦ ltb m 6000 ]
    || not (is_empty s.repeated_misconceptions)
    || (is_graded s && ltb (or_default s.readiness_score 0) 7000 && leb 6500 s.mastery_confidence)

abbrev pub passes_phase_gate : ObserverSignalBundleV2 → Bool
passes_phase_gate s =
    is_graded s
    && leb 8000 (or_default s.readiness_score 0)
    && leb 7500 s.mastery_confidence
    && leb 8500 (or_default s.completion_rate_7d 0)
    && s.low_prerequisite_count == 0
    && leb 2 s.valid_sessions

-- The constructor `_decision`.
decided : Decision → Bool → ObserverSignalBundleV2 → List String → String → ObserverDecisionV2
decided decision automation s codes rationale = record {
  decision = decision;
  automation_allowed = automation;
  confidence = s.mastery_confidence;
  evidence_summary = s;
  reason_codes = codes;
  user_facing_rationale = rationale;
}

pub decide_observer : ObserverSignalBundleV2 → ObserverDecisionV2
unfolding decided
decide_observer s =
    if s.needs_human_review || not s.has_reliable_evidence || not s.automatic_adjustment_eligible
    then decided manual_review false s ("insufficient_reliable_evidence" ∷ [])
        "Reliable evidence is not sufficient for an automatic plan change."
    else if needs_remediation s
    then decided remediate true s ("mastery_gap" ∷ [])
        "Add targeted review work before progressing."
    else if passes_phase_gate s
    then decided advance true s ("phase_gate_satisfied" ∷ [])
        "Reliable assessment evidence supports advancing to the next learning step."
    else if leb 5 s.recent_task_count && ltb (or_default s.completion_rate_7d 10000) 6000
    then decided reduce true s ("sustained_low_completion" ∷ [])
        "Recent completion data supports reducing planned workload."
    else decided keep false s ("no_change_required" ∷ [])
        "The current plan remains appropriate for the available evidence."

-- A value of a plan patch; a number is in hundredths.
pub data PatchValue : Type 0 where
  flag : Bool → PatchValue
  number : ℕ → PatchValue

pub record ChangeSummary : Type 0 where
  pub decision : Decision
  pub changes : List (String × String)
  pub summary : Option String

pub record PlanProposalV2 : Type 0 where
  pub decision : Decision
  pub automation_allowed : Bool
  pub plan_patch : List (String × PatchValue)
  pub change_summary : ChangeSummary
  pub rationale : String
  pub reason_codes : List String

pub patches : Decision → List (String × PatchValue)
patches keep = ("no_change", flag true) ∷ []
patches manual_review = ("no_change", flag true) ∷ []
patches reduce = ("load_multiplier", number 80) ∷ ("defer_nonessential", flag true) ∷ []
patches remediate = ("insert_review", flag true) ∷ ("review_task_count", number 200) ∷ []
patches advance = ("unlock_next_nodes", flag true) ∷ ("increase_difficulty", number 100) ∷ []

summaries : Decision → ChangeSummary
summaries keep = record { decision = keep; changes = []; summary = some "Keep the current plan." }
summaries manual_review = record {
  decision = manual_review;
  changes = [];
  summary = some "Review the assessment evidence before changing the plan.";
}
summaries reduce = record {
  decision = reduce;
  changes = ("load", "Reduce future workload") ∷ [];
  summary = none;
}
summaries remediate = record {
  decision = remediate;
  changes = ("review", "Add targeted review work") ∷ [];
  summary = none;
}
summaries advance = record {
  decision = advance;
  changes = ("progression", "Unlock the next learning node") ∷ [];
  summary = none;
}

pub build_plan_proposal : ObserverDecisionV2 → PlanProposalV2
unfolding patches summaries
build_plan_proposal d = record {
  decision = d.decision;
  automation_allowed = d.automation_allowed;
  plan_patch = patches d.decision;
  change_summary = summaries d.decision;
  rationale = d.user_facing_rationale;
  reason_codes = d.reason_codes;
}
