-- ===== src/Assessment/Observer/Tests.antt =====
-- The observer on a learner who is ready to advance, and on two who are not.
use learning_system.Prelude.{◌≡◌, refl, ◌≢◌, ◌↔◌, ◌⊎◌, true, false, some, [], ◌∷◌, arith}
use learning_system.Assessment.Observer.{
  ObserverSignalBundleV2, keep, reduce, remediate, advance, manual_review, decide_observer, flag,
  build_plan_proposal,
}
use learning_system.Assessment.Observer.Gates.{
  IsReliable, IsReady, automation_iff, advance_iff, weak_mastery_blocks,
  zero_completion_never_reduces, patch_iff_automation,
}

abbrev signals : ObserverSignalBundleV2
signals = record {
  phase_status = some "graded";
  readiness_score = some 9000;
  mastery_score = some 8000;
  mastery_confidence = 8000;
  completion_rate_7d = some 9000;
  recent_task_count = 6;
  low_prerequisite_count = 0;
  valid_sessions = 3;
  repeated_misconceptions = [];
  needs_human_review = false;
  has_reliable_evidence = true;
  automatic_adjustment_eligible = true;
}

abbrev weak : ObserverSignalBundleV2
weak = record signals { mastery_score = some 5000 }

abbrev idle : ObserverSignalBundleV2
idle = record signals { completion_rate_7d = some 0 }

automation_iff_example :
    ((decide_observer signals).automation_allowed ≡ true)
    ↔ (IsReliable signals × ((decide_observer signals).decision ≢ keep))
automation_iff_example = automation_iff signals

advance_iff_example :
    ((decide_observer signals).decision ≡ advance) ↔ (IsReliable signals × IsReady signals)
advance_iff_example = advance_iff signals

weak_mastery_blocks_example :
    ((decide_observer weak).decision ≡ remediate)
    ⊎ ((decide_observer weak).decision ≡ manual_review)
weak_mastery_blocks_example = weak_mastery_blocks weak 5000 refl (omega arith)

zero_completion_never_reduces_example : (decide_observer idle).decision ≢ reduce
zero_completion_never_reduces_example = zero_completion_never_reduces idle refl

patch_iff_automation_example :
    ((build_plan_proposal (decide_observer signals)).automation_allowed ≡ true)
    ↔ ((build_plan_proposal (decide_observer signals)).plan_patch ≢ (("no_change", flag true) ∷ []))
patch_iff_automation_example = patch_iff_automation signals
