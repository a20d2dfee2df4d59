-- ===== src/History/Tests.antt =====
-- One history in full: a thread, a run, a tool call that is asked for, approved and made.
use learning_system.Prelude.{
  ◌≤◌, String, ◌≡◌, refl, ◌⊎◌, inl, true, false, none, List, [], ◌∷◌, All, In, Result, ok, err,
  Text, find_where, update_where, count_where, pos, Json,
}
use learning_system.Prelude.Jsons.{no_fields, object, null}
use learning_system.Session.{
  AgentRun, cancelled, LearningGoal, UserMcpServer, Session, active, active_in, is_active,
  ServiceError,
}
use learning_system.Session.Once.{calls}
use learning_system.Session.Final.{is_closed}
use learning_system.Conversation.Threads
use learning_system.Conversation.Runs
use learning_system.Conversation.Cancellation.{cancel_beats_the_end}
use learning_system.Conversation.Runs.{RunRequest}
use learning_system.Approval
use learning_system.Approval.{Choice, Call, returned}
use learning_system.Approval.Resolve
use learning_system.History.{
  empty, History, start_here, then_step, create, start, require_approval, begin_decision, resolve,
}
use learning_system.History.Claims.{
  may_have_run, one_active_run, called_at_most_once, closed_rows_stay, recovered_never_called_again,
}

abbrev digest : String → String → String → Json → String
digest run server tool arguments = tool

abbrev no_secrets : String → List Text
no_secrets server = []

abbrev session_of {ℓ} : {A : Type ℓ} → Session → Result ServiceError (Session × A) → Session
session_of d (ok r) = r.0
session_of d (err e) = d

abbrev goals : List LearningGoal
goals = record { id = "g"; user_id = "u" } ∷ []

abbrev servers : List UserMcpServer
servers = record { id = "m"; user_id = "u"; name = "files" } ∷ []

abbrev blank : Session
blank = empty goals servers

abbrev with_thread : Session
with_thread = session_of blank (Threads.create blank "u" "g" none "t" 1)

abbrev request : RunRequest
request = record {
  run_id = "r";
  correlation_id = "c";
  request_hash = "h";
  graph_name = "tutor";
  graph_version = "1";
  trigger_type = "chat";
  input_snapshot = "{}";
}

abbrev with_run : Session
with_run = session_of blank (Runs.start with_thread "u" "g" "t" request 2)

abbrev asked : Session
asked = session_of blank (
    Approval.require_approval digest no_secrets "u" with_run "r" "t" "m" "write" (object no_fields)
      "a")

abbrev approved : Session
approved =
    session_of blank (Approval.begin_decision digest no_secrets "u" asked "r" "a" Choice.approve 3)

abbrev called : Session
called =
    (Resolve.resolve_after_interrupt digest no_secrets "u" approved "r" "t" "m" "write"
      (object no_fields) Choice.approve (returned null false) 4).0

-- The identifiers behind the calls that the outside has seen.
one_call : called.invoked ≡ "a" ∷ []
unfolding empty Threads.create Runs.start Threads.get Threads.require Approval.require_approval
    Approval.begin_decision Resolve.resolve_after_interrupt find_where update_where count_where
one_call = refl

told : History digest no_secrets blank called
unfolding empty Threads.create Runs.start Threads.get Threads.require Approval.require_approval
    Approval.begin_decision Resolve.resolve_after_interrupt find_where update_where count_where
told =
    then_step
      (then_step
        (then_step
          (then_step (then_step start_here (create "u" "g" none "t" 1 _ refl))
            (start "u" "g" "t" request 2 _ refl))
          (require_approval "u" "r" "t" "m" "write" (object no_fields) "a" _ refl))
        (begin_decision "u" "r" "a" Choice.approve 3 _ refl))
      (resolve "u" "r" "t" "m" "write" (object no_fields) Choice.approve (returned null false) 4
        (λ e. cc) refl)

abbrev row_of {ℓ} : {A : Type ℓ} → A → Result ServiceError (Session × A) → A
row_of a (ok r) = r.1
row_of a (err e) = a

abbrev no_row : AgentRun
no_row = Runs.new_run "u" "g" "t" request 2

abbrev cancelling : Result ServiceError (Session × AgentRun)
cancelling = Runs.request_cancel with_run "u" "g" "t" "r" 6

abbrev ended : Result ServiceError (Session × AgentRun)
ended = Runs.complete (session_of blank cancelling) "u" "g" "t" "r" 7 none "{}" "[]" (pos 10)

cancel_beats_the_end_example : (row_of no_row ended).status ≡ cancelled
unfolding empty Threads.create Runs.start Threads.get Threads.require Runs.new_run
    Runs.request_cancel Runs.complete Runs.finished find_where update_where count_where
cancel_beats_the_end_example =
    cancel_beats_the_end with_run "u" "g" "t" "r" 6 7 none "{}" "[]" "" (pos 10)
      (session_of blank cancelling) (session_of blank ended) (row_of no_row cancelling)
      (row_of no_row ended) refl refl (inl refl)

one_active_run_example :
    ((thread : String) → count_where (active_in thread) called.runs ≤ 1)
    × All (λ t. (t.status ≡ active) ⊎ (count_where (active_in t.id) called.runs ≡ 0)) called.threads
one_active_run_example = one_active_run digest no_secrets goals servers called told

called_at_most_once_example :
    ((approval : String) → calls approval called.invoked ≤ 1)
    × All (λ a. (may_have_run a.status ≡ true) ⊎ (calls a.id called.invoked ≡ 0)) called.approvals
called_at_most_once_example = called_at_most_once digest no_secrets goals servers called told

closed_rows_stay_example :
    All (λ a. (is_closed a.status ≡ false) ⊎ In a called.approvals) called.approvals
    × All (λ r. (is_active r.status ≡ true) ⊎ In r called.runs) called.runs
closed_rows_stay_example =
    closed_rows_stay digest no_secrets goals servers called told called start_here

recovered_never_called_again_example :
    let t = (Approval.recover_stranded_tool_approvals approved 5).0 in
    (Resolve.resolve_after_interrupt digest no_secrets "u" t "r" "t" "m" "write"
      (object no_fields)
      Choice.approve
      (returned null false)
      6).0
    ≡ t
recovered_never_called_again_example =
    recovered_never_called_again digest no_secrets approved 5 "u" "r" "t" "m" "write"
      (object no_fields) Choice.approve (returned null false) 6
