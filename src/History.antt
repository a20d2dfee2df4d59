-- ===== src/History.antt =====
-- Histories of the conversation and approval services over one database: every method of
-- conversation_repository.py and tool_approval_service.py that writes, in any order, by any user.
pub mod Claims
mod Tests
use learning_system.Prelude.{
  ℕ, ◌-◌, String, ◌≡◌, refl, sym, subst, ◌≢◌, Option, List, [], arith, ok, Text, count_where, ℤ,
  Json,
}
use learning_system.Session.{
  Session, ConversationThread, AgentRun, UserToolApproval, LearningGoal, UserMcpServer,
}
use learning_system.Session.Writes.{Writes, done, Writes-trans, Writes-keep}
use learning_system.Session.Once.{IsOnce, Write-IsOnce}
use learning_system.Session.Consistency.{IsConsistent, Write-IsConsistent}
use learning_system.Conversation.Threads
use learning_system.Conversation.Runs
use learning_system.Conversation.Runs.{RunRequest}
use learning_system.Conversation.Operations
use learning_system.Approval
use learning_system.Approval.{Choice, Call, broken, ToolApprovalDecision}
use learning_system.Approval.Resolve
use learning_system.Approval.Operations as ApprovalOperations
use learning_system.Approval.Recovery

-- The goals and servers of the users, and no row of the tables that are written.
unfoldable pub empty : List LearningGoal → List UserMcpServer → Session
empty goals servers = record {
  goals = goals;
  servers = servers;
  threads = [];
  runs = [];
  approvals = [];
  invoked = [];
}

module _ (hash : String → String → String → Json → String) (secrets : String → List Text) where
  -- A transaction that commits. A method that raises commits nothing, with one exception: a tool
  -- call that neither returns nor raises the MCP service's error (`broken`) is left out.
  pub data Step (s s' : Session) : Type 0 where
    create :
        (user goal : String) (title : Option Text) (new_id : String) (now : ℕ)
        (t : ConversationThread)
        → Threads.create s user goal title new_id now ≡ ok (s', t)
        → Step s s'
    ensure_legacy :
        (user goal thread new_id : String) (now : ℕ) (t : ConversationThread)
        → Threads.ensure_legacy s user goal thread new_id now ≡ ok (s', t)
        → Step s s'
    archive :
        (user goal thread : String) (now : ℕ) (t : ConversationThread)
        → Threads.archive s user goal thread now ≡ ok (s', t)
        → Step s s'
    start :
        (user goal thread : String) (q : RunRequest) (now : ℕ) (r : AgentRun)
        → Runs.start s user goal thread q now ≡ ok (s', r)
        → Step s s'
    complete :
        (user goal thread run : String) (now : ℕ) (input : Option String) (output trace : String)
        (latency : ℤ) (r : AgentRun)
        → Runs.complete s user goal thread run now input output trace latency ≡ ok (s', r)
        → Step s s'
    fail :
        (user goal thread run : String) (now : ℕ) (message trace : String) (latency : ℤ)
        (r : AgentRun)
        → Runs.fail s user goal thread run now message trace latency ≡ ok (s', r)
        → Step s s'
    request_cancel :
        (user goal thread run : String) (now : ℕ) (r : AgentRun)
        → Runs.request_cancel s user goal thread run now ≡ ok (s', r)
        → Step s s'
    request_cancel_for_user :
        (user run : String) (now : ℕ) (r : AgentRun)
        → Runs.request_cancel_for_user s user run now ≡ ok (s', r)
        → Step s s'
    mark_cancelled :
        (user goal thread run : String) (now : ℕ) (r : AgentRun)
        → Runs.mark_cancelled s user goal thread run now ≡ ok (s', r)
        → Step s s'
    require_approval :
        (user run thread server tool : String) (arguments : Json) (new_id : String)
        (a : UserToolApproval)
        → Approval.require_approval hash secrets user s run thread server tool arguments new_id
          ≡ ok (s', a)
        → Step s s'
    begin_decision :
        (user run approval : String) (choice : Choice) (now : ℕ) (d : ToolApprovalDecision)
        → Approval.begin_decision hash secrets user s run approval choice now ≡ ok (s', d)
        → Step s s'
    resolve :
        (user run thread server tool : String) (arguments : Json) (choice : Choice) (call : Call)
        (now : ℕ)
        → call ≢ broken
        → s'
          ≡ (Resolve.resolve_after_interrupt hash secrets user s run thread server tool arguments
              choice call now).0
        → Step s s'
    recover : (now : ℕ) → s' ≡ (Approval.recover_stranded_tool_approvals s now).0 → Step s s'

  pub data History (s : Session) : Session → Type 0 where
    start_here : History s s
    then_step : {t u : Session} → History s t → Step t u → History s u

  -- Every step is made of the session's writes.
  pub Step-Writes : (s s' : Session) → IsOnce s → Step s s' → Writes s s'
  Step-Writes s s' v (create user goal title new_id now t h) =
      Operations.create-Writes s user goal title new_id now h
  Step-Writes s s' v (ensure_legacy user goal thread new_id now t h) =
      Operations.ensure_legacy-Writes s user goal thread new_id now h
  Step-Writes s s' v (archive user goal thread now t h) =
      Operations.archive-Writes s user goal thread now h
  Step-Writes s s' v (start user goal thread q now r h) =
      Operations.start-Writes s user goal thread q now h
  Step-Writes s s' v (complete user goal thread run now input output trace latency r h) =
      Operations.complete-Writes s user goal thread run now input output trace latency h
  Step-Writes s s' v (fail user goal thread run now message trace latency r h) =
      Operations.fail-Writes s user goal thread run now message trace latency h
  Step-Writes s s' v (request_cancel user goal thread run now r h) =
      Operations.request_cancel-Writes s user goal thread run now h
  Step-Writes s s' v (request_cancel_for_user user run now r h) =
      Operations.request_cancel_for_user-Writes s user "" "" run now h
  Step-Writes s s' v (mark_cancelled user goal thread run now r h) =
      Operations.mark_cancelled-Writes s user goal thread run now h
  Step-Writes s s' v (require_approval user run thread server tool arguments new_id a h) =
      ApprovalOperations.require_approval-Writes hash secrets user s run thread server tool
        arguments new_id h
  Step-Writes s s' v (begin_decision user run approval choice now d h) =
      ApprovalOperations.begin_decision-Writes hash secrets user s run approval choice now h
  Step-Writes s s' v (resolve user run thread server tool arguments choice call now n q) =
      subst (Writes s) (sym q) (
        ApprovalOperations.resolve_after_interrupt-Writes hash secrets user s run thread server tool
          arguments choice call now n)
  Step-Writes s s' v (recover now q) = subst (Writes s) (sym q) (Recovery.recover-Writes s v now)

  -- A history is a chain of writes, as long as it starts where no approval has been called twice.
  pub History-Writes : {s t : Session} → IsOnce s → History s t → Writes s t
  History-Writes v start_here = done
  History-Writes {s} v (then_step {t} {u} h st) =
      let ws = History-Writes v h in
      Writes-trans ws (Step-Writes t u (Writes-keep IsOnce Write-IsOnce ws v) st)

pub empty-IsOnce :
    (goals : List LearningGoal) (servers : List UserMcpServer) → IsOnce (empty goals servers)
unfolding empty count_where
empty-IsOnce goals servers = record {
  approval_ids = λ k. omega arith;
  within_budget = λ a i. elim i [ ];
  only_known = λ k e. refl;
}

pub empty-IsConsistent :
    (goals : List LearningGoal) (servers : List UserMcpServer) → IsConsistent (empty goals servers)
unfolding empty count_where
empty-IsConsistent goals servers = record {
  thread_ids = λ k. omega arith;
  one_active = λ k. omega arith;
  archived_idle = λ t i e. elim i [ ];
}
