-- ===== src/Approval.antt =====
-- backend/app/application/tool_approval_service.py: durable approvals of effectful tool calls.
-- Parameters: `hash` is the SHA-256 digest of a request (`_request_hash`), `secrets` the values that
-- the secret store holds for a server (`_configured_secret_values`).
pub mod Sanitize
pub mod Resolve
pub mod Operations
pub mod Recovery
use learning_system.Prelude.{
  ℕ, ◌+◌, String, Bool, true, false, not, ◌&&◌, ◌||◌, Option, none, some, List, [], ◌∷◌, ◌++◌,
  str_eq, ◌==◌, if◌then◌else◌, length, filter_by, Result, ok, err, ◌>>=◌, ◌>>◌, refuse, Text,
  find_where, update_where, count_where, with_key, Json,
}
use learning_system.Session.{
  Session, ConversationThread, AgentRun, RunStatus, running, awaiting_approval, executing_approval,
  cancellation_requested, failed, UserToolApproval, ApprovalStatus, pending, rejected, executing,
  completed, unknown, Summary, nothing, unknown_outcome, tool_rejected, call_failed, call_succeeded,
  UserMcpServer, is_active_thread, ServiceError, approval_not_found, approval_not_resumable,
  approval_not_pending, integrity_error,
}
use learning_system.Approval.Sanitize.{sanitize}

pub data Choice : Type 0 where
  approve reject : Choice

pub record ToolApprovalDecision : Type 0 where
  pub approval_id : String
  pub decision : Choice

-- ToolApprovalResolution: `value` and `error_code` are there on success and on failure.
pub data Outcome : Type 0 where
  success : Json → Bool → Outcome
  failure : String → Outcome

pub record ToolApprovalResolution : Type 0 where
  pub outcome : Outcome
  pub cache_hit : Bool

-- What the MCP service does with a call: it returns a value with its truncation flag, raises its own
-- error with a code, or raises anything else.
pub data Call : Type 0 where
  returned : Json → Bool → Call
  refused : String → Call
  broken : Call

abbrev pub is_pending : ApprovalStatus → Bool
is_pending pending = true
is_pending _ = false

abbrev pub is_executing : ApprovalStatus → Bool
is_executing executing = true
is_executing _ = false

abbrev pub is_awaiting : RunStatus → Bool
is_awaiting awaiting_approval = true
is_awaiting _ = false

abbrev pub is_executing_run : RunStatus → Bool
is_executing_run executing_approval = true
is_executing_run _ = false

abbrev pub is_running_run : RunStatus → Bool
is_running_run running = true
is_running_run _ = false

-- run.status in {"running", "awaiting_approval", "executing_approval"}
abbrev pub is_recoverable : RunStatus → Bool
is_recoverable running = true
is_recoverable awaiting_approval = true
is_recoverable executing_approval = true
is_recoverable _ = false

abbrev pub is_cancelling : AgentRun → Bool
is_cancelling r = elim r.cancel_requested_at [
  | some _ ↦ true
  | none ↦ elim r.status [ cancellation_requested ↦ true | _ ↦ false ]
]

abbrev pub or_fail {ℓ} : {A : Type ℓ} → Option A → ServiceError → Result ServiceError A
or_fail none e = err e
or_fail (some a) e = ok a

-- _resolution_from_summary
unfoldable pub resolution_from_summary : Summary → Bool → ToolApprovalResolution
resolution_from_summary (call_succeeded v t) hit = record { outcome = success v t; cache_hit = hit }
resolution_from_summary (call_failed code) hit = record { outcome = failure code; cache_hit = hit }
resolution_from_summary tool_rejected hit = record {
  outcome = failure "mcp.tool_rejected";
  cache_hit = hit;
}
resolution_from_summary unknown_outcome hit = record {
  outcome = failure "mcp.execution_unknown";
  cache_hit = hit;
}
resolution_from_summary nothing hit = record {
  outcome = failure "mcp.execution_failed";
  cache_hit = hit;
}

abbrev conflict_payload : UserToolApproval → ServiceError
conflict_payload a = approval_not_pending a.id a.status a.result_summary_json

-- One approval of `recover_stranded_tool_approvals`: its outcome stays unknown, its run fails.
unfoldable pub recover_one : ℕ → Session → UserToolApproval → Session
recover_one now s a = record s {
  approvals =
      update_where (with_key (λ b. b.id) a.id)
        (λ b. record b {
          status = unknown;
          completed_at = some now;
          result_summary_json = unknown_outcome;
        })
        s.approvals;
  runs =
      update_where (λ r. str_eq r.id a.run_id && is_recoverable r.status)
        (λ r. record r {
          status = failed;
          error_message = some "mcp.execution_unknown";
          completed_at = some now;
        })
        s.runs;
}

unfoldable pub recover_all : ℕ → Session → List UserToolApproval → Session
unfolding recover_one
recover_all now s [] = s
recover_all now s (a ∷ rest) = recover_all now (recover_one now s a) rest

unfoldable pub recover_stranded_tool_approvals : Session → ℕ → Session × ℕ
unfolding recover_all
recover_stranded_tool_approvals s now =
    let stranded = filter_by (λ a. is_executing a.status) s.approvals in
    (recover_all now s stranded, length stranded)

module _ (hash : String → String → String → Json → String) (secrets : String → List Text)
    (user : String) where
  abbrev pub owned_run : String → String → AgentRun → Bool
  owned_run run thread r = str_eq r.id run && str_eq r.user_id user && str_eq r.thread_id thread

  new_approval : String → String → String → String → Json → UserToolApproval
  new_approval new_id run server tool arguments = record {
    id = new_id;
    user_id = user;
    run_id = run;
    mcp_server_id = server;
    tool_name = tool;
    arguments_json = sanitize (secrets server) arguments;
    request_hash = hash run server tool arguments;
    status = pending;
    result_summary_json = nothing;
    decided_at = none;
    completed_at = none;
  }

  abbrev pub same_request : String → UserToolApproval → Bool
  same_request h a = str_eq a.user_id user && str_eq a.request_hash h

  -- `if run.status == "running"` on the row of the run.
  unfoldable pub await_approval : String → List AgentRun → List AgentRun
  await_approval run =
      update_where (λ r. str_eq r.id run && is_running_run r.status)
        (λ r. record r { status = awaiting_approval })

  unfoldable pub require_approval :
      Session
      → String
      → String
      → String
      → String
      → Json
      → String
      → Result ServiceError (Session × UserToolApproval)
  unfolding new_approval await_approval
  require_approval s run thread server tool arguments new_id = do
    or_fail (find_where (owned_run run thread) s.runs) approval_not_found >>= λ _. ok tt
    or_fail
          (find_where (λ (m : UserMcpServer). str_eq m.id server && str_eq m.user_id user)
            s.servers)
          approval_not_found
        >>= λ _. ok tt
    elim (find_where (same_request (hash run server tool arguments)) s.approvals) [
      | some a ↦ ok (record s { runs = await_approval run s.runs }, a)
      | none ↦
          if not (count_where (with_key (λ b. b.id) new_id) s.approvals == 0)
          then err integrity_error
          else ok (
            record s {
              runs = await_approval run s.runs;
              approvals = s.approvals ++ (new_approval new_id run server tool arguments ∷ []);
            },
            new_approval new_id run server tool arguments,
          )
    ]

  abbrev pub owned_approval : String → String → UserToolApproval → Bool
  owned_approval run approval a =
      str_eq a.id approval && str_eq a.user_id user && str_eq a.run_id run

  -- _owned_approval: the join of the approval with its run
  find_approval : Session → String → String → Result ServiceError (UserToolApproval × AgentRun)
  find_approval s run approval = do
    a ← or_fail (find_where (owned_approval run approval) s.approvals) approval_not_found
    r ←
        or_fail (find_where (λ r. str_eq r.id a.run_id && str_eq r.user_id user) s.runs)
          approval_not_found
    ok (a, r)

  -- The tests that `begin_decision` and `preview_decision` share.
  check_resumable : Session → UserToolApproval → AgentRun → Result ServiceError (Unit {0})
  check_resumable s a r = do
    elim (find_where (with_key (λ (t : ConversationThread). t.id) r.thread_id) s.threads) [
      | none ↦ err (approval_not_resumable a.id)
      | some t ↦
          refuse (not (str_eq t.user_id user) || not (is_active_thread t.status))
            (approval_not_resumable a.id)
    ]
    refuse (is_cancelling r) (approval_not_resumable a.id)

  unfoldable pub decided : Choice → ℕ → UserToolApproval → UserToolApproval
  decided approve now a = record a { status = executing; decided_at = some now }
  decided reject now a = record a {
    status = rejected;
    decided_at = some now;
    completed_at = some now;
    result_summary_json = tool_rejected;
  }

  unfoldable pub resumed : Choice → AgentRun → AgentRun
  resumed approve r = record r { status = executing_approval }
  resumed reject r = record r { status = running }

  abbrev pub pending_row : String → String → UserToolApproval → Bool
  pending_row run approval a = owned_approval run approval a && is_pending a.status

  abbrev pub awaiting_row : String → AgentRun → Bool
  awaiting_row run r = str_eq r.id run && is_awaiting r.status

  abbrev pub after_decision : Session → UserToolApproval → AgentRun → String → Choice → ℕ → Session
  after_decision s a r run choice now = record s {
    approvals = update_where (pending_row run a.id) (decided choice now) s.approvals;
    runs = update_where (awaiting_row r.id) (resumed choice) s.runs;
  }

  -- The two conditional updates; unless each meets its one row, both are rolled back.
  unfoldable pub commit_decision :
      Session
      → UserToolApproval
      → AgentRun
      → String
      → Choice
      → ℕ
      → Result ServiceError (Session × ToolApprovalDecision)
  unfolding decided resumed
  commit_decision s a r run choice now = do
    refuse (not (count_where (pending_row run a.id) s.approvals == 1)) (conflict_payload a)
    refuse (not (count_where (awaiting_row r.id) s.runs == 1)) (approval_not_resumable a.id)
    ok (after_decision s a r run choice now, record { approval_id = a.id; decision = choice })

  unfoldable pub begin_decision :
      Session → String → String → Choice → ℕ → Result ServiceError (Session × ToolApprovalDecision)
  unfolding find_approval check_resumable commit_decision
  begin_decision s run approval choice now = do
    found ← find_approval s run approval
    check_resumable s found.0 found.1
    commit_decision s found.0 found.1 run choice now

  unfoldable pub preview_decision : Session → String → String → Result ServiceError (Unit {0})
  unfolding find_approval check_resumable
  preview_decision s run approval = do
    found ← find_approval s run approval
    check_resumable s found.0 found.1
    refuse (not (is_pending found.0.status)) (conflict_payload found.0)
