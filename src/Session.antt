-- ===== src/Session.antt =====
-- The database tables of backend/app/models.py that conversations and tool approvals share, as the
-- state that a transaction reads and writes: AgentRun, ConversationThread, UserToolApproval, and
-- the identifiers of goals and servers. A column that no operation reads is a text. `now` and a new
-- random identifier are arguments of the operations.
pub mod Writes
pub mod Consistency
pub mod Once
pub mod Final
use learning_system.Prelude.{ℕ, String, Bool, true, false, ◌&&◌, Option, List, str_eq, Text, Json}

pub data ThreadStatus : Type 0 where
  active archived : ThreadStatus

pub record ConversationThread : Type 0 where
  pub id : String
  pub user_id : String
  pub goal_id : String
  pub legacy_key : Option String
  pub title : Option Text
  pub status : ThreadStatus
  pub created_at : ℕ
  pub updated_at : ℕ
  pub archived_at : Option ℕ

pub data RunStatus : Type 0 where
  running awaiting_approval executing_approval cancellation_requested : RunStatus
  success failed cancelled : RunStatus

pub record AgentRun : Type 0 where
  pub id : String
  pub user_id : String
  pub goal_id : String
  pub thread_id : String
  pub correlation_id : String
  pub request_hash : String
  pub graph_name : String
  pub graph_version : String
  pub trigger_type : String
  pub input_snapshot : String
  pub output_snapshot : String
  pub node_trace : String
  pub status : RunStatus
  pub latency_ms : ℕ
  pub error_message : Option String
  pub started_at : ℕ
  pub completed_at : Option ℕ
  pub cancel_requested_at : Option ℕ
  pub cancelled_at : Option ℕ

pub data ApprovalStatus : Type 0 where
  pending approved rejected executing completed failed unknown : ApprovalStatus

-- The dictionaries that are stored as `result_summary_json`.
pub data Summary : Type 0 where
  nothing : Summary
  unknown_outcome : Summary
  tool_rejected : Summary
  call_failed : String → Summary
  call_succeeded : Json → Bool → Summary

pub record UserToolApproval : Type 0 where
  pub id : String
  pub user_id : String
  pub run_id : String
  pub mcp_server_id : String
  pub tool_name : String
  pub arguments_json : Json
  pub request_hash : String
  pub status : ApprovalStatus
  pub result_summary_json : Summary
  pub decided_at : Option ℕ
  pub completed_at : Option ℕ

pub record LearningGoal : Type 0 where
  pub id : String
  pub user_id : String

pub record UserMcpServer : Type 0 where
  pub id : String
  pub user_id : String
  pub name : String

-- `invoked` is what the outside has seen: the approval behind each call of a tool, newest first.
pub record Session : Type 0 where
  pub goals : List LearningGoal
  pub servers : List UserMcpServer
  pub threads : List ConversationThread
  pub runs : List AgentRun
  pub approvals : List UserToolApproval
  pub invoked : List String

-- The statuses of the partial unique index `uq_agent_runs_active_thread`.
abbrev pub is_active : RunStatus → Bool
is_active running = true
is_active awaiting_approval = true
is_active executing_approval = true
is_active cancellation_requested = true
is_active _ = false

-- An active run of a thread.
abbrev pub active_in : String → AgentRun → Bool
active_in thread_id r = str_eq r.thread_id thread_id && is_active r.status

abbrev pub is_active_thread : ThreadStatus → Bool
is_active_thread active = true
is_active_thread archived = false

pub data ServiceError : Type 0 where
  conversation_not_found thread_archived active_run_conflict run_not_found : ServiceError
  approval_not_found integrity_error : ServiceError
  approval_not_resumable : String → ServiceError
  approval_not_pending : String → ApprovalStatus → Summary → ServiceError
  crashed : ServiceError
