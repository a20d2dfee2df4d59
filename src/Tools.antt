-- ===== src/Tools.antt =====
-- ToolRouter of src/adaptive_tutor/tutor/tool_router.py: what an agent's tools are called with, how
-- often, and what is done with their values. A handler may answer differently at another moment.
-- `log` is no field of the router: it records the calls that the outside has seen.
pub mod Filter
pub mod Execution
use learning_system.Prelude.{ℕ, Bool, Option, List, Text, Json}

-- ToolPolicy of t3_contracts.py; the timeout is in microseconds.
pub record ToolPolicy : Type 0 where
  pub max_calls_per_run : ℕ
  pub timeout : ℕ
  pub max_argument_bytes : ℕ
  pub max_raw_result_bytes : ℕ
  pub max_normalized_result_chars : ℕ
  pub max_result_items : ℕ

pub data ToolError : Type 0 where
  tool_not_allowed tool_budget_exceeded tool_argument_invalid tool_timeout : ToolError
  tool_result_too_large tool_execution_failed tool_evidence_mapping_failed : ToolError
  approval_interrupt : ToolError

pub data SafetyClass : Type 0 where
  read_only proposal_only : SafetyClass

-- What a handler does: a value, a HandlerResult with its flag, or an exception.
pub data Returned : Type 0 where
  plain : Json → Returned
  handled : Json → Bool → Returned
  interrupts : Returned
  fails : Returned

pub record Reply : Type 0 where
  pub took : ℕ
  pub outcome : Returned

abbrev pub Handler : Type 0
Handler = ℕ → Json → Reply

-- A mapper gives the labels of the evidence, or raises.
abbrev pub EvidenceMapper : Type 0
EvidenceMapper = Json → Text → Option (List Text)

pub record RegisteredTool : Type 0 where
  pub safety_class : SafetyClass
  pub agent_visible : Bool
  pub handler : Handler
  pub argument_model : Option (Json → Option Json)
  pub legacy_handler : Option Handler
  pub evidence_mapper : Option EvidenceMapper
  pub completion_handler : Bool

pub data ToolRegistryValue : Type 0 where
  bare : Handler → ToolRegistryValue
  registered : RegisteredTool → ToolRegistryValue

abbrev pub Registry : Type 0
Registry = Text → Option ToolRegistryValue

pub record ToolResult : Type 0 where
  pub value : Json
  pub cache_hit : Bool
  pub truncated : Bool
  pub untrusted : Bool
  pub fingerprint : Text
  pub evidence_items : List Text

-- (user_id, run_id, fingerprint)
pub record CacheKey : Type 0 where
  pub user_id : Text
  pub run_id : Text
  pub fingerprint : Text

pub data Event : Type 0 where
  invoked : Text → Event
  completed : Bool → Event

pub record Router : Type 0 where
  pub cache : List (CacheKey × ToolResult)
  pub calls : List (Text × ℕ)
  pub log : List Event

-- What `execute` and `execute_agent` are called with, and when.
pub record Request : Type 0 where
  pub run_id : Text
  pub user_id : Text
  pub tool_name : Text
  pub arguments : Json
  pub moment : ℕ
