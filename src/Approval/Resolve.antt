-- ===== src/Approval/Resolve.antt =====
-- `resolve_after_interrupt` of tool_approval_service.py. `call` is what the MCP service does if it is
-- called. An exception other than its own error leaves everything uncommitted, but the outside has
-- seen the call.
use learning_system.Prelude.{
  ℕ, String, Bool, true, false, not, ◌&&◌, ◌||◌, none, some, List, ◌∷◌, str_eq, if◌then◌else◌, any,
  Result, ok, err, Text, find_where, update_where, with_key, Json,
}
use learning_system.Session.{
  Session, AgentRun, running, UserToolApproval, ApprovalStatus, rejected, executing, completed,
  failed, Summary, call_failed, call_succeeded, ServiceError, approval_not_found,
  approval_not_resumable, crashed,
}
use learning_system.Approval.{
  Choice, approve, reject, Call, returned, refused, broken, ToolApprovalResolution, failure,
  resolution_from_summary, is_executing_run, conflict_payload, same_request,
}
use learning_system.Approval.Sanitize.{sanitize}

unfoldable pub closed : ApprovalStatus → Summary → ℕ → UserToolApproval → UserToolApproval
closed status summary now a = record a {
  status = status;
  completed_at = some now;
  result_summary_json = summary;
}

module _ (hash : String → String → String → Json → String) (secrets : String → List Text)
    (user : String) where
  -- `_release_execution`
  unfoldable pub release_execution : String → List AgentRun → List AgentRun
  release_execution run =
      update_where (λ r. str_eq r.id run && str_eq r.user_id user && is_executing_run r.status)
        (λ r. record r { status = running })

  -- The session after a call that came back, with its outcome written.
  unfoldable pub recorded :
      Session → UserToolApproval → String → ApprovalStatus → Summary → ℕ → Session
  unfolding release_execution closed
  recorded s a run status summary now = record s {
    approvals = update_where (with_key (λ b. b.id) a.id) (closed status summary now) s.approvals;
    runs = release_execution run s.runs;
    invoked = a.id ∷ s.invoked;
  }

  unfoldable pub perform :
      Session
      → UserToolApproval
      → String
      → String
      → Call
      → ℕ
      → Session × Result ServiceError ToolApprovalResolution
  unfolding recorded
  perform s a run server (returned value truncated) now =
      let summary = call_succeeded (sanitize (secrets server) value) truncated in
      (recorded s a run completed summary now, ok (resolution_from_summary summary false))
  perform s a run server (refused code) now = (
    recorded s a run failed (call_failed code) now,
    ok (record { outcome = failure code; cache_hit = false }),
  )
  perform s a run server broken now = (record s { invoked = a.id ∷ s.invoked }, err crashed)

  -- The run must still be executing this approval.
  unfoldable pub execute :
      Session
      → UserToolApproval
      → String
      → String
      → Call
      → ℕ
      → Session × Result ServiceError ToolApprovalResolution
  unfolding perform
  execute s a run server call now =
      elim (find_where (with_key (λ (r : AgentRun). r.id) run) s.runs) [
        | none ↦ (s, err (approval_not_resumable a.id))
        | some r ↦
            if not (str_eq r.user_id user) || not (is_executing_run r.status)
            then (s, err (approval_not_resumable a.id))
            else perform s a run server call now
      ]

  abbrev turned_down : Session → Session × Result ServiceError ToolApprovalResolution
  turned_down s = (s, ok (record { outcome = failure "mcp.tool_rejected"; cache_hit = false }))

  unfoldable pub resolve :
      Session
      → UserToolApproval
      → String
      → String
      → Choice
      → Call
      → ℕ
      → Session × Result ServiceError ToolApprovalResolution
  unfolding execute
  resolve s a run server choice call now = elim a.status [
    | completed ↦ (s, ok (resolution_from_summary a.result_summary_json true))
    | failed ↦ (s, ok (resolution_from_summary a.result_summary_json true))
    | rejected ↦ turned_down s
    | executing ↦ elim choice [ reject ↦ turned_down s | approve ↦ execute s a run server call now ]
    | _ ↦ elim choice [ reject ↦ turned_down s | approve ↦ (s, err (conflict_payload a)) ]
  ]

  -- _approval_for_request: the join asks for the approval's run in the thread.
  abbrev pub for_request : Session → String → String → UserToolApproval → Bool
  for_request s thread h a =
      same_request hash secrets user h a
      && any (λ r. str_eq r.id a.run_id && str_eq r.thread_id thread) s.runs

  unfoldable pub resolve_after_interrupt :
      Session
      → String
      → String
      → String
      → String
      → Json
      → Choice
      → Call
      → ℕ
      → Session × Result ServiceError ToolApprovalResolution
  unfolding resolve
  resolve_after_interrupt s run thread server tool arguments choice call now =
      elim (find_where (for_request s thread (hash run server tool arguments)) s.approvals) [
        | none ↦ (s, err approval_not_found)
        | some a ↦ resolve s a run server choice call now
      ]
