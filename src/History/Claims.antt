-- ===== src/History/Claims.antt =====
-- What holds after every history of conversation_repository.py and tool_approval_service.py.
use learning_system.Prelude.{
  ℕ, ◌≤◌, String, ◌≡◌, ◌≢◌, ◌⊎◌, inl, inr, Bool, true, false, List, arith, Bool-cases, Option-cases,
  All, In, All-of, Text, find_where, count_where, find_where-In, Json,
}
use learning_system.Session.{
  Session, ConversationThread, UserToolApproval, executing, ApprovalStatus, approved, completed,
  failed, unknown, active, is_active, active_in, LearningGoal, UserMcpServer,
}
use learning_system.Session.Writes.{Writes, Writes-keep, done, more}
use learning_system.Session.Once.{IsOnce, Write-IsOnce, calls, calls-le-one}
use learning_system.Session.Consistency.{IsConsistent, Write-IsConsistent}
use learning_system.Session.Final.{is_closed, Write-keeps_approval, Write-keeps_run}
use learning_system.Approval.{Choice, Call, recover_stranded_tool_approvals}
use learning_system.Approval.Resolve.{resolve_after_interrupt, for_request}
use learning_system.Approval.Operations.{resolve_cases}
use learning_system.Approval.Recovery.{recover-none_executing}
use learning_system.History.{empty, History, History-Writes, empty-IsOnce, empty-IsConsistent}

Writes-keep_approval :
    {s t : Session} (a : UserToolApproval)
    → Writes s t
    → IsOnce s
    → is_closed a.status ≡ true
    → In a s.approvals
    → In a t.approvals
Writes-keep_approval a done v e i = i
Writes-keep_approval a (more {t = u} ws w) v e i =
    Write-keeps_approval a u _ w (Writes-keep IsOnce Write-IsOnce ws v) e
      (Writes-keep_approval a ws v e i)

-- Everything but pending, rejected and executing.
abbrev pub may_have_run : ApprovalStatus → Bool
may_have_run completed = true
may_have_run failed = true
may_have_run unknown = true
may_have_run approved = true
may_have_run _ = false

module _ (hash : String → String → String → Json → String) (secrets : String → List Text)
    (goals : List LearningGoal) (servers : List UserMcpServer) (s : Session)
    (history : History hash secrets (empty goals servers) s) where
  writes : Writes (empty goals servers) s
  writes = History-Writes hash secrets (empty-IsOnce goals servers) history

  once : IsOnce s
  once = Writes-keep IsOnce Write-IsOnce writes (empty-IsOnce goals servers)

  consistent : IsConsistent s
  consistent = Writes-keep IsConsistent Write-IsConsistent writes (empty-IsConsistent goals servers)

  -- After any history that starts from a database without threads, runs and approvals, and in
  -- which no tool call ends otherwise than by a value or the MCP service's error, a thread has at
  -- most one active run, and an archived thread has none.
  pub one_active_run :
      ((thread : String) → count_where (active_in thread) s.runs ≤ 1)
      × All (λ t. (t.status ≡ active) ⊎ (count_where (active_in t.id) s.runs ≡ 0)) s.threads
  one_active_run = (consistent.one_active, All-of _ s.threads λ t i. idle t i)
    where
      idle :
          (t : ConversationThread)
          → In t s.threads
          → (t.status ≡ active) ⊎ (count_where (active_in t.id) s.runs ≡ 0)
      idle t i = ground (arith, consistent.archived_idle t i)

  -- After any history that starts from a database without threads, runs and approvals, and in
  -- which no tool call ends otherwise than by a value or the MCP service's error, the tool behind
  -- an approval has been called at most once, and not at all while the approval is pending,
  -- rejected or executing.
  pub called_at_most_once :
      ((approval : String) → calls approval s.invoked ≤ 1)
      × All (λ a. (may_have_run a.status ≡ true) ⊎ (calls a.id s.invoked ≡ 0)) s.approvals
  called_at_most_once = (calls-le-one s once, All-of _ s.approvals λ a i. uncalled a i)
    where
      uncalled :
          (a : UserToolApproval)
          → In a s.approvals
          → (may_have_run a.status ≡ true) ⊎ (calls a.id s.invoked ≡ 0)
      uncalled a i = ground (arith, once.within_budget a i)

  -- After any history that starts from a database without threads, runs and approvals, and in any
  -- further history from there, where no tool call ends otherwise than by a value or the MCP
  -- service's error: an approval that is rejected, completed, failed or unknown stays in the table
  -- unchanged, and so does a run that has ended.
  pub closed_rows_stay :
      (t : Session)
      → History hash secrets s t
      → All (λ a. (is_closed a.status ≡ false) ⊎ In a t.approvals) s.approvals
        × All (λ r. (is_active r.status ≡ true) ⊎ In r t.runs) s.runs
  closed_rows_stay t next =
      let ws = History-Writes hash secrets once next in
      (
        All-of _ s.approvals λ a i. elim (Bool-cases (is_closed a.status)) [
          | inl e ↦ inr (Writes-keep_approval a ws once e i)
          | inr e ↦ inl e
        ],
        All-of _ s.runs λ r i. elim (Bool-cases (is_active r.status)) [
          | inl e ↦ inl e
          | inr e ↦ inr (Writes-keep (λ u. In r u.runs) (λ u v w. Write-keeps_run r u v w e) ws i)
        ],
      )

-- After a recovery, whatever was stranded before it, no resolution calls a tool or changes the
-- database, by any user, for any request and decision.
pub recovered_never_called_again :
    (hash : String → String → String → Json → String) (secrets : String → List Text) (s : Session)
    (now : ℕ) (user run thread server tool : String) (arguments : Json) (choice : Choice)
    (call : Call) (later : ℕ)
    → let t = (recover_stranded_tool_approvals s now).0 in
      (resolve_after_interrupt hash secrets user t run thread server tool arguments choice call
        later).0
      ≡ t
unfolding resolve_after_interrupt
recovered_never_called_again hash secrets s now user run thread server tool arguments choice call
      later =
    after (recover_stranded_tool_approvals s now).0 (recover-none_executing s now)
  where
    after :
        (t : Session)
        → ((b : UserToolApproval) → In b t.approvals → b.status ≢ executing)
        → (resolve_after_interrupt hash secrets user t run thread server tool arguments choice call
            later).0
          ≡ t
    after t idle =
        let p = for_request hash secrets user t thread (hash run server tool arguments) in
        elim (Option-cases (find_where p t.approvals)) [
          | inl e ↦ rw (e, resolve_after_interrupt)
          | inr (a, e) ↦
              rw (e, resolve_after_interrupt)
                (elim (resolve_cases hash secrets user t a run server choice call later) [
                  | inl q ↦ q
                  | inr (x, _) ↦ absurd (idle a (find_where-In p t.approvals e).0 x)
                ])
        ]
