-- ===== src/Approval/Operations.antt =====
-- The approval service changes the session by its writes alone.
use learning_system.Prelude.{
  ℕ, String, ◌≡◌, refl, sym, subst, ◌≢◌, ◌⊎◌, inl, inr, true, ◌&&◌, List, [], ◌∷◌, ◌++◌, arith,
  str_eq, Option-cases, In, ok, >>=-eq-ok, Text, find_where, count_where, find_where-In, with_key,
  Json,
}
use learning_system.Session.{
  Session, AgentRun, running, awaiting_approval, UserToolApproval, ApprovalStatus, pending,
  executing, completed, failed, Summary, call_failed,
}
use learning_system.Session.Writes
use learning_system.Session.Writes.{
  Moves, Closes, by_value, by_error, Write, set_runs, add_approval, set_approvals, close, Writes,
  done, one-Write, Writes-trans,
}
use learning_system.Approval.{
  Choice, approve, reject, Call, returned, refused, broken, ToolApprovalDecision, is_executing_run,
  is_running_run, require_approval, await_approval, new_approval, begin_decision, find_approval,
  check_resumable, pending_row, awaiting_row, decided, resumed, after_decision, commit_decision,
}
use learning_system.Approval.Resolve.{
  closed, release_execution, recorded, perform, execute, resolve, for_request,
  resolve_after_interrupt,
}

module _ (hash : String → String → String → Json → String) (secrets : String → List Text)
    (user : String) (s : Session) where
  awaited :
      (run : String) → Writes s (record s { runs = await_approval hash secrets user run s.runs })
  unfolding await_approval
  awaited run = one-Write (
      set_runs (λ r. str_eq r.id run && is_running_run r.status)
        (λ r. record r { status = awaiting_approval }) (λ r e. (ground arith, refl)) refl)

  pub require_approval-Writes :
      (run thread server tool : String) (arguments : Json) (new_id : String) {s' : Session}
      {a : UserToolApproval}
      → require_approval hash secrets user s run thread server tool arguments new_id ≡ ok (s', a)
      → Writes s s'
  unfolding require_approval
  require_approval-Writes run thread server tool arguments new_id {s'} {a} h = elim parts [
    | inl q ↦ subst (Writes s) (sym q) (awaited run)
    | inr (fresh, q) ↦ Writes-trans (awaited run) (
        one-Write (
          add_approval (new_approval hash secrets user new_id run server tool arguments) fresh refl
            q))
  ]
    where
      parts :
          (s' ≡ record s { runs = await_approval hash secrets user run s.runs })
          ⊎ ((count_where (with_key (λ (b : UserToolApproval). b.id) new_id) s.approvals ≡ 0)
              × (s' ≡ record s {
                runs = await_approval hash secrets user run s.runs;
                approvals =
                    s.approvals
                    ++ (new_approval hash secrets user new_id run server tool arguments ∷ []);
              }))
      parts = ground arith

  decided-Moves :
      (choice : Choice) (now : ℕ) (run approval : String) (a : UserToolApproval)
      → pending_row hash secrets user run approval a ≡ true
      → ((decided hash secrets user choice now a).id ≡ a.id)
        × Moves a.status (decided hash secrets user choice now a).status
  unfolding decided
  decided-Moves approve now run approval a e =
      let p : a.status ≡ pending = ground arith in (refl, rw p Writes.approve)
  decided-Moves reject now run approval a e =
      let p : a.status ≡ pending = ground arith in (refl, rw p Writes.reject)

  resumed-IsCalm :
      (choice : Choice) (run : String)
      → Writes.IsCalm (awaiting_row hash secrets user run) (resumed hash secrets user choice)
  unfolding resumed
  resumed-IsCalm approve run r e = (ground arith, refl)
  resumed-IsCalm reject run r e = (ground arith, refl)

  after_decision-Writes :
      (a : UserToolApproval) (r : AgentRun) (run : String) (choice : Choice) (now : ℕ)
      → Writes s (after_decision hash secrets user s a r run choice now)
  after_decision-Writes a r run choice now =
      Writes-trans
        (one-Write (
          set_approvals (pending_row hash secrets user run a.id)
            (decided hash secrets user choice now) (λ b i e. decided-Moves choice now run a.id b e)
            refl))
        (one-Write (
          set_runs (awaiting_row hash secrets user r.id) (resumed hash secrets user choice)
            (resumed-IsCalm choice r.id) refl))

  commit_decision-same :
      (a : UserToolApproval) (r : AgentRun) (run : String) (choice : Choice) (now : ℕ)
      {s' : Session} {d : ToolApprovalDecision}
      → commit_decision hash secrets user s a r run choice now ≡ ok (s', d)
      → after_decision hash secrets user s a r run choice now ≡ s'
  unfolding commit_decision
  commit_decision-same a r run choice now h = ground arith

  pub begin_decision-Writes :
      (run approval : String) (choice : Choice) (now : ℕ) {s' : Session} {d : ToolApprovalDecision}
      → begin_decision hash secrets user s run approval choice now ≡ ok (s', d)
      → Writes s s'
  unfolding begin_decision
  begin_decision-Writes run approval choice now {s'} {d} h =
      let (found, _, p) = >>=-eq-ok (find_approval hash secrets user s run approval) _ h in
      let (_, _, q) = >>=-eq-ok (check_resumable hash secrets user s found.0 found.1) _ p in
      subst (Writes s) (commit_decision-same found.0 found.1 run choice now q)
        (after_decision-Writes found.0 found.1 run choice now)

  -- A call that came back closes its approval.
  recorded-Writes :
      (a : UserToolApproval) (run : String) (status : ApprovalStatus) (summary : Summary) (now : ℕ)
      → In a s.approvals
      → a.status ≡ executing
      → Closes status
      → Writes s (recorded hash secrets user s a run status summary now)
  unfolding recorded release_execution closed
  recorded-Writes a run status summary now i e c =
      Writes-trans
        (one-Write (
          set_runs (λ r. str_eq r.id run && str_eq r.user_id user && is_executing_run r.status)
            (λ r. record r { status = running }) (λ r e. (ground arith, refl)) refl))
        (one-Write (close a (closed status summary now) i e (λ b. (refl, c)) refl))

  perform-Writes :
      (a : UserToolApproval) (run server : String) (call : Call) (now : ℕ)
      → call ≢ broken
      → In a s.approvals
      → a.status ≡ executing
      → Writes s (perform hash secrets user s a run server call now).0
  unfolding perform
  perform-Writes a run server (returned value truncated) now n i e =
      recorded-Writes a run completed _ now i e by_value
  perform-Writes a run server (refused code) now n i e =
      recorded-Writes a run failed (call_failed code) now i e by_error
  perform-Writes a run server broken now n i e = absurd (n refl)

  execute-Writes :
      (a : UserToolApproval) (run server : String) (call : Call) (now : ℕ)
      → call ≢ broken
      → In a s.approvals
      → a.status ≡ executing
      → Writes s (execute hash secrets user s a run server call now).0
  unfolding execute
  execute-Writes a run server call now n i e = elim cases [
    | inl q ↦ subst (Writes s) (sym q) done
    | inr q ↦ subst (Writes s) (sym q) (perform-Writes a run server call now n i e)
  ]
    where
      cases :
          ((execute hash secrets user s a run server call now).0 ≡ s)
          ⊎ ((execute hash secrets user s a run server call now).0
              ≡ (perform hash secrets user s a run server call now).0)
      cases = ground arith

  -- A resolution either changes nothing, or performs the call of an executing approval.
  pub resolve_cases :
      (a : UserToolApproval) (run server : String) (choice : Choice) (call : Call) (now : ℕ)
      → ((resolve hash secrets user s a run server choice call now).0 ≡ s)
        ⊎ ((a.status ≡ executing)
            × ((resolve hash secrets user s a run server choice call now).0
                ≡ (execute hash secrets user s a run server call now).0))
  unfolding resolve
  resolve_cases a run server choice call now = ground arith

  resolve-Writes :
      (a : UserToolApproval) (run server : String) (choice : Choice) (call : Call) (now : ℕ)
      → call ≢ broken
      → In a s.approvals
      → Writes s (resolve hash secrets user s a run server choice call now).0
  resolve-Writes a run server choice call now n i =
      elim (resolve_cases a run server choice call now) [
        | inl q ↦ subst (Writes s) (sym q) done
        | inr (e, q) ↦ subst (Writes s) (sym q) (execute-Writes a run server call now n i e)
      ]

  pub resolve_after_interrupt-Writes :
      (run thread server tool : String) (arguments : Json) (choice : Choice) (call : Call) (now : ℕ)
      → call ≢ broken
      → Writes s
          (resolve_after_interrupt hash secrets user s run thread server tool arguments choice call
            now).0
  unfolding resolve_after_interrupt
  resolve_after_interrupt-Writes run thread server tool arguments choice call now n =
      let p = for_request hash secrets user s thread (hash run server tool arguments) in
      elim (Option-cases (find_where p s.approvals)) [
        | inl e ↦ rw (e, resolve_after_interrupt) done
        | inr (a, e) ↦
            rw (e, resolve_after_interrupt)
              (resolve-Writes a run server choice call now n (find_where-In p s.approvals e).0)
      ]
