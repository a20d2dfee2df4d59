-- ===== src/Conversation/Operations.antt =====
-- Every method of the two repositories changes the session by its writes alone.
use learning_system.Prelude.{
  ℕ, String, ◌≡◌, refl, sym, subst, ◌⊎◌, inl, inr, Bool, true, ◌&&◌, Option, none, some, [], ◌∷◌,
  ◌++◌, arith, str_eq, eq_iff, ◌==◌, Bool-cases, Option-cases, ok, Text, update_where, count_where,
  find_where-In, with_key, ℤ,
}
use learning_system.Session.{
  Session, ConversationThread, AgentRun, active, active_in, cancellation_requested,
}
use learning_system.Conversation.Threads
use learning_system.Conversation.Runs
use learning_system.Conversation.Runs.{RunRequest}
use learning_system.Session.Writes.{
  IsCalm, add_thread, archive_thread, add_run, set_runs, Writes, done, one-Write,
}

module _ (s : Session) where
  owned_run-same :
      (user goal thread run : String) {s' : Session} {r : AgentRun}
      → Runs.owned_run s user goal thread run ≡ ok (s', r)
      → s ≡ s'
  unfolding Runs.owned_run
  owned_run-same user goal thread run h = ground arith

  made :
      (user goal thread : String) (title : Option Text) (key : Option String) (now : ℕ)
      {s' : Session} {t : ConversationThread}
      → Threads.create_with_id s user goal thread title key now ≡ ok (s', t)
      → (count_where (with_key (λ (u : ConversationThread). u.id) t.id) s.threads ≡ 0)
        × (t.status ≡ active)
        × (s' ≡ record s { threads = s.threads ++ (t ∷ []) })
  unfolding Threads.create_with_id
  made user goal thread title key now h = ground arith

  create_with_id-Writes :
      (user goal thread : String) (title : Option Text) (key : Option String) (now : ℕ)
      {s' : Session} {t : ConversationThread}
      → Threads.create_with_id s user goal thread title key now ≡ ok (s', t)
      → Writes s s'
  create_with_id-Writes user goal thread title key now {s'} {t} h =
      let (fresh, a, q) = made user goal thread title key now h in
      one-Write (add_thread t fresh a q)

  require_active-same :
      (t : ConversationThread) {s' : Session} {u : ConversationThread}
      → Threads.require_active s t ≡ ok (s', u)
      → s ≡ s'
  unfolding Threads.require_active
  require_active-same t h = ground arith

  pub create-Writes :
      (user goal : String) (title : Option Text) (new_id : String) (now : ℕ) {s' : Session}
      {t : ConversationThread}
      → Threads.create s user goal title new_id now ≡ ok (s', t)
      → Writes s s'
  unfolding Threads.create
  create-Writes user goal title new_id now h =
      create_with_id-Writes user goal new_id title none now h

  require_active-Writes :
      (t : ConversationThread) {s' : Session} {u : ConversationThread}
      → Threads.require_active s t ≡ ok (s', u)
      → Writes s s'
  require_active-Writes t h = subst (Writes s) (require_active-same t h) done

  at :
      (user goal thread : String) (t : ConversationThread)
      → Threads.owned user goal thread t ≡ true
      → t.id ≡ thread
  at user goal thread t e =
      let hit : str_eq t.id thread ≡ true = ground arith in (eq_iff t.id thread).0 hit

  pub archive-Writes :
      (user goal thread : String) (now : ℕ) {s' : Session} {t : ConversationThread}
      → Threads.archive s user goal thread now ≡ ok (s', t)
      → Writes s s'
  unfolding Threads.archive Threads.archived_now
  archive-Writes user goal thread now {s'} {t} h = elim parts [
    | inl q ↦ subst (Writes s) q done
    | inr (idle, q) ↦ one-Write (
        archive_thread thread (Threads.owned user goal thread) (Threads.archived_now now)
          (λ t e. (at user goal thread t e, refl)) idle q)
  ]
    where
      parts :
          (s ≡ s')
          ⊎ ((count_where (active_in thread) s.runs ≡ 0)
              × (s' ≡ record s {
                threads =
                    update_where
                      (Threads.owned user goal thread)
                      (Threads.archived_now now)
                      s.threads;
              }))
      parts = ground arith

  pub ensure_legacy-Writes :
      (user goal thread new_id : String) (now : ℕ) {s' : Session} {t : ConversationThread}
      → Threads.ensure_legacy s user goal thread new_id now ≡ ok (s', t)
      → Writes s s'
  unfolding Threads.ensure_legacy Threads.require_active
  ensure_legacy-Writes user goal thread new_id now {s'} {t} h = elim parts [
    | inl q ↦ subst (Writes s) q done
    | inr q ↦ create_with_id-Writes user goal new_id none (some thread) now q
  ]
    where
      parts :
          (s ≡ s') ⊎ (Threads.create_with_id s user goal new_id none (some thread) now ≡ ok (s', t))
      parts = ground arith

  start_parts :
      (user goal thread : String) (q : RunRequest) (now : ℕ) {s' : Session} {r : AgentRun}
      → Runs.start s user goal thread q now ≡ ok (s', r)
      → (t : ConversationThread) × (Threads.get s user goal thread ≡ some t)
        × (t.status ≡ active)
        × (count_where (active_in thread) s.runs ≡ 0)
        × (s' ≡ record s { runs = s.runs ++ (Runs.new_run user goal thread q now ∷ []) })
  unfolding Runs.start Threads.require
  start_parts user goal thread q now h = elim (Option-cases (Threads.get s user goal thread)) [
    | inl e ↦ absurd (ground arith)
    | inr (t, e) ↦ (t, e, ground arith, ground arith, ground arith)
  ]

  pub start-Writes :
      (user goal thread : String) (q : RunRequest) (now : ℕ) {s' : Session} {r : AgentRun}
      → Runs.start s user goal thread q now ≡ ok (s', r)
      → Writes s s'
  unfolding Threads.get Runs.new_run
  start-Writes user goal thread q now {s'} h =
      let (t, e, a, idle, p) = start_parts user goal thread q now h in
      let (i, o) = find_where-In (Threads.owned user goal thread) s.threads e in
      let id = at user goal thread t o in
      one-Write (
        add_run t (Runs.new_run user goal thread q now) i a (sym id)
          (subst (λ m. count_where (active_in m) s.runs ≡ 0) (sym id) idle) p)

module _ (s : Session) (user goal thread run : String) (now : ℕ) where
  finished-Writes :
      (close : AgentRun → AgentRun)
      → IsCalm (Runs.closes user goal thread run) close
      → Writes s (Runs.finished s user goal thread run now close)
  unfolding Runs.finished
  finished-Writes close calm =
      elim (Bool-cases (count_where (Runs.closes user goal thread run) s.runs == 0)) [
        | inl e ↦ one-Write (
            set_runs (Runs.cancels user goal thread run) (Runs.cancelled_at now)
              (λ r e. (ground arith, refl)) (rw e))
        | inr e ↦ one-Write (set_runs (Runs.closes user goal thread run) close calm (rw e))
      ]

  finish-Writes :
      (close : AgentRun → AgentRun) {s' : Session} {r : AgentRun}
      → IsCalm (Runs.closes user goal thread run) close
      → Runs.finish s user goal thread run now close ≡ ok (s', r)
      → Writes s s'
  unfolding Runs.finish
  finish-Writes close {s'} {r} calm h =
      subst (Writes s)
        (owned_run-same (Runs.finished s user goal thread run now close) user goal thread run h)
        (finished-Writes close calm)

  pub complete-Writes :
      (input : Option String) (output trace : String) (latency : ℤ) {s' : Session} {r : AgentRun}
      → Runs.complete s user goal thread run now input output trace latency ≡ ok (s', r)
      → Writes s s'
  unfolding Runs.complete
  complete-Writes input output trace latency h = finish-Writes _ (λ r e. (ground arith, refl)) h

  pub fail-Writes :
      (message trace : String) (latency : ℤ) {s' : Session} {r : AgentRun}
      → Runs.fail s user goal thread run now message trace latency ≡ ok (s', r)
      → Writes s s'
  unfolding Runs.fail
  fail-Writes message trace latency h = finish-Writes _ (λ r e. (ground arith, refl)) h

  updated :
      (p : AgentRun → Bool) (f : AgentRun → AgentRun) {s' : Session} {r : AgentRun}
      → IsCalm p f
      → Runs.owned_run (record s { runs = update_where p f s.runs }) user goal thread run
        ≡ ok (s', r)
      → Writes s s'
  updated p f calm h = one-Write (
      set_runs p f calm
        (sym (owned_run-same (record s { runs = update_where p f s.runs }) user goal thread run h)))

  pub request_cancel-Writes :
      {s' : Session} {r : AgentRun}
      → Runs.request_cancel s user goal thread run now ≡ ok (s', r)
      → Writes s s'
  unfolding Runs.request_cancel
  request_cancel-Writes h = updated _ _ (λ r e. (ground arith, refl)) h

  pub mark_cancelled-Writes :
      {s' : Session} {r : AgentRun}
      → Runs.mark_cancelled s user goal thread run now ≡ ok (s', r)
      → Writes s s'
  unfolding Runs.mark_cancelled
  mark_cancelled-Writes h = updated _ _ (λ r e. (ground arith, refl)) h

  pub request_cancel_for_user-Writes :
      {s' : Session} {r : AgentRun}
      → Runs.request_cancel_for_user s user run now ≡ ok (s', r)
      → Writes s s'
  unfolding Runs.request_cancel_for_user
  request_cancel_for_user-Writes {s'} {r} h = one-Write (
      set_runs (λ r. str_eq r.id run && str_eq r.user_id user && Runs.can_request_cancel r.status)
        (λ r. record r { status = cancellation_requested; cancel_requested_at = some now })
        (λ r e. (ground arith, refl)) (ground arith))
