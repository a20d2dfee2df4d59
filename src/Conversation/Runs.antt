-- ===== src/Conversation/Runs.antt =====
-- SQLAlchemyAgentRunRepository of conversation_repository.py.
use learning_system.Prelude.{
  ℕ, String, Bool, true, false, not, ◌&&◌, ◌||◌, Option, none, some, [], ◌∷◌, ◌++◌, str_eq, ◌==◌,
  if◌then◌else◌, Result, ok, err, ◌>>=◌, ◌>>◌, refuse, find_where, update_where, count_where, ℤ,
  pos_part,
}
use learning_system.Session.{
  Session, AgentRun, RunStatus, running, awaiting_approval, cancellation_requested, success, failed,
  cancelled, active_in, ServiceError, active_run_conflict, run_not_found,
}
use learning_system.Conversation.Threads.{require}

-- _owned_filters
abbrev pub owned : String → String → String → String → AgentRun → Bool
owned user goal thread run r =
    str_eq r.id run && str_eq r.user_id user && str_eq r.goal_id goal && str_eq r.thread_id thread

-- AgentRun.status == …, and the sets of `status.in_`
abbrev pub is_running : RunStatus → Bool
is_running running = true
is_running _ = false

abbrev pub is_cancellation_requested : RunStatus → Bool
is_cancellation_requested cancellation_requested = true
is_cancellation_requested _ = false

abbrev pub can_request_cancel : RunStatus → Bool
can_request_cancel running = true
can_request_cancel awaiting_approval = true
can_request_cancel _ = false

abbrev pub can_cancel : RunStatus → Bool
can_cancel running = true
can_cancel awaiting_approval = true
can_cancel cancellation_requested = true
can_cancel _ = false

-- _owned_run, as the record that the method returns
unfoldable pub owned_run :
    Session → String → String → String → String → Result ServiceError (Session × AgentRun)
owned_run s user goal thread run = elim (find_where (owned user goal thread run) s.runs) [
  | none ↦ err run_not_found
  | some r ↦ ok (s, r)
]

unfoldable pub get : Session → String → String → String → String → Option AgentRun
get s user goal thread run = find_where (owned user goal thread run) s.runs

-- What a caller gives to start a run; `run_id` is the new identifier.
pub record RunRequest : Type 0 where
  pub run_id : String
  pub correlation_id : String
  pub request_hash : String
  pub graph_name : String
  pub graph_version : String
  pub trigger_type : String
  pub input_snapshot : String

unfoldable pub new_run : String → String → String → RunRequest → ℕ → AgentRun
new_run user goal thread q now = record {
  id = q.run_id;
  user_id = user;
  goal_id = goal;
  thread_id = thread;
  correlation_id = q.correlation_id;
  request_hash = q.request_hash;
  graph_name = q.graph_name;
  graph_version = q.graph_version;
  trigger_type = q.trigger_type;
  input_snapshot = q.input_snapshot;
  output_snapshot = "{}";
  node_trace = "[]";
  status = running;
  latency_ms = 0;
  error_message = none;
  started_at = now;
  completed_at = none;
  cancel_requested_at = none;
  cancelled_at = none;
}

-- The unique columns that may refuse the row: the primary key and the correlation.
unfoldable pub has_conflict : Session → RunRequest → Bool
has_conflict s q = not (
    count_where (λ r. str_eq r.id q.run_id || str_eq r.correlation_id q.correlation_id) s.runs == 0)

unfoldable pub start :
    Session → String → String → String → RunRequest → ℕ → Result ServiceError (Session × AgentRun)
unfolding new_run has_conflict
start s user goal thread q now = do
  require s user goal thread true >>= λ _. ok tt
  refuse (not (count_where (active_in thread) s.runs == 0)) active_run_conflict
  refuse (has_conflict s q) active_run_conflict
  ok (
    record s { runs = s.runs ++ (new_run user goal thread q now ∷ []) },
    new_run user goal thread q now,
  )

-- _finish: only a running run takes the terminal status; a run whose cancellation was requested is
-- cancelled instead, and any other run is left as it is.
abbrev pub closes : String → String → String → String → AgentRun → Bool
closes user goal thread run r = owned user goal thread run r && is_running r.status

abbrev pub cancels : String → String → String → String → AgentRun → Bool
cancels user goal thread run r = owned user goal thread run r && is_cancellation_requested r.status

abbrev pub cancelled_at : ℕ → AgentRun → AgentRun
cancelled_at now r = record r {
  status = cancelled;
  cancelled_at = some now;
  completed_at = some now;
}

unfoldable pub finished :
    Session → String → String → String → String → ℕ → (AgentRun → AgentRun) → Session
finished s user goal thread run now close =
    if count_where (closes user goal thread run) s.runs == 0
    then record s { runs = update_where (cancels user goal thread run) (cancelled_at now) s.runs }
    else record s { runs = update_where (closes user goal thread run) close s.runs }

unfoldable pub finish :
    Session
    → String
    → String
    → String
    → String
    → ℕ
    → (AgentRun → AgentRun)
    → Result ServiceError (Session × AgentRun)
unfolding owned_run
finish s user goal thread run now close =
    owned_run (finished s user goal thread run now close) user goal thread run

unfoldable pub complete :
    Session
    → String
    → String
    → String
    → String
    → ℕ
    → Option String
    → String
    → String
    → ℤ
    → Result ServiceError (Session × AgentRun)
unfolding finish
complete s user goal thread run now input output trace latency =
    finish s user goal thread run now λ r. record r {
      status = success;
      completed_at = some now;
      output_snapshot = output;
      node_trace = trace;
      latency_ms = pos_part latency;
      error_message = none;
      input_snapshot = elim input [ none ↦ r.input_snapshot | some i ↦ i ];
    }

unfoldable pub fail :
    Session
    → String
    → String
    → String
    → String
    → ℕ
    → String
    → String
    → ℤ
    → Result ServiceError (Session × AgentRun)
unfolding finish
fail s user goal thread run now message trace latency = finish s user goal thread run now λ r.
    record r {
      status = failed;
      completed_at = some now;
      node_trace = trace;
      latency_ms = pos_part latency;
      error_message = some message;
    }

unfoldable pub request_cancel :
    Session → String → String → String → String → ℕ → Result ServiceError (Session × AgentRun)
unfolding owned_run
request_cancel s user goal thread run now =
    let s' : Session = record s {
      runs =
          update_where (λ r. owned user goal thread run r && can_request_cancel r.status)
            (λ r. record r { status = cancellation_requested; cancel_requested_at = some now })
            s.runs;
    } in
    owned_run s' user goal thread run

unfoldable pub request_cancel_for_user :
    Session → String → String → ℕ → Result ServiceError (Session × AgentRun)
request_cancel_for_user s user run now =
    let s' : Session = record s {
      runs =
          update_where
            (λ r. str_eq r.id run && str_eq r.user_id user && can_request_cancel r.status)
            (λ r. record r { status = cancellation_requested; cancel_requested_at = some now })
            s.runs;
    } in
    elim (find_where (λ r. str_eq r.id run && str_eq r.user_id user) s'.runs) [
      | none ↦ err run_not_found
      | some r ↦ ok (s', r)
    ]

unfoldable pub is_cancel_requested :
    Session → String → String → String → String → Result ServiceError Bool
is_cancel_requested s user goal thread run = elim (find_where (owned user goal thread run) s.runs) [
  | none ↦ err run_not_found
  | some r ↦ ok (elim r.cancel_requested_at [
    | some _ ↦ true
    | none ↦ elim r.status [ cancellation_requested ↦ true | cancelled ↦ true | _ ↦ false ]
  ])
]

unfoldable pub mark_cancelled :
    Session → String → String → String → String → ℕ → Result ServiceError (Session × AgentRun)
unfolding owned_run
mark_cancelled s user goal thread run now =
    let s' : Session = record s {
      runs =
          update_where (λ r. owned user goal thread run r && can_cancel r.status)
            (λ r. record r {
              status = cancelled;
              cancel_requested_at = elim r.cancel_requested_at [
                | none ↦ some now
                | some t ↦ some t
              ];
              cancelled_at = some now;
              completed_at = some now;
            })
            s.runs;
    } in
    owned_run s' user goal thread run
