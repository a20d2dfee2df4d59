-- ===== src/Conversation/Threads.antt =====
-- SQLAlchemyConversationRepository of conversation_repository.py. A method returns the session and
-- its result; one that raises has written nothing.
use learning_system.Prelude.{
  ℕ, String, Bool, false, not, ◌&&◌, Option, none, some, [], ◌∷◌, ◌++◌, str_eq, ◌==◌, if◌then◌else◌,
  Result, ok, err, ◌>>=◌, ◌>>◌, refuse, Text, is_empty, strip, find_where, update_where,
  count_where, with_key,
}
use learning_system.Session.{
  Session, ConversationThread, active, archived, active_in, is_active_thread, ServiceError,
  conversation_not_found, thread_archived, active_run_conflict, integrity_error,
}

-- WHERE id, user_id, goal_id
abbrev pub owned : String → String → String → ConversationThread → Bool
owned user goal thread t = str_eq t.id thread && str_eq t.user_id user && str_eq t.goal_id goal

abbrev option_eq : Option String → String → Bool
option_eq none k = false
option_eq (some j) k = str_eq j k

abbrev pub legacy : String → String → String → ConversationThread → Bool
legacy user goal key t =
    str_eq t.user_id user && str_eq t.goal_id goal && option_eq t.legacy_key key

abbrev or_fail {ℓ} : {A : Type ℓ} → Option A → ServiceError → Result ServiceError A
or_fail none e = err e
or_fail (some a) e = ok a

-- title.strip() if title and title.strip() else None
abbrev clean_title : Option Text → Option Text
clean_title none = none
clean_title (some t) = if is_empty (strip t) then none else some (strip t)

unfoldable pub get : Session → String → String → String → Option ConversationThread
get s user goal thread = find_where (owned user goal thread) s.threads

unfoldable pub find_legacy : Session → String → String → String → Option ConversationThread
find_legacy s user goal key = find_where (legacy user goal key) s.threads

-- `session.add` and `flush`: the primary key and the constraint on legacy keys may refuse the row.
unfoldable pub insert_thread : Session → ConversationThread → Option Session
insert_thread s t =
    if not (count_where (with_key (λ u. u.id) t.id) s.threads == 0)
    then none
    else if elim t.legacy_key [
      | none ↦ false
      | some key ↦ not (count_where (legacy t.user_id t.goal_id key) s.threads == 0)
    ]
    then none
    else some (record s { threads = s.threads ++ (t ∷ []) })

unfoldable pub create_with_id :
    Session
    → String
    → String
    → String
    → Option Text
    → Option String
    → ℕ
    → Result ServiceError (Session × ConversationThread)
unfolding insert_thread
create_with_id s user goal thread title key now =
    let t : ConversationThread = record {
      id = thread;
      user_id = user;
      goal_id = goal;
      legacy_key = key;
      title = clean_title title;
      status = active;
      created_at = now;
      updated_at = now;
      archived_at = none;
    } in
    if count_where (λ g. str_eq g.id goal && str_eq g.user_id user) s.goals == 0
    then err conversation_not_found
    else elim (insert_thread s t) [ none ↦ err integrity_error | some s' ↦ ok (s', t) ]

unfoldable pub create :
    Session
    → String
    → String
    → Option Text
    → String
    → ℕ
    → Result ServiceError (Session × ConversationThread)
unfolding create_with_id
create s user goal title new_id now = create_with_id s user goal new_id title none now

unfoldable pub require_active :
    Session → ConversationThread → Result ServiceError (Session × ConversationThread)
require_active s t = if is_active_thread t.status then ok (s, t) else err thread_archived

unfoldable pub ensure_legacy :
    Session
    → String
    → String
    → String
    → String
    → ℕ
    → Result ServiceError (Session × ConversationThread)
unfolding get find_legacy create_with_id require_active
ensure_legacy s user goal thread new_id now = elim (get s user goal thread) [
  | some t ↦ require_active s t
  | none ↦ elim (find_legacy s user goal thread) [
    | some t ↦ require_active s t
    | none ↦ elim (create_with_id s user goal new_id none (some thread) now) [
      | ok made ↦ ok made
      | err integrity_error ↦ elim (find_legacy s user goal thread) [
        | none ↦ err conversation_not_found
        | some t ↦ require_active s t
      ]
      | err e ↦ err e
    ]
  ]
]

unfoldable pub require :
    Session → String → String → String → Bool → Result ServiceError ConversationThread
unfolding get
require s user goal thread active_only = do
  t ← or_fail (get s user goal thread) conversation_not_found
  refuse (active_only && not (is_active_thread t.status)) thread_archived
  ok t

unfoldable pub archived_now : ℕ → ConversationThread → ConversationThread
archived_now now t = record t { status = archived; archived_at = some now; updated_at = now }

unfoldable pub archive :
    Session → String → String → String → ℕ → Result ServiceError (Session × ConversationThread)
unfolding get archived_now
archive s user goal thread now = elim (get s user goal thread) [
  | none ↦ err conversation_not_found
  | some t ↦
      if not (is_active_thread t.status)
      then ok (s, t)
      else if not (count_where (active_in thread) s.runs == 0)
      then err active_run_conflict
      else ok (
        record s { threads = update_where (owned user goal thread) (archived_now now) s.threads },
        archived_now now t,
      )
]
