-- ===== src/Session/Writes.antt =====
-- The contract of the session: the only ways in which the services of this program change its rows.
use learning_system.Prelude.{
  String, ◌≡◌, Bool, true, [], ◌∷◌, ◌++◌, In, update_where, count_where, with_key,
}
use learning_system.Session.{
  Session, ConversationThread, AgentRun, UserToolApproval, active, is_active, active_in,
  ApprovalStatus, pending, rejected, executing, completed, failed, unknown,
}

-- Runs are changed only while they are active, and stay in their thread.
abbrev pub IsCalm : (AgentRun → Bool) → (AgentRun → AgentRun) → Type 0
IsCalm p f =
    (r : AgentRun) → p r ≡ true → (is_active r.status ≡ true) × ((f r).thread_id ≡ r.thread_id)

-- The life of an approval; the step from `executing` that follows a call stands apart, in `close`.
pub data Moves : ApprovalStatus → ApprovalStatus → Type 0 where
  approve : Moves pending executing
  reject : Moves pending rejected
  strand : Moves executing unknown

pub data Closes : ApprovalStatus → Type 0 where
  by_value : Closes completed
  by_error : Closes failed

pub data Write (s s' : Session) : Type 0 where
  add_thread :
      (t : ConversationThread)
      → count_where (with_key (λ (u : ConversationThread). u.id) t.id) s.threads ≡ 0
      → t.status ≡ active
      → s' ≡ record s { threads = s.threads ++ (t ∷ []) }
      → Write s s'
  archive_thread :
      (thread : String) (p : ConversationThread → Bool)
      (f : ConversationThread → ConversationThread)
      → ((t : ConversationThread) → p t ≡ true → (t.id ≡ thread) × ((f t).id ≡ t.id))
      → count_where (active_in thread) s.runs ≡ 0
      → s' ≡ record s { threads = update_where p f s.threads }
      → Write s s'
  add_run :
      (t : ConversationThread) (r : AgentRun)
      → In t s.threads
      → t.status ≡ active
      → r.thread_id ≡ t.id
      → count_where (active_in t.id) s.runs ≡ 0
      → s' ≡ record s { runs = s.runs ++ (r ∷ []) }
      → Write s s'
  set_runs :
      (p : AgentRun → Bool) (f : AgentRun → AgentRun)
      → IsCalm p f
      → s' ≡ record s { runs = update_where p f s.runs }
      → Write s s'
  add_approval :
      (a : UserToolApproval)
      → count_where (with_key (λ (b : UserToolApproval). b.id) a.id) s.approvals ≡ 0
      → a.status ≡ pending
      → s' ≡ record s { approvals = s.approvals ++ (a ∷ []) }
      → Write s s'
  set_approvals :
      (p : UserToolApproval → Bool) (f : UserToolApproval → UserToolApproval)
      → ((a : UserToolApproval)
          → In a s.approvals
          → p a ≡ true
          → ((f a).id ≡ a.id) × Moves a.status (f a).status)
      → s' ≡ record s { approvals = update_where p f s.approvals }
      → Write s s'
  close :
      (a : UserToolApproval) (f : UserToolApproval → UserToolApproval)
      → In a s.approvals
      → a.status ≡ executing
      → ((b : UserToolApproval) → ((f b).id ≡ b.id) × Closes (f b).status)
      → s' ≡ record s {
        approvals = update_where (with_key (λ (b : UserToolApproval). b.id) a.id) f s.approvals;
        invoked = a.id ∷ s.invoked;
      }
      → Write s s'

pub data Writes (s : Session) : Session → Type 0 where
  done : Writes s s
  more : {t u : Session} → Writes s t → Write t u → Writes s u

pub one-Write : {s t : Session} → Write s t → Writes s t
one-Write w = more done w

pub Writes-trans : {s t u : Session} → Writes s t → Writes t u → Writes s u
Writes-trans a done = a
Writes-trans a (more b w) = more (Writes-trans a b) w

-- What each write keeps, a history of writes keeps.
pub Writes-keep :
    (P : Session → Type 0)
    → ((s t : Session) → Write s t → P s → P t)
    → {s t : Session} → Writes s t
    → P s
    → P t
Writes-keep P step done h = h
Writes-keep P step (more ws w) h = step _ _ w (Writes-keep P step ws h)
