-- ===== src/Session/Consistency.antt =====
-- Threads and runs: at most one active run in a thread, and none in an archived one.
use learning_system.Prelude.{
  ◌≤◌, String, ◌≡◌, sym, ap, ◌∙◌, subst, ◌⊎◌, inl, inr, Bool, true, false, List, [], ◌∷◌, ◌++◌,
  arith, str_eq, eq_iff, count-snoc, In, here, there, update_where, count_where, count-update_le,
  count-update_eq, In-update, In-append, with_key, HasUniqueKeys, row_of_key,
}
use learning_system.Session.{
  Session, ConversationThread, AgentRun, UserToolApproval, active, archived, active_in,
}
use learning_system.Session.Writes.{
  IsCalm, Write, add_thread, archive_thread, add_run, set_runs, add_approval, set_approvals, close,
}

pub record IsConsistent (s : Session) : Type 0 where
  pub thread_ids : HasUniqueKeys (λ (t : ConversationThread). t.id) s.threads
  pub one_active : (k : String) → count_where (active_in k) s.runs ≤ 1
  pub archived_idle :
      (t : ConversationThread)
      → In t s.threads
      → t.status ≡ archived
      → count_where (active_in t.id) s.runs ≡ 0

set_runs-IsConsistent :
    (s : Session) (p : AgentRun → Bool) (f : AgentRun → AgentRun)
    → IsCalm p f
    → IsConsistent s
    → IsConsistent (record s { runs = update_where p f s.runs })
set_runs-IsConsistent s p f calm v = record {
  thread_ids = v.thread_ids;
  one_active = λ k. omega (arith, v.one_active k, fewer k);
  archived_idle = λ t i e. omega (arith, v.archived_idle t i e, fewer t.id);
}
  where
    fewer :
        (k : String)
        → count_where (active_in k) (update_where p f s.runs) ≤ count_where (active_in k) s.runs
    fewer k = count-update_le (active_in k) p f s.runs λ r e q. ground (arith, calm r e)

module _ (s : Session) (t : ConversationThread) (r : AgentRun) (i : In t s.threads)
    (a : t.status ≡ active) (e : r.thread_id ≡ t.id)
    (idle : count_where (active_in t.id) s.runs ≡ 0) where
  idle_at : (k : String) → str_eq r.thread_id k ≡ true → count_where (active_in k) s.runs ≡ 0
  idle_at k same =
      subst (λ m. count_where (active_in m) s.runs ≡ 0) (sym e ∙ (eq_iff r.thread_id k).0 same) idle

  not_archived :
      (u : ConversationThread)
      → HasUniqueKeys (λ (w : ConversationThread). w.id) s.threads
      → In u s.threads
      → u.status ≡ archived
      → ¬ (str_eq r.thread_id u.id ≡ true)
  not_archived u ids j f same =
      let u_is_t : u ≡ t =
        row_of_key (λ (w : ConversationThread). w.id) s.threads ids j i
          (sym ((eq_iff r.thread_id u.id).0 same) ∙ e) in
      let both : archived ≡ active = sym f ∙ ap (λ (w : ConversationThread). w.status) u_is_t ∙ a in
      cc

  add_run-IsConsistent : IsConsistent s → IsConsistent (record s { runs = s.runs ++ (r ∷ []) })
  add_run-IsConsistent v = record {
    thread_ids = v.thread_ids;
    one_active = λ k. ground (arith, count-snoc (active_in k) s.runs r, v.one_active k, idle_at k);
    archived_idle = λ u j f. ground (
      arith,
      count-snoc (active_in u.id) s.runs r,
      v.archived_idle u j f,
      not_archived u v.thread_ids j f,
    );
  }

archive_thread-IsConsistent :
    (s : Session) (thread : String) (p : ConversationThread → Bool)
    (f : ConversationThread → ConversationThread)
    → ((t : ConversationThread) → p t ≡ true → (t.id ≡ thread) × ((f t).id ≡ t.id))
    → count_where (active_in thread) s.runs ≡ 0
    → IsConsistent s
    → IsConsistent (record s { threads = update_where p f s.threads })
archive_thread-IsConsistent s thread p f same idle v = record {
  thread_ids = λ k. omega (
    arith,
    v.thread_ids k,
    count-update_eq (with_key (λ (w : ConversationThread). w.id) k) p f s.threads
        (λ w e. ap (λ m. str_eq m k) (same w e).1),
  );
  one_active = v.one_active;
  archived_idle = λ t i e. from (In-update p f s.threads i) e;
}
  where
    from :
        {t : ConversationThread}
        → ((b : ConversationThread) × In b s.threads
            × (((p b ≡ true) × (t ≡ f b)) ⊎ ((p b ≡ false) × (t ≡ b))))
        → t.status ≡ archived
        → count_where (active_in t.id) s.runs ≡ 0
    from {t} (b, j, inl (o, q)) e =
        let id : thread ≡ t.id =
          sym (ap (λ (w : ConversationThread). w.id) q ∙ (same b o).1 ∙ (same b o).0) in
        subst (λ m. count_where (active_in m) s.runs ≡ 0) id idle
    from {t} (b, j, inr (o, q)) e =
        subst (λ (w : ConversationThread). count_where (active_in w.id) s.runs ≡ 0) (sym q)
          (v.archived_idle b j (sym (ap (λ (w : ConversationThread). w.status) q) ∙ e))

add_thread-IsConsistent :
    (s : Session) (t : ConversationThread)
    → count_where (with_key (λ (u : ConversationThread). u.id) t.id) s.threads ≡ 0
    → t.status ≡ active
    → IsConsistent s
    → IsConsistent (record s { threads = s.threads ++ (t ∷ []) })
add_thread-IsConsistent s t fresh a v = record {
  thread_ids = λ k. ground (
    arith,
    count-snoc (with_key (λ (u : ConversationThread). u.id) k) s.threads t,
    v.thread_ids k,
    fresh_at k,
  );
  one_active = v.one_active;
  archived_idle = λ u i e. elim (In-append s.threads (t ∷ []) i) [
    | inl j ↦ v.archived_idle u j e
    | inr j ↦ absurd (only t u j a e)
  ];
}
  where
    fresh_at :
        (k : String)
        → str_eq t.id k ≡ true
        → count_where (with_key (λ (u : ConversationThread). u.id) k) s.threads ≡ 0
    fresh_at k same =
        subst (λ m. count_where (with_key (λ (u : ConversationThread). u.id) m) s.threads ≡ 0)
          ((eq_iff t.id k).0 same) fresh

    only : (t u : ConversationThread) → In u (t ∷ []) → t.status ≡ active → ¬ (u.status ≡ archived)
    only t u here a e = cc
    only t u (there i) a e = elim i [ ]

-- Approvals and calls are not looked at.
others :
    (s : Session)
    → IsConsistent s
    → (rows : List UserToolApproval) (calls : List String)
    → IsConsistent (record s { approvals = rows; invoked = calls })
others s v rows calls = record {
  thread_ids = v.thread_ids;
  one_active = v.one_active;
  archived_idle = v.archived_idle;
}

pub Write-IsConsistent : (s t : Session) → Write s t → IsConsistent s → IsConsistent t
Write-IsConsistent s t (add_thread u fresh a q) v =
    subst IsConsistent (sym q) (add_thread-IsConsistent s u fresh a v)
Write-IsConsistent s t (archive_thread thread p f same idle q) v =
    subst IsConsistent (sym q) (archive_thread-IsConsistent s thread p f same idle v)
Write-IsConsistent s t (add_run u r i a e idle q) v =
    subst IsConsistent (sym q) (add_run-IsConsistent s u r i a e idle v)
Write-IsConsistent s t (set_runs p f calm q) v =
    subst IsConsistent (sym q) (set_runs-IsConsistent s p f calm v)
Write-IsConsistent s t (add_approval a fresh e q) v = subst IsConsistent (sym q) (others s v _ _)
Write-IsConsistent s t (set_approvals p f moves q) v = subst IsConsistent (sym q) (others s v _ _)
Write-IsConsistent s t (close a f i e closes q) v = subst IsConsistent (sym q) (others s v _ _)
