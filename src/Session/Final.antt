-- ===== src/Session/Final.antt =====
-- Rows that no later write changes: closed approvals and ended runs.
use learning_system.Prelude.{
  ◌≡◌, refl, sym, ap, subst, ◌⊎◌, inl, inr, Bool, true, false, List, arith, eq_iff, Bool-cases, In,
  update_where, with_key, row_of_key, In-update_miss, In-append_left,
}
use learning_system.Session.{
  Session, AgentRun, UserToolApproval, ApprovalStatus, rejected, executing, completed, failed,
  unknown, is_active,
}
use learning_system.Session.Writes.{
  IsCalm, Moves, approve, reject, strand, Write, add_thread, archive_thread, add_run, set_runs,
  add_approval, set_approvals, close,
}
use learning_system.Session.Once.{IsOnce, id_of}

abbrev pub is_closed : ApprovalStatus → Bool
is_closed rejected = true
is_closed completed = true
is_closed failed = true
is_closed unknown = true
is_closed _ = false

Moves-open : {a b : ApprovalStatus} → Moves a b → is_closed a ≡ false
Moves-open approve = refl
Moves-open reject = refl
Moves-open strand = refl

set_approvals-keeps :
    (s : Session) (p : UserToolApproval → Bool) (f : UserToolApproval → UserToolApproval)
    (a : UserToolApproval)
    → ((b : UserToolApproval)
        → In b s.approvals
        → p b ≡ true
        → ((f b).id ≡ b.id) × Moves b.status (f b).status)
    → In a s.approvals
    → is_closed a.status ≡ true
    → In a (update_where p f s.approvals)
set_approvals-keeps s p f a moves i e = In-update_miss p f i (untouched (Bool-cases (p a)))
  where
    untouched : ((p a ≡ true) ⊎ (p a ≡ false)) → p a ≡ false
    untouched (inr h) = h
    untouched (inl h) = let open_a = Moves-open (moves a i h).1 in cc

close-keeps :
    (s : Session) (b : UserToolApproval) (f : UserToolApproval → UserToolApproval)
    (a : UserToolApproval)
    → IsOnce s
    → In b s.approvals
    → b.status ≡ executing
    → In a s.approvals
    → is_closed a.status ≡ true
    → In a (update_where (with_key id_of b.id) f s.approvals)
close-keeps s b f a v j x i e =
    In-update_miss (with_key id_of b.id) f i (untouched (Bool-cases (with_key id_of b.id a)))
  where
    untouched :
        ((with_key id_of b.id a ≡ true) ⊎ (with_key id_of b.id a ≡ false))
        → with_key id_of b.id a ≡ false
    untouched (inr h) = h
    untouched (inl h) =
        let same : a ≡ b =
          row_of_key id_of s.approvals v.approval_ids i j ((eq_iff a.id b.id).0 h) in
        let status : a.status ≡ b.status = ap (λ (d : UserToolApproval). d.status) same in
        absurd (ground arith)

-- A closed approval stays in the table as it is.
pub Write-keeps_approval :
    (a : UserToolApproval) (s t : Session)
    → Write s t
    → IsOnce s
    → is_closed a.status ≡ true
    → In a s.approvals
    → In a t.approvals
Write-keeps_approval a s t (add_thread u fresh h q) v e i =
    subst (λ (r : Session). In a r.approvals) (sym q) i
Write-keeps_approval a s t (archive_thread thread p f same idle q) v e i =
    subst (λ (r : Session). In a r.approvals) (sym q) i
Write-keeps_approval a s t (add_run u r j h x idle q) v e i =
    subst (λ (r : Session). In a r.approvals) (sym q) i
Write-keeps_approval a s t (set_runs p f calm q) v e i =
    subst (λ (r : Session). In a r.approvals) (sym q) i
Write-keeps_approval a s t (add_approval b fresh h q) v e i =
    subst (λ (r : Session). In a r.approvals) (sym q) (In-append_left s.approvals _ i)
Write-keeps_approval a s t (set_approvals p f moves q) v e i =
    subst (λ (r : Session). In a r.approvals) (sym q) (set_approvals-keeps s p f a moves i e)
Write-keeps_approval a s t (close b f j x closes q) v e i =
    subst (λ (r : Session). In a r.approvals) (sym q) (close-keeps s b f a v j x i e)

set_runs-keeps :
    (p : AgentRun → Bool) (f : AgentRun → AgentRun) (r : AgentRun) (runs : List AgentRun)
    → IsCalm p f
    → In r runs
    → is_active r.status ≡ false
    → In r (update_where p f runs)
set_runs-keeps p f r runs calm i e = In-update_miss p f i (untouched (Bool-cases (p r)))
  where
    untouched : ((p r ≡ true) ⊎ (p r ≡ false)) → p r ≡ false
    untouched (inr h) = h
    untouched (inl h) = let live = (calm r h).0 in cc

-- So does a run that has ended.
pub Write-keeps_run :
    (r : AgentRun) (s t : Session)
    → Write s t
    → is_active r.status ≡ false
    → In r s.runs
    → In r t.runs
Write-keeps_run r s t (set_runs p f calm q) e i =
    subst (λ (u : Session). In r u.runs) (sym q) (set_runs-keeps p f r s.runs calm i e)
Write-keeps_run r s t (add_run u n j h x idle q) e i =
    subst (λ (u : Session). In r u.runs) (sym q) (In-append_left s.runs _ i)
Write-keeps_run r s t (add_thread u fresh h q) e i = subst (λ (u : Session). In r u.runs) (sym q) i
Write-keeps_run r s t (archive_thread thread p f same idle q) e i =
    subst (λ (u : Session). In r u.runs) (sym q) i
Write-keeps_run r s t (add_approval b fresh h q) e i =
    subst (λ (u : Session). In r u.runs) (sym q) i
Write-keeps_run r s t (set_approvals p f moves q) e i =
    subst (λ (u : Session). In r u.runs) (sym q) i
Write-keeps_run r s t (close b f j x closes q) e i = subst (λ (u : Session). In r u.runs) (sym q) i
