-- ===== src/Approval/Recovery.antt =====
-- `recover_stranded_tool_approvals` of tool_approval_service.py, after a crash.
use learning_system.Prelude.{
  ℕ, ◌≡◌, refl, sym, ap, ◌∙◌, subst, ◌≢◌, ◌⊎◌, inl, inr, true, false, ◌&&◌, some, List, [], ◌∷◌,
  arith, str_eq, eq_iff, filter_by, In, here, there, In-update, with_key, HasUniqueKeys, row_of_key,
  count-filter_by, In-filter_by, filter_by-In, In-cons, HasUniqueKeys-tail, not-In-tail,
}
use learning_system.Session.{Session, failed, UserToolApproval, executing, unknown, unknown_outcome}
use learning_system.Session.Writes
use learning_system.Session.Writes.{
  Moves, Write, set_runs, set_approvals, Writes, done, one-Write, Writes-trans,
}
use learning_system.Session.Once.{IsOnce, id_of}
use learning_system.Approval.{
  is_executing, is_recoverable, recover_one, recover_all, recover_stranded_tool_approvals,
}

stranded_now : ℕ → UserToolApproval → UserToolApproval
stranded_now now b = record b {
  status = unknown;
  completed_at = some now;
  result_summary_json = unknown_outcome;
}

-- Every row under the identifier of a listed approval is executing.
abbrev Executing : List UserToolApproval → Session → Type 0
Executing l s =
    (a b : UserToolApproval) → In a l → In b s.approvals → b.id ≡ a.id → b.status ≡ executing

recover_one-Writes :
    (now : ℕ) (s : Session) (a : UserToolApproval)
    → ((b : UserToolApproval) → In b s.approvals → b.id ≡ a.id → b.status ≡ executing)
    → Writes s (recover_one now s a)
unfolding recover_one
recover_one-Writes now s a h =
    Writes-trans
      (one-Write (
        set_approvals (with_key id_of a.id)
          (λ b. record b {
            status = unknown;
            completed_at = some now;
            result_summary_json = unknown_outcome;
          })
          (λ b i e. (refl, rw (h b i ((eq_iff b.id a.id).0 e)) Writes.strand)) refl))
      (one-Write (
        set_runs (λ r. str_eq r.id a.run_id && is_recoverable r.status)
          (λ r. record r {
            status = failed;
            error_message = some "mcp.execution_unknown";
            completed_at = some now;
          })
          (λ r e. (ground arith, refl)) refl))

-- A row after one round is a row from before with another identifier, or it is not executing.
recover_one-rows :
    (now : ℕ) (s : Session) (a b : UserToolApproval)
    → In b (recover_one now s a).approvals
    → ((b.id ≡ a.id) × (b.status ≡ unknown)) ⊎ (In b s.approvals × ¬ (b.id ≡ a.id))
unfolding recover_one
recover_one-rows now s a b i = from (In-update _ _ s.approvals i)
  where
    from :
        ((c : UserToolApproval) × In c s.approvals
          × (((with_key id_of a.id c ≡ true)
                × (b ≡ record c {
                  status = unknown;
                  completed_at = some now;
                  result_summary_json = unknown_outcome;
                }))
              ⊎ ((with_key id_of a.id c ≡ false) × (b ≡ c))))
        → ((b.id ≡ a.id) × (b.status ≡ unknown)) ⊎ (In b s.approvals × ¬ (b.id ≡ a.id))
    from (c, j, inl (e, q)) =
        inl (ap id_of q ∙ (eq_iff c.id a.id).0 e, ap (λ (d : UserToolApproval). d.status) q)
    from (c, j, inr (e, q)) = inr (
      subst (λ d. In d s.approvals) (sym q) j,
      λ same. let hit = (eq_iff c.id a.id).1 (sym (ap id_of q) ∙ same) in cc,
    )

recover_all-Writes :
    (now : ℕ) (s : Session) (l : List UserToolApproval)
    → HasUniqueKeys id_of l
    → Executing l s
    → Writes s (recover_all now s l)
unfolding recover_all
recover_all-Writes now s [] u h = done
recover_all-Writes now s (a ∷ rest) u h =
    Writes-trans (recover_one-Writes now s a (λ b. h a b here)) (
      recover_all-Writes now (recover_one now s a) rest (HasUniqueKeys-tail id_of a rest u)
        (λ c b i j e. elim (recover_one-rows now s a b j) [
          | inl (same, _) ↦ absurd (not-In-tail id_of a rest u i (sym same ∙ e))
          | inr (k, _) ↦ h c b (there i) k e
        ]))

module _ (s : Session) (v : IsOnce s) (now : ℕ) where
  stranded_unique : HasUniqueKeys id_of (filter_by (λ a. is_executing a.status) s.approvals)
  stranded_unique k = omega (
    arith,
    v.approval_ids k,
    count-filter_by (with_key id_of k) (λ a. is_executing a.status) s.approvals,
  )

  pub recover-Writes : Writes s (recover_stranded_tool_approvals s now).0
  unfolding recover_stranded_tool_approvals
  recover-Writes = recover_all-Writes now s _ stranded_unique λ a b i j e.
      let (k, h) = In-filter_by (λ (c : UserToolApproval). is_executing c.status) s.approvals i in
      let same : b ≡ a = row_of_key id_of s.approvals v.approval_ids j k e in ground arith

none_executing :
    (now : ℕ) (s : Session) (l : List UserToolApproval)
    → ((b : UserToolApproval) → In b s.approvals → b.status ≡ executing → In b l)
    → (b : UserToolApproval) → In b (recover_all now s l).approvals
    → b.status ≢ executing
unfolding recover_all
none_executing now s [] h b i e = elim (h b i e) [ ]
none_executing now s (a ∷ rest) h b i e =
    none_executing now (recover_one now s a) rest
      (λ c j x. elim (recover_one-rows now s a c j) [
        | inl (_, dead) ↦ absurd (ground arith)
        | inr (k, other) ↦ elim (In-cons (h c k x)) [
          | inl same ↦ absurd (other (ap id_of same))
          | inr m ↦ m
        ]
      ])
      b i e

-- After a recovery no approval is executing.
pub recover-none_executing :
    (s : Session) (now : ℕ) (b : UserToolApproval)
    → In b (recover_stranded_tool_approvals s now).0.approvals
    → b.status ≢ executing
unfolding recover_stranded_tool_approvals
recover-none_executing s now =
    none_executing now s _
      λ b i e. filter_by-In (λ (c : UserToolApproval). is_executing c.status) i (rw e)
