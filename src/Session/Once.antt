-- ===== src/Session/Once.antt =====
-- Approvals: how often the tool behind each has been called.
use learning_system.Prelude.{
  ℕ, ◌≤◌, String, ◌≡◌, refl, sym, ap, ◌∙◌, subst, ◌⊎◌, inl, inr, Bool, true, false, List, [], ◌∷◌,
  ◌++◌, arith, str_eq, eq_iff, eq_refl, Option-cases, count-snoc, In, here, there, find_where,
  update_where, count_where, find_where-In, count-none, count-In, In-update, In-append, with_key,
  HasUniqueKeys, count-update_eq_In,
}
use learning_system.Session.{
  Session, ConversationThread, AgentRun, UserToolApproval, ApprovalStatus, pending, executing,
  completed, failed, unknown,
}
use learning_system.Session.Writes.{
  Moves, approve, reject, strand, Closes, by_value, by_error, Write, add_thread, archive_thread,
  add_run, set_runs, add_approval, set_approvals, close,
}

abbrev pub calls : String → List String → ℕ
calls k = count_where (λ j. str_eq j k)

-- A call is on record only behind an approval that is closed.
abbrev pub budget : ApprovalStatus → ℕ
budget completed = 1
budget failed = 1
budget unknown = 1
budget _ = 0

abbrev pub id_of : UserToolApproval → String
id_of a = a.id

pub record IsOnce (s : Session) : Type 0 where
  pub approval_ids : HasUniqueKeys id_of s.approvals
  pub within_budget :
      (a : UserToolApproval) → In a s.approvals → calls a.id s.invoked ≤ budget a.status
  pub only_known :
      (k : String) → count_where (with_key id_of k) s.approvals ≡ 0 → calls k s.invoked ≡ 0

budget-le-one : (a : ApprovalStatus) → budget a ≤ 1
budget-le-one a = ground arith

budget-Moves : {a b : ApprovalStatus} → Moves a b → budget a ≤ budget b
budget-Moves approve = omega arith
budget-Moves reject = omega arith
budget-Moves strand = omega arith

budget-Closes : {a : ApprovalStatus} → Closes a → budget a ≡ 1
budget-Closes by_value = refl
budget-Closes by_error = refl

-- An update that keeps the identifiers.
module _ (s : Session) (p : UserToolApproval → Bool) (f : UserToolApproval → UserToolApproval)
    (ids : (a : UserToolApproval) → In a s.approvals → p a ≡ true → (f a).id ≡ a.id) where
  keys_same :
      (k : String)
      → count_where (with_key id_of k) (update_where p f s.approvals)
        ≡ count_where (with_key id_of k) s.approvals
  keys_same k =
      count-update_eq_In (with_key id_of k) p f s.approvals
        λ a i e. ap (λ m. str_eq m k) (ids a i e)

set_approvals-IsOnce :
    (s : Session) (p : UserToolApproval → Bool) (f : UserToolApproval → UserToolApproval)
    → ((a : UserToolApproval)
        → In a s.approvals
        → p a ≡ true
        → ((f a).id ≡ a.id) × Moves a.status (f a).status)
    → IsOnce s
    → IsOnce (record s { approvals = update_where p f s.approvals })
set_approvals-IsOnce s p f moves v = record {
  approval_ids = λ k. omega (arith, v.approval_ids k, keys k);
  within_budget = λ a i. from (In-update p f s.approvals i);
  only_known = λ k e. v.only_known k (sym (keys k) ∙ e);
}
  where
    keys :
        (k : String)
        → count_where (with_key id_of k) (update_where p f s.approvals)
          ≡ count_where (with_key id_of k) s.approvals
    keys = keys_same s p f (λ a i e. (moves a i e).0)

    from :
        {a : UserToolApproval}
        → ((b : UserToolApproval) × In b s.approvals
            × (((p b ≡ true) × (a ≡ f b)) ⊎ ((p b ≡ false) × (a ≡ b))))
        → calls a.id s.invoked ≤ budget a.status
    from {a} (b, j, inl (e, q)) =
        subst (λ (c : UserToolApproval). calls c.id s.invoked ≤ budget c.status) (sym q)
          (rw ((moves b j e).0) (omega (arith, v.within_budget b j, budget-Moves (moves b j e).1)))
    from {a} (b, j, inr (e, q)) =
        subst (λ (c : UserToolApproval). calls c.id s.invoked ≤ budget c.status) (sym q)
          (v.within_budget b j)

close-IsOnce :
    (s : Session) (a : UserToolApproval) (f : UserToolApproval → UserToolApproval)
    → In a s.approvals
    → a.status ≡ executing
    → ((b : UserToolApproval) → ((f b).id ≡ b.id) × Closes (f b).status)
    → IsOnce s
    → IsOnce (record s {
      approvals = update_where (with_key id_of a.id) f s.approvals;
      invoked = a.id ∷ s.invoked;
    })
unfolding count_where
close-IsOnce s a f i e closes v = record {
  approval_ids = λ k. omega (arith, v.approval_ids k, keys k);
  within_budget = λ b j. from (In-update (with_key id_of a.id) f s.approvals j);
  only_known = λ k z. ground (arith, keys k, count-In (with_key id_of k) i, v.only_known k);
}
  where
    keys :
        (k : String)
        → count_where (with_key id_of k) (update_where (with_key id_of a.id) f s.approvals)
          ≡ count_where (with_key id_of k) s.approvals
    keys = keys_same s (with_key id_of a.id) f (λ b j e. (closes b).0)

    unused : calls a.id s.invoked ≡ 0
    unused = ground (arith, v.within_budget a i)

    from :
        {b : UserToolApproval}
        → ((c : UserToolApproval) × In c s.approvals
            × (((with_key id_of a.id c ≡ true) × (b ≡ f c))
                ⊎ ((with_key id_of a.id c ≡ false) × (b ≡ c))))
        → calls b.id (a.id ∷ s.invoked) ≤ budget b.status
    from {b} (c, j, inl (h, q)) =
        let id : b.id ≡ a.id = ap id_of q ∙ ((closes c).0 ∙ (eq_iff c.id a.id).0 h) in
        let one : budget b.status ≡ 1 =
          ap (λ (d : UserToolApproval). budget d.status) q ∙ budget-Closes (closes c).1 in
        rw one (
          subst (λ m. calls m (a.id ∷ s.invoked) ≤ 1) (sym id)
            (ground (arith, unused, eq_refl a.id)))
    from {b} (c, j, inr (h, q)) =
        subst (λ (d : UserToolApproval). calls d.id (a.id ∷ s.invoked) ≤ budget d.status) (sym q)
          (ground (arith, eq_iff c.id a.id, eq_iff a.id c.id, v.within_budget c j))

add_approval-IsOnce :
    (s : Session) (a : UserToolApproval)
    → count_where (with_key id_of a.id) s.approvals ≡ 0
    → a.status ≡ pending
    → IsOnce s
    → IsOnce (record s { approvals = s.approvals ++ (a ∷ []) })
add_approval-IsOnce s a fresh e v = record {
  approval_ids = λ k.
      ground (arith, count-snoc (with_key id_of k) s.approvals a, v.approval_ids k, fresh_at k);
  within_budget = λ b i. elim (In-append s.approvals (a ∷ []) i) [
    | inl j ↦ v.within_budget b j
    | inr j ↦ only b j
  ];
  only_known = λ k z. v.only_known k (ground (arith, count-snoc (with_key id_of k) s.approvals a));
}
  where
    fresh_at : (k : String) → str_eq a.id k ≡ true → count_where (with_key id_of k) s.approvals ≡ 0
    fresh_at k same =
        subst (λ m. count_where (with_key id_of m) s.approvals ≡ 0) ((eq_iff a.id k).0 same) fresh

    only : (b : UserToolApproval) → In b (a ∷ []) → calls b.id s.invoked ≤ budget b.status
    only b here = ground (arith, v.only_known a.id fresh)
    only b (there i) = elim i [ ]

others :
    (s : Session)
    → IsOnce s
    → (threads : List ConversationThread) (runs : List AgentRun)
    → IsOnce (record s { threads = threads; runs = runs })
others s v threads runs = record {
  approval_ids = v.approval_ids;
  within_budget = v.within_budget;
  only_known = v.only_known;
}

pub Write-IsOnce : (s t : Session) → Write s t → IsOnce s → IsOnce t
Write-IsOnce s t (add_thread u fresh a q) v = subst IsOnce (sym q) (others s v _ _)
Write-IsOnce s t (archive_thread thread p f same idle q) v = subst IsOnce (sym q) (others s v _ _)
Write-IsOnce s t (add_run u r i a e idle q) v = subst IsOnce (sym q) (others s v _ _)
Write-IsOnce s t (set_runs p f calm q) v = subst IsOnce (sym q) (others s v _ _)
Write-IsOnce s t (add_approval a fresh e q) v =
    subst IsOnce (sym q) (add_approval-IsOnce s a fresh e v)
Write-IsOnce s t (set_approvals p f moves q) v =
    subst IsOnce (sym q) (set_approvals-IsOnce s p f moves v)
Write-IsOnce s t (close a f i e closes q) v = subst IsOnce (sym q) (close-IsOnce s a f i e closes v)

pub calls-le-one : (s : Session) → IsOnce s → (k : String) → calls k s.invoked ≤ 1
calls-le-one s v k = elim (Option-cases (find_where (with_key id_of k) s.approvals)) [
  | inl e ↦ omega (arith, v.only_known k (count-none (with_key id_of k) s.approvals e))
  | inr (a, e) ↦
      let (i, h) = find_where-In (with_key id_of k) s.approvals e in
      subst (λ m. calls m s.invoked ≤ 1) ((eq_iff a.id k).0 h)
        (ground (arith, v.within_budget a i, budget-le-one a.status))
]
