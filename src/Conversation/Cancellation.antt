-- ===== src/Conversation/Cancellation.antt =====
-- A requested cancellation against the end of the run (conversation_repository.py).
use learning_system.Prelude.{
  ℕ, String, ◌≡◌, refl, sym, ◌∙◌, subst, ◌⊎◌, inl, inr, Bool, true, ◌&&◌, Option, some, List, [],
  ◌∷◌, arith, if◌then◌else◌, Bool-cases, Option-cases, ok, find_where, update_where, count_where,
  find_where-In, ℤ,
}
use learning_system.Session.{Session, AgentRun, cancellation_requested, cancelled}
use learning_system.Conversation.Runs

module _ {ℓ} {A : Type ℓ} where
  met_alike :
      (q p : A → Bool) (f : A → A) (x : A)
      → ((b : A) → q (f b) ≡ q b)
      → q (if p x then f x else x) ≡ q x
  met_alike q p f x same = elim (Bool-cases (p x)) [ inl e ↦ rw e (same x) | inr e ↦ rw e refl ]

  -- The first row that meets a condition is the same row after an update that keeps the condition.
  find_where-update_where :
      (q p : A → Bool) (f : A → A) (xs : List A) {a : A}
      → ((b : A) → q (f b) ≡ q b)
      → find_where q xs ≡ some a
      → find_where q (update_where p f xs) ≡ some (if p a then f a else a)
  unfolding find_where update_where
  find_where-update_where q p f [] same h = absurd (cc)
  find_where-update_where q p f (x ∷ xs) {a} same h = elim (Bool-cases (q x)) [
    | inl e ↦
        let at : x ≡ a = ground arith in
        subst (λ y. find_where q (update_where p f (x ∷ xs)) ≡ some (if p y then f y else y)) at
          (rw (met_alike q p f x same ∙ e) refl)
    | inr e ↦
        let rest = find_where-update_where q p f xs same (rw e at h) in
        rw (met_alike q p f x same ∙ e) rest
  ]

-- After the request no run under the identifiers is running.
none_closes :
    (user goal thread run : String) (f : AgentRun → AgentRun) (xs : List AgentRun)
    → ((r : AgentRun) → (f r).status ≡ cancellation_requested)
    → count_where (Runs.closes user goal thread run) (
        update_where
          (λ r. Runs.owned user goal thread run r && Runs.can_request_cancel r.status)
          f
          xs)
      ≡ 0
unfolding count_where update_where
none_closes user goal thread run f [] h = refl
none_closes user goal thread run f (x ∷ xs) h =
    ground (arith, none_closes user goal thread run f xs h, h x)

owned_run-parts :
    (s : Session) (user goal thread run : String) {s' : Session} {r : AgentRun}
    → Runs.owned_run s user goal thread run ≡ ok (s', r)
    → (s ≡ s') × (find_where (Runs.owned user goal thread run) s.runs ≡ some r)
unfolding Runs.owned_run
owned_run-parts s user goal thread run h =
    elim (Option-cases (find_where (Runs.owned user goal thread run) s.runs)) [
      | inl e ↦ absurd (ground arith)
      | inr (a, e) ↦ (ground arith, ground arith)
    ]

-- Once no run under the identifiers is running, the end of a run whose cancellation was requested
-- cancels it.
finish_cancels :
    (s : Session) (user goal thread run : String) (now : ℕ) (close : AgentRun → AgentRun)
    {s' : Session} {r r' : AgentRun}
    → count_where (Runs.closes user goal thread run) s.runs ≡ 0
    → find_where (Runs.owned user goal thread run) s.runs ≡ some r
    → r.status ≡ cancellation_requested
    → Runs.finish s user goal thread run now close ≡ ok (s', r')
    → r'.status ≡ cancelled
unfolding Runs.finish Runs.finished
finish_cancels s user goal thread run now close {s'} {r} {r'} idle found e h =
    let owned = Runs.owned user goal thread run in
    let cancels = Runs.cancels user goal thread run in
    let (_, mine) = find_where-In owned s.runs found in
    let (_, got) =
      owned_run-parts (Runs.finished s user goal thread run now close) user goal thread run h in
    let hit : cancels r ≡ true = ground arith in
    let next =
      find_where-update_where owned cancels (Runs.cancelled_at now) s.runs (λ b. refl) found in
    let last : find_where owned (update_where cancels (Runs.cancelled_at now) s.runs) ≡ some r' =
      (rw idle at got) in
    let same : some (Runs.cancelled_at now r) ≡ some r' = (rw hit at (sym next)) ∙ last in cc

module _ (s : Session) (user goal thread run : String) (now later : ℕ) where
  requested :
      {s' : Session} {r : AgentRun}
      → Runs.request_cancel s user goal thread run now ≡ ok (s', r)
      → (count_where (Runs.closes user goal thread run) s'.runs ≡ 0)
        × (find_where (Runs.owned user goal thread run) s'.runs ≡ some r)
  unfolding Runs.request_cancel
  requested {s'} {r} h =
      let (same, found) = owned_run-parts _ user goal thread run h in
      (
        subst (λ (t : Session). count_where (Runs.closes user goal thread run) t.runs ≡ 0) same
            (none_closes user goal thread run _ s.runs (λ r. refl)),
        subst (λ (t : Session). find_where (Runs.owned user goal thread run) t.runs ≡ some r) same
            found,
      )

  -- When the request to cancel a run has returned it as `cancellation_requested`, completing or
  -- failing it next returns it as `cancelled`, whatever the outcome to be recorded is.
  pub cancel_beats_the_end :
      (input : Option String) (output trace message : String) (latency : ℤ) (s1 s2 : Session)
      (r1 r2 : AgentRun)
      → Runs.request_cancel s user goal thread run now ≡ ok (s1, r1)
      → r1.status ≡ cancellation_requested
      → (Runs.complete s1 user goal thread run later input output trace latency ≡ ok (s2, r2))
        ⊎ (Runs.fail s1 user goal thread run later message trace latency ≡ ok (s2, r2))
      → r2.status ≡ cancelled
  unfolding Runs.complete Runs.fail
  cancel_beats_the_end input output trace message latency s1 s2 r1 r2 h e end =
      let (idle, found) = requested h in
      elim end [
        | inl g ↦ finish_cancels s1 user goal thread run later _ idle found e g
        | inr g ↦ finish_cancels s1 user goal thread run later _ idle found e g
      ]
