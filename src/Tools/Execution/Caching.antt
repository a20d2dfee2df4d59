-- ===== src/Tools/Execution/Caching.antt =====
-- What a run was answered once, it is answered again without a call.
use learning_system.Prelude.{
  ℕ, ◌≡◌, refl, sym, ap, ◌∙◌, subst, inl, inr, Bool, true, ◌&&◌, ◌||◌, some, List, [], ◌∷◌,
  Bool-cases, Option-cases, and-parts, Result, ok, Text, text_eq, text_eq_iff, Json,
}
use learning_system.Tools.{ToolPolicy, ToolError, Registry, ToolResult, CacheKey, Router, Request}
use learning_system.Tools.Execution.{
  same_key, cached, key_of, execute_checked, execute_agent, validated, is_read_only,
}
use learning_system.Tools.Execution.Effects.{Effect, same, ran}
use learning_system.Tools.Execution.Budget.{Action, act, act_all, act-Effect, value-cases}
use learning_system.Tools.Execution.Stored.{execute_checked-cached}

same_key_eq : (j k : CacheKey) → same_key j k ≡ true → j ≡ k
same_key_eq j k h =
    let (front, c) = and-parts _ (text_eq j.fingerprint k.fingerprint) h in
    let (a, b) = and-parts (text_eq j.user_id k.user_id) (text_eq j.run_id k.run_id) front in
    let u = (text_eq_iff j.user_id k.user_id).0 a in
    let r = (text_eq_iff j.run_id k.run_id).0 b in
    let f = (text_eq_iff j.fingerprint k.fingerprint).0 c in
    ap (λ (x : Text). record j { user_id = x }) u
    ∙ ap (λ (x : Text). record j { user_id = k.user_id; run_id = x }) r
    ∙ ap (λ (x : Text). record k { fingerprint = x }) f

Effect-cached :
    (n : ℕ) (s s' : Router) (run : Text) (k j : CacheKey) (r : ToolResult)
    → Effect n s run k s'
    → cached s.cache j ≡ some r
    → cached s'.cache j ≡ some r
unfolding cached
Effect-cached n s s' run k j r same h = h
Effect-cached n s s' run k j r (ran _ fresh room calls log cache) h = elim cache [
  | inl e ↦ ap (λ c. cached c j) e ∙ h
  | inr (x, e) ↦ elim (Bool-cases (same_key k j)) [
    | inl g ↦ absurd (cc (fresh, h, ap (cached s.cache) (same_key_eq k j g)))
    | inr g ↦
        let skip : cached ((k, x) ∷ s.cache) j ≡ cached s.cache j = rw g refl in
        ap (λ c. cached c j) e ∙ skip ∙ h
  ]
]

module _ (digest : Text → Text) (dumps_arguments dumps : Json → Text) (p : ToolPolicy)
    (allow_agent_proposals : Bool) (registry : Registry) where
  act_all-cached :
      (s : Router) (actions : List Action) (j : CacheKey) (r : ToolResult)
      → cached s.cache j ≡ some r
      → cached
          (act_all digest dumps_arguments dumps p allow_agent_proposals registry s actions).cache
          j
        ≡ some r
  unfolding act_all
  act_all-cached s [] j r h = h
  act_all-cached s (a ∷ actions) j r h =
      let (run, k, effect) =
        act-Effect digest dumps_arguments dumps p allow_agent_proposals registry s a in
      let s' = (act digest dumps_arguments dumps p allow_agent_proposals registry s a).0 in
      act_all-cached s' actions j r (Effect-cached p.max_calls_per_run s s' run k j r effect h)

-- What the router answered an agent once, it answers again, at any later moment and whatever it was asked
-- in between, when the run, the user, the tool and the arguments are the same: the same result as a hit,
-- with no call of a handler, no change of a counter and no use of the budget.
pub execute_agent-repeats :
    (digest : Text → Text) (dumps_arguments dumps : Json → Text) (p : ToolPolicy)
    (allow_agent_proposals : Bool) (registry : Registry) (s : Router) (q : Request) (r : ToolResult)
    (actions : List Action) (moment : ℕ) (s' : Router)
    → (execute_agent digest dumps_arguments dumps p allow_agent_proposals registry s q).1 ≡ ok r
    → act_all digest dumps_arguments dumps p allow_agent_proposals registry
        (execute_agent digest dumps_arguments dumps p allow_agent_proposals registry s q).0
        actions
      ≡ s'
    → execute_agent digest dumps_arguments dumps p allow_agent_proposals registry s'
        (record q { moment = moment })
      ≡ (s', ok (record r { cache_hit = true }))
unfolding execute_agent
execute_agent-repeats digest dumps_arguments dumps p allow registry s q r actions moment s' h
      later =
    let o = execute_agent digest dumps_arguments dumps p allow registry s q in
    elim (Option-cases (registry q.tool_name)) [
      | inl e ↦ absurd (cc (rw (execute_agent, e) at h))
      | inr (v, e) ↦ elim (value-cases v) [
        | inl (b, c) ↦ absurd (cc (rw (execute_agent, e, c) at h))
        | inr (t, c) ↦
            elim (Bool-cases (t.agent_visible && (is_read_only t.safety_class || allow))) [
              | inr a ↦ absurd (cc (rw (execute_agent, e, c, a) at h))
              | inl a ↦ elim (Option-cases (validated t.argument_model q.arguments)) [
                | inl w ↦ absurd (cc (rw (execute_agent, e, c, a, w) at h))
                | inr (arguments, w) ↦
                    let checked = record q { arguments = arguments } in
                    let once =
                      execute_checked digest dumps_arguments dumps p s checked t.handler true
                        t.evidence_mapper t.completion_handler in
                    let first : o ≡ once = rw (execute_agent, e, c, a, w) refl in
                    let (small, kept, found, same_result) =
                      execute_checked-cached digest dumps_arguments dumps p s checked t.handler true
                        t.evidence_mapper t.completion_handler r
                        (subst (λ (x : Router × Result ToolError ToolResult). x.1 ≡ ok r) first
                          h) in
                    let k = key_of digest dumps_arguments dumps p checked in
                    let still =
                      act_all-cached digest dumps_arguments dumps p allow registry o.0 actions k
                        kept
                        (subst
                          (λ (x : Router × Result ToolError ToolResult).
                            cached x.0.cache k ≡ some kept)
                          (sym first) found) in
                    let there = subst (λ (x : Router). cached x.cache k ≡ some kept) later still in
                    rw (execute_agent, e, c, a, w, execute_checked, small, there)
                      (ap (λ (x : ToolResult). (s', ok x)) same_result)
              ]
            ]
      ]
    ]
