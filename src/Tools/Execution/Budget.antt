-- ===== src/Tools/Execution/Budget.antt =====
-- How often the handlers of a run are called, over any sequence of calls of the router.
use learning_system.Prelude.{
  ℕ, ◌+◌, ◌≤◌, ◌≡◌, refl, ap, ◌⊎◌, inl, inr, Bool, true, false, ◌&&◌, ◌||◌, none, List, [], ◌∷◌,
  arith, if◌then◌else◌, Bool-cases, Option-cases, count-snoc, Result, Text, text_eq, text_eq_iff,
  count_where, Json,
}
use learning_system.Tools.{
  ToolPolicy, ToolError, Handler, RegisteredTool, ToolRegistryValue, bare, registered, Registry,
  ToolResult, CacheKey, invoked, Router, Request,
}
use learning_system.Tools.Execution.{
  calls_of, set_calls, key_of, execute, execute_agent, validated, is_read_only,
}
use learning_system.Tools.Execution.Effects.{is_call_for, Effect, same, ran, execute_checked-Effect}

-- A call of `execute` or of `execute_agent`.
pub data Action : Type 0 where
  direct : Request → Action
  by_agent : Request → Action

calls_of-set_calls :
    (calls : List (Text × ℕ)) (run other : Text) (n : ℕ)
    → calls_of (set_calls calls run n) other
      ≡ (if text_eq run other then n else calls_of calls other)
unfolding calls_of set_calls
calls_of-set_calls [] run other n = refl
calls_of-set_calls ((r, m) ∷ calls) run other n = ground (
  arith,
  text_eq_iff r run,
  text_eq_iff r other,
  text_eq_iff run other,
  calls_of-set_calls calls run other n,
)

pub value-cases :
    (v : ToolRegistryValue)
    → ((h : Handler) × (v ≡ bare h)) ⊎ ((t : RegisteredTool) × (v ≡ registered t))
value-cases (bare h) = inl (h, refl)
value-cases (registered t) = inr (t, refl)

-- The counter of every run is the number of its calls, and within the budget.
pub record IsWithinBudget (p : ToolPolicy) (s : Router) : Type 0 where
  pub counted : (run : Text) → count_where (is_call_for run) s.log ≡ calls_of s.calls run
  pub budget : (run : Text) → calls_of s.calls run ≤ p.max_calls_per_run

Effect-IsWithinBudget :
    (p : ToolPolicy) (s s' : Router) (run : Text) (k : CacheKey)
    → Effect p.max_calls_per_run s run k s'
    → IsWithinBudget p s
    → IsWithinBudget p s'
unfolding count_where
Effect-IsWithinBudget p s s' run k same i = i
Effect-IsWithinBudget p s s' run k (ran _ fresh room calls log cache) i = record {
  counted = λ r.
      let new = calls_of-set_calls s.calls run r (calls_of s.calls run + 1) in
      let here = ap (λ c. calls_of c r) calls in
      let own : text_eq run r ≡ true → calls_of s.calls run ≡ calls_of s.calls r =
        λ e. ap (calls_of s.calls) ((text_eq_iff run r).0 e) in
      ground
        (arith, log r, here, new, i.counted r, own, count-snoc (is_call_for r) s.log (invoked run));
  budget = λ r.
      let new = calls_of-set_calls s.calls run r (calls_of s.calls run + 1) in
      ground (arith, ap (λ c. calls_of c r) calls, new, i.budget r, room);
}

module _ (digest : Text → Text) (dumps_arguments dumps : Json → Text) (p : ToolPolicy)
    (allow_agent_proposals : Bool) (registry : Registry) where
  -- What an action returns, and the router after it.
  unfoldable pub act : Router → Action → Router × Result ToolError ToolResult
  unfolding execute execute_agent
  act s (direct q) = execute digest dumps_arguments dumps p registry s q
  act s (by_agent q) =
      execute_agent digest dumps_arguments dumps p allow_agent_proposals registry s q

  unfoldable pub act_all : Router → List Action → Router
  unfolding act
  act_all s [] = s
  act_all s (a ∷ actions) = act_all (act s a).0 actions

  pub act-Effect :
      (s : Router) (a : Action)
      → (run : Text) × (k : CacheKey) × Effect p.max_calls_per_run s run k (act s a).0
  unfolding act execute execute_agent
  act-Effect s (direct q) = elim (Option-cases (registry q.tool_name)) [
    | inl e ↦ (q.run_id, key_of digest dumps_arguments dumps p q, rw (execute, e) same)
    | inr (v, e) ↦ elim (value-cases v) [
      | inl (h, c) ↦ (
        q.run_id,
        key_of digest dumps_arguments dumps p q,
        rw (execute, e, c)
            (execute_checked-Effect digest dumps_arguments dumps p s q h true none false),
      )
      | inr (t, c) ↦ elim (Option-cases t.legacy_handler) [
        | inl l ↦ (
          q.run_id,
          key_of digest dumps_arguments dumps p q,
          rw (execute, e, c, l)
              (execute_checked-Effect digest dumps_arguments dumps p s q t.handler true
                t.evidence_mapper false),
        )
        | inr (h, l) ↦ (
          q.run_id,
          key_of digest dumps_arguments dumps p q,
          rw (execute, e, c, l)
              (execute_checked-Effect digest dumps_arguments dumps p s q h false t.evidence_mapper
                false),
        )
      ]
    ]
  ]
  act-Effect s (by_agent q) = elim (Option-cases (registry q.tool_name)) [
    | inl e ↦ (q.run_id, key_of digest dumps_arguments dumps p q, rw (execute_agent, e) same)
    | inr (v, e) ↦ elim (value-cases v) [
      | inl (h, c) ↦
          (q.run_id, key_of digest dumps_arguments dumps p q, rw (execute_agent, e, c) same)
      | inr (t, c) ↦
          elim (Bool-cases
            (t.agent_visible && (is_read_only t.safety_class || allow_agent_proposals))) [
              | inr a ↦ (
                q.run_id,
                key_of digest dumps_arguments dumps p q,
                rw (execute_agent, e, c, a) same,
              )
              | inl a ↦ elim (Option-cases (validated t.argument_model q.arguments)) [
                | inl v ↦ (
                  q.run_id,
                  key_of digest dumps_arguments dumps p q,
                  rw (execute_agent, e, c, a, v) same,
                )
                | inr (arguments, v) ↦
                    let checked = record q { arguments = arguments } in
                    (
                      q.run_id,
                      key_of digest dumps_arguments dumps p checked,
                      rw (execute_agent, e, c, a, v)
                          (execute_checked-Effect digest dumps_arguments dumps p s checked t.handler
                            true t.evidence_mapper t.completion_handler),
                    )
              ]
            ]
    ]
  ]

  act_all-IsWithinBudget :
      (s : Router) (actions : List Action)
      → IsWithinBudget p s
      → IsWithinBudget p (act_all s actions)
  unfolding act_all
  act_all-IsWithinBudget s [] i = i
  act_all-IsWithinBudget s (a ∷ actions) i =
      let (run, k, effect) = act-Effect s a in
      act_all-IsWithinBudget (act s a).0 actions
        (Effect-IsWithinBudget p s (act s a).0 run k effect i)

-- A router that nothing was asked of.
abbrev pub new_router : Router
new_router = record { cache = []; calls = []; log = [] }

-- Whatever a new router is asked, by the agent or directly and in any order, the handlers are called for
-- no run more often than the policy allows.
pub act_all-within_budget :
    (digest : Text → Text) (dumps_arguments dumps : Json → Text) (p : ToolPolicy)
    (allow_agent_proposals : Bool) (registry : Registry) (actions : List Action) (run : Text)
    → count_where
        (is_call_for run)
        (act_all digest dumps_arguments dumps p allow_agent_proposals registry new_router
          actions).log
      ≤ p.max_calls_per_run
unfolding count_where calls_of
act_all-within_budget digest dumps_arguments dumps p allow_agent_proposals registry actions run =
    let i =
      act_all-IsWithinBudget digest dumps_arguments dumps p allow_agent_proposals registry
        new_router actions (record { counted = λ r. refl; budget = λ r. omega arith }) in
    omega (arith, i.counted run, i.budget run)
