-- ===== src/Tools/Execution/Stored.antt =====
-- A call that returns leaves its result in the cache.
use learning_system.Prelude.{
  ℕ, ◌+◌, ◌≡◌, refl, sym, ap, ◌∙◌, subst, inl, inr, Bool, true, false, Option, some, ltb, leb,
  if◌then◌else◌, Bool-cases, Option-cases, length, take, Result, ok, err, Text, text_eq_iff,
  ok-injective, Json,
}
use learning_system.Tools.{
  ToolPolicy, ToolError, Returned, plain, handled, interrupts, fails, Reply, Handler,
  EvidenceMapper, ToolResult, CacheKey, invoked, Router, Request, tool_budget_exceeded,
  tool_argument_invalid, tool_result_too_large, tool_evidence_mapping_failed,
}
use learning_system.Tools.Execution.{
  same_key, cached, calls_of, set_calls, logged, notify_completion, key_of, or_none, is_late,
  normalize, utf8_size, keep_result, invoke, execute_checked,
}

same_key_refl : (k : CacheKey) → same_key k k ≡ true
same_key_refl k =
    rw
      (
        (text_eq_iff k.user_id k.user_id).1 refl,
        (text_eq_iff k.run_id k.run_id).1 refl,
        (text_eq_iff k.fingerprint k.fingerprint).1 refl,
      )
      refl

module _ (digest : Text → Text) (dumps_arguments dumps : Json → Text) (p : ToolPolicy) where
  keep_result-cached :
      (s : Router) (k : CacheKey) (mapper : Option EvidenceMapper) (raw : Json) (cut : Bool)
      (r : ToolResult)
      → (keep_result digest dumps_arguments dumps p s k mapper raw cut).1 ≡ ok r
      → cached (keep_result digest dumps_arguments dumps p s k mapper raw cut).0.cache k ≡ some r
  unfolding keep_result cached
  keep_result-cached s k mapper raw cut r h =
      let value = (normalize p raw).0 in
      let normalized = dumps value in
      let long = ltb p.max_normalized_result_chars (length normalized) in
      let short =
        if long then Json.string (take p.max_normalized_result_chars normalized) else value in
      let o = keep_result digest dumps_arguments dumps p s k mapper raw cut in
      elim (Bool-cases (ltb p.max_raw_result_bytes (utf8_size (dumps raw)))) [
        | inl e ↦
            let no : o.1 ≡ err tool_result_too_large = rw (keep_result, e) refl in
            absurd (cc (h, no))
        | inr e ↦ elim (Option-cases (or_none mapper short k.fingerprint)) [
          | inl f ↦
              let no : o.1 ≡ err tool_evidence_mapping_failed = rw (keep_result, e, f) refl in
              absurd (cc (h, no))
          | inr (evidence, f) ↦
              let own = same_key_refl k in
              rw (keep_result, e, f, own)
                (ap some (ok-injective {E = ToolError} (rw (keep_result, e, f) at h)))
        ]
      ]

  outcome-cached :
      (s : Router) (k : CacheKey) (took : ℕ) (outcome : Returned) (use_worker : Bool)
      (mapper : Option EvidenceMapper) (completion : Bool) (r : ToolResult)
      → is_late p use_worker (record { took = took; outcome = outcome }) ≡ false
      → (invoke digest dumps_arguments dumps p s k
          (record { took = took; outcome = outcome })
          use_worker
          mapper
          completion).1
        ≡ ok r
      → cached
          (invoke digest dumps_arguments dumps p s k
            (record { took = took; outcome = outcome })
            use_worker
            mapper
            completion).0.cache
          k
        ≡ some r
  unfolding invoke
  outcome-cached s k took (plain raw) use_worker mapper completion r e h =
      rw (invoke, e)
        (keep_result-cached (notify_completion completion true s) k mapper raw false r
          (rw (invoke, e) at h))
  outcome-cached s k took (handled raw cut) use_worker mapper completion r e h =
      rw (invoke, e)
        (keep_result-cached (notify_completion completion true s) k mapper raw cut r
          (rw (invoke, e) at h))
  outcome-cached s k took interrupts use_worker mapper completion r e h =
      absurd (cc (rw (invoke, e) at h))
  outcome-cached s k took fails use_worker mapper completion r e h =
      absurd (cc (rw (invoke, e) at h))

  invoke-cached :
      (s : Router) (k : CacheKey) (reply : Reply) (use_worker : Bool)
      (mapper : Option EvidenceMapper) (completion : Bool) (r : ToolResult)
      → (invoke digest dumps_arguments dumps p s k reply use_worker mapper completion).1 ≡ ok r
      → cached
          (invoke digest dumps_arguments dumps p s k reply use_worker mapper completion).0.cache
          k
        ≡ some r
  unfolding invoke
  invoke-cached s k reply use_worker mapper completion r h =
      elim (Bool-cases (is_late p use_worker reply)) [
        | inl e ↦ absurd (cc (rw (invoke, e) at h))
        | inr e ↦ outcome-cached s k reply.took reply.outcome use_worker mapper completion r e h
      ]

  -- A call of `_execute` that returns leaves its result in the cache, but for the flag of a hit.
  pub execute_checked-cached :
      (s : Router) (q : Request) (handler : Handler) (use_worker : Bool)
      (mapper : Option EvidenceMapper) (completion : Bool) (r : ToolResult)
      → (execute_checked digest dumps_arguments dumps p s q handler use_worker mapper completion).1
        ≡ ok r
      → (ltb p.max_argument_bytes (utf8_size (dumps_arguments q.arguments)) ≡ false)
        × (c : ToolResult) × (cached
              (execute_checked digest dumps_arguments dumps p s q handler use_worker mapper
                completion).0.cache
              (key_of digest dumps_arguments dumps p q)
            ≡ some c)
        × (record c { cache_hit = true } ≡ record r { cache_hit = true })
  unfolding execute_checked
  execute_checked-cached s q handler use_worker mapper completion r h =
      let k = key_of digest dumps_arguments dumps p q in
      let o =
        execute_checked digest dumps_arguments dumps p s q handler use_worker mapper completion in
      let counted = record s {
        calls = set_calls s.calls q.run_id (calls_of s.calls q.run_id + 1);
      } in
      elim (Bool-cases (ltb p.max_argument_bytes (utf8_size (dumps_arguments q.arguments)))) [
        | inl e ↦
            let no : o.1 ≡ err tool_argument_invalid = rw (execute_checked, e) refl in
            absurd (cc (h, no))
        | inr e ↦ elim (Option-cases (cached s.cache k)) [
          | inr (c, f) ↦
              let found : o ≡ (s, ok (record c { cache_hit = true })) =
                rw (execute_checked, e, f) refl in
              (
                e,
                c,
                subst (λ (x : Router × Result ToolError ToolResult). cached x.0.cache k ≡ some c)
                    (sym found) f,
                ap (λ (x : ToolResult). record x { cache_hit = true })
                    (ok-injective {E = ToolError}
                      (sym (ap (λ (x : Router × Result ToolError ToolResult). x.1) found) ∙ h)),
              )
          | inl f ↦ elim (Bool-cases (leb p.max_calls_per_run (calls_of s.calls q.run_id))) [
            | inl g ↦
                let no : o.1 ≡ err tool_budget_exceeded = rw (execute_checked, e, f, g) refl in
                absurd (cc (h, no))
            | inr g ↦
                let after =
                  invoke digest dumps_arguments dumps p (logged (invoked q.run_id) counted) k
                    (handler q.moment q.arguments) use_worker mapper completion in
                let called : o ≡ after = rw (execute_checked, e, f, g) refl in
                let kept =
                  invoke-cached (logged (invoked q.run_id) counted) k (handler q.moment q.arguments)
                    use_worker mapper completion r
                    (subst (λ (x : Router × Result ToolError ToolResult). x.1 ≡ ok r) called h) in
                (
                  e,
                  r,
                  subst (λ (x : Router × Result ToolError ToolResult). cached x.0.cache k ≡ some r)
                      (sym called) kept,
                  refl,
                )
          ]
        ]
      ]
