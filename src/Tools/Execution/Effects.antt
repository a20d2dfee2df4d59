-- ===== src/Tools/Execution/Effects.antt =====
-- What a call of the router changes: nothing, or it counts and makes one call of a handler.
use learning_system.Prelude.{
  ℕ, ◌+◌, ◌<◌, ◌≡◌, refl, ◌∙◌, ◌⊎◌, inl, inr, Bool, true, false, Option, none, ◌∷◌, arith, ltb, leb,
  if◌then◌else◌, Bool-cases, Option-cases, count-snoc, length, take, Text, text_eq, count_where,
  Json,
}
use learning_system.Tools.{
  ToolPolicy, Returned, plain, handled, interrupts, fails, Reply, Handler, EvidenceMapper,
  ToolResult, CacheKey, Event, invoked, completed, Router, Request,
}
use learning_system.Tools.Execution.{
  cached, calls_of, set_calls, logged, notify_completion, key_of, keep_result, invoke,
  execute_checked, or_none, is_late, normalize, utf8_size,
}

-- A call of a handler for the run.
abbrev pub is_call_for : Text → Event → Bool
is_call_for run (invoked r) = text_eq r run
is_call_for run (completed b) = false

-- The cache of `s'` is that of `s`, or has one more result, under the key.
abbrev pub CacheGrows : Router → Router → CacheKey → Type 0
CacheGrows s s' k = (s'.cache ≡ s.cache) ⊎ ((r : ToolResult) × (s'.cache ≡ (k, r) ∷ s.cache))

-- The log of `s'` has the calls of the log of `s`.
abbrev pub SameCalls : Router → Router → Type 0
SameCalls s s' =
    (run : Text) → count_where (is_call_for run) s'.log ≡ count_where (is_call_for run) s.log

pub data Effect (max_calls : ℕ) (s : Router) (run : Text) (k : CacheKey) : Router → Type 0 where
  same : Effect max_calls s run k s
  ran :
      (s' : Router)
      → cached s.cache k ≡ none
      → calls_of s.calls run < max_calls
      → s'.calls ≡ set_calls s.calls run (calls_of s.calls run + 1)
      → SameCalls (logged (invoked run) s) s'
      → CacheGrows s s' k
      → Effect max_calls s run k s'

-- A completion is no call.
notify-SameCalls :
    (present success : Bool) (s : Router) → SameCalls s (notify_completion present success s)
unfolding count_where
notify-SameCalls false success s run = refl
notify-SameCalls true success s run =
    ground (arith, count-snoc (is_call_for run) s.log (completed success))

-- After the call: the counters stay, and the cache may grow.
pub record IsAfterCall (s s' : Router) (k : CacheKey) : Type 0 where
  pub calls : s'.calls ≡ s.calls
  pub log : SameCalls s s'
  pub cache : CacheGrows s s' k

module _ (digest : Text → Text) (dumps_arguments dumps : Json → Text) (p : ToolPolicy) where
  keep_result-IsAfterCall :
      (s : Router) (k : CacheKey) (mapper : Option EvidenceMapper) (raw : Json) (cut : Bool)
      → IsAfterCall s (keep_result digest dumps_arguments dumps p s k mapper raw cut).0 k
  unfolding keep_result
  keep_result-IsAfterCall s k mapper raw cut =
      let value = (normalize p raw).0 in
      let normalized = dumps value in
      let long = ltb p.max_normalized_result_chars (length normalized) in
      let short =
        if long then Json.string (take p.max_normalized_result_chars normalized) else value in
      elim (Bool-cases (ltb p.max_raw_result_bytes (utf8_size (dumps raw)))) [
        | inl e ↦ rw (keep_result, e) (record { calls = refl; log = λ run. refl; cache = inl refl })
        | inr e ↦ elim (Option-cases (or_none mapper short k.fingerprint)) [
          | inl f ↦
              rw (keep_result, e, f) (record { calls = refl; log = λ run. refl; cache = inl refl })
          | inr (evidence, f) ↦
              rw (keep_result, e, f)
                (record { calls = refl; log = λ run. refl; cache = inr (_, refl) })
        ]
      ]

  notified-IsAfterCall :
      (s : Router) (k : CacheKey) (mapper : Option EvidenceMapper) (raw : Json)
      (cut completion : Bool)
      → IsAfterCall s
          (keep_result digest dumps_arguments dumps p
            (notify_completion completion true s)
            k
            mapper
            raw
            cut).0
          k
  notified-IsAfterCall s k mapper raw cut false = keep_result-IsAfterCall s k mapper raw cut
  notified-IsAfterCall s k mapper raw cut true =
      let i = keep_result-IsAfterCall (logged (completed true) s) k mapper raw cut in
      record {
        calls = i.calls;
        log = λ run. i.log run ∙ notify-SameCalls true true s run;
        cache = i.cache;
      }

  failed-IsAfterCall :
      (s : Router) (k : CacheKey) (completion : Bool)
      → IsAfterCall s (notify_completion completion false s) k
  failed-IsAfterCall s k false = record { calls = refl; log = λ run. refl; cache = inl refl }
  failed-IsAfterCall s k true = record {
    calls = refl;
    log = notify-SameCalls true false s;
    cache = inl refl;
  }

  outcome-IsAfterCall :
      (s : Router) (k : CacheKey) (took : ℕ) (outcome : Returned) (use_worker : Bool)
      (mapper : Option EvidenceMapper) (completion : Bool)
      → is_late p use_worker (record { took = took; outcome = outcome }) ≡ false
      → IsAfterCall s
          (invoke digest dumps_arguments dumps p s k
            (record { took = took; outcome = outcome })
            use_worker
            mapper
            completion).0
          k
  unfolding invoke
  outcome-IsAfterCall s k took (plain raw) use_worker mapper completion e =
      rw (invoke, e) (notified-IsAfterCall s k mapper raw false completion)
  outcome-IsAfterCall s k took (handled raw cut) use_worker mapper completion e =
      rw (invoke, e) (notified-IsAfterCall s k mapper raw cut completion)
  outcome-IsAfterCall s k took interrupts use_worker mapper completion e =
      rw (invoke, e) (record { calls = refl; log = λ run. refl; cache = inl refl })
  outcome-IsAfterCall s k took fails use_worker mapper completion e =
      rw (invoke, e) (failed-IsAfterCall s k completion)

  invoke-IsAfterCall :
      (s : Router) (k : CacheKey) (reply : Reply) (use_worker : Bool)
      (mapper : Option EvidenceMapper) (completion : Bool)
      → IsAfterCall s
          (invoke digest dumps_arguments dumps p s k reply use_worker mapper completion).0
          k
  unfolding invoke
  invoke-IsAfterCall s k reply use_worker mapper completion =
      elim (Bool-cases (is_late p use_worker reply)) [
        | inl e ↦ rw (invoke, e) (failed-IsAfterCall s k completion)
        | inr e ↦ outcome-IsAfterCall s k reply.took reply.outcome use_worker mapper completion e
      ]

  pub execute_checked-Effect :
      (s : Router) (q : Request) (handler : Handler) (use_worker : Bool)
      (mapper : Option EvidenceMapper) (completion : Bool)
      → Effect p.max_calls_per_run s q.run_id
          (key_of digest dumps_arguments dumps p q)
          (execute_checked digest dumps_arguments dumps p s q handler use_worker mapper
            completion).0
  unfolding execute_checked
  execute_checked-Effect s q handler use_worker mapper completion =
      let k = key_of digest dumps_arguments dumps p q in
      let counted = record s {
        calls = set_calls s.calls q.run_id (calls_of s.calls q.run_id + 1);
      } in
      elim (Bool-cases (ltb p.max_argument_bytes (utf8_size (dumps_arguments q.arguments)))) [
        | inl e ↦ rw (execute_checked, e) same
        | inr e ↦ elim (Option-cases (cached s.cache k)) [
          | inr (r, f) ↦ rw (execute_checked, e, f) same
          | inl f ↦ elim (Bool-cases (leb p.max_calls_per_run (calls_of s.calls q.run_id))) [
            | inl g ↦ rw (execute_checked, e, f, g) same
            | inr g ↦
                let i =
                  invoke-IsAfterCall (logged (invoked q.run_id) counted) k
                    (handler q.moment q.arguments) use_worker mapper completion in
                rw (execute_checked, e, f, g) (ran _ f (ground arith) i.calls i.log i.cache)
          ]
        ]
      ]
