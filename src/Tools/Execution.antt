-- ===== src/Tools/Execution.antt =====
-- The methods of ToolRouter, and `_execute` as `execute_checked`. `digest` is the hexadecimal SHA-256 of a text, `dumps_arguments` is
-- json.dumps with sorted keys and no white space, `dumps` is json.dumps as it is used for values.
pub mod Passed
pub mod Effects
pub mod Budget
pub mod Stored
pub mod Caching
mod Tests
use learning_system.Prelude.{
  ℕ, zero, suc, ◌+◌, Bool, true, false, not, ◌&&◌, ◌||◌, Option, none, some, List, [], ◌∷◌, ◌++◌,
  ltb, leb, if◌then◌else◌, length, take, Result, ok, err, Text, text_eq, Json,
}
use learning_system.Prelude.Jsons.{
  string, array, object, Items, no_items, item, Fields, no_fields, field,
}
use learning_system.Tools.{
  ToolPolicy, ToolError, tool_not_allowed, tool_budget_exceeded, tool_argument_invalid,
  tool_timeout, tool_result_too_large, tool_execution_failed, tool_evidence_mapping_failed,
  approval_interrupt, SafetyClass, read_only, proposal_only, plain, handled, interrupts, fails,
  Reply, Handler, EvidenceMapper, bare, registered, Registry, ToolResult, CacheKey, Event, invoked,
  completed, Router, Request,
}
use learning_system.Tools.Filter.{sanitize, sanitize_items}

-- len(text.encode("utf-8"))
unfoldable pub utf8_size : Text → ℕ
utf8_size [] = 0
utf8_size (c ∷ t) =
    (if ltb c 128 then 1 else if ltb c 2048 then 2 else if ltb c 65536 then 3 else 4) + utf8_size t

abbrev pub same_key : CacheKey → CacheKey → Bool
same_key j k =
    text_eq j.user_id k.user_id && text_eq j.run_id k.run_id && text_eq j.fingerprint k.fingerprint

unfoldable pub cached : List (CacheKey × ToolResult) → CacheKey → Option ToolResult
cached [] k = none
cached ((j, r) ∷ cache) k = let rest = cached cache k in if same_key j k then some r else rest

-- self._calls.get(run_id, 0)
unfoldable pub calls_of : List (Text × ℕ) → Text → ℕ
calls_of [] run = 0
calls_of ((r, n) ∷ calls) run = let rest = calls_of calls run in if text_eq r run then n else rest

unfoldable pub set_calls : List (Text × ℕ) → Text → ℕ → List (Text × ℕ)
set_calls [] run n = (run, n) ∷ []
set_calls ((r, m) ∷ calls) run n =
    let rest = set_calls calls run n in if text_eq r run then (r, n) ∷ calls else (r, m) ∷ rest

unfoldable pub count_items : Items → ℕ
count_items no_items = 0
count_items (item v xs) = suc (count_items xs)

unfoldable pub take_items : ℕ → Items → Items
take_items zero xs = no_items
take_items (suc n) no_items = no_items
take_items (suc n) (item v xs) = item v (take_items n xs)

abbrev pub items_key : Text
items_key = 105 ∷ 116 ∷ 101 ∷ 109 ∷ 115 ∷ []

-- value.get("items") if it is a list; a Python dict has a key once.
unfoldable pub listed : Fields → Option Items
listed no_fields = none
listed (field k v fs) =
    let rest = listed fs in
    if text_eq k items_key then elim v [ array xs ↦ some xs | _ ↦ none ] else rest

unfoldable pub with_items : Fields → Items → Fields
with_items no_fields xs = no_fields
with_items (field k v fs) xs =
    let rest = with_items fs xs in
    if text_eq k items_key then field k (array xs) fs else field k v rest

-- _normalize
unfoldable pub normalize : ToolPolicy → Json → Json × Bool
unfolding sanitize
normalize p (array xs) = (
  array (sanitize_items (take_items p.max_result_items xs)),
  ltb p.max_result_items (count_items xs),
)
normalize p (object fs) = elim (listed fs) [
  | some xs ↦ (
    sanitize (object (with_items fs (take_items p.max_result_items xs))),
    ltb p.max_result_items (count_items xs),
  )
  | none ↦ (sanitize (object fs), false)
]
normalize p v = (sanitize v, false)

abbrev pub logged : Event → Router → Router
logged e s = record s { log = s.log ++ (e ∷ []) }

-- _notify_completion
abbrev pub notify_completion : Bool → Bool → Router → Router
notify_completion present success s = if present then logged (completed success) s else s

abbrev or_none : Option EvidenceMapper → Json → Text → Option (List Text)
or_none none value fingerprint = some []
or_none (some mapper) value fingerprint = mapper value fingerprint

abbrev is_read_only : SafetyClass → Bool
is_read_only read_only = true
is_read_only proposal_only = false

-- argument_model.model_validate(arguments), when there is a model
abbrev validated : Option (Json → Option Json) → Json → Option Json
validated none arguments = some arguments
validated (some model) arguments = model arguments

-- A handler that runs in a worker is cut off after the timeout; one that runs in place is not.
abbrev is_late : ToolPolicy → Bool → Reply → Bool
is_late p use_worker r = use_worker && ltb p.timeout r.took

module _ (digest : Text → Text) (dumps_arguments dumps : Json → Text) (p : ToolPolicy) where
  abbrev pub fingerprint_of : Text → Json → Text
  fingerprint_of tool arguments = digest (tool ++ (10 ∷ dumps_arguments arguments))

  abbrev pub key_of : Request → CacheKey
  key_of q = record {
    user_id = q.user_id;
    run_id = q.run_id;
    fingerprint = fingerprint_of q.tool_name q.arguments;
  }

  -- What becomes of a value, after the completion was notified.
  unfoldable pub keep_result :
      Router → CacheKey → Option EvidenceMapper → Json → Bool → Router × Result ToolError ToolResult
  unfolding normalize utf8_size
  keep_result s k mapper raw handler_truncated =
      let (value, cut) = normalize p raw in
      let normalized = dumps value in
      let long = ltb p.max_normalized_result_chars (length normalized) in
      let short = if long then string (take p.max_normalized_result_chars normalized) else value in
      if ltb p.max_raw_result_bytes (utf8_size (dumps raw))
      then (s, err tool_result_too_large)
      else elim (or_none mapper short k.fingerprint) [
        | none ↦ (s, err tool_evidence_mapping_failed)
        | some evidence ↦
            let result : ToolResult = record {
              value = short;
              cache_hit = false;
              truncated = cut || handler_truncated || long;
              untrusted = true;
              fingerprint = k.fingerprint;
              evidence_items = evidence;
            } in
            (record s { cache = (k, result) ∷ s.cache }, ok result)
      ]

  -- The handler is called; `s` has counted the call.
  unfoldable pub invoke :
      Router
      → CacheKey
      → Reply
      → Bool
      → Option EvidenceMapper
      → Bool
      → Router × Result ToolError ToolResult
  unfolding keep_result
  invoke s k reply use_worker mapper completion =
      if is_late p use_worker reply
      then (notify_completion completion false s, err tool_timeout)
      else elim reply.outcome [
        | interrupts ↦ (s, err approval_interrupt)
        | fails ↦ (notify_completion completion false s, err tool_execution_failed)
        | plain raw ↦ keep_result (notify_completion completion true s) k mapper raw false
        | handled raw cut ↦ keep_result (notify_completion completion true s) k mapper raw cut
      ]

  -- _execute
  unfoldable pub execute_checked :
      Router
      → Request
      → Handler
      → Bool
      → Option EvidenceMapper
      → Bool
      → Router × Result ToolError ToolResult
  unfolding invoke cached calls_of set_calls utf8_size
  execute_checked s q handler use_worker mapper completion =
      let k = key_of q in
      let counted = record s {
        calls = set_calls s.calls q.run_id (calls_of s.calls q.run_id + 1);
      } in
      let done =
        invoke (logged (invoked q.run_id) counted) k (handler q.moment q.arguments) use_worker
          mapper completion in
      if ltb p.max_argument_bytes (utf8_size (dumps_arguments q.arguments))
      then (s, err tool_argument_invalid)
      else elim (cached s.cache k) [
        | some r ↦ (s, ok (record r { cache_hit = true }))
        | none ↦
            if leb p.max_calls_per_run (calls_of s.calls q.run_id)
            then (s, err tool_budget_exceeded)
            else done
      ]

  -- execute
  unfoldable pub execute : Registry → Router → Request → Router × Result ToolError ToolResult
  unfolding execute_checked
  execute registry s q = elim (registry q.tool_name) [
    | none ↦ (s, err tool_not_allowed)
    | some (bare h) ↦ execute_checked s q h true none false
    | some (registered t) ↦ elim t.legacy_handler [
      | none ↦ execute_checked s q t.handler true t.evidence_mapper false
      | some h ↦ execute_checked s q h false t.evidence_mapper false
    ]
  ]

  -- execute_agent
  unfoldable pub execute_agent :
      Bool → Registry → Router → Request → Router × Result ToolError ToolResult
  unfolding execute_checked
  execute_agent allow_agent_proposals registry s q = elim (registry q.tool_name) [
    | none ↦ (s, err tool_not_allowed)
    | some (bare h) ↦ (s, err tool_not_allowed)
    | some (registered t) ↦
        let allowed = t.agent_visible && (is_read_only t.safety_class || allow_agent_proposals) in
        if not allowed
        then (s, err tool_not_allowed)
        else elim (validated t.argument_model q.arguments) [
          | none ↦ (s, err tool_argument_invalid)
          | some arguments ↦
              execute_checked s (record q { arguments = arguments }) t.handler true
                t.evidence_mapper t.completion_handler
        ]
  ]
