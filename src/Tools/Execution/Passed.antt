-- ===== src/Tools/Execution/Passed.antt =====
-- What `_normalize` and `_sanitize` of tool_router.py make of a tool's answer.
use learning_system.Prelude.{
  ◌≡◌, refl, sym, subst, inl, inr, Bool, true, false, not, ◌&&◌, arith, ltb, Option-cases, Json,
}
use learning_system.Prelude.Jsons.{
  null, boolean, number, string, array, object, Items, no_items, item, Fields, no_fields, field,
}
use learning_system.Tools.Filter.{sanitize, sanitize_items, sanitize_fields}
use learning_system.Tools.Filter.Clean.{contains_phrase, sanitize_text-clean}
use learning_system.Tools.Execution.{
  ToolPolicy, normalize, listed, take_items, with_items, count_items,
}

-- At every depth no text contains a phrase; the keys of an object are not read.
mutual
  pub texts_clean : Json → Bool
  texts_clean (string t) = not (contains_phrase t)
  texts_clean (array xs) = items_clean xs
  texts_clean (object fs) = fields_clean fs
  texts_clean _ = true

  pub items_clean : Items → Bool
  items_clean no_items = true
  items_clean (item v xs) = texts_clean v && items_clean xs

  pub fields_clean : Fields → Bool
  fields_clean no_fields = true
  fields_clean (field k v fs) = texts_clean v && fields_clean fs

mutual
  unfolding sanitize sanitize_items sanitize_fields texts_clean items_clean fields_clean

  values : (v : Json) → texts_clean (sanitize v) ≡ true
  values null = refl
  values (boolean b) = refl
  values (number n) = refl
  values (string t) = rw (sanitize_text-clean t) refl
  values (array xs) = items xs
  values (object fs) = fields fs

  items : (xs : Items) → items_clean (sanitize_items xs) ≡ true
  items no_items = refl
  items (item v xs) = ground (arith, values v, items xs)

  fields : (fs : Fields) → fields_clean (sanitize_fields fs) ≡ true
  fields no_fields = refl
  fields (field k v fs) = ground (arith, values v, fields fs)

-- Whatever a tool answered, in what `_normalize` makes of it no text contains one of the phrases, in any
-- case: neither the answer itself nor any value at any depth of its lists and objects. The keys of the
-- objects are not meant.
pub normalize-clean : (p : ToolPolicy) (v : Json) → texts_clean (normalize p v).0 ≡ true
unfolding normalize texts_clean
normalize-clean p null = refl
normalize-clean p (boolean b) = refl
normalize-clean p (number n) = refl
normalize-clean p (string t) = values (string t)
normalize-clean p (array xs) = items (take_items p.max_result_items xs)
normalize-clean p (object fs) = elim (Option-cases (listed fs)) [
  | inl e ↦
      let as_is : normalize p (object fs) ≡ (sanitize (object fs), false) =
        rw (normalize, e) refl in
      subst (λ (r : Json × Bool). texts_clean r.0 ≡ true) (sym as_is) (values (object fs))
  | inr (xs, e) ↦
      let kept = object (with_items fs (take_items p.max_result_items xs)) in
      let cut : normalize p (object fs) ≡ (sanitize kept, ltb p.max_result_items (count_items xs)) =
        rw (normalize, e) refl in
      subst (λ (r : Json × Bool). texts_clean r.0 ≡ true) (sym cut) (values kept)
]
