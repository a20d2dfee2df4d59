-- ===== src/Memory/Validation/Bounds.antt =====
-- What `_normalize_tree` of validation.py lets through.
use learning_system.Prelude.{
  ℕ, suc, ◌+◌, ◌≤◌, ◌≡◌, refl, subst, Bool, true, false, not, ◌&&◌, Option, none, some, arith, ltb,
  leb, if◌then◌else◌, Text,
}
use learning_system.Memory.Contracts.{
  Value, Fields, Items, nothing, not_finite, other, flag, integer, real, text, moment, day, dict,
  list, no_fields, field, other_field, no_items, item,
}
use learning_system.Memory.Validation.{
  is_forbidden, normalize_tree, normalize_fields, normalize_items, count_fields, count_items,
  visited, and_then,
}

-- The number of values in a value.
mutual
  pub size : Value → ℕ
  size (dict fs) = suc (size_fields fs)
  size (list xs) = suc (size_items xs)
  size _ = 1

  pub size_fields : Fields → ℕ
  size_fields no_fields = 0
  size_fields (field k v fs) = size v + size_fields fs
  size_fields (other_field v fs) = size v + size_fields fs

  pub size_items : Items → ℕ
  size_items no_items = 0
  size_items (item x xs) = size x + size_items xs

module _ (fold : ℕ → Text) (iso : ℕ → Text) where
  -- A value of JSON at most eight deep, counted from `depth`, in which every key is a text and none
  -- is forbidden.
  mutual
    pub is_clean : ℕ → Value → Bool
    is_clean depth nothing = leb depth 8
    is_clean depth (flag b) = leb depth 8
    is_clean depth (integer i) = leb depth 8
    is_clean depth (real r) = leb depth 8
    is_clean depth (text t) = leb depth 8
    is_clean depth (dict fs) = leb depth 8 && all_clean (suc depth) fs
    is_clean depth (list xs) = leb depth 8 && all_clean_items (suc depth) xs
    is_clean depth (moment t) = false
    is_clean depth (day t) = false
    is_clean depth not_finite = false
    is_clean depth other = false

    pub all_clean : ℕ → Fields → Bool
    all_clean depth no_fields = true
    all_clean depth (field k v fs) =
        not (is_forbidden fold iso k) && (is_clean depth v && all_clean depth fs)
    all_clean depth (other_field v fs) = false

    pub all_clean_items : ℕ → Items → Bool
    all_clean_items depth no_items = true
    all_clean_items depth (item x xs) = is_clean depth x && all_clean_items depth xs

  -- What a visit that begins with the count `nodes` comes to.
  abbrev Done : ℕ → ℕ → ℕ × Value → Type 0
  Done depth nodes r = (r.0 ≡ nodes + size r.1) × (r.0 ≤ 1000) × (is_clean depth r.1 ≡ true)

  abbrev DoneFields : ℕ → ℕ → ℕ × Fields → Type 0
  DoneFields depth nodes r =
      (r.0 ≡ nodes + size_fields r.1) × (r.0 ≤ 1000) × (all_clean depth r.1 ≡ true)

  abbrev DoneItems : ℕ → ℕ → ℕ × Items → Type 0
  DoneItems depth nodes r =
      (r.0 ≡ nodes + size_items r.1) × (r.0 ≤ 1000) × (all_clean_items depth r.1 ≡ true)

  some-injective {ℓ} : {A : Type ℓ} {a b : A} → some a ≡ some b → a ≡ b
  some-injective h = cc

  visited-some :
      (depth nodes : ℕ) (o : Option (ℕ × Value)) {r : ℕ × Value}
      → visited fold iso depth nodes o ≡ some r
      → (suc nodes ≤ 1000) × (depth ≤ 8) × (o ≡ some r)
  visited-some depth nodes o h = ground arith

  unless-some {ℓ} :
      {A : Type ℓ} (b : Bool) (o : Option A) {a : A} → (if b then none else o) ≡ some a → o ≡ some a
  unless-some b o h = ground arith

  and_then-some {ℓ κ} :
      {A : Type ℓ} {B : Type κ} (o : Option A) (f : A → Option B) {b : B}
      → and_then o f ≡ some b
      → (a : A) × (o ≡ some a) × (f a ≡ some b)
  and_then-some none f h = cc
  and_then-some (some a) f h = (a, refl, h)

  leaf :
      (depth nodes : ℕ) (v : Value) {r : ℕ × Value}
      → size v ≡ 1
      → is_clean depth v ≡ leb depth 8
      → visited fold iso depth nodes (some (suc nodes, v)) ≡ some r
      → Done depth nodes r
  leaf depth nodes v one clean h =
      let (few, shallow, e) = visited-some depth nodes (some (suc nodes, v)) h in
      subst (Done depth nodes) (some-injective e) (omega (arith, one), few, ground (arith, clean))

  mutual
    unfolding normalize_tree normalize_fields normalize_items size size_fields size_items is_clean
        all_clean all_clean_items

    tree :
        (depth nodes : ℕ) (v : Value) {r : ℕ × Value}
        → normalize_tree fold iso depth nodes v ≡ some r
        → Done depth nodes r
    tree depth nodes nothing h = leaf depth nodes nothing refl refl h
    tree depth nodes not_finite h = absurd (cc)
    tree depth nodes other h = absurd (cc)
    tree depth nodes (flag b) h = leaf depth nodes (flag b) refl refl h
    tree depth nodes (integer b) h = leaf depth nodes (integer b) refl refl h
    tree depth nodes (real b) h = leaf depth nodes (real b) refl refl h
    tree depth nodes (text b) h = leaf depth nodes (text b) refl refl h
    tree depth nodes (moment none) h = absurd (cc)
    tree depth nodes (moment (some t)) h = leaf depth nodes (text (iso t)) refl refl h
    tree depth nodes (day t) h = absurd (cc)
    tree depth nodes (dict fs) h =
        let (few, shallow, e) = visited-some depth nodes _ h in
        let (q, got, same) =
          and_then-some (normalize_fields fold iso (suc depth) (suc nodes) fs) _
            (unless-some (ltb 100 (count_fields fs)) _ e) in
        let (a, b, c) = fields (suc depth) (suc nodes) fs few got in
        subst (Done depth nodes) (some-injective same) (omega (arith, a), b, ground (arith, c))
    tree depth nodes (list xs) h =
        let (few, shallow, e) = visited-some depth nodes _ h in
        let (q, got, same) =
          and_then-some (normalize_items fold iso (suc depth) (suc nodes) xs) _
            (unless-some (ltb 100 (count_items xs)) _ e) in
        let (a, b, c) = items (suc depth) (suc nodes) xs few got in
        subst (Done depth nodes) (some-injective same) (omega (arith, a), b, ground (arith, c))

    fields :
        (depth nodes : ℕ) (fs : Fields) {r : ℕ × Fields}
        → nodes ≤ 1000
        → normalize_fields fold iso depth nodes fs ≡ some r
        → DoneFields depth nodes r
    fields depth nodes no_fields few h =
        subst (DoneFields depth nodes) (some-injective h) (omega arith, few, refl)
    fields depth nodes (other_field v fs) few h = absurd (cc)
    fields depth nodes (field k v fs) few h =
        let (q, got, rest) =
          and_then-some (normalize_tree fold iso depth nodes v) _
            (unless-some (is_forbidden fold iso k) _ h) in
        let (p, more, same) = and_then-some (normalize_fields fold iso depth q.0 fs) _ rest in
        let (a, b, c) = tree depth nodes v got in
        let (d, e, f) = fields depth q.0 fs b more in
        subst (DoneFields depth nodes) (some-injective same)
          (omega (arith, a, d), e, ground (arith, c, f, h))

    items :
        (depth nodes : ℕ) (xs : Items) {r : ℕ × Items}
        → nodes ≤ 1000
        → normalize_items fold iso depth nodes xs ≡ some r
        → DoneItems depth nodes r
    items depth nodes no_items few h =
        subst (DoneItems depth nodes) (some-injective h) (omega arith, few, refl)
    items depth nodes (item x xs) few h =
        let (q, got, rest) = and_then-some (normalize_tree fold iso depth nodes x) _ h in
        let (p, more, same) = and_then-some (normalize_items fold iso depth q.0 xs) _ rest in
        let (a, b, c) = tree depth nodes x got in
        let (d, e, f) = items depth q.0 xs b more in
        subst (DoneItems depth nodes) (some-injective same)
          (omega (arith, a, d), e, ground (arith, c, f))

  -- A value that is let through at depth 1 with no values before it: the count is the number of
  -- values in it, at most 1000; it is plain JSON at most eight deep, and no key at any depth is a
  -- forbidden one, up to white space and case.
  pub normalize_tree-is_clean :
      (v : Value) (n : ℕ) (w : Value)
      → normalize_tree fold iso 1 0 v ≡ some (n, w)
      → (n ≡ size w) × (n ≤ 1000) × (is_clean 1 w ≡ true)
  normalize_tree-is_clean v n w h =
      let (count, few, clean) = tree 1 0 v h in (omega (arith, count), few, clean)
