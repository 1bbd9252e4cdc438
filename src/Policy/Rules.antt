-- ===== src/Policy/Rules.antt =====
-- `validate_rule` and `matches` of services/policy/recoup_policy/engine.py over JSON rules. Both recur
-- into the rule: they take its depth as fuel, which never runs out in `validate_rule` (Policy/Depth),
-- nor in `matches` on a rule that it accepts (Policy/Validation).
use recoup.Common.{
  ℕ, zero, suc, String, Bool, true, false, not, ◌&&◌, ◌||◌, Option, none, some, List, [], ◌∷◌, ◌++◌,
  str_eq, if◌then◌else◌, any, leb,
}
use recoup.Json.{
  Value, Items, Fields, null, text, arr, obj, nil, cons, end, field, has_key, get_field,
  is_nonempty,
}
use recoup.Policy.Facts.{TextLibrary, get_fact}
use recoup.Policy.Compare.{
  Answer, holds, raises, unknown_operator, type_error, attribute_error, missing_key, exhausted,
  negate, compare,
}

-- `OPS`: the operators that compare with a value, and those that do not.
unfoldable pub binary_ops : List String
binary_ops =
    "==" ∷ "!=" ∷ "<" ∷ "<=" ∷ ">" ∷ ">=" ∷ "in" ∷ "not_in" ∷ "contains" ∷ "matches" ∷ "startswith"
    ∷ []

unfoldable pub ops : List String
unfolding binary_ops
ops = binary_ops ++ ("exists" ∷ "not_exists" ∷ [])

-- The larger of two depths.
abbrev pub max_ℕ : ℕ → ℕ → ℕ
max_ℕ a b = if leb a b then b else a

unfoldable mutual
  pub depth_fields : Fields → ℕ
  depth_fields (field k v r) = max_ℕ (depth v) (depth_fields r)
  depth_fields end = 0

  pub depth : Value → ℕ
  depth (obj fs) = suc (depth_fields fs)
  depth (arr xs) = suc (depth_items xs)
  depth _ = 1

  pub depth_items : Items → ℕ
  depth_items (cons v r) = max_ℕ (depth v) (depth_items r)
  depth_items nil = 0

-- What `validate_rule` raises, one constructor for each message.
pub data RuleError : Type 0 where
  not_an_object leaf_needs_fact_and_op too_deep : RuleError
  needs_nonempty_list : String → RuleError
  bad_operator : Value → RuleError
  needs_value : String → RuleError

-- `none` where the rule is well formed.
abbrev pub Verdict : Type 0
Verdict = Option RuleError

abbrev both : Verdict → Verdict → Verdict
both none v = v
both (some e) v = some e

-- `for sub in rule[key]: validate_rule(sub)`
unfoldable pub each_item : (Value → Verdict) → Items → Verdict
each_item check nil = none
each_item check (cons v r) = both (check v) (each_item check r)

unfoldable pub validate_list : (Value → Verdict) → String → Option Value → Verdict
validate_list check key (some (arr (cons v r))) = each_item check (cons v r)
validate_list check key _ = some (needs_nonempty_list key)

unfoldable pub is_op : Value → Bool
unfolding ops
is_op (text t) = any (λ o. str_eq t o) ops
is_op _ = false

abbrev pub unary_op : Value → Bool
unary_op (text t) = str_eq t "exists" || str_eq t "not_exists"
unary_op _ = false

abbrev text_of : Value → String
text_of (text t) = t
text_of _ = ""

unfoldable pub validate_op : Value → Fields → Verdict
unfolding is_op
validate_op op fs =
    if not (is_op op)
    then some (bad_operator op)
    else if not (unary_op op) && not (has_key "value" fs)
    then some (needs_value (text_of op))
    else none

unfoldable pub validate_leaf : Fields → Verdict
unfolding validate_op
validate_leaf fs =
    if not (has_key "fact" fs) || not (has_key "op" fs)
    then some leaf_needs_fact_and_op
    else (elim (get_field "op" fs) [
      | none ↦ some leaf_needs_fact_and_op
      | some op ↦ validate_op op fs
    ])

abbrev pub validate_not : (Value → Verdict) → Option Value → Verdict
validate_not check none = none
validate_not check (some v) = check v

-- The branches of `validate_rule` on a dictionary; `check` is the recursive call.
unfoldable pub validate_object : (Value → Verdict) → Fields → Verdict
unfolding validate_list validate_leaf
validate_object check fs =
    if has_key "all" fs
    then validate_list check "all" (get_field "all" fs)
    else if has_key "any" fs
    then validate_list check "any" (get_field "any" fs)
    else if has_key "not" fs
    then validate_not check (get_field "not" fs)
    else validate_leaf fs

unfoldable pub validate : ℕ → Value → Verdict
validate zero rule = some too_deep
validate (suc n) (obj fs) = validate_object (validate n) fs
validate (suc n) _ = some not_an_object

unfoldable pub validate_rule : Value → Verdict
unfolding validate depth
validate_rule rule = validate (depth rule) rule

-- `all(…)` and `any(…)` stop at the first sub-rule that decides.
unfoldable pub all_items : (Value → Answer) → Items → Answer
all_items test nil = holds true
all_items test (cons v r) =
    let rest = all_items test r in
    elim (test v) [ raises e ↦ raises e | holds b ↦ if b then rest else holds false ]

unfoldable pub any_items : (Value → Answer) → Items → Answer
any_items test nil = holds false
any_items test (cons v r) =
    let rest = any_items test r in
    elim (test v) [ raises e ↦ raises e | holds b ↦ if b then holds true else rest ]

-- Iterating over a value that is no list: a text or a dictionary with something in it gives texts,
-- which are no rules.
unfoldable pub over_list : (Items → Answer) → Value → Answer
over_list f (arr xs) = f xs
over_list f (text t) = if str_eq t "" then f nil else raises type_error
over_list f (obj fs) = if is_nonempty fs then raises type_error else f nil
over_list f _ = raises type_error

abbrev pub or_null : Option Value → Value
or_null none = null
or_null (some v) = v

-- An operator that is no text is none of the known ones.
abbrev match_other_op : TextLibrary → Value → Option Value → Answer
match_other_op lib op none = holds false
match_other_op lib op (some actual) = raises (unknown_operator (lib.to_text op))

-- The leaf: `_compare(get_fact(context, rule["fact"]), rule["op"], rule.get("value"))`. A path that is
-- no text cannot be split.
unfoldable pub match_leaf : TextLibrary → Fields → Value → Answer
match_leaf lib fs context = elim (get_field "fact" fs) [
  | some (text path) ↦ elim (get_field "op" fs) [
    | some (text op) ↦ compare lib (get_fact context path) op (or_null (get_field "value" fs))
    | some v ↦ match_other_op lib v (get_fact context path)
    | none ↦ raises missing_key
  ]
  | some v ↦ raises attribute_error
  | none ↦ raises missing_key
]

unfoldable pub match_object : TextLibrary → (Value → Answer) → Fields → Value → Answer
unfolding all_items any_items over_list match_leaf
match_object lib test fs context = elim (get_field "all" fs) [
  | some v ↦ over_list (all_items test) v
  | none ↦ elim (get_field "any" fs) [
    | some v ↦ over_list (any_items test) v
    | none ↦ elim (get_field "not" fs) [
      | some v ↦ negate (test v)
      | none ↦ match_leaf lib fs context
    ]
  ]
]

unfoldable pub match_rule : TextLibrary → Value → ℕ → Value → Answer
match_rule lib context zero rule = raises exhausted
match_rule lib context (suc n) (obj fs) = match_object lib (match_rule lib context n) fs context
match_rule lib context (suc n) _ = raises type_error

unfoldable pub matches : TextLibrary → Value → Value → Answer
unfolding match_rule depth
matches lib rule context = match_rule lib context (depth rule) rule
