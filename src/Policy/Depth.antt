-- ===== src/Policy/Depth.antt =====
-- The depth of a rule is fuel enough for `validate_rule` and `matches`
-- (services/policy/recoup_policy/engine.py).
use recoup.Common.{
  ℕ, zero, suc, ◌≤◌, ◌≡◌, refl, String, Bool, true, false, Option, none, some, arith,
}
use recoup.Json.{
  Value, Items, Fields, obj, text, num, arr, bool, null, nil, cons, end, field, get_field,
}
use recoup.Policy.Rules.{
  depth, depth_items, depth_fields, max_ℕ, Verdict, too_deep, each_item, validate_list,
  validate_not, validate_op, validate_leaf, validate_object, validate, validate_rule,
}

-- The fuel ran out.
abbrev pub ran_out : Verdict → Bool
ran_out (some too_deep) = true
ran_out _ = false

max_left : (a b : ℕ) → a ≤ max_ℕ a b
max_left a b = ground arith

max_right : (a b : ℕ) → b ≤ max_ℕ a b
max_right a b = ground arith

depth-field :
    (k : String) (v : Value) (r : Fields)
    → (depth v ≤ depth_fields (field k v r)) × (depth_fields r ≤ depth_fields (field k v r))
unfolding depth
depth-field k v r = (max_left (depth v) (depth_fields r), max_right (depth v) (depth_fields r))

depth-cons :
    (v : Value) (r : Items)
    → (depth v ≤ depth_items (cons v r)) × (depth_items r ≤ depth_items (cons v r))
unfolding depth
depth-cons v r = (max_left (depth v) (depth_items r), max_right (depth v) (depth_items r))

depth-pos : (v : Value) → 1 ≤ depth v
unfolding depth
depth-pos (obj fs) = omega arith
depth-pos (arr xs) = omega arith
depth-pos (text t) = omega arith
depth-pos (num m k) = omega arith
depth-pos (bool b) = omega arith
depth-pos null = omega arith

get_field-depth :
    (k : String) (fs : Fields) {v : Value} → get_field k fs ≡ some v → depth v ≤ depth_fields fs
unfolding get_field
get_field-depth k end h = cc
get_field-depth k (field n w r) {v} h =
    ground (arith, depth-field n w r, get_field-depth k r {v = v})

leaf_no_fuel : (fs : Fields) → ran_out (validate_leaf fs) ≡ false
unfolding validate_leaf validate_op
leaf_no_fuel fs = ground arith

module _ (n : ℕ) (enough : (v : Value) → depth v ≤ n → ran_out (validate n v) ≡ false) where
  each_item-fuel : (xs : Items) → depth_items xs ≤ n → ran_out (each_item (validate n) xs) ≡ false
  unfolding each_item
  each_item-fuel nil h = refl
  each_item-fuel (cons v r) h = ground (arith, depth-cons v r, enough v, each_item-fuel r)

  list-fuel :
      (key : String) (v : Value)
      → depth v ≤ n
      → ran_out (validate_list (validate n) key (some v)) ≡ false
  unfolding validate_list depth
  list-fuel key (arr nil) h = refl
  list-fuel key (arr (cons v r)) h = each_item-fuel (cons v r) (omega (arith, h))
  list-fuel key (obj fs) h = refl
  list-fuel key (text t) h = refl
  list-fuel key (num m k) h = refl
  list-fuel key (bool b) h = refl
  list-fuel key null h = refl

  at_key :
      (k : String) (fs : Fields) (o : Option Value)
      → get_field k fs ≡ o
      → depth_fields fs ≤ n
      → ran_out (validate_list (validate n) k o) ≡ false
  unfolding validate_list
  at_key k fs none e h = refl
  at_key k fs (some v) e h = list-fuel k v (omega (arith, get_field-depth k fs {v = v} e))

  not-fuel :
      (fs : Fields) (o : Option Value)
      → get_field "not" fs ≡ o
      → depth_fields fs ≤ n
      → ran_out (validate_not (validate n) o) ≡ false
  not-fuel fs none e h = refl
  not-fuel fs (some v) e h = enough v (omega (arith, get_field-depth "not" fs {v = v} e))

  object-fuel :
      (fs : Fields) → depth_fields fs ≤ n → ran_out (validate_object (validate n) fs) ≡ false
  unfolding validate_object
  object-fuel fs h = ground (
    arith,
    at_key "all" fs (get_field "all" fs) refl h,
    at_key "any" fs (get_field "any" fs) refl h,
    not-fuel fs (get_field "not" fs) refl h,
    leaf_no_fuel fs,
  )

validate-fuel : (n : ℕ) (v : Value) → depth v ≤ n → ran_out (validate n v) ≡ false
unfolding validate depth
validate-fuel zero v h = absurd (omega (arith, depth-pos v, h))
validate-fuel (suc n) (obj fs) h = object-fuel n (validate-fuel n) fs (omega (arith, h))
validate-fuel (suc n) (arr xs) h = refl
validate-fuel (suc n) (text t) h = refl
validate-fuel (suc n) (num m k) h = refl
validate-fuel (suc n) (bool b) h = refl
validate-fuel (suc n) null h = refl

-- `validate_rule` never ends for want of fuel, on any value.
pub validate_rule-fuel : (rule : Value) → ran_out (validate_rule rule) ≡ false
unfolding validate_rule
validate_rule-fuel rule = validate-fuel (depth rule) rule (omega arith)
