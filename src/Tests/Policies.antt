-- ===== src/Tests/Policies.antt =====
-- The theorems on rules and on their evaluation, at concrete inputs.
use recoup.Common.{◌≡◌, refl, true, false, not, ◌&&◌, ◌||◌, none, List, [], ◌∷◌, any}
use recoup.Common.Int.{ℤ, pos, scale_ℤ}
use recoup.Json.{Value, num, text, obj, end, field, has_key, get_field}
use recoup.Policy.Facts.{TextLibrary, get_fact, to_num, le_num}
use recoup.Policy.Compare.{
  attribute_error, raises, compare, compare_present, compare_numbers, le_decimals,
}
use recoup.Policy.Rules.{validate_rule, matches, match_object, validate_object}
use recoup.Policy.Depth.{ran_out, validate_rule-fuel}
use recoup.Policy.Engine.{
  Decision, allow, require_approval, deny, is_deny, PolicyRule, EvaluationResult, Outcome, done,
  failed, evaluate, key_le, default_result,
}
use recoup.Policy.Decides.{evaluate_allow, evaluate_deny, fires_with, all_fired, leads, is_allow}

abbrev pub library : TextLibrary
library = record { decimal = λ t. none; search = λ pattern t. none; to_text = λ v. "" }

-- `{"fact": "amount", "op": "<=", "value": 500}`
abbrev pub small_amount : Value
small_amount =
    obj
      (field "fact" (text "amount") (field "op" (text "<=") (field "value" (num (pos 500) 0) end)))

-- `{"fact": "amount", "op": "in", "value": 500}`
abbrev pub odd_rule : Value
odd_rule =
    obj
      (field "fact" (text "amount") (field "op" (text "in") (field "value" (num (pos 500) 0) end)))

abbrev pub context : Value
context = obj (field "amount" (num (pos 120) 0) end)

abbrev rule_of : ℤ → Value → Decision → PolicyRule
rule_of priority rule decision = record {
  policy_id = 1;
  name = "small credits";
  action_type = "create_credit_memo";
  priority = priority;
  rule = rule;
  decision = decision;
  required_role = none;
  reason = none;
  version = 1;
}

abbrev rules : List PolicyRule
rules = rule_of (pos 900) small_amount require_approval ∷ rule_of (pos 10) small_amount allow ∷ []

abbrev answer : Outcome EvaluationResult → EvaluationResult
answer (done r) = r
answer (failed e) = default_result deny "analyst"

abbrev result : EvaluationResult
result = answer (evaluate library "create_credit_memo" context rules require_approval "analyst")

-- `{"fact": 5, "op": "exists"}` passes the validation and cannot be matched.
abbrev fact_number : Value
fact_number = obj (field "fact" (num (pos 5) 0) (field "op" (text "exists") end))

fact_number_accepted : validate_rule fact_number ≡ none
unfolding validate_rule validate_object has_key get_field
fact_number_accepted = refl

fact_number_raises : matches library fact_number context ≡ raises attribute_error
unfolding matches match_object get_field
fact_number_raises = refl

validate_rule-fuel_example : ran_out (validate_rule odd_rule) ≡ false
validate_rule-fuel_example = validate_rule-fuel odd_rule

evaluate_allow_example :
    any
      (fires_with library "create_credit_memo" context (λ r.
        is_allow r.decision && all_fired library "create_credit_memo" context (leads r) rules))
      rules
    ≡ true
unfolding evaluate key_le matches match_object get_field compare get_fact compare_present
    compare_numbers le_decimals to_num le_num scale_ℤ
evaluate_allow_example =
    evaluate_allow library "create_credit_memo" context rules require_approval "analyst"
      {res = result} refl refl (λ e. cc)

evaluate_deny_example : is_deny result.decision ≡ (
    any (fires_with library "create_credit_memo" context (λ r. is_deny r.decision)) rules
    || (is_deny require_approval
        && not (any (fires_with library "create_credit_memo" context (λ r. true)) rules)))
unfolding evaluate key_le matches match_object get_field compare get_fact compare_present
    compare_numbers le_decimals to_num le_num scale_ℤ
evaluate_deny_example =
    evaluate_deny library "create_credit_memo" context rules require_approval "analyst"
      {res = result} refl

abbrev odd_rules : List PolicyRule
odd_rules = rule_of (pos 10) odd_rule allow ∷ []
