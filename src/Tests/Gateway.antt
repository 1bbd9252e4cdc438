-- ===== src/Tests/Gateway.antt =====
-- The theorems on calls of tools, at concrete inputs.
use recoup.Common.{◌≡◌, refl, true, ◌||◌, none, some, [], ◌∷◌, is_some}
use recoup.Json.{Fields, null, field, end}
use recoup.Case.Status.{approved}
use recoup.Policy.Engine.{require_approval}
use recoup.Gateway.Registry.{ToolSpec, given, is_low_risk, register_all, get_tool}
use recoup.Gateway.Invoke.{
  InvokeRequest, Answers, live, returned, is_live, is_propose, invoke, gate, check_action,
}
use recoup.Gateway.Guard.{Permitted, is_cleared, invoke_runs, side_effects_cleared}

abbrev credit_memo_tool : ToolSpec
credit_memo_tool = record {
  name = "create_credit_memo";
  side_effect = true;
  requires_policy_check = true;
  action_type = some "CREATE_CREDIT_MEMO";
}

abbrev tool_args : Fields
tool_args = field "invoice_ref" null end

abbrev request : InvokeRequest
request = record {
  case_id = some 1;
  args = tool_args;
  idempotency_key = some "run-1";
  approval_ref = some "action-4";
  mode = live;
}

abbrev answers : Answers
answers = record {
  validated = λ fields. some fields;
  within_limit = true;
  cached = none;
  decision = λ fields. some require_approval;
  action = some (record {
    status = approved;
    action_type = "CREATE_CREDIT_MEMO";
    executed_at = none;
    human_final = none;
  });
  handler = λ fields. returned null;
}

invoke_runs_example :
    (args : Fields) × (some tool_args ≡ some args)
    × Permitted credit_memo_tool request answers args tool_args
unfolding invoke gate check_action
invoke_runs_example = invoke_runs credit_memo_tool request answers {ran = tool_args} refl

side_effects_cleared_example :
    (is_live live ≡ true)
    × (is_some (given (some "run-1")) ≡ true)
    × ((args : Fields) × (some tool_args ≡ some args)
        × ((is_low_risk "create_credit_memo"
              || (is_propose credit_memo_tool || is_cleared credit_memo_tool request answers args))
            ≡ true))
unfolding invoke gate check_action register_all get_tool
side_effects_cleared_example =
    side_effects_cleared (credit_memo_tool ∷ []) (credit_memo_tool ∷ []) "create_credit_memo"
      credit_memo_tool request answers {ran = tool_args} refl refl refl refl
