-- ===== src/Gateway/Invoke.antt =====
-- `ToolService.invoke`, `_simulate` and `_gate` of services/tool-gateway/recoup_tool_gateway/service.py.
-- What the other services answer during a call is a parameter, `Answers`. The audit row and its event,
-- written on every path, are the `Invocation`; the texts of the errors are left out.
use recoup.Common.{
  ℕ, String, Bool, true, false, not, ◌&&◌, ◌||◌, Option, none, some, str_eq, if◌then◌else◌, is_some,
}
use recoup.Json.{Value, Fields, merge, is_nonempty}
use recoup.Case.Status.{ActionStatus, approved, edited, ◌is_action◌}
use recoup.Policy.Engine.{Decision, allow, require_approval, deny}
use recoup.Gateway.Registry.{ToolSpec, given}

pub data Mode : Type 0 where
  live shadow replay : Mode

abbrev pub is_live : Mode → Bool
is_live live = true
is_live _ = false

pub record InvokeRequest : Type 0 where
  pub case_id : Option ℕ
  pub args : Fields
  pub idempotency_key : Option String
  pub approval_ref : Option String
  pub mode : Mode

-- A proposed action as the case service shows it.
pub record ActionRow : Type 0 where
  pub status : ActionStatus
  pub action_type : String
  pub executed_at : Option ℕ
  pub human_final : Option Fields

pub data Status : Type 0 where
  success cached_result shadowed denied approval_needed rejected_args rate_limited error : Status

-- A handler returns, or raises what is recorded with a status.
pub data Handled : Type 0 where
  returned : Value → Handled
  raised : Status → Handled

-- What the argument model, the rate limiter, the audit table, the policy service, the case service and
-- the handler answer.
pub record Answers : Type 0 where
  pub validated : Fields → Option Fields
  pub within_limit : Bool
  pub cached : Option Value
  pub decision : Fields → Option Decision  -- `none` where the policy service fails
  pub action : Option ActionRow
  pub handler : Fields → Handled

-- What a call leaves: its status, the arguments that the handler ran on, and the approval that was
-- reported as executed.
pub record Invocation : Type 0 where
  pub status : Status
  pub ran_on : Option Fields
  pub marked : Option String

abbrev pub stops : Status → Invocation
stops status = record { status = status; ran_on = none; marked = none }

-- `_gate` passes with the arguments to run on, or raises.
pub data Gate : Type 0 where
  passes : Fields → Gate
  blocks : Status → Gate

abbrev pub is_propose : ToolSpec → Bool
is_propose spec = str_eq spec.name "propose_action"

abbrev pub same_type : Option String → String → Bool
same_type none t = false
same_type (some s) t = str_eq t s

-- The human's edit is authoritative. A merge that does not validate is no DomainError.
abbrev pub revalidated : Option Fields → Gate
revalidated none = blocks error
revalidated (some args) = passes args

abbrev pub merged : Answers → Fields → Option Fields → Gate
merged w args none = passes args
merged w args (some final) =
    if is_nonempty final then revalidated (w.validated (merge args final)) else passes args

unfoldable pub check_action : ToolSpec → Answers → Fields → ActionRow → Gate
check_action spec w args a =
    if not (a.status is_action approved || a.status is_action edited)
    then blocks approval_needed
    else if not (same_type spec.action_type a.action_type)
    then blocks approval_needed
    else if is_some a.executed_at
    then blocks approval_needed
    else if a.status is_action edited
    then merged w args a.human_final
    else passes args

abbrev pub found_action : ToolSpec → Answers → Fields → Option ActionRow → Gate
found_action spec w args none = blocks error
found_action spec w args (some a) = check_action spec w args a

unfoldable pub gate : ToolSpec → InvokeRequest → Answers → Fields → Gate
unfolding check_action
gate spec req w args = if is_propose spec then passes args else (elim (w.decision args) [
  | none ↦ blocks error
  | some deny ↦ blocks denied
  | some allow ↦ passes args
  | some require_approval ↦
      if not (is_some (given req.approval_ref)) || not (is_some req.case_id)
      then blocks approval_needed
      else found_action spec w args w.action
])

-- Steps 5 and 6: the handler runs, and the approval that the request named is reported.
abbrev pub executed : ToolSpec → InvokeRequest → Fields → Handled → Invocation
executed spec req args (raised s) = record { status = s; ran_on = some args; marked = none }
executed spec req args (returned result) = record {
  status = success;
  ran_on = some args;
  marked = if is_some req.case_id && not (is_propose spec) then given req.approval_ref else none;
}

abbrev pub after_gate : ToolSpec → InvokeRequest → Answers → Gate → Invocation
after_gate spec req w (blocks s) = stops s
after_gate spec req w (passes args) = executed spec req args (w.handler args)

-- `_simulate`
unfoldable pub simulate : ToolSpec → Answers → Fields → Invocation
simulate spec w args =
    if spec.requires_policy_check
    then (elim (w.decision args) [
      | none ↦ stops error
      | some deny ↦ stops denied
      | some _ ↦ stops shadowed
    ])
    else stops shadowed

unfoldable pub call : ToolSpec → InvokeRequest → Answers → Fields → Invocation
unfolding simulate gate
call spec req w args =
    if not (is_live req.mode) && spec.side_effect
    then simulate spec w args
    else after_gate spec req w
        (if spec.requires_policy_check then gate spec req w args else passes args)

-- The arguments are valid: the limit and the idempotency key.
unfoldable pub admitted : ToolSpec → InvokeRequest → Answers → Fields → Invocation
unfolding call
admitted spec req w args =
    if not w.within_limit
    then stops rate_limited
    else if spec.side_effect && not (is_some (given req.idempotency_key))
    then stops rejected_args
    else if spec.side_effect && is_some w.cached
    then stops cached_result
    else call spec req w args

abbrev pub on_args : ToolSpec → InvokeRequest → Answers → Option Fields → Invocation
on_args spec req w none = stops rejected_args
on_args spec req w (some args) = admitted spec req w args

unfoldable pub invoke : ToolSpec → InvokeRequest → Answers → Invocation
unfolding admitted
invoke spec req w = on_args spec req w (w.validated req.args)
