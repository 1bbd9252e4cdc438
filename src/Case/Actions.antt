-- ===== src/Case/Actions.antt =====
-- Proposed actions in services/case/recoup_case/service.py: proposing, deciding and marking as
-- executed, and the events that other services append.
use recoup.Common.{
  ℕ, String, Bool, true, false, not, ◌&&◌, ◌||◌, Option, none, some, List, [], ◌∷◌, ◌++◌, ◌==◌,
  if◌then◌else◌, length, filter, map, is_some, find, str_eq,
}
use recoup.Json.{Value, Fields, is_nonempty}
use recoup.Outbox.{Env}
use recoup.Case.Status.{
  investigating, pending_approval, action_taken, ActionStatus, pending, approved, edited, rejected,
  executed, auto_executed, denied, PolicyDecision, allow, require_approval, deny, is_terminal, ◌is◌,
  ◌is_action◌,
}
use recoup.Case.Records
use recoup.Case.Records.{
  Case, Actor, id_text, named, ProposedAction, TimelineEvent, TriageUpdate, ProposedActionCreate,
  TimelineAppend, Principal, Role, at_least, role_of,
}
use recoup.Case.Transaction.{
  Tx, or_raise, modify_actions, ◌>>=◌, ◌>>◌, pure, raise_if, when, gets, flush, add_timeline, emit,
  touch, set_status, closed_case, not_a_decision, human_final_missing, not_pending, not_executable,
  role_too_low, value_error, action_not_found, action_not_found,
}

abbrev pub is_allow : PolicyDecision → Bool
is_allow allow = true
is_allow _ = false

-- A session holds the rows as objects: a change to an action is seen by the next query.
abbrev pub put_action : ProposedAction → List ProposedAction → List ProposedAction
put_action a = map (λ b. if b.id == a.id then a else b)

unfoldable pub save_action : ProposedAction → Tx (Unit {0})
save_action a = modify_actions (put_action a)

-- `select count(*) … where case_id = :id and status = 'PENDING'`
unfoldable pub count_pending : ℕ → List ProposedAction → ℕ
count_pending case_id actions =
    length (filter (λ a. a.case_id == case_id && a.status is_action pending) actions)

-- The status that a policy decision gives to a new proposal.
unfoldable pub initial_status : PolicyDecision → ActionStatus
initial_status allow = approved
initial_status require_approval = pending
initial_status deny = denied

-- `if x:` on an optional text.
abbrev pub given_text : Option String → Option String
given_text none = none
given_text (some t) = if str_eq t "" then none else some t

-- `if not human_final`
abbrev pub is_given : Option Fields → Bool
is_given none = false
is_given (some f) = is_nonempty f

unfoldable pub check_role : Principal → Option String → Tx (Unit {0})
check_role principal none = pure tt
check_role principal (some name) = do
  role ← or_raise (role_of name) (value_error name)
  raise_if (not (at_least principal role)) (role_too_low name)

-- `_check_can_decide`
unfoldable pub check_can_decide : ProposedAction → Principal → Tx (Unit {0})
unfolding check_role
check_can_decide action principal = do
  raise_if (not (action.status is_action pending)) (not_pending action.status)
  check_role principal (given_text action.required_role)

abbrev pub is_decision : ActionStatus → Bool
is_decision approved = true
is_decision edited = true
is_decision rejected = true
is_decision _ = false

abbrev decision_event : ActionStatus → String
decision_event edited = "case.action.edited"
decision_event rejected = "case.action.rejected"
decision_event _ = "case.action.approved"

-- The keyword arguments of `decide_action`.
pub record Ruling : Type 0 where
  pub decision : ActionStatus
  pub human_final : Option Fields
  pub feedback_code : Option String
  pub feedback_note : Option String
  pub expected_version : Option ℕ

-- `f"action {decision.value.lower()}"`
abbrev pub action_label : ActionStatus → String
action_label pending = "action pending"
action_label approved = "action approved"
action_label edited = "action edited"
action_label rejected = "action rejected"
action_label executed = "action executed"
action_label auto_executed = "action auto_executed"
action_label denied = "action denied"

module _ (env : Env) where
  unfoldable pub new_action : Case → ProposedActionCreate → List ProposedAction → ProposedAction
  unfolding initial_status
  new_action case p rows = record {
    id = env.uuid4 (length rows);
    case_id = case.id;
    tenant_id = case.tenant_id;
    action_type = p.action_type;
    payload = p.payload;
    rationale = p.rationale;
    evidence_refs = p.evidence_refs;
    policy_decision = p.policy_decision;
    policy_rule = p.policy_rule;
    required_role = p.required_role;
    status = initial_status p.policy_decision;
    proposed_by = p.proposed_by;
    run_id = p.run_id;
    human_final = none;
    decided_by = none;
    decided_at = none;
    feedback_code = none;
    feedback_note = none;
    executed_at = none;
    execution_result = none;
    created_at = env.now;
  }

  unfoldable pub add_action : ProposedActionCreate → Tx ProposedAction
  add_action p = do
    case ← gets (λ s. s.case)
    rows ← gets (λ s. s.actions)
    let a = new_action case p rows
    modify_actions (λ l. l ++ (a ∷ []))
    pure a

  unfoldable pub propose_action : ProposedActionCreate → Tx ProposedAction
  propose_action p = do
    before ← gets (λ s. s.case.status)
    raise_if (is_terminal before) closed_case
    touch env none
    action ← add_action p
    flush env
    add_timeline env "action_proposed" "agent" (named p.proposed_by)
        (Records.proposed p.action_type p.policy_decision)
        (Records.action_proposed action.id action.action_type p.policy_rule)
    emit env "case.action.proposed" (
        Records.action_recorded action.id action.action_type action.policy_decision
          action.required_role)
    status ← gets (λ s. s.case.status)
    when (action.status is_action pending && not (status is pending_approval))
        (set_status env pending_approval "agent" (named p.proposed_by) none)
    pure action

  -- What a decision writes into the row of the action.
  unfoldable pub decided_action : ProposedAction → Principal → Ruling → ProposedAction
  decided_action action principal r = record action {
    status = r.decision;
    decided_by = some principal.sub;
    decided_at = some env.now;
    feedback_code = r.feedback_code;
    feedback_note = r.feedback_note;
    human_final = if r.decision is_action edited then r.human_final else action.human_final;
  }

  -- The end of `decide_action`: with no other action pending the case goes back to the agent.
  unfoldable pub after_decision : Principal → ActionStatus → Tx (Unit {0})
  after_decision principal decision = do
    flush env
    still_pending ← gets (λ s. count_pending s.case.id s.actions)
    status ← gets (λ s. s.case.status)
    when (still_pending == 0 && status is pending_approval) (
        set_status env (if not (decision is_action rejected) then action_taken else investigating)
          "human" (id_text principal.sub) (some (action_label decision)))

  unfoldable pub decide_action : ProposedAction → Principal → Ruling → Tx ProposedAction
  decide_action action principal r = do
    raise_if (not (is_decision r.decision)) not_a_decision
    check_can_decide action principal
    touch env r.expected_version
    raise_if (r.decision is_action edited && not (is_given r.human_final)) human_final_missing
    let action' = decided_action action principal r
    save_action action'
    add_timeline env "approval" "human" (id_text principal.sub)
        (Records.decided r.decision action.action_type)
        (Records.approval action.id r.decision r.feedback_code r.feedback_note principal.email)
    emit env (decision_event r.decision)
        (Records.action_decided action.id action.action_type principal.sub)
    after_decision principal r.decision
    pure action'

  unfoldable pub executed_form : ProposedAction → Value → ProposedAction
  executed_form action result = record action {
    status =
        if is_allow action.policy_decision && not (is_some action.decided_by)
        then auto_executed
        else executed;
    executed_at = some env.now;
    execution_result = some result;
  }

  unfoldable pub mark_executed : ProposedAction → Value → String → Tx ProposedAction
  mark_executed action result actor_id = do
    raise_if (not (action.status is_action approved || action.status is_action edited))
        (not_executable action.status)
    touch env none
    let action' = executed_form action result
    save_action action'
    add_timeline env "action_executed" "system" (named actor_id)
        (Records.executed_action action.action_type) (Records.action_executed action.id result)
    pure action'

  unfoldable pub append_event : TimelineAppend → Tx TimelineEvent
  append_event e =
      add_timeline env e.kind e.actor_type (named e.actor_id) (Records.literal e.title)
        (Records.appended e.payload)

-- `get_action`: an action of another case is not found.
unfoldable pub get_action : ℕ → Tx ProposedAction
get_action action_id = do
  found ← gets (λ s. find (λ a. a.id == action_id) s.actions)
  action ← or_raise found action_not_found
  case_id ← gets (λ s. s.case.id)
  raise_if (not (action.case_id == case_id)) action_not_found
  pure action
