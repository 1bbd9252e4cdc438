-- ===== src/Case/Records.antt =====
-- The tables of services/case/recoup_case/models.py, the request bodies of schemas.py, and the roles
-- of libs/recoup-common/recoup_common/auth.py. UUIDs and times are numbers, money is in cents, a
-- confidence in thousandths. A title or a payload that the service formats is a constructor with the
-- values that the f-string or the dict literal puts in.
use recoup.Common.{ℕ, String, Option, none, some, Bool, List, leb, str_eq, any, if◌then◌else◌}
use recoup.Common.Int.{ℤ}
use recoup.Json.{Value, Fields}
use recoup.Case.Status.{CaseStatus, ActionStatus, ActionType, PolicyDecision, AgentMode}

pub record Case : Type 0 where
  pub id : ℕ
  pub tenant_id : ℕ
  pub customer_ref : String
  pub customer_name : Option String
  pub invoice_refs : List String
  pub status : CaseStatus
  pub root_cause : Option String
  pub root_cause_conf : Option ℕ
  pub priority : ℕ
  pub amount_open : ℤ
  pub currency : String
  pub days_overdue : ℤ
  pub assignee_id : Option ℕ
  pub agent_mode : AgentMode
  pub opened_at : ℕ
  pub updated_at : ℕ
  pub resolved_at : Option ℕ
  pub resolution : Option Value
  pub version : ℕ

pub record CaseInvoice : Type 0 where
  pub tenant_id : ℕ
  pub invoice_ref : String
  pub case_id : ℕ

-- Who did something: the `actor_id` column. `id_text n` is `str` of a UUID.
pub data Actor : Type 0 where
  id_text : ℕ → Actor
  named : String → Actor

pub data Payload : Type 0 where
  created : Option Value → Payload
  state_change : CaseStatus → CaseStatus → Option String → Payload
  triage : String → ℕ → Option String → Payload
  note : String → String → Payload
  assignment : Option ℕ → Payload
  takeover : Option String → String → Payload
  release : String → Payload
  action_proposed : ℕ → ActionType → Option String → Payload
  approval : ℕ → ActionStatus → Option String → Option String → String → Payload
  action_executed : ℕ → Value → Payload
  appended : Value → Payload

pub data Title : Type 0 where
  case_opened : List String → ℤ → Title
  moved : CaseStatus → CaseStatus → Title
  triaged_as : String → ℕ → Title
  proposed : ActionType → PolicyDecision → Title
  decided : ActionStatus → ActionType → Title
  executed_action : ActionType → Title
  literal : String → Title

pub record TimelineEvent : Type 0 where
  pub case_id : ℕ
  pub tenant_id : ℕ
  pub kind : String
  pub actor_type : String
  pub actor_id : Actor
  pub title : Title
  pub payload : Payload
  pub trace_id : Option String
  pub occurred_at : ℕ

pub record ProposedAction : Type 0 where
  pub id : ℕ
  pub case_id : ℕ
  pub tenant_id : ℕ
  pub action_type : ActionType
  pub payload : Value
  pub rationale : String
  pub evidence_refs : List Value
  pub policy_decision : PolicyDecision
  pub policy_rule : Option String
  pub required_role : Option String
  pub status : ActionStatus
  pub proposed_by : String
  pub run_id : Option ℕ
  pub human_final : Option Fields
  pub decided_by : Option ℕ
  pub decided_at : Option ℕ
  pub feedback_code : Option String
  pub feedback_note : Option String
  pub executed_at : Option ℕ
  pub execution_result : Option Value
  pub created_at : ℕ

-- What the events of the service carry; `_emit` adds the ids of the case and the tenant.
pub data EventData : Type 0 where
  case_created : String → List String → ℤ → String → ℕ → ℤ → EventData
  state_changed : CaseStatus → CaseStatus → Option String → Actor → EventData
  case_resolved : CaseStatus → Option String → EventData
  note_added : ℕ → EventData
  taken_over : ℕ → Option String → EventData
  released : ℕ → EventData
  action_recorded : ℕ → ActionType → PolicyDecision → Option String → EventData
  action_decided : ℕ → ActionType → ℕ → EventData

pub record EventPayload : Type 0 where
  pub case_id : ℕ
  pub tenant_id : ℕ
  pub event_data : EventData

-- ---------- request bodies ----------
pub record CaseCreate : Type 0 where
  pub customer_ref : String
  pub customer_name : Option String
  pub invoice_refs : List String
  pub amount_open : ℤ
  pub currency : String
  pub days_overdue : ℤ
  pub priority : Option ℕ
  pub invoice_snapshot : Option Value

pub record TriageUpdate : Type 0 where
  pub root_cause : String
  pub root_cause_conf : ℕ
  pub priority : Option ℕ
  pub summary : Option String
  pub actor_id : String

pub record ProposedActionCreate : Type 0 where
  pub action_type : ActionType
  pub payload : Value
  pub rationale : String
  pub evidence_refs : List Value
  pub policy_decision : PolicyDecision
  pub policy_rule : Option String
  pub required_role : Option String
  pub proposed_by : String
  pub run_id : Option ℕ

pub record TimelineAppend : Type 0 where
  pub kind : String
  pub actor_type : String
  pub actor_id : String
  pub title : String
  pub payload : Value

-- ---------- roles ----------
pub data Role : Type 0 where
  admin manager analyst viewer : Role

abbrev pub role_rank : Role → ℕ
role_rank viewer = 0
role_rank analyst = 1
role_rank manager = 2
role_rank admin = 3

pub record Principal : Type 0 where
  pub sub : ℕ
  pub tenant_id : ℕ
  pub email : String
  pub roles : List Role
  pub is_service : Bool

unfoldable pub at_least : Principal → Role → Bool
at_least p role = any (λ r. leb (role_rank role) (role_rank r)) p.roles

-- `Role(name)`; `none` is the ValueError of a name that is no role.
unfoldable pub role_of : String → Option Role
role_of name =
    if str_eq name "admin"
    then some admin
    else if str_eq name "manager"
    then some manager
    else if str_eq name "analyst"
    then some analyst
    else if str_eq name "viewer"
    then some viewer
    else none
