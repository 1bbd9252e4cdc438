-- ===== src/Tests/CaseData.antt =====
-- A small case service: one case under investigation with a pending action, and its tables.
use recoup.Common.{suc, ◌+◌, false, none, some, List, [], ◌∷◌}
use recoup.Common.Int.{pos}
use recoup.Json.{null, obj, end}
use recoup.Outbox.{Env}
use recoup.Case.Status.{
  pending, autonomous, create_credit_memo, require_approval, CaseStatus, ActionStatus,
}
use recoup.Case.Records.{Case, ProposedAction, ProposedActionCreate, Principal, manager}
use recoup.Case.Transaction.{Session, Result, ok, err}
use recoup.Case.Store.{Store}
use recoup.Case.Ingestion.{OverdueInvoice}

abbrev pub env : Env
env = record {
  now = 50;
  trace_id = none;
  traceparent = none;
  uuid4 = λ n. 1000 + n;
  upper = λ s. s;
  next_version = λ v. suc v;
}

abbrev pub case_in : CaseStatus → Case
case_in status = record {
  id = 1;
  tenant_id = 7;
  customer_ref = "CUST-1";
  customer_name = none;
  invoice_refs = "INV-1" ∷ [];
  status = status;
  root_cause = none;
  root_cause_conf = none;
  priority = 50;
  amount_open = pos 120000;
  currency = "USD";
  days_overdue = pos 40;
  assignee_id = none;
  agent_mode = autonomous;
  opened_at = 10;
  updated_at = 10;
  resolved_at = none;
  resolution = none;
  version = 3;
}

abbrev pub action_in : ActionStatus → ProposedAction
action_in status = record {
  id = 4;
  case_id = 1;
  tenant_id = 7;
  action_type = create_credit_memo;
  payload = null;
  rationale = "price above PO";
  evidence_refs = [];
  policy_decision = require_approval;
  policy_rule = none;
  required_role = some "manager";
  status = status;
  proposed_by = "agent:resolver";
  run_id = none;
  human_final = none;
  decided_by = none;
  decided_at = none;
  feedback_code = none;
  feedback_note = none;
  executed_at = none;
  execution_result = none;
  created_at = 20;
}

abbrev pub boss : Principal
boss = record {
  sub = 9;
  tenant_id = 7;
  email = "boss@example.com";
  roles = manager ∷ [];
  is_service = false;
}

abbrev pub session : CaseStatus → List ProposedAction → Session
session status actions = record {
  case = case_in status;
  dirty = false;
  actions = actions;
  timeline = [];
  outbox = [];
}

abbrev pub store : CaseStatus → Store
store status = record {
  cases = case_in status ∷ [];
  invoices = [];
  actions = action_in pending ∷ [];
  timeline = [];
  outbox = [];
}

abbrev pub proposal : ProposedActionCreate
proposal = record {
  action_type = create_credit_memo;
  payload = null;
  rationale = "price above PO";
  evidence_refs = [];
  policy_decision = require_approval;
  policy_rule = none;
  required_role = some "manager";
  proposed_by = "agent:resolver";
  run_id = none;
}

abbrev pub invoice : OverdueInvoice
invoice = record {
  invoice_ref = "INV-9";
  customer_ref = "CUST-2";
  amount_open = pos 4500;
  currency = "USD";
  days_overdue = pos 12;
  snapshot = obj end;
}

-- The session that a call leaves; the one before it where it raises.
abbrev pub left_by : {A : Type 0} → Session → Result (A × Session) → Session
left_by s (ok p) = p.1
left_by s (err e) = s
