-- ===== src/Orchestrator/Load.antt =====
-- `load_case_state` of services/orchestrator/recoup_orchestrator/workflows/activities.py: the state that a
-- run starts with.
use recoup.Common.{
  ℕ, Bool, false, not, ◌&&◌, none, List, [], map, filter, length, str_eq, if◌then◌else◌,
}
use recoup.Case.Status.{rejected, denied, ◌is_action◌}
use recoup.Gateway.Invoke.{Mode, is_live}
use recoup.Orchestrator.State.{CaseState, ProposedActionRef, is_executed}
use recoup.Orchestrator.Activities.{ActionView, CaseDetail, shown_status}

pub record RunParams : Type 0 where
  pub mode : Mode
  pub max_steps : ℕ
  pub max_tokens : ℕ

abbrev is_current : ActionView → Bool
is_current a = not (a.status is_action rejected) && not (a.status is_action denied)

abbrev prior_ref : ActionView → ProposedActionRef
prior_ref a = record { action_id = a.id; action_type = a.action_type; status = shown_status a }

-- Proposals of earlier runs, which only a live run takes over.
unfoldable pub prior_actions : Mode → CaseDetail → List ProposedActionRef
prior_actions mode d = if is_live mode then map prior_ref (filter is_current d.actions) else []

abbrev is_outreach : ProposedActionRef → Bool
is_outreach a = str_eq a.action_type "SEND_EMAIL" && is_executed a

-- A replay does not see the cause that an earlier run found.
unfoldable pub load_case_state : RunParams → CaseDetail → CaseState
unfolding prior_actions
load_case_state p d = record {
  mode = p.mode;
  step_no = 0;
  max_steps = p.max_steps;
  max_tokens = p.max_tokens;
  tokens = 0;
  amount_open = d.shown.amount_open;
  case_root_cause = if is_live p.mode then d.shown.root_cause else none;
  specialist_runs = λ q. 0;
  signals = [];
  investigated = false;
  last_intent = none;
  actions = prior_actions p.mode d;
  outreach_count = length (filter is_outreach (prior_actions p.mode d));
  waits = 0;
}
