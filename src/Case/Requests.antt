-- ===== src/Case/Requests.antt =====
-- The requests that change a case, from services/case/recoup_case/routes.py: the human routes with
-- their role guards, and the internal routes of the agents and the tool gateway. Each runs as one
-- transaction.
use recoup.Common.{ℕ, String, Bool, true, if◌then◌else◌, not, ◌&&◌, Option, none, List, [], ◌∷◌}
use recoup.Json.{Value}
use recoup.Outbox.{Env}
use recoup.Case.Status.{CaseStatus, written_off, ◌is◌}
use recoup.Case.Records.{
  Actor, id_text, Principal, TriageUpdate, ProposedActionCreate, TimelineAppend, manager, analyst,
  at_least,
}
use recoup.Case.Transaction.{Tx, ◌>>=◌, ◌>>◌, pure, raise_if, role_too_low, Result, err}
use recoup.Case.Service.{transition, apply_triage, add_note, assign, takeover, release}
use recoup.Case.Actions.{
  Ruling, propose_action, decide_action, mark_executed, append_event, get_action,
}
use recoup.Case.Store.{Store, on_case}

pub data Request : Type 0 where
  human_transition : Principal → CaseStatus → Option String → Option ℕ → Request
  agent_transition : Actor → CaseStatus → Option String → Option Value → Request
  triage_case : TriageUpdate → Request
  note_case : Principal → String → Request
  assign_case : Principal → Option ℕ → Request
  take_over : Principal → Option String → Request
  release_case : Principal → Request
  propose : ProposedActionCreate → Request
  decide : ℕ → Principal → Ruling → Request
  report_executed : ℕ → Value → String → Request
  append_entry : TimelineAppend → Request

-- The dependency `require_role(Role.ANALYST)` of the human routes.
abbrev pub is_permitted : Request → Bool
is_permitted (human_transition principal to reason expected_version) = at_least principal analyst
is_permitted (note_case principal note) = at_least principal analyst
is_permitted (assign_case principal assignee) = at_least principal analyst
is_permitted (take_over principal reason) = at_least principal analyst
is_permitted (release_case principal) = at_least principal analyst
is_permitted (decide action_id principal ruling) = at_least principal analyst
is_permitted _ = true

module _ (env : Env) where
  -- What a route does with the case.
  unfoldable pub perform : Request → Tx (Unit {0})
  perform (human_transition principal to reason expected_version) = do
    raise_if (to is written_off && not (at_least principal manager)) (role_too_low "manager")
    transition env to "human" (id_text principal.sub) reason expected_version none
  perform (agent_transition actor to reason resolution) =
      transition env to "agent" actor reason none resolution
  perform (triage_case body) = apply_triage env body
  perform (note_case principal note) = add_note env principal note >> pure tt
  perform (assign_case principal assignee) = assign env principal assignee
  perform (take_over principal reason) = takeover env principal reason
  perform (release_case principal) = release env principal
  perform (propose body) = propose_action env body >> pure tt
  perform (decide action_id principal ruling) = do
    action ← get_action action_id
    decide_action env action principal ruling
    pure tt
  perform (report_executed action_id result actor_id) = do
    action ← get_action action_id
    mark_executed env action result actor_id
    pure tt
  perform (append_entry body) = append_event env body >> pure tt

  -- A route that refuses the principal does not look the case up.
  unfoldable pub handle : ℕ → ℕ → Request → Store → Result (Unit {0}) × Store
  unfolding perform on_case
  handle tenant_id case_id request st =
      if is_permitted request
      then on_case env tenant_id case_id (perform request) st
      else (err (role_too_low "analyst"), st)

  -- Requests that the service serves one after another, of a tenant on a case.
  unfoldable pub handle_all : List (ℕ × ℕ × Request) → Store → Store
  handle_all [] st = st
  handle_all ((tenant_id, case_id, request) ∷ rest) st =
      handle_all rest (handle tenant_id case_id request st).1
