-- ===== src/Case/Service.antt =====
-- The mutations of services/case/recoup_case/service.py on a loaded case.
use recoup.Common.{
  ℕ, ◌+◌, ◌-◌, String, Bool, true, false, not, Option, none, some, if◌then◌else◌, is_some,
  or_default, or_else, leb,
}
use recoup.Common.Int.{ℤ, pos, leb_ℤ}
use recoup.Json.{Value}
use recoup.Outbox.{Env}
use recoup.Case.Status.{
  CaseStatus, new, triaged, AgentMode, autonomous, human_control, is_terminal, ◌is◌,
}
use recoup.Case.Records
use recoup.Case.Records.{
  Case, Actor, id_text, named, ProposedAction, TimelineEvent, TriageUpdate, ProposedActionCreate,
  TimelineAppend, Principal, Role, at_least, role_of,
}
use recoup.Case.Transaction.{
  Tx, ◌>>=◌, ◌>>◌, pure, raise_if, when, gets, modify_case, add_timeline, emit, touch, set_status,
  closed_case, under_human_control, not_under_human_control,
}

abbrev is_human_control : AgentMode → Bool
is_human_control autonomous = false
is_human_control human_control = true

-- 1 is the highest. `max(1, 5 - score)`: the score is at most 6, and `-` stops at 0.
unfoldable pub compute_priority : ℤ → ℤ → ℕ
compute_priority amount_open days_overdue =
    let by_amount : ℕ =
      if leb_ℤ (pos 2500000) amount_open
      then 3
      else if leb_ℤ (pos 500000) amount_open
      then 2
      else if leb_ℤ (pos 100000) amount_open
      then 1
      else 0 in
    let by_age : ℕ =
      if leb_ℤ (pos 60) days_overdue
      then 3
      else if leb_ℤ (pos 30) days_overdue
      then 2
      else if leb_ℤ (pos 14) days_overdue
      then 1
      else 0 in
    let score = by_amount + by_age in if leb 1 (5 - score) then 5 - score else 1

module _ (env : Env) where
  unfoldable pub transition :
      CaseStatus → String → Actor → Option String → Option ℕ → Option Value → Tx (Unit {0})
  transition to actor_type actor_id reason expected_version resolution = do
    touch env expected_version
    when (is_some resolution) (modify_case (λ c. record c { resolution = resolution }))
    set_status env to actor_type actor_id reason

  unfoldable pub apply_triage : TriageUpdate → Tx (Unit {0})
  apply_triage t = do
    touch env none
    modify_case
        (λ c. record c { root_cause = some t.root_cause; root_cause_conf = some t.root_cause_conf })
    when (is_some t.priority) (modify_case (λ c. record c { priority = or_default t.priority 0 }))
    add_timeline env "agent_step" "agent" (named t.actor_id)
        (Records.triaged_as t.root_cause t.root_cause_conf)
        (Records.triage t.root_cause t.root_cause_conf t.summary)
    status ← gets (λ s. s.case.status)
    when (status is new) (set_status env triaged "agent" (named t.actor_id) none)

  unfoldable pub add_note : Principal → String → Tx TimelineEvent
  add_note principal note = do
    touch env none
    ev ←
        add_timeline env "note" "human" (id_text principal.sub) (Records.literal "Note added")
          (Records.note note principal.email)
    emit env "case.note.added" (Records.note_added principal.sub)
    pure ev

  unfoldable pub assign : Principal → Option ℕ → Tx (Unit {0})
  assign principal assignee = do
    touch env none
    modify_case (λ c. record c { assignee_id = assignee })
    add_timeline env "assignment" "human" (id_text principal.sub)
        (Records.literal (if is_some assignee then "Assigned" else "Unassigned"))
        (Records.assignment assignee)
    pure tt

  unfoldable pub takeover : Principal → Option String → Tx (Unit {0})
  takeover principal reason = do
    status ← gets (λ s. s.case.status)
    raise_if (is_terminal status) closed_case
    touch env none
    mode ← gets (λ s. s.case.agent_mode)
    raise_if (is_human_control mode) under_human_control
    modify_case (λ c. record c {
      agent_mode = human_control;
      assignee_id = or_else c.assignee_id (some principal.sub);
    })
    add_timeline env "takeover" "human" (id_text principal.sub)
        (Records.literal "Human took over; agent paused") (Records.takeover reason principal.email)
    emit env "case.takeover" (Records.taken_over principal.sub reason)

  unfoldable pub release : Principal → Tx (Unit {0})
  release principal = do
    touch env none
    mode ← gets (λ s. s.case.agent_mode)
    raise_if (not (is_human_control mode)) not_under_human_control
    modify_case (λ c. record c { agent_mode = autonomous })
    add_timeline env "release" "human" (id_text principal.sub) (Records.literal "Returned to agent")
        (Records.release principal.email)
    emit env "case.released" (Records.released principal.sub)
