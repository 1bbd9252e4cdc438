-- ===== src/Analytics/Events.antt =====
-- The rest of `Projector._project` of services/analytics/recoup_analytics/projector.py: agents, tools and
-- emails, and the choice by the type of the event.
use recoup.Common.{
  String, Bool, Option, none, some, List, [], ◌∷◌, ◌++◌, or_else, str_eq, if◌then◌else◌,
}
use recoup.Json.{Fields, text, bool, field, end}
use recoup.Analytics.Tables.{
  Write, fact_agent_run, fact_agent_step, fact_tool_call, fact_email, count_email,
}
use recoup.Analytics.Projector.{
  ReceivedEvent, Parsers, get, get_or, truth, id_value, upsert_columns, case_patch, raw_event,
  created, is_text, state_patch, resolved_patch, control_patch, proposed, decided,
}

abbrev pub live_start : ReceivedEvent → String → Option String → List Write
live_start e tenant none = []
live_start e tenant (some c) =
    if is_text "LIVE" (get "mode" e.body)
    then case_patch c tenant (field "first_agent_at" e.time end) e.time ∷ []
    else []

abbrev run_row : ReceivedEvent → String → Option String → String → Fields → Fields
run_row e tenant case_id r rest =
    field "run_id" (text r)
      (field "tenant_id" (text tenant) (field "case_id" (id_value case_id) rest))

abbrev pub started_row : ReceivedEvent → String → Option String → Option String → List Write
started_row e tenant case_id none = []
started_row e tenant case_id (some r) =
    upsert_columns fact_agent_run r
      (run_row e tenant case_id r (
        field "mode" (get "mode" e.body)
          (field "status" (text "RUNNING") (field "started_at" e.time end))))
      ("mode" ∷ "status" ∷ "started_at" ∷ [])
    ∷ []

abbrev pub completed_row :
    Parsers → ReceivedEvent → String → Option String → Option String → List Write
completed_row lib e tenant case_id none = []
completed_row lib e tenant case_id (some r) =
    upsert_columns fact_agent_run r
      (run_row e tenant case_id r (
        field "status" (get "status" e.body) (
          field "steps" (lib.int_or_zero (get "steps" e.body)) (
            field "tokens_in" (lib.int_or_zero (get "tokens_in" e.body)) (
              field "tokens_out" (lib.int_or_zero (get "tokens_out" e.body)) (
                field "cost_usd" (lib.dec_or_zero (get "cost_usd" e.body)) (
                  field "root_cause" (get "root_cause" e.body)
                    (field "reason" (get "reason" e.body) (field "ended_at" e.time end)))))))))
      ("status" ∷ "steps" ∷ "tokens_in" ∷ "tokens_out" ∷ "cost_usd" ∷ "root_cause" ∷ "reason"
        ∷ "ended_at" ∷ [])
    ∷ []

abbrev pub found_cause : ReceivedEvent → String → Option String → List Write
found_cause e tenant none = []
found_cause e tenant (some c) =
    if truth (get "root_cause" e.body)
    then case_patch c tenant (field "root_cause" (get "root_cause" e.body) end) e.time ∷ []
    else []

abbrev pub agent_step : Parsers → ReceivedEvent → String → Option String → Write
agent_step lib e tenant case_id =
    upsert_columns fact_agent_step e.id
      (field "event_id" (text e.id) (
        field "tenant_id" (text tenant) (
          field "case_id" (id_value case_id) (
            field "run_id" (id_value (lib.uuid (get "run_id" e.body))) (
              field "agent" (get_or "agent" (text "?") e.body) (
                field "kind" (get "kind" e.body) (
                  field "status" (get "status" e.body) (
                    field "tokens" (lib.int_or_zero (get "tokens" e.body)) (
                      field "latency_ms" (get "latency_ms" e.body)
                        (field "occurred_at" e.time end))))))))))
      ("status" ∷ "tokens" ∷ "latency_ms" ∷ [])

abbrev pub tool_call : Parsers → ReceivedEvent → String → Option String → Write
tool_call lib e tenant case_id =
    upsert_columns fact_tool_call e.id
      (field "event_id" (text e.id) (
        field "tenant_id" (text tenant) (
          field "case_id" (id_value case_id) (
            field "run_id" (id_value (lib.uuid (get "run_id" e.body))) (
              field "tool" (get_or "tool" (text "?") e.body) (
                field "actor" (get "actor" e.body) (
                  field "status" (get "status" e.body) (
                    field "policy_decision" (get "policy_decision" e.body) (
                      field "side_effect" (bool (truth (get "side_effect" e.body))) (
                        field "latency_ms" (get "latency_ms" e.body)
                          (field "occurred_at" e.time end)))))))))))
      ("status" ∷ "policy_decision" ∷ "latency_ms" ∷ [])

abbrev pub email : ReceivedEvent → String → Option String → String → Write
email e tenant case_id direction =
    upsert_columns fact_email e.id
      (field "event_id" (text e.id) (
        field "tenant_id" (text tenant) (
          field "case_id" (id_value case_id) (
            field "direction" (text direction)
              (field "template" (get "template" e.body) (field "occurred_at" e.time end))))))
      ("template" ∷ [])

abbrev pub count_for : ReceivedEvent → Option String → List Write
count_for e none = []
count_for e (some c) = count_email c e.time ∷ []

-- A chain of comparisons with the type of the event: the first that it is equal to.
unfoldable pub dispatch : String → List (String × List Write) → List Write
dispatch t [] = []
dispatch t (branch ∷ branches) =
    let rest = dispatch t branches in if str_eq t branch.0 then branch.1 else rest

-- The events that need a case.
abbrev pub case_branches : Parsers → ReceivedEvent → String → String → List (String × List Write)
case_branches lib e tenant c =
    let action = lib.uuid (get "action_id" e.body) in
    ("case.created", created lib e tenant c ∷ [])
    ∷ ("case.state_changed", case_patch c tenant (state_patch e) e.time ∷ [])
    ∷ ("case.resolved", case_patch c tenant (resolved_patch e) e.time ∷ [])
    ∷ ("case.takeover", case_patch c tenant (control_patch "HUMAN_CONTROL") e.time ∷ [])
    ∷ ("case.released", case_patch c tenant (control_patch "AUTONOMOUS") e.time ∷ [])
    ∷ ("case.action.proposed", proposed e tenant c action)
    ∷ ("case.action.approved", decided e tenant c "APPROVED" action)
    ∷ ("case.action.edited", decided e tenant c "EDITED" action)
    ∷ ("case.action.rejected", decided e tenant c "REJECTED" action)
    ∷ []

unfoldable pub project_case : Parsers → ReceivedEvent → String → String → List Write
project_case lib e tenant c = dispatch e.type (case_branches lib e tenant c)

-- The events of agents, tools and emails.
abbrev pub other_branches :
    Parsers → ReceivedEvent → String → Option String → List (String × List Write)
other_branches lib e tenant case_id =
    let run = lib.uuid (get "run_id" e.body) in
    ("agent.run.started", started_row e tenant case_id run ++ live_start e tenant case_id)
    ∷ (
      "agent.run.completed",
      completed_row lib e tenant case_id run ++ found_cause e tenant case_id,
    )
    ∷ ("agent.step.completed", agent_step lib e tenant case_id ∷ [])
    ∷ ("tool.invoked", tool_call lib e tenant case_id ∷ [])
    ∷ ("tool.blocked", tool_call lib e tenant case_id ∷ [])
    ∷ ("comm.email.sent", email e tenant case_id "OUT" ∷ count_for e case_id)
    ∷ ("comm.email.received", email e tenant case_id "IN" ∷ [])
    ∷ []

unfoldable pub project_other : Parsers → ReceivedEvent → String → Option String → List Write
project_other lib e tenant case_id = dispatch e.type (other_branches lib e tenant case_id)

abbrev pub case_writes : Parsers → ReceivedEvent → String → Option String → List Write
case_writes lib e tenant none = []
case_writes lib e tenant (some c) = project_case lib e tenant c

-- `_project`: the two groups of types have no type in common.
abbrev project : Parsers → ReceivedEvent → String → Option String → List Write
project lib e tenant case_id =
    case_writes lib e tenant case_id ++ project_other lib e tenant case_id

abbrev pub case_of : Parsers → ReceivedEvent → Option String
case_of lib e = or_else (lib.uuid (get "case_id" e.body)) (lib.uuid (text e.subject))

abbrev pub of_tenant : Parsers → Bool → ReceivedEvent → Option String → List Write
of_tenant lib keep_raw e none = []
of_tenant lib keep_raw e (some tenant) =
    (if keep_raw then raw_event e tenant (case_of lib e) ∷ [] else [])
    ++ project lib e tenant (case_of lib e)

-- `handle`: what one event writes, in one transaction.
unfoldable pub handle_event : Parsers → Bool → ReceivedEvent → List Write
handle_event lib keep_raw e = of_tenant lib keep_raw e (lib.uuid (text e.tenantid))

-- The events of the topics, one after the other.
unfoldable pub handle_events : Parsers → Bool → List ReceivedEvent → List Write
handle_events lib keep_raw [] = []
handle_events lib keep_raw (e ∷ events) =
    handle_event lib keep_raw e ++ handle_events lib keep_raw events
