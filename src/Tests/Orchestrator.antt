-- ===== src/Tests/Orchestrator.antt =====
-- The theorems on runs of the orchestrator, at concrete inputs.
use recoup.Common.{◌≡◌, ◌≤◌, refl, String, true, false, none, some, List, [], ◌∷◌, ◌++◌, all}
use recoup.Common.Int.{pos}
use recoup.Json.{end, null}
use recoup.Case.Status as Case
use recoup.Gateway.Registry.{ToolSpec}
use recoup.Policy.Engine.{allow}
use recoup.Gateway.Invoke.{Mode, InvokeRequest, Answers, invoke, returned, live, shadow}
use recoup.Orchestrator.State.{
  NextStep, CaseState, pending_actions, approved_unexecuted, budget_used_pct, resolution_secured,
  triage, specialist, resolved, escalated,
}
use recoup.Orchestrator.Supervisor.{
  SupervisorDecision, redirect, effective, after_supervisor, Guarded, effective-Guarded,
}
use recoup.Orchestrator.Activities.{
  CaseRow, ActionView, CaseDetail, Effect, when_live, track_action, AgentResult, agent_calls,
  run_specialist, refresh_ref, refresh_actions, Execution, invoke_executor, execute_action, note,
  found_cause, answered,
}
use recoup.Orchestrator.Workflow.{
  Run, go_to, signal_of, action_ids, supervised_by, ran, decided, refreshed, Reaches, to_top, top,
  supervising, executing, signalled, go_on, supervise, run, starts, steps,
}
use recoup.Orchestrator.Load.{RunParams, load_case_state, prior_actions}
use recoup.Orchestrator.Runs.{supervised-le}
use recoup.Orchestrator.Effects.{IsQuiet, shadow_run-IsQuiet, refresh-may_execute, may_execute}

abbrev row : CaseRow
row = record { amount_open = some (pos 50000); root_cause = some "SHORT_PAY" }

abbrev shown : String → Case.ActionStatus → ActionView
shown id st = record { id = id; action_type = "SEND_EMAIL"; status = st; is_marked = false }

abbrev detail : CaseDetail
detail = record { shown = row; actions = shown "a" Case.approved ∷ shown "b" Case.pending ∷ [] }

abbrev opened : CaseDetail
opened = record { shown = row; actions = [] }

abbrev params : Mode → RunParams
params mode = record { mode = mode; max_steps = 12; max_tokens = 60000 }

abbrev loaded : Mode → CaseState
loaded mode = load_case_state (params mode) opened

abbrev to_step : NextStep → SupervisorDecision
to_step n = record {
  next = n;
  reasoning_summary = "start with the triage";
  escalation_reason = none;
  wait_timeout_hours = none;
  tokens = 900;
}

-- A decision to resolve the case with its whole amount open is an escalation.
effective-Guarded_example : Guarded (loaded live) (effective (loaded live) (to_step resolved)).next
effective-Guarded_example = effective-Guarded (loaded live) (to_step resolved)

not_resolved : (effective (loaded live) (to_step resolved)).next ≡ escalated
unfolding effective redirect resolution_secured budget_used_pct pending_actions load_case_state
not_resolved = refl

-- A run of the supervisor and of the triage, and a reply in between.
abbrev started : Mode → Run
started mode = record {
  state = loaded mode;
  pending = [];
  human_control = false;
  cancelled = false;
  loc = top;
  supervised = 0;
}

abbrev supervised : Mode → Run
supervised mode = supervised_by (to_step (specialist triage)) (go_to supervising (started mode))

abbrev replied : Mode → Run
replied mode = record (supervised mode) { pending = signal_of "customer_reply" end ∷ [] }

abbrev triaged : AgentResult
triaged = answered ("get_invoice" ∷ []) (found_cause "SHORT_PAY") 700

abbrev asked : Mode → List Effect
asked mode =
    (run_specialist triage triaged row (replied mode).state).1
    ++ ((agent_calls (loaded mode) [] ++ when_live (loaded mode) (note ∷ [])) ++ [])

triage_run :
    (mode : Mode)
    → (supervised mode).loc ≡ decided (specialist triage)
    → Reaches (loaded mode) (asked mode) (ran triage triaged row (replied mode))
unfolding load_case_state supervised_by
triage_run mode h =
    let started_run = steps starts (go_on refl refl refl refl refl) in
    let decided_run = steps started_run (supervise (to_step (specialist triage)) [] refl) in
    steps (steps decided_run (signalled "customer_reply" end)) (run triaged row h)

live_run : Reaches (loaded live) (asked live) (ran triage triaged row (replied live))
unfolding supervised_by effective redirect budget_used_pct pending_actions after_supervisor
    load_case_state prior_actions
live_run = triage_run live refl

shadow_run : Reaches (loaded shadow) (asked shadow) (ran triage triaged row (replied shadow))
unfolding supervised_by effective redirect budget_used_pct pending_actions after_supervisor
    load_case_state prior_actions
shadow_run = triage_run shadow refl

supervised-le_example : (ran triage triaged row (replied live)).supervised ≤ 12
supervised-le_example = supervised-le (params live) opened live_run

-- A tool with side effects, called in the mode of the run.
abbrev credit_memo_tool : ToolSpec
credit_memo_tool = record {
  name = "create_credit_memo";
  side_effect = true;
  requires_policy_check = true;
  action_type = some "CREATE_CREDIT_MEMO";
}

abbrev request : InvokeRequest
request = record {
  case_id = some 1;
  args = end;
  idempotency_key = some "run-1";
  approval_ref = none;
  mode = shadow;
}

abbrev answers : Answers
answers = record {
  validated = λ fields. some fields;
  within_limit = true;
  cached = none;
  decision = λ fields. some allow;
  action = none;
  handler = λ fields. returned null;
}

shadow_run-IsQuiet_example :
    IsQuiet (asked shadow) × ((invoke credit_memo_tool request answers).ran_on ≡ none)
shadow_run-IsQuiet_example =
    shadow_run-IsQuiet (params shadow) opened credit_memo_tool request answers refl shadow_run refl
      refl

-- A refresh before the executor goes through two actions, of which one is approved.
abbrev tracking : Run
tracking = record (started live) {
  state = track_action (some "b") "SEND_EMAIL" (track_action (some "a") "SEND_EMAIL" (loaded live));
}

refresh-may_execute_example :
    (ids : List String) × ((refreshed to_top detail tracking).loc ≡ executing ids to_top)
    × (all (may_execute detail.actions) ids ≡ true)
refresh-may_execute_example = refresh-may_execute to_top detail tracking

executes_one : (refreshed to_top detail tracking).loc ≡ executing ("a" ∷ []) to_top
unfolding refreshed refresh_actions refresh_ref track_action approved_unexecuted load_case_state
executes_one = refl

-- A tool that fails marks the action as failed, and the refresh at the end of the activity puts the
-- approval back: the executor tries again.
abbrev blocked : Execution
blocked = record { action_type = "SEND_EMAIL"; succeeded = false; detail = detail }

failure_is_forgotten :
    action_ids (execute_action "a" blocked (refreshed to_top detail tracking).state).state
    ≡ "a" ∷ []
unfolding refreshed refresh_actions refresh_ref track_action approved_unexecuted execute_action
    load_case_state invoke_executor
failure_is_forgotten = refl
