-- ===== src/Orchestrator/Workflow.antt =====
-- `CaseWorkflow` of services/orchestrator/recoup_orchestrator/workflows/case_workflow.py as a step relation:
-- one step for each activity, wait or signal. Signals may arrive between any two steps. The query, the
-- retries of an activity and the words of the phases are left out.
use recoup.Common.{
  ℕ, zero, suc, ◌+◌, ◌≡◌, String, Bool, true, false, not, ◌||◌, Option, none, some, List, [], ◌∷◌,
  ◌++◌, map, any, ltb, if◌then◌else◌, length, ◌-◌,
}
use recoup.Json.{Fields, field, end, text, merge}
use recoup.Gateway.Invoke.{is_live}
use recoup.Orchestrator.State.{
  Specialist, intent, NextStep, specialist, wait_for_customer, await_approval, resolved, escalated,
  CaseState, approved_unexecuted, has_type,
}
use recoup.Orchestrator.Supervisor.{SupervisorDecision, effective, after_supervisor}
use recoup.Orchestrator.Activities.{
  Effect, note, invoke_tool, transition, extract_memory, CaseRow, CaseDetail, AgentResult,
  Execution, run_specialist, execute_action, merge_signals, refresh_actions, record_wait, when_live,
  agent_calls,
}

-- `CaseOutcome.status`
pub data RunStatus : Type 0 where
  run_resolved run_escalated run_failed run_cancelled : RunStatus

-- What `finalize_case` asks, and the status that it reports.
pub record Outcome : Type 0 where
  pub status : RunStatus
  pub effects : List Effect

abbrev escalation : Bool → List Effect
escalation true = invoke_tool "escalate_case" "escalate" none ∷ extract_memory ∷ []
escalation false = invoke_tool "escalate_case" "escalate" none ∷ note ∷ extract_memory ∷ []

-- `finalize_case`: `accepted` tells whether the gateway, or the case service, does what is asked.
unfoldable pub finalize : CaseState → RunStatus → Bool → Outcome
finalize s st accepted =
    if not (is_live s.mode) then record { status = st; effects = [] } else (elim st [
      | run_resolved ↦ record {
        status = if accepted then run_resolved else run_escalated;
        effects = transition ∷ extract_memory ∷ [];
      }
      | run_escalated ↦ record { status = run_escalated; effects = escalation accepted }
      | run_failed ↦ record { status = run_failed; effects = escalation accepted }
      | run_cancelled ↦ record { status = run_cancelled; effects = extract_memory ∷ [] }
    ])

-- Where `_execute_ready` and `_run_intent` go on.
pub data Back : Type 0 where
  to_top to_supervisor : Back

-- Where the workflow stands: at the test of the loop, held by a human, before the supervisor, after it,
-- waiting for signals (with the type of the timeout), before `Intent`, before the refresh of
-- `_execute_ready`, in its loop, and at the end.
pub data Loc : Type 0 where
  top held supervising : Loc
  decided : NextStep → Loc
  waiting : String → Loc
  reading ready : Back → Loc
  executing : List String → Back → Loc
  finalizing : RunStatus → Loc
  done : RunStatus → Loc

pub record Run : Type 0 where
  pub state : CaseState
  pub pending : List Fields
  pub human_control : Bool
  pub cancelled : Bool
  pub loc : Loc
  pub supervised : ℕ  -- how often the supervisor was called; the workflow keeps no such count

abbrev pub go_to : Loc → Run → Run
go_to l r = record r { loc = l }

abbrev pub with_state : CaseState → Loc → Run → Run
with_state s l r = record r { state = s; loc = l }

-- `{"type": …, **payload}`
abbrev pub signal_of : String → Fields → Fields
signal_of t payload = merge (field "type" (text t) end) payload

abbrev pub has_reply : List Fields → Bool
has_reply = any (has_type "customer_reply")

-- `xs[-3:]`
abbrev drop {ℓ} : {A : Type ℓ} → ℕ → List A → List A
drop zero xs = xs
drop (suc n) [] = []
drop (suc n) (x ∷ xs) = drop n xs

abbrev pub last_three {ℓ} : {A : Type ℓ} → List A → List A
last_three xs = drop (length xs - 3) xs

abbrev pub is_waiting_signal : List Fields → Bool
is_waiting_signal [] = false
is_waiting_signal (g ∷ gs) = true

abbrev pub after_merge : List Fields → Loc
after_merge signals = if has_reply signals then reading to_top else ready to_top

abbrev pub back_loc : Back → Loc
back_loc to_top = top
back_loc to_supervisor = supervising

abbrev pub action_ids : CaseState → List String
action_ids s = map (λ a. a.action_id) (approved_unexecuted s)

abbrev pub or_state : Option CaseState → CaseState → CaseState
or_state none s = s
or_state (some t) s = t

-- `max_steps` is the budget of the state: `load_case_state` sets it from the parameters of the run.
abbrev pub in_budget : Run → Bool
in_budget r = ltb r.state.step_no r.state.max_steps

unfoldable pub folded : CaseRow → CaseDetail → Run → Run
folded c d r =
    let s = merge_signals r.pending c d r.state in
    record r {
      state = s;
      pending = [];
      loc = if has_reply (last_three s.signals) then reading to_supervisor else ready to_supervisor;
    }

unfoldable pub supervised_by : SupervisorDecision → Run → Run
supervised_by d r =
    let s = after_supervisor r.state d in
    record r { state = s; loc = decided (effective s d).next; supervised = r.supervised + 1 }

unfoldable pub ran : Specialist → AgentResult → CaseRow → Run → Run
ran p a c r = elim (run_specialist p a c r.state).0 [
  | none ↦ go_to (finalizing run_failed) r
  | some s ↦ with_state s (ready to_top) r
]

unfoldable pub woken : CaseRow → CaseDetail → Run → Run
woken c d r = record r {
  state = merge_signals r.pending c d r.state;
  pending = [];
  loc = after_merge r.pending;
}

unfoldable pub refreshed : Back → CaseDetail → Run → Run
refreshed b d r = let s = refresh_actions d r.state in with_state s (executing (action_ids s) b) r

-- One step, and what it asks of the other services.
pub data Step (r : Run) : List Effect → Run → Type 0 where
  -- the signals
  signalled :
      (t : String) (payload : Fields)
      → Step r [] (record r { pending = r.pending ++ (signal_of t payload ∷ []) })
  taken_over : Step r [] (record r { human_control = true })
  released : Step r [] (record r { human_control = false })
  cancel : Step r [] (record r { cancelled = true })
  -- the loop
  out_of_steps : r.loc ≡ top → in_budget r ≡ false → Step r [] (go_to (finalizing run_escalated) r)
  stop :
      r.loc ≡ top
      → in_budget r ≡ true
      → r.cancelled ≡ true
      → Step r [] (go_to (finalizing run_cancelled) r)
  hold :
      r.loc ≡ top
      → in_budget r ≡ true
      → r.cancelled ≡ false
      → r.human_control ≡ true
      → Step r (record_wait r.state) (go_to held r)
  let_go : r.loc ≡ held → (not r.human_control || r.cancelled) ≡ true → Step r [] (go_to top r)
  fold_in :
      (c : CaseRow) (d : CaseDetail)
      → r.loc ≡ top
      → in_budget r ≡ true
      → r.cancelled ≡ false
      → r.human_control ≡ false
      → is_waiting_signal r.pending ≡ true
      → Step r [] (folded c d r)
  go_on :
      r.loc ≡ top
      → in_budget r ≡ true
      → r.cancelled ≡ false
      → r.human_control ≡ false
      → r.pending ≡ []
      → Step r [] (go_to supervising r)
  -- the supervisor
  supervise :
      (d : SupervisorDecision) (tools : List String)
      → r.loc ≡ supervising
      → Step r (agent_calls r.state tools ++ when_live r.state (note ∷ [])) (supervised_by d r)
  supervisor_failed :
      (tools : List String)
      → r.loc ≡ supervising
      → Step r
          (agent_calls r.state tools ++ when_live r.state (note ∷ []))
          (go_to (finalizing run_failed) r)
  -- what it decided
  wait_customer :
      r.loc ≡ decided wait_for_customer → Step r (record_wait r.state) (go_to (waiting "timeout") r)
  wait_approval :
      r.loc ≡ decided await_approval
      → Step r (record_wait r.state) (go_to (waiting "approval_timeout") r)
  resolve : r.loc ≡ decided resolved → Step r [] (go_to (finalizing run_resolved) r)
  escalate : r.loc ≡ decided escalated → Step r [] (go_to (finalizing run_escalated) r)
  run :
      {p : Specialist} (a : AgentResult) (c : CaseRow)
      → r.loc ≡ decided (specialist p)
      → Step r (run_specialist p a c r.state).1 (ran p a c r)
  -- a wait ends
  wake :
      {t : String} (c : CaseRow) (d : CaseDetail)
      → r.loc ≡ waiting t
      → (is_waiting_signal r.pending || (r.human_control || r.cancelled)) ≡ true
      → Step r [] (woken c d r)
  time_out :
      {t : String} (c : CaseRow) (d : CaseDetail)
      → r.loc ≡ waiting t
      → Step r []
          (with_state (merge_signals (field "type" (text t) end ∷ []) c d r.state) (ready to_top) r)
  -- the specialist for replies, whose failure is passed over, and the executor
  read :
      {b : Back} (a : AgentResult) (c : CaseRow)
      → r.loc ≡ reading b
      → Step r
          (run_specialist intent a c r.state).1
          (with_state (or_state (run_specialist intent a c r.state).0 r.state) (ready b) r)
  refresh : {b : Back} (d : CaseDetail) → r.loc ≡ ready b → Step r [] (refreshed b d r)
  execute :
      {b : Back} {id : String} {ids : List String} (x : Execution)
      → r.loc ≡ executing (id ∷ ids) b
      → Step r
          (execute_action id x r.state).effects
          (with_state (execute_action id x r.state).state (executing ids b) r)
  executed_all : {b : Back} → r.loc ≡ executing [] b → Step r [] (go_to (back_loc b) r)
  end_run :
      {st : RunStatus} (accepted : Bool)
      → r.loc ≡ finalizing st
      → Step r
          (finalize r.state st accepted).effects
          (go_to (done (finalize r.state st accepted).status) r)

-- The runs from a first state, with all that they ask of the other services, the last of it first.
pub data Reaches (s : CaseState) : List Effect → Run → Type 0 where
  starts : Reaches s [] (record {
    state = s;
    pending = [];
    human_control = false;
    cancelled = false;
    loc = top;
    supervised = 0;
  })
  steps :
      {es new : List Effect} {r q : Run} → Reaches s es r → Step r new q → Reaches s (new ++ es) q
