-- ===== src/Orchestrator/Activities.antt =====
-- The activities of services/orchestrator/recoup_orchestrator/workflows/activities.py as functions of the
-- state. What the other services answer is an argument; what an activity asks of them is its list of
-- effects. The rows of steps and of runs, which only the console reads, and the history for the prompts
-- are left out.
use recoup.Common.{
  ℕ, ◌+◌, String, Bool, not, ◌&&◌, ◌||◌, Option, none, some, List, [], ◌∷◌, ◌++◌, map, any, find,
  str_eq, if◌then◌else◌,
}
use Prim.Native.String.{◌++◌ as append_text}
use text.Mathlib.Text.{starts_with}
use recoup.Common.Int.{ℤ}
use recoup.Json.{Fields}
use recoup.Case.Status as Case
use recoup.Gateway.Invoke.{Mode, is_live}
use recoup.Orchestrator.State.{
  Specialist, investigator, reconciler, negotiator, communicator, ◌same_as◌, CaseState, Intent,
  ProposedActionRef, RefStatus, pending, approved, edited, rejected, executed, denied, failed,
  simulated, has_type,
}

-- What the case service shows of a case and of its actions.
pub record CaseRow : Type 0 where
  pub amount_open : Option ℤ
  pub root_cause : Option String

pub record ActionView : Type 0 where
  pub id : String
  pub action_type : String
  pub status : Case.ActionStatus
  pub is_marked : Bool  -- `executed_at` is set

pub record CaseDetail : Type 0 where
  pub shown : CaseRow
  pub actions : List ActionView

-- What an activity asks of another service.
pub data Effect : Type 0 where
  write_triage note wait_note : Effect
  invoke_tool : (tool key : String) (approval_ref : Option String) → Effect
  transition extract_memory : Effect
  agent_call : Mode → (tool : String) → Effect  -- the agent loop asks the tool gateway

pub record Done : Type 0 where
  pub state : CaseState
  pub effects : List Effect

abbrev pub silent : CaseState → Done
silent s = record { state = s; effects = [] }

abbrev pub with_case : CaseRow → CaseState → CaseState
with_case c s = record s { amount_open = c.amount_open; case_root_cause = c.root_cause }

abbrev pub when_live : CaseState → List Effect → List Effect
when_live s es = if is_live s.mode then es else []

-- What a specialist puts out: the cause, or the action that it proposed, or the intent.
pub data Output : Type 0 where
  found_cause : String → Output
  proposed_action : Option String → Output
  read_intent : Intent → Output

abbrev pub proposed_type : Specialist → Option String
proposed_type reconciler = some "CREATE_CREDIT_MEMO"
proposed_type negotiator = some "PAYMENT_PLAN"
proposed_type communicator = some "SEND_EMAIL"
proposed_type _ = none

abbrev new_ref : String → String → ProposedActionRef
new_ref id t = record { action_id = id; action_type = t; status = pending }

abbrev pub refers_to : String → ProposedActionRef → Bool
refers_to id a = str_eq a.action_id id

-- `_track_action`
unfoldable pub track_action : Option String → String → CaseState → CaseState
track_action none t s = s
track_action (some id) t s =
    if str_eq id "" || any (refers_to id) s.actions
    then s
    else record s { actions = s.actions ++ (new_ref id t ∷ []) }

-- `_record_triage`: in a shadow run the cause is only noted in the state.
unfoldable pub record_triage : String → CaseRow → CaseState → CaseState
record_triage cause c s =
    if is_live s.mode then with_case c s else record s { case_root_cause = some cause }

abbrev pub tracked : Option String → Option String → CaseState → Done
tracked none id s = silent s
tracked (some t) id s = silent (track_action id t s)

-- `_apply_specialist_output`. An output of another kind than the specialist's does not occur.
unfoldable pub apply_output : Specialist → Output → CaseRow → CaseState → Done
unfolding record_triage track_action
apply_output p (found_cause cause) c s = record {
  state = record (record_triage cause c s) {
    investigated = s.investigated || p same_as investigator;
  };
  effects = when_live s (write_triage ∷ []);
}
apply_output p (proposed_action id) c s = tracked (proposed_type p) id s
apply_output p (read_intent i) c s = silent (record s { last_intent = some i })

abbrev pub bump : Specialist → (Specialist → ℕ) → Specialist → ℕ
bump p runs q = if q same_as p then runs q + 1 else runs q

-- The tools that the agent loop called, with its output and the tokens that it used, or with the error that it
-- raised.
pub data AgentResult : Type 0 where
  answered : List String → Output → ℕ → AgentResult
  gave_up : List String → AgentResult

-- The loop calls the gateway in the mode of the run.
abbrev pub agent_calls : CaseState → List String → List Effect
agent_calls s tools = map (agent_call s.mode) tools

abbrev pub counted : Specialist → ℕ → CaseState → CaseState
counted p tokens s = record s {
  step_no = s.step_no + 1;
  specialist_runs = bump p s.specialist_runs;
  tokens = s.tokens + tokens;
}

-- The state of a run whose activity failed is the one before.
unfoldable pub run_specialist :
    Specialist → AgentResult → CaseRow → CaseState → Option CaseState × List Effect
unfolding apply_output
run_specialist p (gave_up tools) c s = (none, agent_calls s tools ++ when_live s (note ∷ []))
run_specialist p (answered tools out tokens) c s =
    let d = apply_output p out c (counted p tokens s) in
    (some d.state, agent_calls s tools ++ (d.effects ++ when_live s (note ∷ [])))

-- `"EXECUTED" if executed_at`, or the status of the case service with its two names for it.
abbrev ref_status : Case.ActionStatus → RefStatus
ref_status Case.pending = pending
ref_status Case.approved = approved
ref_status Case.edited = edited
ref_status Case.rejected = rejected
ref_status Case.executed = executed
ref_status Case.auto_executed = executed
ref_status Case.denied = denied

abbrev pub shown_status : ActionView → RefStatus
shown_status a = if a.is_marked then executed else ref_status a.status

abbrev pub has_id : String → ActionView → Bool
has_id id a = str_eq a.id id

-- The ids of the actions of a case are distinct, so that `by_id` has one view of each.
unfoldable pub refresh_ref : List ActionView → ProposedActionRef → ProposedActionRef
refresh_ref views ref = elim (find (has_id ref.action_id) views) [
  | none ↦ ref
  | some a ↦ record ref { status = shown_status a }
]

unfoldable pub refresh_actions : CaseDetail → CaseState → CaseState
unfolding refresh_ref
refresh_actions d s = elim s.actions [
  | [] ↦ s
  | _ ∷ _ ↦ with_case d.shown (record s { actions = map (refresh_ref d.actions) s.actions })
]

-- `ref.status = …` on the first reference to the action.
unfoldable pub set_status : String → RefStatus → List ProposedActionRef → List ProposedActionRef
set_status id st [] = []
set_status id st (a ∷ actions) =
    let rest = set_status id st actions in
    if refers_to id a then record a { status = st } ∷ actions else a ∷ rest

abbrev pub tool_of : String → Option String
tool_of t =
    if str_eq t "CREATE_CREDIT_MEMO"
    then some "create_credit_memo"
    else if str_eq t "SEND_EMAIL"
    then some "send_email"
    else if str_eq t "PAYMENT_PLAN"
    then some "apply_payment_plan"
    else if str_eq t "ESCALATE"
    then some "escalate_case"
    else none

-- What the other services answer to the executor: the type of the action, whether the gateway reports
-- SUCCESS, and the case afterwards.
pub record Execution : Type 0 where
  pub action_type : String
  pub succeeded : Bool
  pub detail : CaseDetail

abbrev outreach_after : Execution → CaseState → ℕ
outreach_after x s =
    if x.succeeded && str_eq x.action_type "SEND_EMAIL"
    then s.outreach_count + 1
    else s.outreach_count

abbrev pub is_shadow : String → CaseState → Bool
is_shadow id s = not (is_live s.mode) || starts_with "shadow-" id

unfoldable pub invoke_executor : String → Execution → Option String → CaseState → Done
unfolding refresh_actions set_status
invoke_executor id x none s = record {
  state =
      refresh_actions x.detail
        (record s { step_no = s.step_no + 1; actions = set_status id failed s.actions });
  effects = note ∷ [];
}
invoke_executor id x (some tool) s = record {
  state = refresh_actions x.detail (record s {
    step_no = s.step_no + 1;
    actions = set_status id (if x.succeeded then executed else failed) s.actions;
    outreach_count = outreach_after x s;
  });
  effects = invoke_tool tool (append_text "exec-" id) (some id) ∷ note ∷ [];
}

unfoldable pub execute_action : String → Execution → CaseState → Done
unfolding invoke_executor set_status
execute_action id x s =
    if not (any (refers_to id) s.actions)
    then silent s
    else if is_shadow id s
    then silent (record s { actions = set_status id simulated s.actions })
    else invoke_executor id x (tool_of x.action_type) s

-- The case is read again, then the actions; a signal of a timeout counts as a wait.
unfoldable pub merge_signals : List Fields → CaseRow → CaseDetail → CaseState → CaseState
unfolding refresh_actions
merge_signals [] c d s = s
merge_signals (g ∷ gs) c d s =
    let new = g ∷ gs in
    let timed_out = any (λ x. has_type "timeout" x || has_type "approval_timeout" x) new in
    refresh_actions d (
      with_case c (record s {
        signals = s.signals ++ new;
        waits = if timed_out then s.waits + 1 else s.waits;
      }))

-- The note is written in every mode.
abbrev pub record_wait : CaseState → List Effect
record_wait s = wait_note ∷ []
