-- ===== src/Orchestrator/Effects.antt =====
-- What a run asks of the other services (services/orchestrator/recoup_orchestrator/workflows).
use recoup.Common.{
  ◌≡◌, refl, ap, ◌∙◌, String, Bool, true, false, not, ◌&&◌, ◌||◌, Option, none, some, List, [], ◌∷◌,
  ◌++◌, map, all, find, filter, all-append, arith, Bool-cases, Option-cases, inl, inr,
}
use recoup.Json.{Fields}
use recoup.Gateway.Registry.{ToolSpec}
use recoup.Gateway.Invoke.{InvokeRequest, Answers, is_live, invoke}
use recoup.Gateway.Guard.{invoke_runs}
use recoup.Orchestrator.State.{
  Specialist, ProposedActionRef, CaseState, is_ready, approved_unexecuted, intent,
}
use recoup.Orchestrator.Activities.{
  CaseRow, ActionView, CaseDetail, Effect, proposed_type, Output, tracked, counted, apply_output,
  AgentResult, run_specialist, shown_status, has_id, refresh_ref, refresh_actions, Execution,
  execute_action, wait_note, found_cause, proposed_action, read_intent, answered, gave_up,
  agent_call, agent_calls,
}
use recoup.Orchestrator.Workflow.{
  RunStatus, finalize, Back, Run, refreshed, Step, Reaches, executing, signalled, taken_over,
  released, cancel, out_of_steps, stop, hold, let_go, fold_in, go_on, supervise, supervisor_failed,
  wait_customer, wait_approval, resolve, escalate, run, wake, time_out, read, refresh, execute,
  executed_all, end_run, starts, steps,
}
use recoup.Orchestrator.Load.{RunParams, load_case_state}
use recoup.Orchestrator.Runs.{Reaches-Bounded}
use recoup.Case.Status as Case
use recoup.Case.Status.{◌is_action◌}

abbrev is_quiet : Effect → Bool
is_quiet wait_note = true
is_quiet (agent_call mode tool) = not (is_live mode)
is_quiet _ = false

-- The run asks only for notes that it waits, and its agents call the gateway in no live mode.
abbrev pub IsQuiet : List Effect → Type 0
IsQuiet es = all is_quiet es ≡ true

calls-IsQuiet :
    (s : CaseState) (tools : List String) → is_live s.mode ≡ false → IsQuiet (agent_calls s tools)
calls-IsQuiet s [] h = refl
calls-IsQuiet s (t ∷ tools) h = ground (arith, h, calls-IsQuiet s tools h)

IsQuiet-append : (xs ys : List Effect) → IsQuiet xs → IsQuiet ys → IsQuiet (xs ++ ys)
IsQuiet-append xs ys h k = ground (arith, all-append is_quiet xs ys, h, k)

tracked_silent : (t id : Option String) (s : CaseState) → (tracked t id s).effects ≡ []
tracked_silent none id s = refl
tracked_silent (some t) id s = refl

apply-IsQuiet :
    (p : Specialist) (out : Output) (c : CaseRow) (s : CaseState)
    → is_live s.mode ≡ false
    → (apply_output p out c s).effects ≡ []
unfolding apply_output
apply-IsQuiet p (found_cause cause) c s h = rw h refl
apply-IsQuiet p (proposed_action id) c s h = tracked_silent (proposed_type p) id s
apply-IsQuiet p (read_intent i) c s h = refl

run-IsQuiet :
    (p : Specialist) (a : AgentResult) (c : CaseRow) (s : CaseState)
    → is_live s.mode ≡ false
    → IsQuiet (run_specialist p a c s).1
unfolding run_specialist
run-IsQuiet p (gave_up tools) c s h =
    IsQuiet-append (agent_calls s tools) _ (calls-IsQuiet s tools h) (rw h refl)
run-IsQuiet p (answered tools out tokens) c s h =
    IsQuiet-append (agent_calls s tools) _ (calls-IsQuiet s tools h)
      (rw (apply-IsQuiet p out c (counted p tokens s) h, h) refl)

execute-IsQuiet :
    (id : String) (x : Execution) (s : CaseState)
    → is_live s.mode ≡ false
    → IsQuiet (execute_action id x s).effects
unfolding execute_action
execute-IsQuiet id x s h = ground arith

finalize-IsQuiet :
    (s : CaseState) (st : RunStatus) (accepted : Bool)
    → is_live s.mode ≡ false
    → IsQuiet (finalize s st accepted).effects
unfolding finalize
finalize-IsQuiet s st accepted h = ground arith

step-IsQuiet :
    {r : Run} {es : List Effect} {q : Run} → is_live r.state.mode ≡ false → Step r es q → IsQuiet es
step-IsQuiet h (signalled t payload) = refl
step-IsQuiet h taken_over = refl
step-IsQuiet h released = refl
step-IsQuiet h cancel = refl
step-IsQuiet h (out_of_steps x y) = refl
step-IsQuiet h (stop x y z) = refl
step-IsQuiet h (hold x y z w) = refl
step-IsQuiet h (let_go x y) = refl
step-IsQuiet h (fold_in c d x y z w v) = refl
step-IsQuiet h (go_on x y z w v) = refl
step-IsQuiet {r = r} h (supervise d tools x) =
    IsQuiet-append (agent_calls r.state tools) _ (calls-IsQuiet r.state tools h) (rw h refl)
step-IsQuiet {r = r} h (supervisor_failed tools x) =
    IsQuiet-append (agent_calls r.state tools) _ (calls-IsQuiet r.state tools h) (rw h refl)
step-IsQuiet h (wait_customer x) = refl
step-IsQuiet h (wait_approval x) = refl
step-IsQuiet h (resolve x) = refl
step-IsQuiet h (escalate x) = refl
step-IsQuiet {r = r} h (run {p = p} a c x) = run-IsQuiet p a c r.state h
step-IsQuiet h (wake c d x y) = refl
step-IsQuiet h (time_out c d x) = refl
step-IsQuiet {r = r} h (read a c x) = run-IsQuiet intent a c r.state h
step-IsQuiet h (refresh d x) = refl
step-IsQuiet {r = r} h (execute {id = id} x y) = execute-IsQuiet id x r.state h
step-IsQuiet h (executed_all x) = refl
step-IsQuiet {r = r} h (end_run {st = st} accepted x) = finalize-IsQuiet r.state st accepted h

IsQuiet-reached :
    (p : RunParams) (d : CaseDetail) {es : List Effect} {r : Run}
    → is_live p.mode ≡ false
    → Reaches (load_case_state p d) es r
    → IsQuiet es
unfolding load_case_state
IsQuiet-reached p d h starts = refl
IsQuiet-reached p d h (steps {es = es} {new = new} {r = r} x y) =
    let m = (Reaches-Bounded p d x).same_mode in
    let quiet = step-IsQuiet (ap is_live m ∙ h) y in
    IsQuiet-append new es quiet (IsQuiet-reached p d h x)

simulated_only :
    (spec : ToolSpec) (req : InvokeRequest) (w : Answers) (o : Option Fields)
    → spec.side_effect ≡ true
    → is_live req.mode ≡ false
    → (invoke spec req w).ran_on ≡ o
    → o ≡ none
simulated_only spec req w none s m e = refl
simulated_only spec req w (some ran) s m e =
    let (args, f, permitted) = invoke_runs spec req w {ran = ran} e in
    absurd (ground (arith, permitted.is_real, s, m))

-- A shadow or replay run asks of the other services that they note its waits and that the gateway serves the
-- tools that its agents call, in the mode of the run: it writes no cause to the case, executes no action, and
-- moves and remembers nothing; and a tool with side effects that is called in that mode does not run.
pub shadow_run-IsQuiet :
    (p : RunParams) (d : CaseDetail) (spec : ToolSpec) (req : InvokeRequest) (w : Answers)
    {es : List Effect} {r : Run}
    → is_live p.mode ≡ false
    → Reaches (load_case_state p d) es r
    → spec.side_effect ≡ true
    → req.mode ≡ p.mode
    → IsQuiet es × ((invoke spec req w).ran_on ≡ none)
shadow_run-IsQuiet p d spec req w h x s m =
    (IsQuiet-reached p d h x, simulated_only spec req w _ s (ap is_live m ∙ h) refl)

-- The case service's view of an action that may be executed.
abbrev pub may_execute : List ActionView → String → Bool
may_execute views id = elim (find (has_id id) views) [
  | none ↦ true
  | some a ↦ (a.status is_action Case.approved || a.status is_action Case.edited) && not a.is_marked
]

refresh_ref-id :
    (views : List ActionView) (a : ProposedActionRef)
    → (refresh_ref views a).action_id ≡ a.action_id
unfolding refresh_ref
refresh_ref-id views a = elim (Option-cases (find (has_id a.action_id) views)) [
  | inl n ↦ rw (refresh_ref, n) refl
  | inr (v, y) ↦ rw (refresh_ref, y) refl
]

ready_view :
    (v : ActionView) (a : ProposedActionRef)
    → is_ready (record a { status = shown_status v }) ≡ true
    → ((v.status is_action Case.approved || v.status is_action Case.edited) && not v.is_marked)
      ≡ true
ready_view v a h = ground arith

ready-may_execute :
    (views : List ActionView) (a : ProposedActionRef)
    → is_ready (refresh_ref views a) ≡ true
    → may_execute views a.action_id ≡ true
unfolding refresh_ref
ready-may_execute views a h = elim (Option-cases (find (has_id a.action_id) views)) [
  | inl n ↦ rw (may_execute, n) refl
  | inr (v, y) ↦ rw (may_execute, y) (ready_view v a (ground (arith, y, h)))
]

refreshed_refs :
    (views : List ActionView) (refs : List ProposedActionRef)
    → all
        (may_execute views)
        (map (λ a. a.action_id) (filter is_ready (map (refresh_ref views) refs)))
      ≡ true
refreshed_refs views [] = refl
refreshed_refs views (a ∷ refs) = elim (Bool-cases (is_ready (refresh_ref views a))) [
  | inl y ↦ rw (y, refresh_ref-id views a, ready-may_execute views a y) (refreshed_refs views refs)
  | inr n ↦ rw n (refreshed_refs views refs)
]

refreshed_actions :
    (d : CaseDetail) (s : CaseState)
    → (refresh_actions d s).actions ≡ map (refresh_ref d.actions) s.actions
unfolding refresh_actions
refreshed_actions d s = go s.actions refl
  where
    go :
        (xs : List ProposedActionRef)
        → s.actions ≡ xs
        → (refresh_actions d s).actions ≡ map (refresh_ref d.actions) s.actions
    go [] h = rw (refresh_actions, h) h
    go (x ∷ xs) h = rw (refresh_actions, h) (ap (map (refresh_ref d.actions)) h)

-- What the executor goes through after a refresh are actions that the case service shows as approved or
-- edited and not as executed, or does not show at all.
pub refresh-may_execute :
    (b : Back) (d : CaseDetail) (r : Run)
    → (ids : List String) × ((refreshed b d r).loc ≡ executing ids b)
      × (all (may_execute d.actions) ids ≡ true)
unfolding refreshed approved_unexecuted
refresh-may_execute b d r =
    (_, refl, rw (refreshed_actions d r.state) (refreshed_refs d.actions r.state.actions))
