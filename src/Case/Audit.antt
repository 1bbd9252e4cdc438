-- ===== src/Case/Audit.antt =====
-- The audit trail of the case service, for every request of `Case/Requests`: what is on the timeline
-- stays there, and the recorded changes of status tell the status of the case.
use recoup.Common.{ℕ, String, ◌≡◌, subst, Option, none, some}
use recoup.Json.{Value}
use recoup.Outbox.{Env}
use recoup.Case.Status.{CaseStatus, ActionStatus}
use recoup.Case.Records
use recoup.Case.Records.{
  Principal, TriageUpdate, ProposedActionCreate, TimelineAppend, ProposedAction, TimelineEvent,
}
use recoup.Case.Transaction.{Session, Result, ok, err}
use recoup.Case.Service.{transition, apply_triage, add_note, assign, takeover, release}
use recoup.Case.Actions.{
  Ruling, save_action, add_action, propose_action, decide_action, mark_executed, append_event,
  get_action, check_can_decide, check_role, after_decision,
}
use recoup.Case.Requests.{
  Request, human_transition, agent_transition, triage_case, note_case, assign_case, take_over,
  release_case, propose, decide, report_executed, append_entry, perform,
}
use recoup.Case.Trace.{Traces}
use recoup.Case.Traced.{
  Leaves, Traced, Traced-pure, Traced-gets, Traced-raise_if, Traced-when, Traced-bind, Traced-seq,
  Traced-modify_case, Traced-or_raise, Traced-modify_actions, Traced-flush, Traced-touch,
  Traced-add_timeline, Traced-emit,
}
use recoup.Case.Moves.{Traced-set_status}

ruleset traced_rules = (
  Traced-pure, Traced-gets, Traced-or_raise, Traced-modify_actions, Traced-raise_if, Traced-when,
  Traced-bind, Traced-seq, Traced-flush, Traced-touch, Traced-modify_case, Traced-or_raise,
  Traced-modify_actions, Traced-add_timeline, Traced-emit, Traced-set_status,
)

module _ (env : Env) where
  Traced-release : (p : Principal) → Traced (release env p)
  unfolding release
  Traced-release p = search traced_rules depth 12

  Traced-transition :
      (to : CaseStatus) (actor_type : String) (actor : Records.Actor) (reason : Option String)
      (v : Option ℕ) (r : Option Value)
      → Traced (transition env to actor_type actor reason v r)
  unfolding transition
  Traced-transition to actor_type actor reason v r = search traced_rules depth 12

  Traced-apply_triage : (t : TriageUpdate) → Traced (apply_triage env t)
  unfolding apply_triage
  Traced-apply_triage t = search traced_rules depth 14

  Traced-add_note : (p : Principal) (note : String) → Traced (add_note env p note)
  unfolding add_note
  Traced-add_note p note = search traced_rules depth 12

  Traced-assign : (p : Principal) (a : Option ℕ) → Traced (assign env p a)
  unfolding assign
  Traced-assign p a = search traced_rules depth 12

  Traced-takeover : (p : Principal) (reason : Option String) → Traced (takeover env p reason)
  unfolding takeover
  Traced-takeover p reason = search traced_rules depth 14

  Traced-save_action : (a : ProposedAction) → Traced (save_action a)
  unfolding save_action
  Traced-save_action a = search traced_rules

  Traced-add_action : (p : ProposedActionCreate) → Traced (add_action env p)
  unfolding add_action
  Traced-add_action p = search traced_rules depth 12

  Traced-propose_action : (p : ProposedActionCreate) → Traced (propose_action env p)
  unfolding propose_action
  Traced-propose_action p = search (traced_rules, Traced-add_action) depth 16

  Traced-check_role : (p : Principal) (r : Option String) → Traced (check_role p r)
  unfolding check_role
  Traced-check_role p none = search traced_rules
  Traced-check_role p (some name) = search traced_rules

  Traced-check_can_decide : (a : ProposedAction) (p : Principal) → Traced (check_can_decide a p)
  unfolding check_can_decide
  Traced-check_can_decide a p = search (Traced-seq, Traced-raise_if, Traced-check_role)

  Traced-after_decision : (p : Principal) (d : ActionStatus) → Traced (after_decision env p d)
  unfolding after_decision
  Traced-after_decision p d = search traced_rules depth 12

  Traced-decide_action :
      (a : ProposedAction) (p : Principal) (r : Ruling) → Traced (decide_action env a p r)
  unfolding decide_action
  Traced-decide_action a p r =
      search (traced_rules, Traced-check_can_decide, Traced-save_action, Traced-after_decision)
        depth 16

  Traced-mark_executed :
      (a : ProposedAction) (v : Value) (actor : String) → Traced (mark_executed env a v actor)
  unfolding mark_executed
  Traced-mark_executed a v actor = search (traced_rules, Traced-save_action) depth 16

  Traced-append_event : (e : TimelineAppend) → Traced (append_event env e)
  unfolding append_event
  Traced-append_event e = search traced_rules

  Traced-get_action : (i : ℕ) → Traced (get_action i)
  unfolding get_action
  Traced-get_action i = search traced_rules depth 12

  -- Every request keeps the record, whatever it is.
  pub Traced-perform : (r : Request) → Traced (perform env r)
  unfolding perform
  Traced-perform (human_transition principal to reason v) = search (traced_rules, Traced-transition)
  Traced-perform (agent_transition actor to reason v) = search Traced-transition
  Traced-perform (triage_case body) = search Traced-apply_triage
  Traced-perform (note_case principal text) = search (traced_rules, Traced-add_note)
  Traced-perform (assign_case principal assignee) = search Traced-assign
  Traced-perform (take_over principal reason) = search Traced-takeover
  Traced-perform (release_case principal) = search Traced-release
  Traced-perform (propose body) = search (traced_rules, Traced-propose_action)
  Traced-perform (decide i principal ruling) =
      search (traced_rules, Traced-get_action, Traced-decide_action)
  Traced-perform (report_executed i result actor) =
      search (traced_rules, Traced-get_action, Traced-mark_executed)
  Traced-perform (append_entry body) = search (traced_rules, Traced-append_event)

  Leaves-of_ok :
      {A : Type 0} (s : Session) (r : Result (A × Session)) {p : A × Session}
      → Leaves s r
      → r ≡ ok p
      → Traces s p.1
  Leaves-of_ok s (ok q) {p} h e = subst (λ (x : Session). Traces s x) (cc) h
  Leaves-of_ok s (err x) h e = cc

  -- Whatever request a session performs successfully, it has only appended to the timeline and to the
  -- outbox; replaying the changes of status that were appended there, from the status before, gives
  -- the status after, from both; the change is along legal transitions; the case is the same one.
  pub perform-Traces :
      (r : Request) (s : Session) {t : Session} → perform env r s ≡ ok (tt, t) → Traces s t
  perform-Traces r s h = Leaves-of_ok s (perform env r s) ((Traced-perform r).at s) h
