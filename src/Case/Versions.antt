-- ===== src/Case/Versions.antt =====
-- The version of a case under every request of `Case/Requests` (the optimistic locking of
-- services/case/recoup_case).
use recoup.Common.{ℕ, ◌<◌, sym, String, ◌≡◌, subst, Option, none, some}
use recoup.Json.{Value}
use recoup.Outbox.{Env}
use recoup.Case.Status.{CaseStatus, ActionStatus}
use recoup.Case.Records
use recoup.Case.Records.{
  id_text, Principal, TriageUpdate, ProposedActionCreate, TimelineAppend, ProposedAction,
  TimelineEvent,
}
use recoup.Case.Transaction.{touch}
use recoup.Case.Service.{transition, apply_triage, add_note, assign, takeover, release}
use recoup.Case.Actions.{
  Ruling, save_action, add_action, propose_action, decide_action, mark_executed, append_event,
  get_action, check_can_decide, check_role, after_decision,
}
use recoup.Case.Requests.{
  Request, human_transition, agent_transition, triage_case, note_case, assign_case, take_over,
  release_case, propose, decide, report_executed, append_entry, perform,
}
use recoup.Case.Rises.{
  Rises, Meets, Rises-pure, Rises-gets, Rises-raise_if, Rises-when, Rises-bind, Rises-seq,
  Rises-modify_case, Rises-or_raise, Rises-modify_actions, Rises-flush, Rises-touch,
  Rises-add_timeline, Rises-emit, Rises-set_status, Meets-later, Meets-touch, Meets-then,
  Meets-since,
}

ruleset rises_rules = (
  Rises-pure, Rises-gets, Rises-or_raise, Rises-raise_if, Rises-when, Rises-bind, Rises-seq,
  Rises-flush, Rises-touch, Rises-modify_case, Rises-or_raise, Rises-modify_actions,
  Rises-add_timeline, Rises-emit, Rises-set_status,
)

-- The version that a request names.
abbrev pub expected_of : Request → Option ℕ
expected_of (human_transition principal to reason v) = v
expected_of (decide i principal ruling) = ruling.expected_version
expected_of _ = none

module _ (env : Env) (bumps : (v : ℕ) → v < env.next_version v) where
  Rises-release : (p : Principal) → Rises (release env p)
  unfolding release
  Rises-release p = search rises_rules depth 12

  Rises-transition :
      (to : CaseStatus) (actor_type : String) (actor : Records.Actor) (reason : Option String)
      (v : Option ℕ) (r : Option Value)
      → Rises (transition env to actor_type actor reason v r)
  unfolding transition
  Rises-transition to actor_type actor reason v r = search rises_rules depth 12

  Rises-apply_triage : (t : TriageUpdate) → Rises (apply_triage env t)
  unfolding apply_triage
  Rises-apply_triage t = search rises_rules depth 14

  Rises-add_note : (p : Principal) (note : String) → Rises (add_note env p note)
  unfolding add_note
  Rises-add_note p note = search rises_rules depth 12

  Rises-assign : (p : Principal) (a : Option ℕ) → Rises (assign env p a)
  unfolding assign
  Rises-assign p a = search rises_rules depth 12

  Rises-takeover : (p : Principal) (reason : Option String) → Rises (takeover env p reason)
  unfolding takeover
  Rises-takeover p reason = search rises_rules depth 14

  Rises-save_action : (a : ProposedAction) → Rises (save_action a)
  unfolding save_action
  Rises-save_action a = search rises_rules

  Rises-add_action : (p : ProposedActionCreate) → Rises (add_action env p)
  unfolding add_action
  Rises-add_action p = search rises_rules depth 12

  Rises-propose_action : (p : ProposedActionCreate) → Rises (propose_action env p)
  unfolding propose_action
  Rises-propose_action p = search (rises_rules, Rises-add_action) depth 16

  Rises-check_role : (p : Principal) (r : Option String) → Rises (check_role p r)
  unfolding check_role
  Rises-check_role p none = search rises_rules
  Rises-check_role p (some name) = search rises_rules

  Rises-check_can_decide : (a : ProposedAction) (p : Principal) → Rises (check_can_decide a p)
  unfolding check_can_decide
  Rises-check_can_decide a p = search (Rises-seq, Rises-raise_if, Rises-check_role)

  Rises-after_decision : (p : Principal) (d : ActionStatus) → Rises (after_decision env p d)
  unfolding after_decision
  Rises-after_decision p d = search rises_rules depth 12

  Rises-decide_action :
      (a : ProposedAction) (p : Principal) (r : Ruling) → Rises (decide_action env a p r)
  unfolding decide_action
  Rises-decide_action a p r =
      search (rises_rules, Rises-check_can_decide, Rises-save_action, Rises-after_decision) depth 16

  Rises-mark_executed :
      (a : ProposedAction) (v : Value) (actor : String) → Rises (mark_executed env a v actor)
  unfolding mark_executed
  Rises-mark_executed a v actor = search (rises_rules, Rises-save_action) depth 16

  Rises-append_event : (e : TimelineAppend) → Rises (append_event env e)
  unfolding append_event
  Rises-append_event e = search rises_rules

  Rises-get_action : (i : ℕ) → Rises (get_action i)
  unfolding get_action
  Rises-get_action i = search rises_rules depth 12

  -- No request lowers the version.
  pub Rises-perform : (r : Request) → Rises (perform env r)
  unfolding perform
  Rises-perform (human_transition principal to reason v) = search (rises_rules, Rises-transition)
  Rises-perform (agent_transition actor to reason v) = search Rises-transition
  Rises-perform (triage_case body) = search Rises-apply_triage
  Rises-perform (note_case principal text) = search (rises_rules, Rises-add_note)
  Rises-perform (assign_case principal assignee) = search Rises-assign
  Rises-perform (take_over principal reason) = search Rises-takeover
  Rises-perform (release_case principal) = search Rises-release
  Rises-perform (propose body) = search (rises_rules, Rises-propose_action)
  Rises-perform (decide i principal ruling) =
      search (rises_rules, Rises-get_action, Rises-decide_action)
  Rises-perform (report_executed i result actor) =
      search (rises_rules, Rises-get_action, Rises-mark_executed)
  Rises-perform (append_entry body) = search (rises_rules, Rises-append_event)

  Meets-transition :
      (to : CaseStatus) (actor_type : String) (actor : Records.Actor) (reason : Option String)
      (v : ℕ) (r : Option Value)
      → Meets v (transition env to actor_type actor reason (some v) r)
  unfolding transition
  Meets-transition to actor_type actor reason v r =
      Meets-then v _ _ (Meets-touch env v) (search rises_rules depth 12)

  given_touch : (v : ℕ) (o : Option ℕ) → o ≡ some v → Meets v (touch env o)
  given_touch v o e = subst (λ x. Meets v (touch env x)) (sym e) (Meets-touch env v)

  Meets-decide_action :
      (a : ProposedAction) (p : Principal) (r : Ruling) (v : ℕ)
      → r.expected_version ≡ some v
      → Meets v (decide_action env a p r)
  unfolding decide_action
  Meets-decide_action a p r v e = Meets-since v _ _ (search rises_rules) (
      Meets-since v _ _ (Rises-check_can_decide a p) (
        Meets-then v _ _ (given_touch v r.expected_version e)
          (search (rises_rules, Rises-save_action, Rises-after_decision) depth 16)))

  -- A request that names a version meets it.
  pub Meets-perform : (r : Request) (v : ℕ) → expected_of r ≡ some v → Meets v (perform env r)
  unfolding perform
  Meets-perform (human_transition principal to reason o) v e =
      Meets-since v _ _ (search rises_rules) (
        subst (λ x. Meets v (transition env to "human" (id_text principal.sub) reason x none))
          (sym e) (Meets-transition to "human" (id_text principal.sub) reason v none))
  Meets-perform (decide i principal ruling) v e =
      Meets-later v _ _ (Rises-get_action i)
        (λ a. Meets-then v _ _ (Meets-decide_action a principal ruling v e) (search rises_rules))
  Meets-perform (agent_transition actor to reason o) v e = cc
  Meets-perform (triage_case body) v e = cc
  Meets-perform (note_case principal text) v e = cc
  Meets-perform (assign_case principal assignee) v e = cc
  Meets-perform (take_over principal reason) v e = cc
  Meets-perform (release_case principal) v e = cc
  Meets-perform (propose body) v e = cc
  Meets-perform (report_executed i result actor) v e = cc
  Meets-perform (append_entry body) v e = cc
