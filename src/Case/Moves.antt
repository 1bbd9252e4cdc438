-- ===== src/Case/Moves.antt =====
-- `_set_status` of services/case/recoup_case/service.py: where it ends, and that the timeline and the
-- outbox tell the change.
use recoup.Common.{
  String, ◌≡◌, refl, sym, subst, true, Option, [], ◌∷◌, ◌++◌, arith, if◌then◌else◌, append_assoc,
}
use recoup.Outbox.{Env, enqueue_event}
use recoup.Case.Status.{
  CaseStatus, TransitionError, assert_transition, legal, raises, Verdict, is_terminal,
}
use recoup.Case.Records
use recoup.Case.Records.{Case, Actor, TimelineEvent, Title, Payload, EventData, EventPayload}
use recoup.Case.Lifecycle.{◌⟶*◌, step, here, after}
use recoup.Case.Transaction.{
  Session, ok, err, move_to, set_status, invalid_transition, run, timeline_event,
}
use recoup.Case.Trace.{Traces, replay_timeline, replay_outbox}
use recoup.Case.Traced.{Traced, Leaves, event_row}

module _ (env : Env) where
  -- Where `_set_status` ends when the transition is legal.
  unfoldable pub moved_session : CaseStatus → String → Actor → Option String → Session → Session
  unfolding run
  moved_session to actor_type actor reason s =
      let src = s.case.status in
      let rows =
        enqueue_event env "case-service" s.case.tenant_id s.case.id "case.state_changed"
          (record {
            case_id = s.case.id;
            tenant_id = s.case.tenant_id;
            event_data = Records.state_changed src to reason actor;
          })
          s.outbox in
      record s {
        case = move_to env to s.case;
        dirty = true;
        timeline =
            s.timeline
            ++ (timeline_event env s "state_change" actor_type actor (Records.moved src to)
                  (Records.state_change src to reason)
                ∷ []);
        outbox =
            if is_terminal to
            then enqueue_event env "case-service" s.case.tenant_id s.case.id "case.resolved"
                (record {
                  case_id = s.case.id;
                  tenant_id = s.case.tenant_id;
                  event_data = Records.case_resolved to reason;
                })
                rows
            else rows;
      }

  pub set_status-legal :
      (to : CaseStatus) (actor_type : String) (actor : Actor) (reason : Option String) (s : Session)
      → assert_transition s.case.status to ≡ legal
      → set_status env to actor_type actor reason s
        ≡ ok (tt, moved_session to actor_type actor reason s)
  unfolding run moved_session
  set_status-legal to actor_type actor reason s h = ground arith

  pub set_status-raises :
      (to : CaseStatus) (actor_type : String) (actor : Actor) (reason : Option String) (s : Session)
      {e : TransitionError}
      → assert_transition s.case.status to ≡ raises e
      → set_status env to actor_type actor reason s ≡ err (invalid_transition e)
  unfolding run
  set_status-raises to actor_type actor reason s h = ground arith

  move_to-status : (to : CaseStatus) (c : Case) → (move_to env to c).status ≡ to
  unfolding run
  move_to-status to c = ground arith

  moved_session-Traces :
      (to : CaseStatus) (actor_type : String) (actor : Actor) (reason : Option String) (s : Session)
      → assert_transition s.case.status to ≡ legal
      → Traces s (moved_session to actor_type actor reason s)
  unfolding run moved_session replay_timeline replay_outbox
  moved_session-Traces to actor_type actor reason s h = record {
    entries =
        timeline_event env s "state_change" actor_type actor (Records.moved s.case.status to)
          (Records.state_change s.case.status to reason)
        ∷ [];
    rows =
        event_row env s s.outbox "case.state_changed"
          (Records.state_changed s.case.status to reason actor)
        ∷ (if is_terminal to
            then event_row env s
                (s.outbox
                  ++ (event_row env s s.outbox "case.state_changed"
                        (Records.state_changed s.case.status to reason actor)
                      ∷ []))
                "case.resolved" (Records.case_resolved to reason)
              ∷ []
            else []);
    timeline_grows = refl;
    outbox_grows = ground (
      arith,
      append_assoc s.outbox
          (event_row env s s.outbox "case.state_changed"
              (Records.state_changed s.case.status to reason actor)
            ∷ [])
          (event_row env s
              (s.outbox
                ++ (event_row env s s.outbox "case.state_changed"
                      (Records.state_changed s.case.status to reason actor)
                    ∷ []))
              "case.resolved" (Records.case_resolved to reason)
            ∷ []),
    );
    timeline_tells = ground arith;
    outbox_tells = ground arith;
    moves = subst (λ x. s.case.status ⟶* x) (sym (move_to-status to s.case)) (after (step h) here);
    same_case = ground arith;
    same_tenant = ground arith;
  }

  verdict-Leaves :
      (to : CaseStatus) (actor_type : String) (actor : Actor) (reason : Option String) (s : Session)
      (v : Verdict)
      → assert_transition s.case.status to ≡ v
      → Leaves s (set_status env to actor_type actor reason s)
  verdict-Leaves to actor_type actor reason s legal h =
      rw (set_status-legal to actor_type actor reason s h)
        (moved_session-Traces to actor_type actor reason s h)
  verdict-Leaves to actor_type actor reason s (raises e) h =
      rw (set_status-raises to actor_type actor reason s h) tt

  pub Traced-set_status :
      (to : CaseStatus) (actor_type : String) (actor : Actor) (reason : Option String)
      → Traced (set_status env to actor_type actor reason)
  Traced-set_status to actor_type actor reason = record {
    at = λ s. verdict-Leaves to actor_type actor reason s (assert_transition s.case.status to) refl;
  }
