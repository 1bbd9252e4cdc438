-- ===== src/Case/Transaction.antt =====
-- One database transaction of the case service around one loaded case, and the helpers `_timeline`,
-- `_emit`, `_touch` and `_set_status` of services/case/recoup_case/service.py. `Database.session`
-- (libs/recoup-common/recoup_common/db.py) rolls back whatever a call did before it raised, so an
-- error carries no session.
use recoup.Common.{
  ℕ, String, Bool, true, false, not, Option, none, some, List, [], ◌∷◌, ◌++◌, ◌==◌, if◌then◌else◌,
}
use recoup.Outbox.{Env, OutboxRow, enqueue_event}
use recoup.Case.Status.{
  CaseStatus, ActionStatus, TransitionError, Verdict, legal, raises, assert_transition, is_terminal,
}
use recoup.Case.Records.{
  Case, Actor, ProposedAction, TimelineEvent, Title, Payload, EventData, EventPayload, moved,
  state_change, state_changed, case_resolved,
}

-- One constructor for each `raise`. `value_error` is Python's own, of a text that is no role.
pub data Error : Type 0 where
  case_not_found action_not_found : Error
  invalid_transition : TransitionError → Error
  stale_version : ℕ → ℕ → Error
  invoice_has_case : String → Error
  duplicate_key : String → Error  -- the database's, of the primary key of `case_invoices`
  closed_case under_human_control not_under_human_control : Error
  not_a_decision human_final_missing : Error
  not_pending not_executable : ActionStatus → Error
  role_too_low : String → Error
  value_error : String → Error

pub data Result (A : Type 0) : Type 0 where
  ok : A → Result A
  err : Error → Result A

-- `dirty` says that the loaded case has changes which no UPDATE has written yet.
pub record Session : Type 0 where
  pub case : Case
  pub dirty : Bool
  pub actions : List ProposedAction
  pub timeline : List TimelineEvent
  pub outbox : List (OutboxRow EventPayload)

abbrev pub Tx : Type 0 → Type 0
Tx A = Session → Result (A × Session)

infixl 5 ◌>>=◌ ◌>>◌
unfoldable pub ◌>>=◌ : {A B : Type 0} → Tx A → (A → Tx B) → Tx B
◌>>=◌ m f s = elim (m s) [ ok p ↦ f p.0 p.1 | err e ↦ err e ]

unfoldable pub ◌>>◌ : {A B : Type 0} → Tx A → Tx B → Tx B
unfolding ◌>>=◌
m >> k = m >>= λ _. k

unfoldable pub pure : {A : Type 0} → A → Tx A
pure a s = ok (a, s)

unfoldable pub raise : {A : Type 0} → Error → Tx A
raise e s = err e

unfoldable pub raise_if : Bool → Error → Tx (Unit {0})
raise_if true e s = err e
raise_if false e s = ok (tt, s)

unfoldable pub when : Bool → Tx (Unit {0}) → Tx (Unit {0})
when true m s = m s
when false m s = ok (tt, s)

unfoldable pub gets : {A : Type 0} → (Session → A) → Tx A
gets f s = ok (f s, s)

-- `none` is raised.
unfoldable pub or_raise : {A : Type 0} → Option A → Error → Tx A
or_raise none e s = err e
or_raise (some a) e s = ok (a, s)

-- A change of the rows of `proposed_actions`.
unfoldable pub modify_actions : (List ProposedAction → List ProposedAction) → Tx (Unit {0})
modify_actions f s = ok (tt, record s { actions = f s.actions })

-- An assignment to attributes of the loaded case.
unfoldable pub modify_case : (Case → Case) → Tx (Unit {0})
modify_case f s = ok (tt, record s { case = f s.case; dirty = true })

unfoldable pub allow_if : Verdict → Tx (Unit {0})
allow_if legal = pure tt
allow_if (raises e) = raise (invalid_transition e)

-- The call of `assert_transition`.
unfoldable pub check_transition : CaseStatus → CaseStatus → Tx (Unit {0})
check_transition src to = allow_if (assert_transition src to)

module _ (env : Env) where
  -- The UPDATE of a changed case, which bumps `version_id_col`.
  unfoldable pub write_case : Tx (Unit {0})
  write_case s = ok (
    tt,
    record s {
      case = record (s.case) { version = env.next_version s.case.version };
      dirty = false;
    },
  )

  -- SQLAlchemy writes the pending changes at `session.flush()`, before a query, and at the commit.
  unfoldable pub flush : Tx (Unit {0})
  flush = do dirty ← gets (λ s. s.dirty); when dirty write_case

  unfoldable pub timeline_event :
      Session → String → String → Actor → Title → Payload → TimelineEvent
  timeline_event s kind actor_type actor_id title payload = record {
    case_id = s.case.id;
    tenant_id = s.case.tenant_id;
    kind = kind;
    actor_type = actor_type;
    actor_id = actor_id;
    title = title;
    payload = payload;
    trace_id = env.trace_id;
    occurred_at = env.now;
  }

  -- `_timeline`
  unfoldable pub add_timeline : String → String → Actor → Title → Payload → Tx TimelineEvent
  add_timeline kind actor_type actor_id title payload s =
      let ev = timeline_event s kind actor_type actor_id title payload in
      ok (ev, record s { timeline = s.timeline ++ (ev ∷ []) })

  -- `_emit`
  unfoldable pub emit : String → EventData → Tx (Unit {0})
  emit event_type event_data s = ok (
    tt,
    record s {
      outbox =
          enqueue_event env "case-service" s.case.tenant_id s.case.id event_type
            (record { case_id = s.case.id; tenant_id = s.case.tenant_id; event_data = event_data })
            s.outbox;
    },
  )

  abbrev pub touched : Case → Case
  touched c = record c { updated_at = env.now }

  -- `_touch`
  unfoldable pub touch : Option ℕ → Tx (Unit {0})
  touch none = modify_case touched
  touch (some expected) = do
    version ← gets (λ s. s.case.version)
    raise_if (not (version == expected)) (stale_version expected version)
    modify_case touched

  unfoldable pub move_to : CaseStatus → Case → Case
  move_to to c =
      if is_terminal to
      then record c { status = to; resolved_at = some env.now }
      else record c { status = to }

  -- `_set_status`
  unfoldable pub set_status : CaseStatus → String → Actor → Option String → Tx (Unit {0})
  set_status to actor_type actor_id reason = do
    src ← gets (λ s. s.case.status)
    check_transition src to
    modify_case (move_to to)
    add_timeline "state_change" actor_type actor_id (moved src to) (state_change src to reason)
    emit "case.state_changed" (state_changed src to reason actor_id)
    when (is_terminal to) (emit "case.resolved" (case_resolved to reason))

-- Runs a transaction on a session.
unfoldable pub run : {A : Type 0} → Tx A → Session → Result (A × Session)
unfolding ◌>>=◌ ◌>>◌ pure raise raise_if when gets or_raise modify_actions modify_case write_case
    flush timeline_event add_timeline emit enqueue_event touch allow_if check_transition move_to
    set_status
run m s = m s
