-- ===== src/Case/Approvals.antt =====
-- Proposals and decisions of services/case/recoup_case/service.py, on every branch.
use recoup.Common.{
  ℕ, String, ◌≡◌, refl, ◌⊎◌, inl, inr, true, false, not, ◌&&◌, Option, none, some, arith, ◌==◌,
  if◌then◌else◌, Option-cases, Bool-cases, ==→eq,
}
use recoup.Json.{Value}
use recoup.Outbox.{Env}
use recoup.Case.Status.{
  CaseStatus, PolicyDecision, allow, require_approval, deny, denied, ActionStatus, pending,
  approved, edited, rejected, pending_approval, action_taken, investigating, is_terminal,
  assert_transition, ◌is◌, ◌is_action◌,
}
use recoup.Case.Records.{ProposedAction, ProposedActionCreate, Principal, Role, role_of, at_least}
use recoup.Case.Transaction.{
  Session, Result, ok, err, Error, closed_case, stale_version, value_error, role_too_low,
  not_executable, run, touch, touched,
}
use recoup.Case.Actions.{
  save_action, propose_action, decide_action, mark_executed, count_pending, put_action, Ruling,
  is_decision, given_text, is_given, check_role, check_can_decide, after_decision, decided_action,
  executed_form,
}

-- The call returns, and its value and session satisfy `P`.
abbrev pub Returns : {A : Type 0} → (A → Session → Type 0) → Result (A × Session) → Type 0
Returns P (ok p) = P p.0 p.1
Returns P (err e) = ⊥

module _ (env : Env) where
  -- What the decision of the policy on a proposal makes of the action and of the case.
  abbrev pub Ruled : PolicyDecision → ActionStatus → CaseStatus → CaseStatus → Type 0
  Ruled allow a before after = (a ≡ approved) × (after ≡ before)
  Ruled require_approval a before after = (a ≡ pending) × (after ≡ pending_approval)
  Ruled deny a before after = (a ≡ denied) × (after ≡ before)

  pub propose_action_closed :
      (p : ProposedActionCreate) (s : Session)
      → is_terminal s.case.status ≡ true
      → propose_action env p s ≡ err closed_case
  unfolding run propose_action
  propose_action_closed p s h = ground arith

  -- Who may decide an action: anybody if no role is required, else somebody with that role or above.
  abbrev pub Authorised : Principal → Option String → Type 0
  Authorised p none = Unit
  Authorised p (some name) = (role : Role) × (role_of name ≡ some role) × (at_least p role ≡ true)

  -- A version that the caller does not give, or gives as it is.
  abbrev pub Fresh : Session → Option ℕ → Type 0
  Fresh s none = Unit
  Fresh s (some v) = s.case.version ≡ v

  -- What a decision needs.
  pub record Decidable (action : ProposedAction) (p : Principal) (r : Ruling) (s : Session)
      : Type 0 where
    pub is_open : action.status ≡ pending
    pub valid : is_decision r.decision ≡ true
    pub authorised : Authorised p (given_text action.required_role)
    pub fresh : Fresh s r.expected_version
    pub complete : (r.decision is_action edited) && not (is_given r.human_final) ≡ false

  -- Where a decision leaves the case.
  abbrev pub status_after : ActionStatus → ℕ → CaseStatus → CaseStatus
  status_after decision still_pending status =
      if still_pending == 0 && status is pending_approval
      then (if not (decision is_action rejected) then action_taken else investigating)
      else status

  check_role-Authorised :
      (p : Principal) (o : Option String) (s : Session)
      → Authorised p o
      → check_role p o s ≡ ok (tt, s)
  unfolding run check_role
  check_role-Authorised p none s h = refl
  check_role-Authorised p (some name) s (role, e, a) = ground arith

  fresh_touch :
      (v : Option ℕ) (s : Session)
      → Fresh s v
      → touch env v s ≡ ok (tt, record s { case = touched env s.case; dirty = true })
  unfolding run
  fresh_touch none s h = refl
  fresh_touch (some v) s h = ground arith

  after_decision_lem :
      (p : Principal) (d : ActionStatus) (s : Session)
      → Returns
          (λ _ t.
            (t.actions ≡ s.actions)
            × (t.case.status ≡ status_after d (count_pending s.case.id s.actions) s.case.status))
          (after_decision env p d s)
  unfolding run after_decision assert_transition
  after_decision_lem p d s = ground arith

  -- A decision that `Decidable` allows never fails: the action gets the decision as its status, who decided
  -- and when, the feedback, and for an edit the edited action, and no other change; no other action changes; and
  -- when no action of the case is pending any more a case that waited for an approval moves on, to
  -- INVESTIGATING after a rejection and to ACTION_TAKEN otherwise.
  pub decide_action_ok :
      (a : ProposedAction) (p : Principal) (r : Ruling) (s : Session)
      → Decidable a p r s
      → Returns
          (λ b t.
            (b ≡ record a {
              status = r.decision;
              decided_by = some p.sub;
              decided_at = some env.now;
              feedback_code = r.feedback_code;
              feedback_note = r.feedback_note;
              human_final = if r.decision is_action edited then r.human_final else a.human_final;
            })
            × (t.actions ≡ put_action b s.actions)
            × (t.case.status
                ≡ status_after r.decision
                    (count_pending s.case.id (put_action b s.actions))
                    s.case.status))
          (decide_action env a p r s)
  unfolding run decide_action check_can_decide after_decision save_action assert_transition
      decided_action
  decide_action_ok a p r s h = ground (
    arith,
    check_role-Authorised p (given_text a.required_role) s h.authorised,
    fresh_touch r.expected_version s h.fresh,
  )

  Authorised-of_role :
      (p : Principal) (name : String) (o : Option Role) (s : Session) {t : Session}
      → role_of name ≡ o
      → check_role p (some name) s ≡ ok (tt, t)
      → Authorised p (some name)
  unfolding run check_role
  Authorised-of_role p name none s e h = ground arith
  Authorised-of_role p name (some role) s e h = (role, e, ground arith)

  Authorised-of_ok :
      (p : Principal) (o : Option String) (s : Session) {t : Session}
      → check_role p o s ≡ ok (tt, t)
      → Authorised p o
  Authorised-of_ok p none s h = tt
  Authorised-of_ok p (some name) s {t} h = Authorised-of_role p name (role_of name) s {t = t} refl h

  check_role-cases :
      (p : Principal) (o : Option String) (s : Session)
      → (check_role p o s ≡ ok (tt, s)) ⊎ ((e : Error) × (check_role p o s ≡ err e))
  unfolding run check_role
  check_role-cases p none s = inl refl
  check_role-cases p (some name) s = elim (Option-cases (role_of name)) [
    | inl n ↦ inr (value_error name, ground arith)
    | inr (role, e) ↦ elim (Bool-cases (at_least p role)) [
      | inl y ↦ inl (ground arith)
      | inr n ↦ inr (role_too_low name, ground arith)
    ]
  ]

  touch-cases : (v : Option ℕ) (s : Session) → Fresh s v ⊎ ((e : Error) × (touch env v s ≡ err e))
  unfolding run
  touch-cases none s = inl tt
  touch-cases (some v) s = elim (Bool-cases (s.case.version == v)) [
    | inl y ↦ inl (==→eq _ _ y)
    | inr n ↦ inr (stale_version v s.case.version, ground arith)
  ]

  -- A decision is accepted only where `Decidable` allows it: the action is pending, the decision is
  -- one of the three, the principal has the role that the action requires, the version that the
  -- caller has seen is the current one, and an edit brings the edited action.
  pub decide_action_needs :
      (a : ProposedAction) (p : Principal) (r : Ruling) (s : Session) {b : ProposedAction}
      {t : Session}
      → decide_action env a p r s ≡ ok (b, t)
      → Decidable a p r s
  unfolding run decide_action check_can_decide
  decide_action_needs a p r s h = elim (check_role-cases p (given_text a.required_role) s) [
    | inl y ↦ record {
      is_open = ground arith;
      valid = ground arith;
      authorised = Authorised-of_ok p _ s y;
      fresh = elim (touch-cases r.expected_version s) [
        | inl f ↦ f
        | inr (e, n) ↦ absurd (ground arith)
      ];
      complete = ground arith;
    }
    | inr (e, n) ↦ absurd (ground arith)
  ]

  pub mark_executed_needs :
      (a : ProposedAction) (v : Value) (actor : String) (s : Session) {b : ProposedAction}
      {t : Session}
      → mark_executed env a v actor s ≡ ok (b, t)
      → (a.status ≡ approved) ⊎ (a.status ≡ edited)
  unfolding run mark_executed
  mark_executed_needs a v actor s h = ground arith

  -- An action that was marked as executed is not marked again, with any result, by anybody and in any
  -- later session: the call fails with the status of the action.
  mark_executed_once :
      (a : ProposedAction) (v : Value) (actor : String) (s : Session) {b : ProposedAction}
      {t : Session}
      → mark_executed env a v actor s ≡ ok (b, t)
      → (v' : Value) (actor' : String) (s' : Session)
      → mark_executed env b v' actor' s' ≡ err (not_executable b.status)
  unfolding run mark_executed executed_form
  mark_executed_once a v actor s h v' actor' s' = ground arith
