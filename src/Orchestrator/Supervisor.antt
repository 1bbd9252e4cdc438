-- ===== src/Orchestrator/Supervisor.antt =====
-- The guardrails of `supervisor_step` of services/orchestrator/recoup_orchestrator/workflows/activities.py:
-- what the run does next, whatever the model decided. All five specialists are available, so that the
-- first guardrail never applies.
use recoup.Common.{
  ℕ, ◌+◌, ◌≡◌, String, Bool, true, false, not, ◌&&◌, ◌||◌, Option, none, some, List, [], ◌∷◌, leb,
  if◌then◌else◌, is_some, arith, ltb,
}
use recoup.Gateway.Registry.{given}
use recoup.Orchestrator.State.{
  reconciler, negotiator, NextStep, specialist, wait_for_customer, await_approval, resolved,
  escalated, CaseState, pending_actions, has_executed, budget_used_pct, resolution_secured,
}

-- What the model answers, and the tokens that it took.
pub record SupervisorDecision : Type 0 where
  pub next : NextStep
  pub reasoning_summary : String
  pub escalation_reason : Option String
  pub wait_timeout_hours : Option ℕ
  pub tokens : ℕ

-- Why the run does what it does.
pub data Reason : Type 0 where
  no_reason loop_detected approval_pending not_secured needs_investigation never_emailed
        budget_exceeded :
      Reason
  given_by_model : String → Reason

pub record Effective : Type 0 where
  pub next : NextStep
  pub reason : Reason

abbrev pub is_nonempty_list {ℓ} : {A : Type ℓ} → List A → Bool
is_nonempty_list [] = false
is_nonempty_list (x ∷ xs) = true

-- `nxt in SPECIALISTS and specialist_runs.get(nxt, 0) >= 3`
abbrev pub has_looped : CaseState → NextStep → Bool
has_looped s (specialist p) = leb 3 (s.specialist_runs p)
has_looped s _ = false

abbrev pub may_wait : NextStep → Bool
may_wait await_approval = true
may_wait escalated = true
may_wait _ = false

abbrev pub is_resolved : NextStep → Bool
is_resolved resolved = true
is_resolved _ = false

abbrev pub is_customer_wait : NextStep → Bool
is_customer_wait wait_for_customer = true
is_customer_wait _ = false

abbrev pub needs_cause : NextStep → Bool
needs_cause (specialist reconciler) = true
needs_cause (specialist negotiator) = true
needs_cause _ = false

abbrev pub ends : NextStep → Bool
ends resolved = true
ends escalated = true
ends _ = false

abbrev own_reason : SupervisorDecision → Reason
own_reason d = elim (given d.escalation_reason) [
  | some r ↦ given_by_model r
  | none ↦ if is_resolved d.next then given_by_model d.reasoning_summary else no_reason
]

-- The chain of guardrails before the one on the budget.
unfoldable pub redirect : CaseState → SupervisorDecision → Effective
redirect s d =
    if has_looped s d.next
    then record { next = escalated; reason = loop_detected }
    else if is_nonempty_list (pending_actions s) && not (may_wait d.next)
    then record { next = await_approval; reason = approval_pending }
    else if is_resolved d.next && not (resolution_secured s)
    then record { next = escalated; reason = not_secured }
    else if needs_cause d.next && (not s.investigated && not (is_some (given s.case_root_cause)))
    then record { next = escalated; reason = needs_investigation }
    else if is_customer_wait d.next && not (has_executed "SEND_EMAIL" s)
    then record { next = escalated; reason = never_emailed }
    else record { next = d.next; reason = own_reason d }

unfoldable pub effective : CaseState → SupervisorDecision → Effective
unfolding redirect
effective s d =
    let e = redirect s d in
    if leb 100 (budget_used_pct s) && not (ends e.next)
    then record { next = escalated; reason = budget_exceeded }
    else e

-- The state that the guardrails see: the step and its tokens are counted.
unfoldable pub after_supervisor : CaseState → SupervisorDecision → CaseState
after_supervisor s d = record s { step_no = s.step_no + 1; tokens = s.tokens + d.tokens }

-- What a step that the guardrails let through can rely on.
pub record Guarded (s : CaseState) (n : NextStep) : Type 0 where
  pub secured : (not (is_resolved n) || resolution_secured s) ≡ true
  pub decided : (may_wait n || not (is_nonempty_list (pending_actions s))) ≡ true
  pub not_looping : has_looped s n ≡ false
  pub has_cause :
      (not (needs_cause n) || (s.investigated || is_some (given s.case_root_cause))) ≡ true
  pub emailed : (not (is_customer_wait n) || has_executed "SEND_EMAIL" s) ≡ true
  pub in_budget : (ends n || ltb (budget_used_pct s) 100) ≡ true

-- The guardrails without the one on the budget.
record Steered (s : CaseState) (n : NextStep) : Type 0 where
  secured : (not (is_resolved n) || resolution_secured s) ≡ true
  decided : (may_wait n || not (is_nonempty_list (pending_actions s))) ≡ true
  not_looping : has_looped s n ≡ false
  has_cause : (not (needs_cause n) || (s.investigated || is_some (given s.case_root_cause))) ≡ true
  emailed : (not (is_customer_wait n) || has_executed "SEND_EMAIL" s) ≡ true

redirect-Steered : (s : CaseState) (d : SupervisorDecision) → Steered s (redirect s d).next
unfolding redirect
redirect-Steered s d = record {
  secured = ground arith;
  decided = ground arith;
  not_looping = ground arith;
  has_cause = ground arith;
  emailed = ground arith;
}

-- Whatever the model decides, the run resolves the case only where the resolution is secured, goes on
-- with a proposal undecided only to wait for its approval or to escalate, runs no specialist a fourth
-- time, runs the Reconciler or the Negotiator only with a cause found, waits for a customer only after an
-- email was sent, and with its budget used up only ends.
pub effective-Guarded : (s : CaseState) (d : SupervisorDecision) → Guarded s (effective s d).next
unfolding effective
effective-Guarded s d =
    let steered = redirect-Steered s d in
    record {
      secured = ground (arith, steered.secured);
      decided = ground (arith, steered.decided);
      not_looping = ground (arith, steered.not_looping);
      has_cause = ground (arith, steered.has_cause);
      emailed = ground (arith, steered.emailed);
      in_budget = ground arith;
    }
