-- ===== src/Tests/Actions.antt =====
-- The theorems on proposed actions, at concrete inputs.
use recoup.Common.{◌≡◌, refl, none, some, [], ◌∷◌, arith}
use recoup.Case.Status.{pending_approval, pending, approved, is_terminal, assert_transition}
use recoup.Case.Records.{ProposedAction, manager, role_of, at_least}
use recoup.Case.Transaction.{run, Result, ok, err, Session}
use recoup.Case.Requests.{Request, decide, perform}
use recoup.Case.Actions.{
  Ruling, decide_action, decided_action, put_action, count_pending, check_role, check_can_decide,
  after_decision, get_action, save_action,
}
use recoup.Case.Approvals.{Returns, Decidable, status_after, decide_action_ok, decide_action_needs}
use recoup.Case.ActionRows.{Sound, AllSound, Frozen, executed_before}
use recoup.Case.ActionHistory.{perform-AllSound}
use recoup.Tests.CaseData.{env, boss, action_in, session, left_by}

abbrev waiting : Session
waiting = session pending_approval (action_in pending ∷ [])

abbrev approval : Ruling
approval = record {
  decision = approved;
  human_final = none;
  feedback_code = none;
  feedback_note = none;
  expected_version = some 3;
}

abbrev approve : Request
approve = decide 4 boss approval

abbrev given : ProposedAction → Result (ProposedAction × Session) → ProposedAction
given a (ok p) = p.0
given a (err e) = a

pending-Sound : Sound (action_in pending)
pending-Sound = ground arith

perform-AllSound_example :
    AllSound (left_by waiting (perform env approve waiting)).actions
    × Frozen executed_before waiting.actions (left_by waiting (perform env approve waiting)).actions
unfolding run perform get_action decide_action check_can_decide check_role after_decision
    assert_transition is_terminal role_of at_least save_action decided_action count_pending
perform-AllSound_example =
    perform-AllSound env approve waiting {t = left_by waiting (perform env approve waiting)}
      (pending-Sound, tt) refl

approval-Decidable : Decidable env (action_in pending) boss approval waiting
unfolding role_of at_least
approval-Decidable = record {
  is_open = refl;
  valid = refl;
  authorised = (manager, refl, refl);
  fresh = refl;
  complete = refl;
}

decide_action_needs_example : Decidable env (action_in pending) boss approval waiting
unfolding run decide_action check_can_decide check_role after_decision assert_transition is_terminal
    role_of at_least save_action decided_action count_pending
decide_action_needs_example =
    decide_action_needs env (action_in pending) boss approval waiting
      {b = decided_action env (action_in pending) boss approval}
      {t = left_by waiting (decide_action env (action_in pending) boss approval waiting)} refl

decide_action_ok_example :
    Returns
      (λ b t.
        (b ≡ record (action_in pending) {
          status = approved;
          decided_by = some 9;
          decided_at = some env.now;
          feedback_code = none;
          feedback_note = none;
          human_final = none;
        })
        × (t.actions ≡ put_action b (action_in pending ∷ []))
        × (t.case.status
            ≡ status_after env approved
                (count_pending 1 (put_action b (action_in pending ∷ [])))
                pending_approval))
      (decide_action env (action_in pending) boss approval waiting)
decide_action_ok_example =
    decide_action_ok env (action_in pending) boss approval waiting approval-Decidable
