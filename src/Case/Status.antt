-- ===== src/Case/Status.antt =====
-- services/case/recoup_case/state_machine.py: the statuses of a case and of a proposed action, and
-- the table of the transitions. A frozenset is the list of its members; a `StrEnum` is a data type,
-- and two of its members are compared by their position in the source.
use recoup.Common.{
  ℕ, ◌≡◌, arith, Bool, true, not, List, [], ◌∷◌, ◌++◌, ◌==◌, if◌then◌else◌, filter, any,
}

pub data CaseStatus : Type 0 where
  new triaged investigating awaiting_customer negotiating pending_approval action_taken : CaseStatus
  resolved escalated written_off : CaseStatus

abbrev pub case_status_code : CaseStatus → ℕ
case_status_code new = 0
case_status_code triaged = 1
case_status_code investigating = 2
case_status_code awaiting_customer = 3
case_status_code negotiating = 4
case_status_code pending_approval = 5
case_status_code action_taken = 6
case_status_code resolved = 7
case_status_code escalated = 8
case_status_code written_off = 9

infix 50 ◌is◌
-- `a == b` on statuses of a case.
abbrev pub ◌is◌ : CaseStatus → CaseStatus → Bool
a is b = case_status_code a == case_status_code b

pub is→eq : (a b : CaseStatus) → (a is b) ≡ true → a ≡ b
is→eq a b h = ground arith

-- `s in set`
abbrev pub is_member : CaseStatus → List CaseStatus → Bool
is_member s = any (λ x. s is x)

-- `xs - ys` on sets
abbrev minus : List CaseStatus → List CaseStatus → List CaseStatus
minus xs ys = filter (λ x. not (is_member x ys)) xs

unfoldable pub terminal : List CaseStatus
terminal = resolved ∷ written_off ∷ []

active_targets : List CaseStatus
active_targets =
    investigating ∷ awaiting_customer ∷ negotiating ∷ pending_approval ∷ escalated ∷ resolved ∷ []

-- `TRANSITIONS[src]`
unfoldable pub transitions : CaseStatus → List CaseStatus
unfolding active_targets
transitions new = triaged ∷ pending_approval ∷ escalated ∷ resolved ∷ written_off ∷ []
transitions triaged = active_targets ++ (written_off ∷ [])
transitions investigating =
    minus active_targets (investigating ∷ []) ++ (triaged ∷ written_off ∷ [])
transitions awaiting_customer = minus active_targets (awaiting_customer ∷ []) ++ (written_off ∷ [])
transitions negotiating = minus active_targets (negotiating ∷ []) ++ (written_off ∷ [])
transitions pending_approval =
    action_taken ∷ investigating ∷ negotiating ∷ escalated ∷ resolved ∷ written_off ∷ []
transitions action_taken = minus active_targets (escalated ∷ []) ++ (escalated ∷ written_off ∷ [])
transitions escalated =
    investigating ∷ negotiating ∷ pending_approval ∷ awaiting_customer ∷ resolved ∷ written_off ∷ []
transitions resolved = []
transitions written_off = []

unfoldable pub can_transition : CaseStatus → CaseStatus → Bool
unfolding transitions
can_transition src dst = is_member dst (transitions src)

-- What `assert_transition` raises, with the two statuses that the message names.
pub data TransitionError : Type 0 where
  already : CaseStatus → TransitionError
  illegal : CaseStatus → CaseStatus → TransitionError

pub data Verdict : Type 0 where
  legal : Verdict
  raises : TransitionError → Verdict

unfoldable pub assert_transition : CaseStatus → CaseStatus → Verdict
unfolding can_transition
assert_transition src dst =
    if src is dst
    then raises (already src)
    else if not (can_transition src dst)
    then raises (illegal src dst)
    else legal

unfoldable pub is_terminal : CaseStatus → Bool
unfolding terminal
is_terminal status = is_member status terminal

pub data ActionStatus : Type 0 where
  pending approved edited rejected executed auto_executed denied : ActionStatus

abbrev pub action_status_code : ActionStatus → ℕ
action_status_code pending = 0
action_status_code approved = 1
action_status_code edited = 2
action_status_code rejected = 3
action_status_code executed = 4
action_status_code auto_executed = 5
action_status_code denied = 6

infix 50 ◌is_action◌
-- `a == b` on statuses of an action.
abbrev pub ◌is_action◌ : ActionStatus → ActionStatus → Bool
a is_action b = action_status_code a == action_status_code b

pub data ActionType : Type 0 where
  send_email create_credit_memo payment_plan rebill escalate close : ActionType

pub data PolicyDecision : Type 0 where
  allow require_approval deny : PolicyDecision

pub data AgentMode : Type 0 where
  autonomous human_control : AgentMode
