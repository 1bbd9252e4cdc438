-- ===== src/Case/Lifecycle.antt =====
-- What the transition table of services/case/recoup_case/state_machine.py allows a case to live
-- through.
use recoup.Common.{◌≡◌, refl, ◌≢◌, ◌↔◌, ◌⊎◌, inl, inr, Bool, true, false, ◌||◌, arith, Bool-cases}
use recoup.Case.Status.{
  CaseStatus, new, pending_approval, action_taken, resolved, escalated, written_off,
  assert_transition, is_terminal, legal, ◌is◌, is→eq,
}

-- One accepted change of status, and a run of them.
pub data ◌⟶◌ : CaseStatus → CaseStatus → Type 0 where
  step : {src dst : CaseStatus} → assert_transition src dst ≡ legal → src ⟶ dst

infix 40 ◌⟶◌ ◌⟶*◌
pub data ◌⟶*◌ : CaseStatus → CaseStatus → Type 0 where
  here : {s : CaseStatus} → s ⟶* s
  after : {s t u : CaseStatus} → s ⟶ t → t ⟶* u → s ⟶* u

legal_of_open :
    (s : CaseStatus)
    → is_terminal s ≡ false
    → (assert_transition s resolved ≡ legal) × (assert_transition s written_off ≡ legal)
unfolding is_terminal assert_transition
legal_of_open new h = (refl, refl)
legal_of_open resolved h = cc
legal_of_open written_off h = cc
legal_of_open _ h = (refl, refl)

illegal_of_terminal : (s dst : CaseStatus) → is_terminal s ≡ true → assert_transition s dst ≢ legal
unfolding is_terminal assert_transition
illegal_of_terminal resolved dst h = ground arith
illegal_of_terminal written_off dst h = ground arith
illegal_of_terminal _ dst h = cc

-- The terminal statuses are exactly those in which a case is stuck: no transition leaves RESOLVED or
-- WRITTEN_OFF, and every other status has a legal transition.
pub is_terminal_iff_stuck :
    (s : CaseStatus)
    → (is_terminal s ≡ true) ↔ ((dst : CaseStatus) → assert_transition s dst ≢ legal)
is_terminal_iff_stuck s = (
  λ t dst. illegal_of_terminal s dst t,
  λ stuck. elim (Bool-cases (is_terminal s)) [
    | inl t ↦ t
    | inr f ↦ absurd (stuck resolved (legal_of_open s f).0)
  ],
)

-- A case that is not closed can be closed at once: RESOLVED and WRITTEN_OFF are both one legal
-- transition away, and so is ESCALATED unless the case is there already.
pub open_can_close :
    (s : CaseStatus)
    → is_terminal s ≡ false
    → (assert_transition s resolved ≡ legal)
      × (assert_transition s written_off ≡ legal)
      × ((s ≡ escalated) ⊎ (assert_transition s escalated ≡ legal))
unfolding is_terminal assert_transition
open_can_close new h = (refl, refl, inr refl)
open_can_close escalated h = (refl, refl, inl refl)
open_can_close resolved h = cc
open_can_close written_off h = cc
open_can_close _ h = (refl, refl, inr refl)

before_action_taken :
    (src dst : CaseStatus)
    → assert_transition src dst ≡ legal
    → dst ≡ action_taken
    → src ≡ pending_approval
unfolding assert_transition
before_action_taken src dst h e = ground arith

-- Once a case is closed it stays as it is: whatever run of transitions is accepted afterwards ends
-- in the status that it began with.
pub closed_is_final : {s t : CaseStatus} → is_terminal s ≡ true → s ⟶* t → t ≡ s
closed_is_final h here = refl
closed_is_final {s} h (after (step {dst = u} l) r) = absurd (illegal_of_terminal s u h l)

-- The run goes through a status.
unfoldable pub visits : {s t : CaseStatus} → CaseStatus → s ⟶* t → Bool
visits p (here {s = s}) = s is p
visits p (after {s = s} x r) = s is p || visits p r

starts_run : {s t : CaseStatus} (p : CaseStatus) (r : s ⟶* t) → (s is p) ≡ true → visits p r ≡ true
unfolding visits
starts_run p here h = h
starts_run p (after x r) h = ground (arith, h)

-- ACTION_TAKEN is entered from PENDING_APPROVAL only: every run that ends there and did not begin there
-- goes through PENDING_APPROVAL.
pub action_taken_needs_approval :
    {s t : CaseStatus} (r : s ⟶* t)
    → t ≡ action_taken
    → s ≢ action_taken
    → visits pending_approval r ≡ true
unfolding visits
action_taken_needs_approval here e n = absurd (n e)
action_taken_needs_approval (after {t = u} (step {src = s} l) r) e n =
    elim (Bool-cases (u is action_taken)) [
      | inl y ↦
          let from = before_action_taken s u l (is→eq u action_taken y) in
          starts_run pending_approval (after (step l) r) (rw from refl)
      | inr other ↦ let later = action_taken_needs_approval r e (λ q. cc) in ground (arith, later)
    ]
