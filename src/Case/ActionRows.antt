-- ===== src/Case/ActionRows.antt =====
-- What the status of a proposed action says about its past (ProposedAction of
-- services/case/recoup_case/models.py), and what a write of a row keeps.
use recoup.Common.{
  ℕ, String, ◌≡◌, refl, ◌⊎◌, inl, inr, Bool, true, false, ◌||◌, Option, none, some, List, [], ◌∷◌,
  ◌++◌, ==→eq, arith, ◌==◌, is_some, find, All, Bool-cases, Option-cases,
}
use recoup.Json.{Value}
use recoup.Outbox.{Env}
use recoup.Case.Status.{
  pending, approved, edited, rejected, executed, auto_executed, denied, allow, deny, ◌is_action◌,
}
use recoup.Case.Records.{Case, ProposedAction, ProposedActionCreate, Principal}
use recoup.Case.Transaction.{Session, ok, err, Error, action_not_found, run}
use recoup.Case.Actions.{
  new_action, put_action, Ruling, decided_action, executed_form, is_decision, get_action,
  check_role,
}
use recoup.Case.Keeps.{Keeps, keeps_rules}

-- The history that a status stands for.
pub record Sound (a : ProposedAction) : Type 0 where
  pub denied_by_policy : a.policy_decision ≡ deny → a.status ≡ denied
  pub ruled_by_human :
      (a.status ≡ edited) ⊎ (a.status ≡ rejected) ⊎ (a.status ≡ executed)
      → is_some a.decided_by ≡ true
  pub approved_by :
      a.status ≡ approved → (a.policy_decision ≡ allow) ⊎ (is_some a.decided_by ≡ true)
  pub automatic :
      a.status ≡ auto_executed → (a.policy_decision ≡ allow) × (is_some a.decided_by ≡ false)
  pub run_once :
      is_some a.executed_at ≡ ((a.status is_action executed) || (a.status is_action auto_executed))

pub new_action-Sound :
    (env : Env) (c : Case) (p : ProposedActionCreate) (rows : List ProposedAction)
    → Sound (new_action env c p rows)
unfolding new_action
new_action-Sound env c p rows = ground arith

pub decided_action-Sound :
    (env : Env) (a : ProposedAction) (p : Principal) (r : Ruling)
    → Sound a
    → a.status ≡ pending
    → is_decision r.decision ≡ true
    → Sound (decided_action env a p r)
unfolding decided_action
decided_action-Sound env a p r h o d = ground arith

pub executed_form-Sound :
    (env : Env) (a : ProposedAction) (v : Value)
    → Sound a
    → (a.status ≡ approved) ⊎ (a.status ≡ edited)
    → Sound (executed_form env a v)
unfolding executed_form
executed_form-Sound env a v h o = ground arith

pub All-put_action :
    (a : ProposedAction) (rows : List ProposedAction)
    → Sound a
    → All Sound rows
    → All Sound (put_action a rows)
All-put_action a [] h k = tt
All-put_action a (b ∷ rows) h k = ground (arith, All-put_action a rows h k.1)

pub All-append :
    (rows : List ProposedAction) (a : ProposedAction)
    → All Sound rows
    → Sound a
    → All Sound (rows ++ (a ∷ []))
All-append [] a k h = (h, tt)
All-append (b ∷ rows) a k h = (k.0, All-append rows a k.1 h)

pub All-find :
    (p : ProposedAction → Bool) (rows : List ProposedAction) {a : ProposedAction}
    → All Sound rows
    → find p rows ≡ some a
    → Sound a
All-find p [] k e = cc
All-find p (b ∷ rows) {a} k e = ground (arith, All-find p rows {a = a} k.1)

abbrev pub AllSound : List ProposedAction → Type 0
AllSound = All Sound

-- The row of an id, as `get_action` finds it.
unfoldable pub row_of : ℕ → List ProposedAction → Option ProposedAction
row_of i rows = find (λ x. x.id == i) rows

pub row_of-id :
    (i : ℕ) (rows : List ProposedAction) {a : ProposedAction} → row_of i rows ≡ some a → a.id ≡ i
unfolding row_of
row_of-id i [] h = cc
row_of-id i (b ∷ rows) {a} h = ground (arith, row_of-id i rows {a = a})

pub row_of-put_action :
    (i : ℕ) (a : ProposedAction) (rows : List ProposedAction)
    → (a.id == i) ≡ false
    → row_of i (put_action a rows) ≡ row_of i rows
unfolding row_of
row_of-put_action i a [] n = refl
row_of-put_action i a (b ∷ rows) n = ground (arith, row_of-put_action i a rows n)

pub row_of-append :
    (i : ℕ) (rows more : List ProposedAction) {a : ProposedAction}
    → row_of i rows ≡ some a
    → row_of i (rows ++ more) ≡ some a
unfolding row_of
row_of-append i [] more h = cc
row_of-append i (b ∷ rows) more {a} h = ground (arith, row_of-append i rows more {a = a})

-- The rows that satisfy `fixed` are found as they were.
abbrev pub Frozen : (ProposedAction → Bool) → List ProposedAction → List ProposedAction → Type 0
Frozen fixed before after =
    (i : ℕ) (a : ProposedAction)
    → row_of i before ≡ some a
    → fixed a ≡ true
    → row_of i after ≡ some a

pub Keeps-check_role :
    {P : List ProposedAction → Type 0} (p : Principal) (o : Option String)
    → Keeps P (check_role p o)
unfolding check_role
Keeps-check_role p none = search keeps_rules
Keeps-check_role p (some name) = search keeps_rules

-- An action that may be written: it is pending, or it waits for its execution.
abbrev pub is_open : ProposedAction → Bool
is_open a = a.status is_action pending || (a.status is_action approved || a.status is_action edited)

abbrev pub executed_before : ProposedAction → Bool
executed_before a = is_some a.executed_at

pub open_not_executed :
    (a : ProposedAction) → Sound a → is_open a ≡ true → executed_before a ≡ false
open_not_executed a h o = ground (arith, h.run_once)

pub get_action-cases :
    (i : ℕ) (s : Session)
    → ((a : ProposedAction) × (get_action i s ≡ ok (a, s))
        × (a.case_id ≡ s.case.id)
        × (row_of i s.actions ≡ some a))
      ⊎ ((e : Error) × (get_action i s ≡ err e))
unfolding run get_action row_of
get_action-cases i s = elim (Option-cases (find (λ x. x.id == i) s.actions)) [
  | inl n ↦ inr (action_not_found, ground arith)
  | inr (a, e) ↦ elim (Bool-cases (a.case_id == s.case.id)) [
    | inl y ↦ inl (a, ground arith, ==→eq _ _ y, e)
    | inr n ↦ inr (action_not_found, ground arith)
  ]
]
