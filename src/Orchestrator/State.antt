-- ===== src/Orchestrator/State.antt =====
-- The state that flows through a run, from services/orchestrator/recoup_orchestrator/agents/schemas.py.
-- What only goes into prompts (plan, history, summaries, cost) is left out; of the outputs of the
-- specialists the model keeps what a decision reads.
use recoup.Common.{
  ℕ, ◌*◌, ◌/◌, String, Bool, true, false, ◌&&◌, ◌||◌, Option, none, some, List, filter, any, leb,
  str_eq, ◌==◌, if◌then◌else◌,
}
use recoup.Common.Int.{ℤ, pos, leb_ℤ}
use recoup.Json.{Fields, text, get_field}
use recoup.Gateway.Invoke.{Mode}

-- `NextStep`, with the specialists of it as one constructor.
pub data Specialist : Type 0 where
  triage investigator reconciler negotiator communicator intent : Specialist

pub data NextStep : Type 0 where
  specialist : Specialist → NextStep
  wait_for_customer await_approval resolved escalated : NextStep

abbrev pub specialist_no : Specialist → ℕ
specialist_no triage = 0
specialist_no investigator = 1
specialist_no reconciler = 2
specialist_no negotiator = 3
specialist_no communicator = 4
specialist_no intent = 5

infix 50 ◌same_as◌
abbrev pub ◌same_as◌ : Specialist → Specialist → Bool
a same_as b = specialist_no a == specialist_no b

-- The status of a tracked action: those of the case service and two of the executor.
pub data RefStatus : Type 0 where
  pending approved edited rejected executed denied failed simulated : RefStatus

pub record ProposedActionRef : Type 0 where
  pub action_id : String
  pub action_type : String
  pub status : RefStatus

-- `CustomerIntent.intent`, as far as `_resolution_secured` tells the values apart.
pub data Intent : Type 0 where
  confirms_payment accepts_offer provides_po other_intent : Intent

pub record CaseState : Type 0 where
  pub mode : Mode
  pub step_no : ℕ
  pub max_steps : ℕ
  pub max_tokens : ℕ
  pub tokens : ℕ  -- `tokens_total`
  pub amount_open : Option ℤ  -- of `case`; `none` where it is no number
  pub case_root_cause : Option String
  pub specialist_runs : Specialist → ℕ
  pub signals : List Fields
  pub investigated : Bool
  pub last_intent : Option Intent
  pub actions : List ProposedActionRef
  pub outreach_count : ℕ
  pub waits : ℕ

abbrev pub is_pending : ProposedActionRef → Bool
is_pending a = elim a.status [ pending ↦ true | _ ↦ false ]

abbrev pub is_ready : ProposedActionRef → Bool
is_ready a = elim a.status [ approved ↦ true | edited ↦ true | _ ↦ false ]

abbrev pub is_executed : ProposedActionRef → Bool
is_executed a = elim a.status [ executed ↦ true | _ ↦ false ]

unfoldable pub pending_actions : CaseState → List ProposedActionRef
pending_actions s = filter is_pending s.actions

unfoldable pub approved_unexecuted : CaseState → List ProposedActionRef
approved_unexecuted s = filter is_ready s.actions

-- `executed(action_type)`, as a truth value.
unfoldable pub has_executed : String → CaseState → Bool
has_executed action_type s = any (λ a. is_executed a && str_eq a.action_type action_type) s.actions

abbrev larger : ℕ → ℕ → ℕ
larger a b = if leb a b then b else a

abbrev percent : ℕ → ℕ → ℕ
percent part whole = if whole == 0 then 0 else 100 * part / whole

-- The quotients are exact where the code has floats.
unfoldable pub budget_used_pct : CaseState → ℕ
budget_used_pct s = larger (percent s.step_no s.max_steps) (percent s.tokens s.max_tokens)

abbrev pub has_type : String → Fields → Bool
has_type t signal = elim (get_field "type" signal) [ some (text u) ↦ str_eq u t | _ ↦ false ]

abbrev is_intent : Intent → Option Intent → Bool
is_intent i none = false
is_intent confirms_payment (some confirms_payment) = true
is_intent accepts_offer (some accepts_offer) = true
is_intent provides_po (some provides_po) = true
is_intent _ _ = false

abbrev nothing_open : Option ℤ → Bool
nothing_open none = false
nothing_open (some a) = leb_ℤ a (pos 0)

-- `_resolution_secured` of workflows/activities.py
unfoldable pub resolution_secured : CaseState → Bool
unfolding has_executed
resolution_secured s =
    nothing_open s.amount_open
    || ((is_intent confirms_payment s.last_intent || is_intent accepts_offer s.last_intent)
        || (is_intent provides_po s.last_intent && has_executed "SEND_EMAIL" s))
