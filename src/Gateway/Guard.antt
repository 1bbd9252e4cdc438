-- ===== src/Gateway/Guard.antt =====
-- When the handler of a tool runs (services/tool-gateway/recoup_tool_gateway/service.py).
use recoup.Common.{
  ◌≡◌, refl, sym, subst, String, Bool, true, false, not, ◌&&◌, ◌||◌, Option, none, some, List, [],
  ◌∷◌, str_eq, is_some, arith, all, all-append, all-find, ◌⊎◌, inl, inr, Bool-cases,
}
use recoup.Json.{Fields, merge, is_nonempty}
use recoup.Case.Status.{approved, edited, ◌is_action◌}
use recoup.Policy.Engine.{allow, require_approval, deny}
use recoup.Gateway.Registry.{
  ToolSpec, given, is_low_risk, register, register_all, get_tool, RegisterError, tools_now, refused,
}
use recoup.Gateway.Invoke.{
  InvokeRequest, ActionRow, Answers, is_live, is_propose, same_type, check_action, gate, passes,
  blocks, Gate, after_gate, call, admitted, invoke, on_args, simulate, revalidated, merged,
  executed, Handled, raised, returned, found_action,
}

-- An action that is approved or edited, of the type that the tool executes, and not executed before.
abbrev pub is_approval : ToolSpec → ActionRow → Bool
is_approval spec a =
    (a.status is_action approved || a.status is_action edited)
    && (same_type spec.action_type a.action_type && not (is_some a.executed_at))

abbrev pub has_approval : ToolSpec → Option ActionRow → Bool
has_approval spec none = false
has_approval spec (some a) = is_approval spec a

-- The policy allows the arguments, or requires an approval that the request names.
abbrev pub is_cleared : ToolSpec → InvokeRequest → Answers → Fields → Bool
is_cleared spec req w args = elim (w.decision args) [
  | none ↦ false
  | some allow ↦ true
  | some deny ↦ false
  | some require_approval ↦ is_some (given req.approval_ref) && has_approval spec w.action
]

check_action_passes :
    (spec : ToolSpec) (w : Answers) (args : Fields) (a : ActionRow) {args' : Fields}
    → check_action spec w args a ≡ passes args'
    → is_approval spec a ≡ true
unfolding check_action
check_action_passes spec w args a h = ground arith

gate_passes :
    (spec : ToolSpec) (req : InvokeRequest) (w : Answers) (args : Fields) {args' : Fields}
    → gate spec req w args ≡ passes args'
    → (is_propose spec || is_cleared spec req w args) ≡ true
unfolding gate
gate_passes spec req w args h = ground arith

-- The arguments that ran are the validated ones of the request, or those merged with the edit of the EDITED
-- action and validated again.
abbrev pub IsValidated : Answers → Fields → Fields → Type 0
IsValidated w args ran =
    (ran ≡ args)
    ⊎ ((a : ActionRow) × (final : Fields) × (w.action ≡ some a)
        × ((a.status is_action edited) ≡ true)
        × (a.human_final ≡ some final)
        × (w.validated (merge args final) ≡ some ran))

revalidated_passes : (o : Option Fields) {ran : Fields} → revalidated o ≡ passes ran → o ≡ some ran
revalidated_passes none h = cc
revalidated_passes (some x) h = ground (arith, h)

merged_passes :
    (w : Answers) (args : Fields) (a : ActionRow) (o : Option Fields) {ran : Fields}
    → w.action ≡ some a
    → (a.status is_action edited) ≡ true
    → a.human_final ≡ o
    → merged w args o ≡ passes ran
    → IsValidated w args ran
merged_passes w args a none f e g h = inl (ground (arith, h))
merged_passes w args a (some final) {ran} f e g h = elim (Bool-cases (is_nonempty final)) [
  | inl y ↦
      let again : revalidated (w.validated (merge args final)) ≡ passes ran = simp y at h in
      inr (a, final, f, e, g, revalidated_passes (w.validated (merge args final)) {ran = ran} again)
  | inr n ↦ inl (ground (arith, simp n at h))
]

check_action-IsValidated :
    (spec : ToolSpec) (w : Answers) (args : Fields) (a : ActionRow) {ran : Fields}
    → w.action ≡ some a
    → check_action spec w args a ≡ passes ran
    → IsValidated w args ran
unfolding check_action
check_action-IsValidated spec w args a {ran} f h = elim (Bool-cases (a.status is_action edited)) [
  | inl y ↦ merged_passes w args a a.human_final {ran = ran} f y refl (ground (arith, h, y))
  | inr n ↦ inl (ground (arith, h, n))
]

gate_looked_up :
    (spec : ToolSpec) (req : InvokeRequest) (w : Answers) (args : Fields) {ran : Fields}
    → gate spec req w args ≡ passes ran
    → (ran ≡ args) ⊎ (found_action spec w args w.action ≡ passes ran)
unfolding gate
gate_looked_up spec req w args {ran} h = ground arith

gate-IsValidated :
    (spec : ToolSpec) (req : InvokeRequest) (w : Answers) (args : Fields) {ran : Fields}
    → gate spec req w args ≡ passes ran
    → IsValidated w args ran
gate-IsValidated spec req w args {ran} h = elim (gate_looked_up spec req w args {ran = ran} h) [
  | inl same ↦ inl same
  | inr found ↦ on_action w.action refl found
]
  where
    on_action :
        (o : Option ActionRow)
        → w.action ≡ o
        → found_action spec w args o ≡ passes ran
        → IsValidated w args ran
    on_action none e k = absurd (ground (arith, k))
    on_action (some a) e k = check_action-IsValidated spec w args a {ran = ran} e k

executed_on :
    (spec : ToolSpec) (req : InvokeRequest) (args : Fields) (x : Handled) {ran : Fields}
    → (executed spec req args x).ran_on ≡ some ran
    → ran ≡ args
executed_on spec req args (raised s) h = ground (arith, h)
executed_on spec req args (returned v) h = ground (arith, h)

-- What holds of a call whose handler runs on `ran`.
pub record Permitted (spec : ToolSpec) (req : InvokeRequest) (w : Answers) (args ran : Fields)
    : Type 0 where
  pub validated : IsValidated w args ran
  pub limited : w.within_limit ≡ true
  pub keyed : (not spec.side_effect || is_some (given req.idempotency_key)) ≡ true
  pub fresh : (not spec.side_effect || not (is_some w.cached)) ≡ true
  pub is_real : (not spec.side_effect || is_live req.mode) ≡ true
  pub cleared :
      (not spec.requires_policy_check || (is_propose spec || is_cleared spec req w args)) ≡ true

after_gate_runs :
    (spec : ToolSpec) (req : InvokeRequest) (w : Answers) (args : Fields) (g : Gate) {ran : Fields}
    → gate spec req w args ≡ g
    → (after_gate spec req w g).ran_on ≡ some ran
    → (is_propose spec || is_cleared spec req w args) ≡ true
after_gate_runs spec req w args (blocks s) e h = cc
after_gate_runs spec req w args (passes args') e h = gate_passes spec req w args {args' = args'} e

call_runs :
    (spec : ToolSpec) (req : InvokeRequest) (w : Answers) (args : Fields) {ran : Fields}
    → (call spec req w args).ran_on ≡ some ran
    → ((not spec.side_effect || is_live req.mode)
        && (not spec.requires_policy_check || (is_propose spec || is_cleared spec req w args)))
      ≡ true
unfolding call simulate
call_runs spec req w args {ran} h =
    ground (arith, after_gate_runs spec req w args (gate spec req w args) {ran = ran} refl)

after_gate-IsValidated :
    (spec : ToolSpec) (req : InvokeRequest) (w : Answers) (args : Fields) (g : Gate) {ran : Fields}
    → ((args' : Fields) → g ≡ passes args' → IsValidated w args args')
    → (after_gate spec req w g).ran_on ≡ some ran
    → IsValidated w args ran
after_gate-IsValidated spec req w args (blocks s) k h = absurd (ground (arith, h))
after_gate-IsValidated spec req w args (passes args') {ran} k h =
    subst (IsValidated w args) (sym (executed_on spec req args' (w.handler args') {ran = ran} h))
      (k args' refl)

call-IsValidated :
    (spec : ToolSpec) (req : InvokeRequest) (w : Answers) (args : Fields) {ran : Fields}
    → (call spec req w args).ran_on ≡ some ran
    → IsValidated w args ran
unfolding call simulate
call-IsValidated spec req w args {ran} h =
    elim (Bool-cases (not (is_live req.mode) && spec.side_effect)) [
      | inl y ↦ absurd (ground (arith, h, y))
      | inr n ↦ elim (Bool-cases spec.requires_policy_check) [
        | inl c ↦
            after_gate-IsValidated spec req w args (gate spec req w args) {ran = ran}
              (λ args' e. gate-IsValidated spec req w args {ran = args'} e)
              (ground (arith, h, n, c))
        | inr c ↦
            after_gate-IsValidated spec req w args (passes args) {ran = ran}
              (λ args' e. inl (ground (arith, e))) (ground (arith, h, n, c))
      ]
    ]

admitted_runs :
    (spec : ToolSpec) (req : InvokeRequest) (w : Answers) (args : Fields) {ran : Fields}
    → (admitted spec req w args).ran_on ≡ some ran
    → Permitted spec req w args ran
unfolding admitted
admitted_runs spec req w args {ran} h = record {
  validated = call-IsValidated spec req w args {ran = ran} (ground arith);
  limited = ground arith;
  keyed = ground arith;
  fresh = ground arith;
  is_real = ground (arith, call_runs spec req w args {ran = ran});
  cleared = ground (arith, call_runs spec req w args {ran = ran});
}

-- If the handler of a tool runs, then the arguments of the request validate, and it runs on what validation
-- returned for them, or for their merge with the human's edit of the EDITED action of the call; the tenant is within its limit, and a tool
-- with side effects was called live, with an idempotency key and with no earlier success to answer from;
-- and a tool that the policy checks, `propose_action` apart, was allowed for these arguments, or requires
-- an approval and the request names one that is APPROVED or EDITED, of the tool's type and not executed.
pub invoke_runs :
    (spec : ToolSpec) (req : InvokeRequest) (w : Answers) {ran : Fields}
    → (invoke spec req w).ran_on ≡ some ran
    → (args : Fields) × (w.validated req.args ≡ some args) × Permitted spec req w args ran
unfolding invoke
invoke_runs spec req w {ran} h = go (w.validated req.args) refl h
  where
    go :
        (o : Option Fields)
        → w.validated req.args ≡ o
        → (on_args spec req w o).ran_on ≡ some ran
        → (args : Fields) × (w.validated req.args ≡ some args) × Permitted spec req w args ran
    go none e k = cc
    go (some args) e k = (args, e, admitted_runs spec req w args {ran = ran} k)

abbrev pub is_guarded : ToolSpec → Bool
is_guarded t =
    (not t.requires_policy_check || is_some (given t.action_type))
    && (not t.side_effect || (t.requires_policy_check || is_low_risk t.name))

register-guarded :
    (spec : ToolSpec) (tools : List ToolSpec) {now : List ToolSpec}
    → all is_guarded tools ≡ true
    → register spec tools ≡ tools_now now
    → all is_guarded now ≡ true
unfolding register
register-guarded spec tools h e = ground (arith, all-append is_guarded tools (spec ∷ []))

register-cases :
    (spec : ToolSpec) (tools : List ToolSpec)
    → ((now : List ToolSpec) × (register spec tools ≡ tools_now now))
      ⊎ ((e : RegisterError) × (register spec tools ≡ refused e))
register-cases spec tools =
    elim (register spec tools)
      as (λ x.
        ((now : List ToolSpec) × (x ≡ tools_now now)) ⊎ ((e : RegisterError) × (x ≡ refused e))) [
          | tools_now now ↦ inl (now, refl)
          | refused e ↦ inr (e, refl)
        ]

register_all-guarded :
    (specs tools : List ToolSpec) {now : List ToolSpec}
    → all is_guarded tools ≡ true
    → register_all specs tools ≡ tools_now now
    → all is_guarded now ≡ true
unfolding register_all
register_all-guarded [] tools h e = ground arith
register_all-guarded (spec ∷ specs) tools {now} h e = elim (register-cases spec tools) [
  | inl (mid, m) ↦
      register_all-guarded specs mid {now = now} (register-guarded spec tools {now = mid} h m)
        (rw (register_all, m) at e)
  | inr (x, m) ↦ ground arith
]

-- In a registry that was filled by registrations, a tool with side effects whose handler ran was called
-- live and with an idempotency key, and the policy allowed it or the request named an APPROVED or EDITED
-- action of its type that was not executed, unless it is `propose_action` or one of the two tools of low
-- risk.
pub side_effects_cleared :
    (specs tools : List ToolSpec) (name : String) (spec : ToolSpec) (req : InvokeRequest)
    (w : Answers) {ran : Fields}
    → register_all specs [] ≡ tools_now tools
    → get_tool name tools ≡ some spec
    → spec.side_effect ≡ true
    → (invoke spec req w).ran_on ≡ some ran
    → (is_live req.mode ≡ true)
      × (is_some (given req.idempotency_key) ≡ true)
      × ((args : Fields) × (w.validated req.args ≡ some args)
          × ((is_low_risk spec.name || (is_propose spec || is_cleared spec req w args)) ≡ true))
unfolding get_tool
side_effects_cleared specs tools name spec req w {ran} r g s h =
    let (args, e, p) = invoke_runs spec req w {ran = ran} h in
    let guarded =
      all-find is_guarded (λ t. str_eq t.name name) tools {a = spec}
        (register_all-guarded specs [] {now = tools} refl r) g in
    (
      ground (arith, p.is_real),
      ground (arith, p.keyed),
      (args, e, ground (arith, p.cleared, guarded)),
    )
