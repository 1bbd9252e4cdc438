-- ===== src/Orchestrator/AgentRuns.antt =====
-- The loop of an agent ends (services/orchestrator/recoup_orchestrator/agents/loop.py).
use recoup.Common.{
  ℕ, zero, suc, ◌+◌, ◌-◌, ◌*◌, ◌≤◌, ◌≡◌, sym, subst, Option, none, some, List, [], ◌∷◌, leb, ltb,
  arith, Bool-cases, Option-cases, inl, inr,
}
use recoup.Json.{Value, Fields}
use recoup.Orchestrator.Agent.{
  accepted, invalid, ToolCall, AgentSpec, AgentWorld, LoopState, AgentOutcome, Judgement, judge,
  after_tools, first_judgement, tools_node, model_node, Node, route, run_node, init, run_agent,
  finished, iteration_budget_exceeded, repair_exhausted, recursion_error, model, tools,
}

-- The output is what the output model makes of some arguments.
abbrev pub IsValidated : AgentSpec → Option Value → Type 0
IsValidated spec none = Unit
IsValidated spec (some v) = (args : Fields) × (spec.validate args ≡ some v)

-- How a run may end: with a validated output within both budgets, or with the error of one of them.
abbrev pub Ended : AgentSpec → AgentOutcome → Type 0
Ended spec (finished v s) =
    (s.iterations ≤ spec.max_iterations)
    × (s.repairs ≤ spec.max_repairs)
    × IsValidated spec (some v)
Ended spec iteration_budget_exceeded = Unit
Ended spec repair_exhausted = Unit
Ended spec recursion_error = ⊥

judge_sound :
    (spec : AgentSpec) (submits : List ToolCall) (j k : Judgement)
    → judge spec submits j ≡ some k
    → j.repairs ≤ spec.max_repairs
    → IsValidated spec j.output
    → (k.repairs ≤ spec.max_repairs) × IsValidated spec k.output
unfolding judge
judge_sound spec [] j k h r v = let same : j ≡ k = ground arith in rw (← same) (r, v)
judge_sound spec (c ∷ submits) j k h r v = elim (Option-cases (spec.validate c.args)) [
  | inl n ↦ elim (Bool-cases (ltb spec.max_repairs (j.repairs + 1))) [
    | inl y ↦ absurd (ground (arith, n, y))
    | inr z ↦
        judge_sound spec submits (invalid c j) k (ground (arith, n, z, h)) (ground (arith, z)) v
  ]
  | inr (x, y) ↦
      judge_sound spec submits (accepted spec c j) k (ground (arith, y, h)) r
        (subst (IsValidated spec) (sym y) (c.args, y))
]

-- The steps that a run may still need from a node.
abbrev needed : AgentSpec → Node → LoopState → ℕ
needed spec model s = (spec.max_iterations - s.iterations) * 2 + 1
needed spec tools s = (spec.max_iterations - s.iterations) * 2 + 2

needed-route :
    (spec : AgentSpec) (s t : LoopState)
    → suc (t.iterations) ≤ spec.max_iterations
    → s.iterations ≡ t.iterations + 1
    → needed spec (route s) s ≤ (spec.max_iterations - t.iterations) * 2
needed-route spec s t h k = go (route s)
  where
    go : (n : Node) → needed spec n s ≤ (spec.max_iterations - t.iterations) * 2
    go model = ground (arith, h, k)
    go tools = ground (arith, h, k)

run_node-Ended :
    (spec : AgentSpec) (w : AgentWorld) (fuel : ℕ) (n : Node) (s : LoopState)
    → needed spec n s ≤ fuel
    → s.iterations ≤ spec.max_iterations
    → s.repairs ≤ spec.max_repairs
    → IsValidated spec s.output
    → Ended spec (run_node spec w fuel n s)
unfolding run_node
run_node-Ended spec w zero model s f i r v = absurd (ground (arith, f))
run_node-Ended spec w zero tools s f i r v = absurd (ground (arith, f))
run_node-Ended spec w (suc fuel) model s f i r v =
    elim (Bool-cases (leb spec.max_iterations s.iterations)) [
      | inl y ↦ rw (run_node, y) tt
      | inr z ↦ elim (Option-cases s.output) [
        | inl o ↦
            rw (run_node, z, o)
              (run_node-Ended spec w fuel (route (model_node w s)) (model_node w s)
                (ground (arith, needed-route spec (model_node w s) s, f, z)) (ground (arith, z)) r
                v)
        | inr (x, o) ↦ rw (run_node, z, o) (ground (arith, z), r, subst (IsValidated spec) o v)
      ]
    ]
run_node-Ended spec w (suc fuel) tools s f i r v = elim (Option-cases (tools_node spec w s)) [
  | inl n ↦ rw (run_node, n) tt
  | inr (j, y) ↦
      let (repairs, output) = judge_sound spec _ (first_judgement spec w s) j y r tt in
      rw (run_node, y)
        (run_node-Ended spec w fuel model (after_tools s j) (ground (arith, f)) i repairs output)
]

-- Whatever the language model answers, the run of an agent ends with an output that the output model
-- validated, after at most `max_iterations` turns and `max_repairs` invalid submissions, or with the
-- error of one of these two budgets; the limit of the graph on its steps is never reached.
pub run_agent-Ended : (spec : AgentSpec) (w : AgentWorld) → Ended spec (run_agent spec w)
unfolding run_agent
run_agent-Ended spec w =
    run_node-Ended spec w (spec.max_iterations * 2 + 4) model init (ground arith) (ground arith)
      (ground arith) tt
