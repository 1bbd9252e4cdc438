-- ===== src/Orchestrator/Agent.antt =====
-- `ToolLoopAgent` of services/orchestrator/recoup_orchestrator/agents/loop.py: the graph of a model node and a
-- tools node, its routes, and `run`. The language model is a function of the iteration, and of the log of
-- the tools so far; the gateway answers a call with a status; `model_validate` of the output model is a
-- parameter. The messages, the usage and the latencies are left out.
use recoup.Common.{
  ℕ, zero, suc, ◌+◌, ◌*◌, String, Bool, not, Option, none, some, List, [], ◌∷◌, ◌++◌, map, filter,
  str_eq, leb, ltb, if◌then◌else◌,
}
use recoup.Json.{Value, Fields}

pub record ToolCall : Type 0 where
  pub name : String
  pub args : Fields

pub record LogRow : Type 0 where
  pub tool : String
  pub status : String

pub record AgentSpec : Type 0 where
  pub submit_tool : String
  pub max_iterations : ℕ
  pub max_repairs : ℕ
  pub validate : Fields → Option Value

-- The language model and the gateway.
pub record AgentWorld : Type 0 where
  pub chat : ℕ → List LogRow → List ToolCall
  pub invoke : ToolCall → String

pub record LoopState : Type 0 where
  pub last_calls : List ToolCall  -- of the last message
  pub output : Option Value
  pub repairs : ℕ
  pub iterations : ℕ
  pub tool_log : List LogRow

-- A graph ends with the output, or raises; the library raises when the steps reach `recursion_limit`.
pub data AgentOutcome : Type 0 where
  finished : Value → LoopState → AgentOutcome
  iteration_budget_exceeded repair_exhausted recursion_error : AgentOutcome

abbrev pub is_submit : AgentSpec → ToolCall → Bool
is_submit spec c = str_eq c.name spec.submit_tool

abbrev pub called : AgentWorld → ToolCall → LogRow
called w c = record { tool = c.name; status = w.invoke c }

abbrev pub judged : ToolCall → Option Value → LogRow
judged c none = record { tool = c.name; status = "INVALID" }
judged c (some v) = record { tool = c.name; status = "ACCEPTED" }

-- The submits of one turn: the last valid one counts, and every invalid one is a repair.
pub record Judgement : Type 0 where
  pub output : Option Value
  pub repairs : ℕ
  pub rows : List LogRow

abbrev pub accepted : AgentSpec → ToolCall → Judgement → Judgement
accepted spec c j = record {
  output = spec.validate c.args;
  repairs = j.repairs;
  rows = j.rows ++ (judged c (spec.validate c.args) ∷ []);
}

abbrev pub invalid : ToolCall → Judgement → Judgement
invalid c j = record {
  output = j.output;
  repairs = j.repairs + 1;
  rows = j.rows ++ (judged c none ∷ []);
}

unfoldable pub judge : AgentSpec → List ToolCall → Judgement → Option Judgement
judge spec [] j = some j
judge spec (c ∷ submits) j =
    let after_accepted = judge spec submits (accepted spec c j) in
    let after_invalid = judge spec submits (invalid c j) in
    elim (spec.validate c.args) [
      | some v ↦ after_accepted
      | none ↦ if ltb spec.max_repairs (j.repairs + 1) then none else after_invalid
    ]

abbrev pub after_tools : LoopState → Judgement → LoopState
after_tools s j = record {
  last_calls = [];
  output = j.output;
  repairs = j.repairs;
  iterations = s.iterations;
  tool_log = s.tool_log ++ j.rows;
}

-- What the tools node starts to judge from: the answers of the gateway come first.
abbrev pub first_judgement : AgentSpec → AgentWorld → LoopState → Judgement
first_judgement spec w s = record {
  output = none;
  repairs = s.repairs;
  rows = map (called w) (filter (λ c. not (is_submit spec c)) s.last_calls);
}

-- `_tools_node`
unfoldable pub tools_node : AgentSpec → AgentWorld → LoopState → Option Judgement
unfolding judge
tools_node spec w s = judge spec (filter (is_submit spec) s.last_calls) (first_judgement spec w s)

-- `_model_node` within its budget.
abbrev pub model_node : AgentWorld → LoopState → LoopState
model_node w s = record s {
  last_calls = w.chat s.iterations s.tool_log;
  iterations = s.iterations + 1;
}

pub data Node : Type 0 where
  model tools : Node

-- `_route`, where the graph does not end.
abbrev pub route : LoopState → Node
route s = elim s.last_calls [ [] ↦ model | _ ∷ _ ↦ tools ]

-- The graph, with the number of steps that it may still take. From the tools it goes to the model, also
-- when an output was accepted.
unfoldable pub run_node : AgentSpec → AgentWorld → ℕ → Node → LoopState → AgentOutcome
unfolding tools_node
run_node spec w zero n s = recursion_error
run_node spec w (suc fuel) model s =
    let t = model_node w s in
    let next = run_node spec w fuel (route t) t in
    if leb spec.max_iterations s.iterations
    then iteration_budget_exceeded
    else elim t.output [ some v ↦ finished v t | none ↦ next ]
run_node spec w (suc fuel) tools s = elim (tools_node spec w s) [
  | none ↦ repair_exhausted
  | some j ↦ run_node spec w fuel model (after_tools s j)
]

abbrev pub init : LoopState
init = record { last_calls = []; output = none; repairs = 0; iterations = 0; tool_log = [] }

-- `run`, with its `recursion_limit`.
unfoldable pub run_agent : AgentSpec → AgentWorld → AgentOutcome
unfolding run_node
run_agent spec w = run_node spec w (spec.max_iterations * 2 + 4) model init
