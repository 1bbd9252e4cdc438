-- ===== src/Tests/Agents.antt =====
-- The theorem on the loop of an agent, at concrete inputs.
use recoup.Common.{ℕ, ◌≡◌, refl, Option, none, some, [], ◌∷◌}
use recoup.Json.{obj, end}
use recoup.Orchestrator.Agent.{
  AgentSpec, AgentWorld, AgentOutcome, run_agent, finished, iteration_budget_exceeded,
}
use recoup.Orchestrator.AgentRuns.{Ended, run_agent-Ended}

abbrev spec : ℕ → AgentSpec
spec turns = record {
  submit_tool = "submit_triage";
  max_iterations = turns;
  max_repairs = 2;
  validate = λ args. some (obj args);
}

-- The model submits at once.
abbrev submits : AgentWorld
submits = record {
  chat = λ n rows. record { name = "submit_triage"; args = end } ∷ [];
  invoke = λ c. "SUCCESS";
}

run_agent-Ended_example : Ended (spec 3) (run_agent (spec 3) submits)
run_agent-Ended_example = run_agent-Ended (spec 3) submits

abbrev turns_of : AgentOutcome → Option ℕ
turns_of (finished v s) = some s.iterations
turns_of _ = none

-- An accepted output is followed by one more turn of the model.
one_turn_more : turns_of (run_agent (spec 3) submits) ≡ some 2
unfolding run_agent
one_turn_more = refl

-- An output that was accepted in the last turn is lost.
accepted_too_late : run_agent (spec 1) submits ≡ iteration_budget_exceeded
unfolding run_agent
accepted_too_late = refl
