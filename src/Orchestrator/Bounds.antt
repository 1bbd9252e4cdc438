-- ===== src/Orchestrator/Bounds.antt =====
-- The bounds on a run of services/orchestrator/recoup_orchestrator/workflows/case_workflow.py.
use recoup.Common.{
  ℕ, ◌≤◌, ◌<◌, ◌≡◌, refl, ap, subst, Bool, true, false, [], ltb→lt, arith, Bool-cases, inl, inr,
}
use recoup.Orchestrator.State.{Specialist, ◌same_as◌, CaseState, intent, specialist}
use recoup.Orchestrator.Supervisor.{
  SupervisorDecision, after_supervisor, effective-Guarded, has_looped,
}
use recoup.Orchestrator.Activities.{
  CaseRow, bump, counted, AgentResult, run_specialist, answered, gave_up,
}
use recoup.Orchestrator.Grows.{Grows, apply-Grows}
use recoup.Orchestrator.Workflow.{
  Back, Loc, Run, back_loc, in_budget, supervised_by, ran, run_failed, to_top, to_supervisor, top,
  supervising, decided, reading, ready, executing, finalizing,
}

abbrev pub returns : Back → Bool
returns to_top = false
returns to_supervisor = true

-- Where a turn of the loop is on its way to the supervisor.
abbrev pub before : Loc → Bool
before supervising = true
before (reading back) = returns back
before (ready back) = returns back
before (executing ids back) = returns back
before _ = false

abbrev pub Allowed : CaseState → Loc → Type 0
Allowed s (decided n) = has_looped s n ≡ false
Allowed s _ = Unit

-- `n` is how often the supervisor was called.
pub record Bounded (s₀ s : CaseState) (l : Loc) (n : ℕ) : Type 0 where
  pub same_mode : s.mode ≡ s₀.mode
  pub same_max : s.max_steps ≡ s₀.max_steps
  pub counts : n ≤ s.step_no
  pub budget : n ≤ s₀.max_steps
  pub room : before l ≡ true → n < s₀.max_steps
  pub limited : (p : Specialist) → (p same_as intent) ≡ false → s.specialist_runs p ≤ 3
  pub allowed : Allowed s l

-- The workflow goes to another place.
pub moved :
    {s₀ s : CaseState} {l : Loc} {n : ℕ} (k : Loc)
    → Bounded s₀ s l n
    → (before k ≡ true → n < s₀.max_steps)
    → Allowed s k
    → Bounded s₀ s k n
moved k b room allowed = record {
  same_mode = b.same_mode;
  same_max = b.same_max;
  counts = b.counts;
  budget = b.budget;
  room = room;
  limited = b.limited;
  allowed = allowed;
}

-- An activity ends.
pub grown :
    {s₀ s : CaseState} {l : Loc} {n : ℕ} (t : CaseState) (k : Loc)
    → Bounded s₀ s l n
    → Grows s t
    → (before k ≡ true → n < s₀.max_steps)
    → Allowed t k
    → Bounded s₀ t k n
grown t k b g room allowed = record {
  same_mode = ground (arith, b.same_mode, g.same_mode);
  same_max = ground (arith, b.same_max, g.same_max);
  counts = ground (arith, b.counts, g.later);
  budget = b.budget;
  room = room;
  limited = λ p h. ground (arith, b.limited p h, g.same_runs p h);
  allowed = allowed;
}

same_as→eq : (p q : Specialist) → (p same_as q) ≡ true → p ≡ q
same_as→eq p q h = ground arith

-- The supervisor decides.
pub supervised-Bounded :
    {s₀ : CaseState} (d : SupervisorDecision) (r : Run)
    → Bounded s₀ r.state supervising r.supervised
    → Bounded s₀ (supervised_by d r).state (supervised_by d r).loc (supervised_by d r).supervised
unfolding supervised_by after_supervisor
supervised-Bounded d r b = record {
  same_mode = b.same_mode;
  same_max = b.same_max;
  counts = ground (arith, b.counts);
  budget = ground (arith, b.room refl);
  room = ground arith;
  limited = b.limited;
  allowed = (effective-Guarded (after_supervisor r.state d) d).not_looping;
}

bump-le :
    (p q : Specialist) (s : CaseState)
    → has_looped s (specialist p) ≡ false
    → s.specialist_runs q ≤ 3
    → bump p s.specialist_runs q ≤ 3
bump-le p q s h k = elim (Bool-cases (q same_as p)) [
  | inl y ↦ rw y (ground (arith, ap s.specialist_runs (same_as→eq q p y)))
  | inr n ↦ rw n k
]

-- A specialist that has not looped runs.
counted-Bounded :
    {s₀ s : CaseState} {n : ℕ} (p : Specialist) (tokens : ℕ)
    → Bounded s₀ s (decided (specialist p)) n
    → Bounded s₀ (counted p tokens s) top n
counted-Bounded {s = s} p tokens b = record {
  same_mode = b.same_mode;
  same_max = b.same_max;
  counts = ground (arith, b.counts);
  budget = b.budget;
  room = ground arith;
  limited = λ q h. bump-le p q s b.allowed (b.limited q h);
  allowed = tt;
}

pub ran-Bounded :
    {s₀ : CaseState} (p : Specialist) (a : AgentResult) (c : CaseRow) (r : Run)
    → Bounded s₀ r.state (decided (specialist p)) r.supervised
    → Bounded s₀ (ran p a c r).state (ran p a c r).loc (ran p a c r).supervised
unfolding ran run_specialist
ran-Bounded p (gave_up tools) c r b = moved (finalizing run_failed) b (ground arith) tt
ran-Bounded p (answered tools out tokens) c r b =
    grown _ (ready to_top) (counted-Bounded p tokens b)
      (apply-Grows p out c (counted p tokens r.state)) (ground arith) tt

-- The place is known.
pub at_loc :
    {s₀ s : CaseState} {l : Loc} {n : ℕ} (k : Loc) → Bounded s₀ s l n → l ≡ k → Bounded s₀ s k n
at_loc {s₀ = s₀} {s = s} {n = n} k b h = subst (λ l. Bounded s₀ s l n) h b

pub in_budget-room :
    {s₀ : CaseState} (r : Run)
    → Bounded s₀ r.state r.loc r.supervised
    → in_budget r ≡ true
    → r.supervised < s₀.max_steps
in_budget-room r b h =
    ground (arith, b.counts, b.same_max, ltb→lt r.state.step_no r.state.max_steps h)

pub back-room :
    {s₀ s : CaseState} {n : ℕ} (back : Back)
    → Bounded s₀ s (executing [] back) n
    → before (back_loc back) ≡ true
    → n < s₀.max_steps
back-room to_top b h = ground arith
back-room to_supervisor b h = b.room refl

pub back-Allowed : (s : CaseState) (back : Back) → Allowed s (back_loc back)
back-Allowed s to_top = tt
back-Allowed s to_supervisor = tt
