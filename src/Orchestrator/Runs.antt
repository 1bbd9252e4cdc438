-- ===== src/Orchestrator/Runs.antt =====
-- Every run of services/orchestrator/recoup_orchestrator/workflows/case_workflow.py stays within its bounds.
use recoup.Common.{◌≤◌, ◌≡◌, refl, true, false, List, [], ◌∷◌, arith, Bool-cases, inl, inr}
use recoup.Orchestrator.State.{Specialist, ◌same_as◌, CaseState, intent}
use recoup.Orchestrator.Activities.{CaseRow, CaseDetail, Effect, refresh_actions, merge_signals}
use recoup.Orchestrator.Workflow.{
  Run, has_reply, last_three, in_budget, folded, woken, refreshed, Step, Reaches, supervising,
  reading, ready, executing, signalled, taken_over, released, cancel, out_of_steps, stop, hold,
  let_go, fold_in, go_on, supervise, supervisor_failed, wait_customer, wait_approval, resolve,
  escalate, run, wake, time_out, read, refresh, execute, executed_all, end_run, starts, steps,
}
use recoup.Orchestrator.Load.{RunParams, load_case_state}
use recoup.Orchestrator.Grows.{refresh-Grows, merge-Grows, execute-Grows, intent-Grows}
use recoup.Orchestrator.Bounds.{
  Bounded, moved, grown, supervised-Bounded, ran-Bounded, at_loc, in_budget-room, back-room,
  back-Allowed,
}

false_step : {A : Type 0} → false ≡ true → A
false_step h = ground arith

-- The signals are folded in, and the run goes on to the supervisor by one of two ways.
folded-Bounded :
    {s₀ : CaseState} (c : CaseRow) (d : CaseDetail) (r : Run)
    → Bounded s₀ r.state r.loc r.supervised
    → in_budget r ≡ true
    → Bounded s₀ (folded c d r).state (folded c d r).loc r.supervised
unfolding folded
folded-Bounded c d r b h =
    elim (Bool-cases (has_reply (last_three (merge_signals r.pending c d r.state).signals))) [
      | inl y ↦ rw y (grown _ _ b (merge-Grows _ c d r.state) (λ e. in_budget-room r b h) tt)
      | inr n ↦ rw n (grown _ _ b (merge-Grows _ c d r.state) (λ e. in_budget-room r b h) tt)
    ]

woken-Bounded :
    {s₀ : CaseState} (c : CaseRow) (d : CaseDetail) (r : Run)
    → Bounded s₀ r.state r.loc r.supervised
    → Bounded s₀ (woken c d r).state (woken c d r).loc r.supervised
unfolding woken
woken-Bounded c d r b = elim (Bool-cases (has_reply r.pending)) [
  | inl y ↦ rw y (grown _ _ b (merge-Grows _ c d r.state) (λ e. false_step e) tt)
  | inr n ↦ rw n (grown _ _ b (merge-Grows _ c d r.state) (λ e. false_step e) tt)
]

step-Bounded :
    {s₀ : CaseState} {r : Run} {es : List Effect} {q : Run}
    → Bounded s₀ r.state r.loc r.supervised
    → Step r es q
    → Bounded s₀ q.state q.loc q.supervised
unfolding folded woken refreshed refresh_actions
step-Bounded b (signalled t payload) = b
step-Bounded b taken_over = b
step-Bounded b released = b
step-Bounded b cancel = b
step-Bounded b (out_of_steps h x) = moved _ b (λ e. false_step e) tt
step-Bounded b (stop h x y) = moved _ b (λ e. false_step e) tt
step-Bounded b (hold h x y z) = moved _ b (λ e. false_step e) tt
step-Bounded b (let_go h x) = moved _ b (λ e. false_step e) tt
step-Bounded {r = r} b (fold_in c d h x y z w) = folded-Bounded c d r b x
step-Bounded {r = r} b (go_on h x y z w) = moved _ b (λ e. in_budget-room r b x) tt
step-Bounded {r = r} b (supervise d tools h) = supervised-Bounded d r (at_loc supervising b h)
step-Bounded b (supervisor_failed tools h) = moved _ b (λ e. false_step e) tt
step-Bounded b (wait_customer h) = moved _ b (λ e. false_step e) tt
step-Bounded b (wait_approval h) = moved _ b (λ e. false_step e) tt
step-Bounded b (resolve h) = moved _ b (λ e. false_step e) tt
step-Bounded b (escalate h) = moved _ b (λ e. false_step e) tt
step-Bounded {r = r} b (run {p = p} a c h) = ran-Bounded p a c r (at_loc _ b h)
step-Bounded {r = r} b (wake c d h x) = woken-Bounded c d r b
step-Bounded {r = r} b (time_out c d h) =
    grown _ _ b (merge-Grows _ c d r.state) (λ e. false_step e) tt
step-Bounded {r = r} b (read {b = back} a c h) =
    grown _ _ b (intent-Grows a c r.state) (λ e. (at_loc (reading back) b h).room e) tt
step-Bounded {r = r} b (refresh {b = back} d h) =
    grown _ _ b (refresh-Grows d r.state) (λ e. (at_loc (ready back) b h).room e) tt
step-Bounded {r = r} b (execute {b = back} {id = id} {ids = ids} x h) =
    grown _ _ b (execute-Grows _ x r.state) (λ e. (at_loc (executing (id ∷ ids) back) b h).room e)
      tt
step-Bounded {r = r} b (executed_all {b = back} h) =
    moved _ b (back-room back (at_loc (executing [] back) b h)) (back-Allowed r.state back)
step-Bounded b (end_run accepted h) = moved _ b (λ e. false_step e) tt

-- A run starts with nothing counted.
pub Reaches-Bounded :
    (p : RunParams) (d : CaseDetail) {es : List Effect} {r : Run}
    → Reaches (load_case_state p d) es r
    → Bounded (load_case_state p d) r.state r.loc r.supervised
unfolding load_case_state
Reaches-Bounded p d starts = record {
  same_mode = refl;
  same_max = refl;
  counts = ground arith;
  budget = ground arith;
  room = λ e. false_step e;
  limited = λ q h. ground arith;
  allowed = tt;
}
Reaches-Bounded p d (steps h x) = step-Bounded (Reaches-Bounded p d h) x

-- However the signals arrive and whatever the agents and the other services answer, a run calls the
-- supervisor at most `max_steps` times.
pub supervised-le :
    (p : RunParams) (d : CaseDetail) {es : List Effect} {r : Run}
    → Reaches (load_case_state p d) es r
    → r.supervised ≤ p.max_steps
unfolding load_case_state
supervised-le p d h = (Reaches-Bounded p d h).budget

-- In a run, each specialist other than the one that reads replies runs at most three times, however the
-- signals arrive and whatever the agents and the other services answer.
specialist_runs-le :
    (p : RunParams) (d : CaseDetail) (q : Specialist) {es : List Effect} {r : Run}
    → Reaches (load_case_state p d) es r
    → (q same_as intent) ≡ false
    → r.state.specialist_runs q ≤ 3
specialist_runs-le p d q h e = (Reaches-Bounded p d h).limited q e
