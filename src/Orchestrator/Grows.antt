-- ===== src/Orchestrator/Grows.antt =====
-- What the activities of services/orchestrator/recoup_orchestrator/workflows/activities.py keep of the
-- counters of a run.
use recoup.Common.{
  ℕ, ◌+◌, ◌≤◌, ◌≡◌, refl, String, false, ◌||◌, Option, none, some, List, [], ◌∷◌, map, any, arith,
  Bool-cases, inl, inr, str_eq,
}
use recoup.Json.{Fields}
use recoup.Gateway.Invoke.{is_live}
use recoup.Orchestrator.State.{Specialist, ◌same_as◌, ProposedActionRef, CaseState, intent}
use recoup.Orchestrator.Activities.{
  CaseRow, CaseDetail, with_case, Output, refers_to, is_shadow, tracked, counted, track_action,
  record_triage, apply_output, AgentResult, run_specialist, refresh_ref, refresh_actions, Execution,
  invoke_executor, execute_action, merge_signals, found_cause, proposed_action, read_intent,
  answered, gave_up,
}
use recoup.Orchestrator.Workflow.{or_state}

-- What every activity but those of the supervisor and its specialists keeps.
pub record Grows (s t : CaseState) : Type 0 where
  pub same_mode : t.mode ≡ s.mode
  pub same_max : t.max_steps ≡ s.max_steps
  pub later : s.step_no ≤ t.step_no
  pub same_runs :
      (p : Specialist) → (p same_as intent) ≡ false → t.specialist_runs p ≡ s.specialist_runs p

pub refresh-Grows : (d : CaseDetail) (s : CaseState) → Grows s (refresh_actions d s)
unfolding refresh_actions
refresh-Grows d s =
    elim s.actions
      as (λ xs. Grows s (elim xs [
        | [] ↦ s
        | _ ∷ _ ↦ with_case d.shown (record s { actions = map (refresh_ref d.actions) s.actions })
      ])) [
        | [] ↦ record {
          same_mode = refl;
          same_max = refl;
          later = omega arith;
          same_runs = λ p h. refl;
        }
        | _ ∷ _ ↦ record {
          same_mode = refl;
          same_max = refl;
          later = omega arith;
          same_runs = λ p h. refl;
        }
      ]

then-Grows : {s t u : CaseState} → Grows s t → Grows t u → Grows s u
then-Grows g h = record {
  same_mode = ground (arith, g.same_mode, h.same_mode);
  same_max = ground (arith, g.same_max, h.same_max);
  later = ground (arith, g.later, h.later);
  same_runs = λ p k. ground (arith, g.same_runs p k, h.same_runs p k);
}

pub merge-Grows :
    (signals : List Fields) (c : CaseRow) (d : CaseDetail) (s : CaseState)
    → Grows s (merge_signals signals c d s)
unfolding merge_signals
merge-Grows [] c d s = record {
  same_mode = refl;
  same_max = refl;
  later = omega arith;
  same_runs = λ p h. refl;
}
merge-Grows (g ∷ gs) c d s =
    then-Grows
      (record { same_mode = refl; same_max = refl; later = omega arith; same_runs = λ p h. refl })
      (refresh-Grows d (_))

-- Marking a reference changes nothing else.
marked-Grows : (xs : List ProposedActionRef) (s : CaseState) → Grows s (record s { actions = xs })
marked-Grows xs s = record {
  same_mode = refl;
  same_max = refl;
  later = omega arith;
  same_runs = λ p h. refl;
}

stepped-Grows :
    (xs : List ProposedActionRef) (n : ℕ) (s : CaseState)
    → Grows s (record s { step_no = s.step_no + 1; actions = xs; outreach_count = n })
stepped-Grows xs n s = record {
  same_mode = refl;
  same_max = refl;
  later = omega arith;
  same_runs = λ p h. refl;
}

invoke-Grows :
    (id : String) (x : Execution) (tool : Option String) (s : CaseState)
    → Grows s (invoke_executor id x tool s).state
unfolding invoke_executor
invoke-Grows id x none s = then-Grows (stepped-Grows _ _ s) (refresh-Grows x.detail _)
invoke-Grows id x (some tool) s = then-Grows (stepped-Grows _ _ s) (refresh-Grows x.detail _)

-- The executor adds at most a step.
pub execute-Grows :
    (id : String) (x : Execution) (s : CaseState) → Grows s (execute_action id x s).state
unfolding execute_action
execute-Grows id x s = elim (Bool-cases (any (refers_to id) s.actions)) [
  | inl a ↦ elim (Bool-cases (is_shadow id s)) [
    | inl b ↦ rw (a, b) (marked-Grows _ s)
    | inr b ↦ rw (a, b) (invoke-Grows id x _ s)
  ]
  | inr a ↦ rw a (marked-Grows s.actions s)
]

triage-Grows : (cause : String) (c : CaseRow) (s : CaseState) → Grows s (record_triage cause c s)
unfolding record_triage
triage-Grows cause c s = elim (Bool-cases (is_live s.mode)) [
  | inl y ↦
      rw y
        (record { same_mode = refl; same_max = refl; later = omega arith; same_runs = λ p h. refl })
  | inr n ↦
      rw n
        (record { same_mode = refl; same_max = refl; later = omega arith; same_runs = λ p h. refl })
]

track-Grows : (t : String) (id : Option String) (s : CaseState) → Grows s (track_action id t s)
unfolding track_action
track-Grows t none s = marked-Grows s.actions s
track-Grows t (some id) s = elim (Bool-cases (str_eq id "" || any (refers_to id) s.actions)) [
  | inl y ↦ rw y (marked-Grows s.actions s)
  | inr n ↦ rw n (marked-Grows _ s)
]

tracked-Grows : (t id : Option String) (s : CaseState) → Grows s (tracked t id s).state
tracked-Grows none id s = marked-Grows s.actions s
tracked-Grows (some t) id s = track-Grows t id s

-- The output of a specialist changes neither the counters nor the mode.
pub apply-Grows :
    (p : Specialist) (out : Output) (c : CaseRow) (s : CaseState)
    → Grows s (apply_output p out c s).state
unfolding apply_output
apply-Grows p (found_cause cause) c s =
    let g = triage-Grows cause c s in
    record {
      same_mode = g.same_mode;
      same_max = g.same_max;
      later = g.later;
      same_runs = g.same_runs;
    }
apply-Grows p (proposed_action id) c s = tracked-Grows _ id s
apply-Grows p (read_intent i) c s = record {
  same_mode = refl;
  same_max = refl;
  later = omega arith;
  same_runs = λ p h. refl;
}

counted_intent-Grows : (tokens : ℕ) (s : CaseState) → Grows s (counted intent tokens s)
counted_intent-Grows tokens s = record {
  same_mode = refl;
  same_max = refl;
  later = omega arith;
  same_runs = λ p h. rw h refl;
}

pub intent-Grows :
    (a : AgentResult) (c : CaseRow) (s : CaseState)
    → Grows s (or_state (run_specialist intent a c s).0 s)
unfolding run_specialist
intent-Grows (gave_up tools) c s = marked-Grows s.actions s
intent-Grows (answered tools out tokens) c s =
    then-Grows (counted_intent-Grows tokens s) (apply-Grows intent out c (counted intent tokens s))
