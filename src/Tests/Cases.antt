-- ===== src/Tests/Cases.antt =====
-- The theorems on requests and on the ingestion, at concrete inputs.
use recoup.Common.{ℕ, ◌≡◌, ◌↔◌, ◌⊎◌, ◌≢◌, refl, true, none, some, List, [], ◌∷◌, ◌++◌, arith}
use recoup.Case.Status.{
  CaseStatus, investigating, negotiating, pending_approval, action_taken, resolved, escalated,
  written_off, is_terminal, assert_transition, legal,
}
use recoup.Case.Records.{Case}
use recoup.Case.Lifecycle.{
  ◌⟶*◌, step, here, after, visits, is_terminal_iff_stuck, open_can_close,
  action_taken_needs_approval,
}
use recoup.Case.Transaction.{run}
use recoup.Case.Trace.{Traces}
use recoup.Case.Store.{find_case, find_case_for_invoice, create_case, announce}
use recoup.Case.Service.{transition}
use recoup.Case.Requests.{Request, human_transition, note_case, perform, handle_all}
use recoup.Case.Audit.{perform-Traces}
use recoup.Case.History.{Audited, handle_all-Audited, closed_case_stays_closed}
use recoup.Case.Isolation.{of_case, handle_all_isolated}
use recoup.Case.ActionRows.{AllSound, Frozen}
use recoup.Case.Ingestion.{
  Outcome, Progress, IngestionRun, done, failed, run_once, close_run, ingest,
}
use recoup.Case.Idempotence.{run_once_again}
use recoup.Tests.CaseData.{env, boss, case_in, session, store, invoice, left_by}

abbrev negotiate : Request
negotiate = human_transition boss negotiating none (some 3)

abbrev reopen : Request
reopen = human_transition boss investigating none none

perform-Traces_example :
    Traces
      (session investigating [])
      (left_by (session investigating []) (perform env negotiate (session investigating [])))
unfolding run perform transition assert_transition is_terminal
perform-Traces_example =
    perform-Traces env negotiate (session investigating [])
      {t = left_by (session investigating []) (perform env negotiate (session investigating []))}
      refl

abbrev escalate : Request
escalate = human_transition boss escalated none (some 3)

abbrev two_requests : List (ℕ × ℕ × Request)
two_requests = (7, 1, negotiate) ∷ (7, 1, note_case boss "called them") ∷ []

handle_all-Audited_example :
    Audited (store investigating) (handle_all env two_requests (store investigating))
handle_all-Audited_example = handle_all-Audited env two_requests (store investigating)

closed_case_stays_closed_example :
    (c' : Case) × (find_case 1
        (handle_all env ((7, 1, reopen) ∷ two_requests) (store resolved)).cases
      ≡ some c')
    × (c'.status ≡ resolved)
unfolding find_case is_terminal
closed_case_stays_closed_example =
    closed_case_stays_closed env ((7, 1, reopen) ∷ two_requests) (store resolved) 1
      {c = case_in resolved} refl refl

pending-AllSound : AllSound (store investigating).actions
pending-AllSound = ground arith

handle_all_isolated_example :
    (find_case 1 (handle_all env ((8, 1, negotiate) ∷ []) (store investigating)).cases
      ≡ some (case_in investigating))
    × Frozen
        (of_case 1)
        (store investigating).actions
        (handle_all env ((8, 1, negotiate) ∷ []) (store investigating)).actions
unfolding find_case
handle_all_isolated_example =
    handle_all_isolated env ((8, 1, negotiate) ∷ []) (store investigating) 1
      {c = case_in investigating} refl pending-AllSound ((λ e. absurd (omega (arith, e)), tt))

is_terminal_iff_stuck_example :
    (is_terminal resolved ≡ true) ↔ ((dst : CaseStatus) → assert_transition resolved dst ≢ legal)
is_terminal_iff_stuck_example = is_terminal_iff_stuck resolved

open_can_close_example :
    (assert_transition negotiating resolved ≡ legal)
    × (assert_transition negotiating written_off ≡ legal)
    × ((negotiating ≡ escalated) ⊎ (assert_transition negotiating escalated ≡ legal))
unfolding is_terminal
open_can_close_example = open_can_close negotiating refl

investigated_then_acted : investigating ⟶* action_taken
unfolding assert_transition
investigated_then_acted = after {t = pending_approval} (step refl) (after (step refl) here)

action_taken_needs_approval_example : visits pending_approval investigated_then_acted ≡ true
action_taken_needs_approval_example =
    action_taken_needs_approval investigated_then_acted refl (λ e. absurd (ground (arith, e)))

abbrev done_by : Progress → Outcome → Progress
done_by p (done q) = q
done_by p (failed e q) = p

abbrev first_run : Outcome × List IngestionRun
first_run = run_once env (λ ref. none) 7 1 (invoice ∷ []) (store investigating) []

abbrev fresh : Progress
fresh = record { store = store investigating; names = []; scanned = 0; created = 0; skipped = 0 }

run_once_again_example :
    run_once env (λ ref. none) 7 2 (invoice ∷ []) (done_by fresh first_run.0).store first_run.1 ≡ (
      done (record {
        store = (done_by fresh first_run.0).store;
        names = [];
        scanned = 1;
        created = 0;
        skipped = 1;
      }),
      first_run.1
          ++ (record {
            id = 2;
            tenant_id = 7;
            started_at = env.now;
            finished_at = some env.now;
            scanned = 1;
            created = 0;
            error = none;
          }
              ∷ []),
    )
unfolding run run_once close_run ingest find_case_for_invoice create_case announce
run_once_again_example =
    run_once_again env (λ ref. none) 7 1 2 (invoice ∷ []) (store investigating) [] first_run.1
      {q = done_by fresh first_run.0} refl refl
