-- ===== src/Case/Locking.antt =====
-- Optimistic locking of the cases, one request after another: the check of `expected_version` in `_touch`
-- (services/case/recoup_case/service.py), and the version that SQLAlchemy bumps.
use recoup.Common.{ℕ, ◌*◌, ◌≤◌, ◌<◌, ◌≡◌, some}
use recoup.Outbox.{Env}
use recoup.Case.Records.{Case}
use recoup.Case.Transaction.{Session, Result, ok, err}
use recoup.Case.Store.{Store, find_case}
use recoup.Case.Rises.{Rises}

-- No case has a lower version than before.
abbrev pub Higher : Store → Store → Type 0
Higher st st' =
    (j : ℕ) (d' : Case)
    → find_case j st'.cases ≡ some d'
    → (d : Case) × (find_case j st.cases ≡ some d) × (d.version ≤ d'.version)

-- The version that a call which returns has reached, twice.
abbrev Reaches : {A : Type 0} → ℕ → Result (A × Session) → Type 0
Reaches n (ok p) = n ≤ p.1.case.version * 2
Reaches n (err e) = Unit

abbrev Capped : {A : Type 0} → ℕ → Session → Result (A × Session) → Type 0
Capped v s (ok p) = s.case.version ≤ v
Capped v s (err e) = Unit

module _ (env : Env) (bumps : (v : ℕ) → v < env.next_version v) where
  -- No row of the case has the version `v` or a lower one.
  abbrev Past : ℕ → ℕ → Store → Type 0
  Past v k st = (d : Case) → find_case k st.cases ≡ some d → v < d.version
