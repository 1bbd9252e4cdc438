-- ===== src/Case/Ingestion.antt =====
-- `IngestionJob.run_once` of services/case/recoup_case/ingestion.py: one case for each overdue invoice
-- that the ERP lists. What the ERP adapter answers is an argument: the list of invoices, and the name
-- of a customer, `none` where the call raises. Each invoice is a transaction of its own. The polling
-- loop around `run_once` is not modelled.
use recoup.Common.{
  ℕ, ◌+◌, ◌++◌, map, ◌==◌, String, Option, none, some, List, [], ◌∷◌, str_eq, if◌then◌else◌,
  is_some,
}
use recoup.Common.Int.{ℤ}
use recoup.Json.{Value}
use recoup.Outbox.{Env}
use recoup.Case.Records.{CaseCreate, named}
use recoup.Case.Transaction.{Result, ok, err, Error}
use recoup.Case.Store.{Store, find_case_for_invoice, create_case}

-- The fields of recoup_erp's `Invoice` that ingestion reads; `days_overdue` is that of the run's day
-- and `snapshot` the JSON dump without the lines.
pub record OverdueInvoice : Type 0 where
  pub invoice_ref : String
  pub customer_ref : String
  pub amount_open : ℤ
  pub currency : String
  pub days_overdue : ℤ
  pub snapshot : Value

abbrev pub Names : Type 0
Names = List (String × String)

pub lookup_name : String → Names → Option String
lookup_name ref [] = none
lookup_name ref ((k, v) ∷ names) = if str_eq k ref then some v else lookup_name ref names

-- The table `ingestion_runs`; `error` is set where the run raised.
pub record IngestionRun : Type 0 where
  pub id : ℕ
  pub tenant_id : ℕ
  pub started_at : ℕ
  pub finished_at : Option ℕ
  pub scanned : ℕ
  pub created : ℕ
  pub error : Option Error

pub record Progress : Type 0 where
  pub store : Store
  pub names : Names
  pub scanned : ℕ
  pub created : ℕ
  pub skipped : ℕ

-- A run ends with its result, or raises what a transaction raised.
pub data Outcome : Type 0 where
  done : Progress → Outcome
  failed : Error → Progress → Outcome

unfoldable pub to_case_create : OverdueInvoice → Option String → CaseCreate
to_case_create inv customer_name = record {
  customer_ref = inv.customer_ref;
  customer_name = customer_name;
  invoice_refs = inv.invoice_ref ∷ [];
  amount_open = inv.amount_open;
  currency = inv.currency;
  days_overdue = inv.days_overdue;
  priority = none;
  invoice_snapshot = some inv.snapshot;
}

module _ (env : Env) (get_customer : String → Option String) (tenant_id : ℕ) where
  -- The cache of customer names; an error of the adapter is suppressed.
  unfoldable pub learn_name : String → Names → Names
  unfolding lookup_name
  learn_name ref names = elim (lookup_name ref names) [
    | some v ↦ names
    | none ↦ elim (get_customer ref) [ none ↦ names | some v ↦ (ref, v) ∷ names ]
  ]

  abbrev pub after_create : OverdueInvoice → Names → Progress → Result (Store) → Outcome
  after_create inv names p (err e) = failed e (record p { names = names; scanned = p.scanned + 1 })
  after_create inv names p (ok st) =
      done
        (record p { store = st; names = names; scanned = p.scanned + 1; created = p.created + 1 })

  abbrev pub new_store : {A : Type 0} → Result (A × Store) → Result Store
  new_store (err e) = err e
  new_store (ok q) = ok q.1

  -- The body of the loop.
  unfoldable pub ingest : OverdueInvoice → Progress → Outcome
  unfolding learn_name to_case_create
  ingest inv p =
      if is_some (find_case_for_invoice tenant_id inv.invoice_ref p.store)
      then done (record p { scanned = p.scanned + 1; skipped = p.skipped + 1 })
      else (let names = learn_name inv.customer_ref p.names in
          after_create inv names p (
            new_store (
              create_case env tenant_id (to_case_create inv (lookup_name inv.customer_ref names))
                (named "system:ingestion") p.store)))

  unfoldable pub ingest_all : List OverdueInvoice → Progress → Outcome
  ingest_all [] p = done p
  ingest_all (inv ∷ rest) p = elim (ingest inv p) [
    | failed e q ↦ failed e q
    | done q ↦ ingest_all rest q
  ]

  abbrev pub fresh_progress : Store → Progress
  fresh_progress st = record { store = st; names = []; scanned = 0; created = 0; skipped = 0 }

  -- The row that a run adds before it asks the ERP,
  abbrev pub opened_run : ℕ → IngestionRun
  opened_run id = record {
    id = id;
    tenant_id = tenant_id;
    started_at = env.now;
    finished_at = none;
    scanned = 0;
    created = 0;
    error = none;
  }

  -- and what it writes into it in the end.
  abbrev pub closed_run : Outcome → IngestionRun → IngestionRun
  closed_run (done p) r = record r {
    finished_at = some env.now;
    scanned = p.scanned;
    created = p.created;
  }
  closed_run (failed e p) r = record r {
    finished_at = some env.now;
    scanned = p.scanned;
    created = p.created;
    error = some e;
  }

  unfoldable pub close_run : ℕ → Outcome → List IngestionRun → List IngestionRun
  close_run id outcome runs = map (λ r. if r.id == id then closed_run outcome r else r) runs

  -- A run with the id of its row, on the tables.
  unfoldable pub run_once :
      ℕ → List OverdueInvoice → Store → List IngestionRun → Outcome × List IngestionRun
  unfolding ingest_all close_run
  run_once id invoices st runs =
      let outcome = ingest_all invoices (fresh_progress st) in
      (outcome, close_run id outcome (runs ++ (opened_run id ∷ [])))
