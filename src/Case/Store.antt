-- ===== src/Case/Store.antt =====
-- The tables of the case service as a whole, a request on one case as one transaction over them
-- (`get_case` and the commit or rollback of `Database.session`), and `create_case` of
-- services/case/recoup_case/service.py.
use recoup.Common.{
  ℕ, String, Bool, false, not, ◌&&◌, Option, none, some, List, [], ◌∷◌, ◌++◌, ◌==◌, if◌then◌else◌,
  length, find, map, any, or_default, str_eq,
}
use recoup.Outbox.{Env, OutboxRow}
use recoup.Case.Status.{new, autonomous}
use recoup.Case.Records
use recoup.Case.Records.{
  Case, CaseInvoice, ProposedAction, TimelineEvent, EventPayload, CaseCreate, Actor, named,
}
use recoup.Case.Transaction.{
  Tx, run, ◌>>=◌, ◌>>◌, pure, flush, add_timeline, emit, Session, Result, ok, err, case_not_found,
  invoice_has_case, duplicate_key,
}
use recoup.Case.Service.{compute_priority}

pub record Store : Type 0 where
  pub cases : List Case
  pub invoices : List CaseInvoice
  pub actions : List ProposedAction
  pub timeline : List TimelineEvent
  pub outbox : List (OutboxRow EventPayload)

-- `session.get(Case, id)`
unfoldable pub find_case : ℕ → List Case → Option Case
find_case case_id = find (λ c. c.id == case_id)

-- A case of another tenant is not found.
unfoldable pub get_case : ℕ → ℕ → Store → Result Case
unfolding find_case
get_case tenant_id case_id st = elim (find_case case_id st.cases) [
  | none ↦ err case_not_found
  | some c ↦ if not (c.tenant_id == tenant_id) then err case_not_found else ok c
]

unfoldable pub put_case : Case → List Case → List Case
put_case c = map (λ d. if d.id == c.id then c else d)

abbrev pub open_session : Store → Case → Session
open_session st c = record {
  case = c;
  dirty = false;
  actions = st.actions;
  timeline = st.timeline;
  outbox = st.outbox;
}

abbrev pub close_session : Store → Session → Store
close_session st s = record st {
  cases = put_case s.case st.cases;
  actions = s.actions;
  timeline = s.timeline;
  outbox = s.outbox;
}

-- `Database.session`: commit what returned, roll back what raised.
abbrev pub settle : {A : Type 0} → Store → Result (A × Session) → Result A × Store
settle st (err e) = (err e, st)
settle st (ok p) = (ok p.0, close_session st p.1)

-- `session.get(CaseInvoice, (tenant_id, ref))`
abbrev pub is_row : ℕ → String → CaseInvoice → Bool
is_row tenant_id ref r = r.tenant_id == tenant_id && str_eq r.invoice_ref ref

unfoldable pub has_invoice : ℕ → String → List CaseInvoice → Bool
has_invoice tenant_id ref = any (is_row tenant_id ref)

-- The first of the invoices that has a case already.
unfoldable pub taken_invoice : ℕ → List String → List CaseInvoice → Option String
unfolding has_invoice
taken_invoice tenant_id refs rows = find (λ ref. has_invoice tenant_id ref rows) refs

-- The rows that `create_case` adds; `none` where the primary key refuses one.
unfoldable pub insert_invoices : ℕ → ℕ → List String → List CaseInvoice → Result (List CaseInvoice)
unfolding has_invoice
insert_invoices tenant_id case_id [] rows = ok rows
insert_invoices tenant_id case_id (ref ∷ refs) rows =
    let rest =
      insert_invoices tenant_id case_id refs
        (rows ++ (record { tenant_id = tenant_id; invoice_ref = ref; case_id = case_id } ∷ [])) in
    if has_invoice tenant_id ref rows then err (duplicate_key ref) else rest

-- `find_case_for_invoice`: the join of the two tables, and its first row.
unfoldable pub case_of : List Case → Option CaseInvoice → Option Case
case_of cases none = none
case_of cases (some r) = find_case r.case_id cases

unfoldable pub find_case_for_invoice : ℕ → String → Store → Option Case
unfolding case_of
find_case_for_invoice tenant_id ref st = case_of st.cases (find (is_row tenant_id ref) st.invoices)

module _ (env : Env) where
  -- A transaction with the commit behind it.
  unfoldable pub committed : {A : Type 0} → Tx A → Tx A
  committed m = do a ← m; flush env; pure a

  abbrev pub on_loaded : {A : Type 0} → Tx A → Store → Result Case → Result A × Store
  on_loaded m st (err e) = (err e, st)
  on_loaded m st (ok c) = settle st (run (committed m) (open_session st c))

  -- A request on one case: load, run, commit; whatever raises leaves the tables as they were.
  unfoldable pub on_case : {A : Type 0} → ℕ → ℕ → Tx A → Store → Result A × Store
  on_case tenant_id case_id m st = on_loaded m st (get_case tenant_id case_id st)

  unfoldable pub new_case : ℕ → CaseCreate → ℕ → Case
  unfolding compute_priority
  new_case tenant_id body case_id = record {
    id = case_id;
    tenant_id = tenant_id;
    customer_ref = body.customer_ref;
    customer_name = body.customer_name;
    invoice_refs = body.invoice_refs;
    status = new;
    root_cause = none;
    root_cause_conf = none;
    priority = or_default body.priority (compute_priority body.amount_open body.days_overdue);
    amount_open = body.amount_open;
    currency = env.upper body.currency;
    days_overdue = body.days_overdue;
    assignee_id = none;
    agent_mode = autonomous;
    opened_at = env.now;
    updated_at = env.now;
    resolved_at = none;
    resolution = none;
    version = env.next_version 0;
  }

  -- The timeline entry and the event of a new case.
  unfoldable pub announce : CaseCreate → Actor → Tx (Unit {0})
  announce body actor_id = do
    add_timeline env "created" "system" actor_id
        (Records.case_opened body.invoice_refs body.days_overdue)
        (Records.created body.invoice_snapshot)
    λ s.
        emit env "case.created"
          (Records.case_created s.case.customer_ref s.case.invoice_refs s.case.amount_open
            s.case.currency s.case.priority s.case.days_overdue)
          s

  unfoldable pub create_case : ℕ → CaseCreate → Actor → Store → Result (Case × Store)
  unfolding taken_invoice insert_invoices new_case
  create_case tenant_id body actor_id st =
      elim (taken_invoice tenant_id body.invoice_refs st.invoices) [
        | some ref ↦ err (invoice_has_case ref)
        | none ↦
            let c = new_case tenant_id body (env.uuid4 (length st.cases)) in
            elim (insert_invoices tenant_id c.id body.invoice_refs st.invoices) [
              | err e ↦ err e
              | ok rows ↦ elim (run (announce body actor_id) (open_session st c)) [
                | err e ↦ err e
                | ok p ↦ ok (
                  c,
                  record {
                    cases = st.cases ++ (c ∷ []);
                    invoices = rows;
                    actions = st.actions;
                    timeline = p.1.timeline;
                    outbox = p.1.outbox;
                  },
                )
              ]
            ]
      ]
