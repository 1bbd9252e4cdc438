-- ===== src/Case/Idempotence.antt =====
-- Running the ingestion again opens no second case (services/case/recoup_case/ingestion.py).
use recoup.Common.{
  ℕ, ◌+◌, ◌≡◌, ap, ◌∙◌, all, not, refl, String, Bool, true, false, Option, none, some, List, [],
  ◌∷◌, ◌++◌, arith, str_eq_iff, ◌==◌, is_some, find, any, length, find-append, inl, inr, Bool-cases,
  All,
}
use recoup.Outbox.{Env}
use recoup.Case.Records.{Case, CaseInvoice, Actor, named}
use recoup.Case.Transaction.{Result, ok, err, run}
use recoup.Case.Store.{
  Store, find_case, find_case_for_invoice, create_case, has_invoice, is_row, case_of,
  insert_invoices, taken_invoice, new_case, announce,
}
use recoup.Case.Ingestion.{
  OverdueInvoice, Progress, Outcome, done, failed, to_case_create, ingest, ingest_all, run_once,
  IngestionRun, opened_run, closed_run, close_run, after_create, new_store, learn_name, lookup_name,
}

-- The invoice has a case.
abbrev pub Covered : ℕ → Store → OverdueInvoice → Type 0
Covered tenant_id st inv = is_some (find_case_for_invoice tenant_id inv.invoice_ref st) ≡ true

find_case-append :
    (k : ℕ) (cs : List Case) (c : Case)
    → is_some (find_case k cs) ≡ true
    → is_some (find_case k (cs ++ (c ∷ []))) ≡ true
unfolding find_case
find_case-append k cs c h = ground (arith, find-append (λ d. d.id == k) cs (c ∷ []))

find_case-new : (cs : List Case) (c : Case) → is_some (find_case c.id (cs ++ (c ∷ []))) ≡ true
unfolding find_case
find_case-new cs c = ground (arith, find-append (λ d. d.id == c.id) cs (c ∷ []))

find_of_any :
    (p : CaseInvoice → Bool) (rows : List CaseInvoice) → any p rows ≡ false → find p rows ≡ none
find_of_any p [] h = refl
find_of_any p (r ∷ rows) h = ground (arith, find_of_any p rows)

old_row :
    (p : CaseInvoice → Bool) (cs : List Case) (c : Case) (rows : List CaseInvoice) (r : CaseInvoice)
    (o : Option CaseInvoice)
    → find p rows ≡ o
    → is_some (case_of cs o) ≡ true
    → is_some (case_of (cs ++ (c ∷ [])) (find p (rows ++ (r ∷ [])))) ≡ true
unfolding case_of
old_row p cs c rows r none e h = cc
old_row p cs c rows r (some x) e h =
    rw (find-append p rows (r ∷ [])) (rw e (find_case-append x.case_id cs c h))

new_row :
    (p : CaseInvoice → Bool) (cs : List Case) (c : Case) (rows : List CaseInvoice) (r : CaseInvoice)
    → find p rows ≡ none
    → p r ≡ true
    → r.case_id ≡ c.id
    → is_some (case_of (cs ++ (c ∷ [])) (find p (rows ++ (r ∷ [])))) ≡ true
unfolding case_of
new_row p cs c rows r e h i =
    rw (find-append p rows (r ∷ [])) (rw e (rw h (rw i (find_case-new cs c))))

module _ (env : Env) (tenant_id : ℕ) where
  -- What a successful call for one invoice has done to the two tables.
  create_case-tables :
      (inv : OverdueInvoice) (name : Option String) (actor : Actor) (st : Store) {q : Case × Store}
      → create_case env tenant_id (to_case_create inv name) actor st ≡ ok q
      → (has_invoice tenant_id inv.invoice_ref st.invoices ≡ false)
        × (q.1.cases ≡ st.cases ++ (q.0 ∷ []))
        × (q.1.invoices
            ≡ st.invoices
              ++ (record { tenant_id = tenant_id; invoice_ref = inv.invoice_ref; case_id = q.0.id }
                  ∷ []))
  unfolding create_case taken_invoice insert_invoices to_case_create new_case announce run
  create_case-tables inv name actor st {q} h =
      elim (Bool-cases (has_invoice tenant_id inv.invoice_ref st.invoices)) [
        | inl y ↦ absurd (ground arith)
        | inr n ↦ (n, ground arith, ground arith)
      ]

  -- The case that was opened covers its invoice, and every invoice that was covered still is.
  create_case-Covered :
      (inv : OverdueInvoice) (name : Option String) (actor : Actor) (st : Store) {q : Case × Store}
      → create_case env tenant_id (to_case_create inv name) actor st ≡ ok q
      → Covered tenant_id q.1 inv
        × ((other : OverdueInvoice) → Covered tenant_id st other → Covered tenant_id q.1 other)
  unfolding find_case_for_invoice has_invoice
  create_case-Covered inv name actor st {q} h =
      let (n, cs, rs) = create_case-tables inv name actor st h in
      (
        rw (cs, rs)
            (new_row (is_row tenant_id inv.invoice_ref) st.cases q.0 st.invoices _
              (find_of_any (is_row tenant_id inv.invoice_ref) st.invoices n)
              (ground (arith, str_eq_iff inv.invoice_ref inv.invoice_ref)) refl),
        λ other k.
            rw (cs, rs)
              (old_row (is_row tenant_id other.invoice_ref) st.cases q.0 st.invoices _ _ refl k),
      )

module _ (env : Env) (get_customer : String → Option String) (tenant_id : ℕ) where
  abbrev Grown : Store → Store → OverdueInvoice → Type 0
  Grown st st' inv =
      Covered tenant_id st' inv
      × ((other : OverdueInvoice) → Covered tenant_id st other → Covered tenant_id st' other)

  abbrev the_name : OverdueInvoice → Progress → Option String
  the_name inv p =
      lookup_name inv.customer_ref (learn_name env get_customer tenant_id inv.customer_ref p.names)

  created-Grown :
      (inv : OverdueInvoice) (p : Progress) {q : Progress} (r : Result (Case × Store))
      → create_case env tenant_id
          (to_case_create inv (the_name inv p))
          (named "system:ingestion")
          p.store
        ≡ r
      → after_create env get_customer tenant_id inv
          (learn_name env get_customer tenant_id inv.customer_ref p.names)
          p
          (new_store env get_customer tenant_id r)
        ≡ done q
      → Grown p.store q.store inv
  created-Grown inv p (err e) h k = cc
  created-Grown inv p {q} (ok x) h k =
      let same : x.1 ≡ q.store = cc in
      rw (← same) (create_case-Covered env tenant_id inv _ _ p.store h)

  -- One invoice: afterwards it has a case, and so has every one that had.
  ingest-Grown :
      (inv : OverdueInvoice) (p : Progress) {q : Progress}
      → ingest env get_customer tenant_id inv p ≡ done q
      → Grown p.store q.store inv
  unfolding ingest
  ingest-Grown inv p {q} h =
      elim (Bool-cases (is_some (find_case_for_invoice tenant_id inv.invoice_ref p.store))) [
        | inl y ↦ let same : p.store ≡ q.store = ground arith in rw (← same) (y, λ other k. k)
        | inr n ↦ created-Grown inv p {q = q} _ refl (ground arith)
      ]

  step_of :
      (inv : OverdueInvoice) (rest : List OverdueInvoice) (p : Progress) {q : Progress}
      (o : Outcome)
      → ingest env get_customer tenant_id inv p ≡ o
      → ingest_all env get_customer tenant_id (inv ∷ rest) p ≡ done q
      → (m : Progress) × (ingest env get_customer tenant_id inv p ≡ done m)
        × (ingest_all env get_customer tenant_id rest m ≡ done q)
  unfolding ingest_all
  step_of inv rest p (done m) e h = (m, e, ground arith)
  step_of inv rest p (failed x m) e h = absurd (ground arith)

  ingest_all-Grown :
      (invoices : List OverdueInvoice) (p : Progress) {q : Progress}
      → ingest_all env get_customer tenant_id invoices p ≡ done q
      → All (Covered tenant_id q.store) invoices
        × ((other : OverdueInvoice)
            → Covered tenant_id p.store other
            → Covered tenant_id q.store other)
  unfolding ingest_all
  ingest_all-Grown [] p {q} h = let same : p.store ≡ q.store = cc in (tt, λ other k. rw same at k)
  ingest_all-Grown (inv ∷ rest) p h =
      let (m, first, others) = step_of inv rest p _ refl h in
      let (own, keeps) = ingest-Grown inv p first in
      let (all_rest, keeps') = ingest_all-Grown rest m others in
      ((keeps' inv own, all_rest), λ other k. keeps' other (keeps other k))

  Covered-skips :
      (invoices : List OverdueInvoice) (p : Progress)
      → All (Covered tenant_id p.store) invoices
      → ingest_all env get_customer tenant_id invoices p
        ≡ done (record p {
          scanned = p.scanned + length invoices;
          skipped = p.skipped + length invoices;
        })
  unfolding ingest_all ingest
  Covered-skips [] p h = ground arith
  Covered-skips (inv ∷ rest) p h = ground (
    arith,
    Covered-skips rest (record p { scanned = p.scanned + 1; skipped = p.skipped + 1 }) h.1,
  )

  close_run-fresh :
      (id : ℕ) (o : Outcome) (runs : List IngestionRun)
      → all (λ r. not (r.id == id)) runs ≡ true
      → close_run env get_customer tenant_id id o
          (runs ++ (opened_run env get_customer tenant_id id ∷ []))
        ≡ runs
          ++ (closed_run env get_customer tenant_id o (opened_run env get_customer tenant_id id)
              ∷ [])
  unfolding close_run
  close_run-fresh id o [] h = ground arith
  close_run-fresh id o (r ∷ runs) h = ground (arith, close_run-fresh id o runs)

  -- When a run of the ingestion has ended without an error, a second run on the same invoices, with a new
  -- id, opens no case and changes no table but for one: it scans every invoice and skips every one, and it
  -- adds one row behind the others in `ingestion_runs`, which says so.
  pub run_once_again :
      (id again : ℕ) (invoices : List OverdueInvoice) (st : Store) (runs now : List IngestionRun)
      {q : Progress}
      → (run_once env get_customer tenant_id id invoices st runs).0 ≡ done q
      → all (λ r. not (r.id == again)) now ≡ true
      → run_once env get_customer tenant_id again invoices q.store now ≡ (
        done (record {
          store = q.store;
          names = [];
          scanned = length invoices;
          created = 0;
          skipped = length invoices;
        }),
        now
            ++ (record {
              id = again;
              tenant_id = tenant_id;
              started_at = env.now;
              finished_at = some env.now;
              scanned = length invoices;
              created = 0;
              error = none;
            }
                ∷ []),
      )
  unfolding run_once
  run_once_again id again invoices st runs now {q} h f =
      let result : Progress = record {
        store = q.store;
        names = [];
        scanned = length invoices;
        created = 0;
        skipped = length invoices;
      } in
      let start : Progress = record {
        store = q.store;
        names = [];
        scanned = 0;
        created = 0;
        skipped = 0;
      } in
      let covered = (ingest_all-Grown invoices _ h).0 in
      let skips : ingest_all env get_customer tenant_id invoices start ≡ done result =
        ground (arith, Covered-skips invoices start covered) in
      ap
        (λ o. (
          o,
          close_run env get_customer tenant_id again o
              (now ++ (opened_run env get_customer tenant_id again ∷ [])),
        ))
        skips
      ∙ ap (λ rows. (done result, rows)) (close_run-fresh again (done result) now f)
