-- ===== src/Erp/Plans.antt =====
-- The payment plan that the ERP books (services/mock-erp) against the one that the tool gateway shows before
-- (services/tool-gateway/recoup_tool_gateway/tools/reconcile.py).
use recoup.Common.{
  ℕ, zero, suc, ◌+◌, ◌-◌, ◌*◌, ◌≤◌, ◌≡◌, refl, sym, subst, ap, ◌∙◌, String, Bool, true, false, not,
  ◌&&◌, none, List, [], ◌∷◌, map, filter, find, str_eq, str_eq_iff, if◌then◌else◌, arith,
  Bool-cases, inl, inr,
}
use recoup.Tools.Invoices.{half_up, half_even}
use recoup.Tools.Plan.{simulate_payment_plan, sum_ℕ}
use recoup.Erp.Tables.{
  InvoiceRow, Tables, PaymentPlan, PaymentPlanRequest, get_invoice, is_among, open_amounts,
  plan_key, of_customer, plan, create_payment_plan, discounted, replies,
}
use recoup.Erp.Credits.{open_of}

parts : (a p : ℕ) → p ≤ 10000 → a * (10000 - p) + a * p ≡ a * 10000
parts zero p h = omega arith
parts (suc a) p h = omega (arith, parts a p h)

even_close :
    (total kept off : ℕ)
    → kept + off ≡ total * 10000
    → (total - half_up off 10000 ≤ half_even kept 10000)
      × (half_even kept 10000 ≤ total - half_up off 10000 + 1)
unfolding half_up half_even
even_close total kept off h = (ground arith, ground arith)

discounted-close :
    (open_amounts : List ℕ) (installments first_due discount_pct : ℕ)
    → discount_pct ≤ 10000
    → ((simulate_payment_plan open_amounts installments first_due discount_pct).plan_total
        ≤ discounted (sum_ℕ open_amounts) discount_pct)
      × (discounted (sum_ℕ open_amounts) discount_pct
          ≤ (simulate_payment_plan open_amounts installments first_due discount_pct).plan_total + 1)
unfolding simulate_payment_plan discounted
discounted-close open_amounts installments first_due pct h =
    even_close (sum_ℕ open_amounts) _ _ (parts (sum_ℕ open_amounts) pct h)

-- No name twice.
abbrev pub is_distinct : List String → Bool
is_distinct [] = true
is_distinct (x ∷ names) = not (is_among names x) && is_distinct names

abbrev pub refs_of : List InvoiceRow → List String
refs_of rows = map (λ i. i.invoice_ref) rows

-- What the gateway reads for each reference that it is given.
abbrev pub read_open : List InvoiceRow → List String → List ℕ
read_open rows refs = map (λ r. open_of (get_invoice r rows)) refs

abbrev amount_if : Bool → ℕ → ℕ
amount_if b n = if b then n else 0

not_there :
    (ref : String) (rows : List InvoiceRow)
    → is_among (refs_of rows) ref ≡ false
    → get_invoice ref rows ≡ none
unfolding get_invoice
not_there ref [] h = refl
not_there ref (i ∷ rows) h =
    ground (arith, not_there ref rows, str_eq_iff ref i.invoice_ref, str_eq_iff i.invoice_ref ref)

-- One more invoice is read once, where its reference is asked for.
read_one :
    (i : InvoiceRow) (rows : List InvoiceRow) (refs : List String)
    → is_among (refs_of rows) i.invoice_ref ≡ false
    → is_distinct refs ≡ true
    → sum_ℕ (read_open (i ∷ rows) refs)
      ≡ amount_if (is_among refs i.invoice_ref) i.amount_open + sum_ℕ (read_open rows refs)
unfolding get_invoice
read_one i rows [] n d = refl
read_one i rows (r ∷ refs) n d =
    let rest = read_one i rows refs n (ground (arith, d)) in
    elim (Bool-cases (str_eq i.invoice_ref r)) [
      | inl y ↦
          let here : i.invoice_ref ≡ r = ground (arith, str_eq_iff i.invoice_ref r) in
          let gone : get_invoice r rows ≡ none =
            subst (λ x. get_invoice x rows ≡ none) here (not_there i.invoice_ref rows n) in
          let once : is_among refs i.invoice_ref ≡ false =
            subst (λ x. is_among refs x ≡ false) (sym here) (ground (arith, d)) in
          ground (arith, rest, gone, once, y)
      | inr z ↦ ground (arith, rest, z)
    ]

read_all :
    (rows : List InvoiceRow) (refs : List String)
    → is_distinct (refs_of rows) ≡ true
    → is_distinct refs ≡ true
    → sum_ℕ (open_amounts (filter (λ i. is_among refs i.invoice_ref) rows))
      ≡ sum_ℕ (read_open rows refs)
unfolding get_invoice
read_all [] [] d e = refl
read_all [] (r ∷ refs) d e = omega (arith, read_all [] refs d (ground (arith, e)))
read_all (i ∷ rows) refs d e = ground (arith, read_one i rows refs, read_all rows refs, d, e)

of_customer-total :
    (ref : String) (body : PaymentPlanRequest) (rows : List InvoiceRow) (t u : Tables)
    (p : PaymentPlan)
    → of_customer ref body rows t ≡ replies p u
    → p.total ≡ discounted (sum_ℕ (open_amounts rows)) body.discount_pct
of_customer-total ref body [] t u p h = absurd (ground (arith, h))
of_customer-total ref body (i ∷ rows) t u p h = ground (arith, h)

-- A plan that the ERP books for a new key totals what the tool gateway showed for the same references before,
-- or a cent more: where no reference is given twice, at most 100 percent are given off, and the references of
-- the table are distinct, as its primary key says.
pub booked-close :
    (ref : String) (body : PaymentPlanRequest) (t u : Tables) (p : PaymentPlan)
    → is_distinct (refs_of t.invoices) ≡ true
    → is_distinct body.invoice_refs ≡ true
    → body.discount_pct ≤ 10000
    → find (plan_key body.idempotency_key) t.plans ≡ none
    → create_payment_plan ref body t ≡ replies p u
    → ((simulate_payment_plan
          (read_open t.invoices body.invoice_refs)
          body.installments
          body.first_due
          body.discount_pct).plan_total
        ≤ p.total)
      × (p.total
          ≤ (simulate_payment_plan
              (read_open t.invoices body.invoice_refs)
              body.installments
              body.first_due
              body.discount_pct).plan_total
            + 1)
unfolding create_payment_plan plan
booked-close ref body t u p d e k n h =
    let rows = filter (λ i. is_among body.invoice_refs i.invoice_ref) t.invoices in
    let booked : of_customer ref body rows t ≡ replies p u = ground (arith, n, h) in
    let total = of_customer-total ref body rows t u p booked in
    let read =
      total
      ∙ ap (λ x. discounted x body.discount_pct) (read_all t.invoices body.invoice_refs d e) in
    let close =
      discounted-close (read_open t.invoices body.invoice_refs) body.installments body.first_due
        body.discount_pct k in
    (omega (arith, read, close.0), omega (arith, read, close.1))
