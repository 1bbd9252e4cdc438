-- ===== src/Erp/Credits.antt =====
-- Credit memos of services/mock-erp: what is open and what was credited balance, and a request that is sent
-- again credits nothing more.
use recoup.Common.{
  ℕ, ◌+◌, ◌≤◌, ◌≡◌, refl, sym, subst, String, true, false, Option, none, some, List, [], ◌∷◌, ◌++◌,
  filter, length, find, ◌==◌, str_eq, str_eq_iff, if◌then◌else◌, arith, Bool-cases, Option-cases,
  inl, inr, is_some,
}
use recoup.Common.Int.{ℤ, pos, negsuc}
use recoup.Erp.Tables.{
  InvoiceRow, CreditMemo, PaymentPlan, Tables, CreditMemoRequest, PaymentPlanRequest, Amount,
  is_refused, stored, stored_left, get_invoice, put_invoice, apply_credit_memo, same_key, new_memo,
  credit, create_credit_memo, is_among, count_distinct, customers_of, plan_key, of_customer, plan,
  create_payment_plan, ErpRequest, settled, answer, answer_all, credit_memo, payment_plan,
}

-- What is open on an invoice, and the sum of the memos on it.
abbrev pub open_of : Option InvoiceRow → ℕ
open_of none = 0
open_of (some i) = i.amount_open

unfoldable pub amount_open : String → Tables → ℕ
amount_open ref t = open_of (get_invoice ref t.invoices)

unfoldable pub sum_memos : String → List CreditMemo → ℕ
sum_memos ref [] = 0
sum_memos ref (m ∷ memos) =
    let rest = sum_memos ref memos in if str_eq m.invoice_ref ref then m.amount + rest else rest

unfoldable pub credited : String → Tables → ℕ
credited ref t = sum_memos ref t.memos

sum_memos-append :
    (ref : String) (memos : List CreditMemo) (m : CreditMemo)
    → sum_memos ref (memos ++ (m ∷ []))
      ≡ sum_memos ref memos + (if str_eq m.invoice_ref ref then m.amount else 0)
unfolding sum_memos
sum_memos-append ref [] m = ground arith
sum_memos-append ref (x ∷ memos) m = ground (arith, sum_memos-append ref memos m)

-- Writing the row back replaces what is found under its reference.
put_invoice-same :
    (i : InvoiceRow) (rows : List InvoiceRow)
    → is_some (get_invoice i.invoice_ref rows) ≡ true
    → get_invoice i.invoice_ref (put_invoice i rows) ≡ some i
unfolding get_invoice put_invoice
put_invoice-same i [] h = ground arith
put_invoice-same i (row ∷ rows) h =
    ground (arith, put_invoice-same i rows, str_eq_iff i.invoice_ref i.invoice_ref)

put_invoice-other :
    (ref : String) (i : InvoiceRow) (rows : List InvoiceRow)
    → str_eq i.invoice_ref ref ≡ false
    → get_invoice ref (put_invoice i rows) ≡ get_invoice ref rows
unfolding get_invoice put_invoice
put_invoice-other ref i [] h = refl
put_invoice-other ref i (row ∷ rows) h = ground (
  arith,
  put_invoice-other ref i rows h,
  str_eq_iff row.invoice_ref i.invoice_ref,
  str_eq_iff i.invoice_ref ref,
)

get_invoice-ref :
    (ref : String) (rows : List InvoiceRow) (i : InvoiceRow)
    → get_invoice ref rows ≡ some i
    → i.invoice_ref ≡ ref
unfolding get_invoice
get_invoice-ref ref [] i h = ground arith
get_invoice-ref ref (row ∷ rows) i h =
    ground (arith, get_invoice-ref ref rows i, str_eq_iff row.invoice_ref ref)

-- The sum of what is open on an invoice and what was credited.
abbrev balance : String → Tables → ℕ
balance ref t = amount_open ref t + credited ref t

-- The new tables of a memo that passed the check.
abbrev credited_tables : String → CreditMemoRequest → InvoiceRow → Tables → Tables
credited_tables ref body i t = record t {
  invoices = put_invoice (apply_credit_memo i body.amount) t.invoices;
  memos = t.memos ++ (new_memo ref body i ∷ []);
}

-- An amount that is not in whole cents counts for one.
abbrev pub fraction : Amount → ℕ
fraction a = if a.part == 0 then 0 else 1

-- Rounding the memo and what is left adds at most a cent, and none to whole cents.
stored-balance :
    (a : Amount) (n : ℕ)
    → is_refused a n ≡ false
    → (n ≤ stored_left n a + stored a) × (stored_left n a + stored a ≤ n + fraction a)
unfolding stored stored_left
stored-balance a n h = within a.cents refl
  where
    within :
        (z : ℤ)
        → a.cents ≡ z
        → (n ≤ stored_left n a + stored a) × (stored_left n a + stored a ≤ n + fraction a)
    within (pos m) e = (ground (arith, h, e), ground (arith, h, e))
    within (negsuc m) e = absurd (ground (arith, h, e))

-- The balance stays, or grows by at most `more`.
abbrev Near : String → Tables → Tables → ℕ → Type 0
Near name t u more = (balance name t ≤ balance name u) × (balance name u ≤ balance name t + more)

Near-refl : (name : String) (t : Tables) (more : ℕ) → Near name t t more
Near-refl name t more = (omega arith, omega arith)

credited-Near :
    (name memo_ref : String) (body : CreditMemoRequest) (i : InvoiceRow) (t : Tables)
    → get_invoice i.invoice_ref t.invoices ≡ some i
    → is_refused body.amount i.amount_open ≡ false
    → Near name t (credited_tables memo_ref body i t) (fraction body.amount)
unfolding amount_open credited apply_credit_memo
credited-Near name memo_ref body i t h k =
    let rounds = stored-balance body.amount i.amount_open k in
    elim (Bool-cases (str_eq i.invoice_ref name)) [
      | inl y ↦
          let same = put_invoice-same (apply_credit_memo i body.amount) t.invoices (rw h refl) in
          let here : i.invoice_ref ≡ name = ground (arith, str_eq_iff i.invoice_ref name) in
          let memos = sum_memos-append i.invoice_ref t.memos (new_memo memo_ref body i) in
          subst (λ r. Near r t (credited_tables memo_ref body i t) (fraction body.amount)) here
            (
              ground (arith, same, h, str_eq_iff i.invoice_ref i.invoice_ref, memos, rounds),
              ground (arith, same, h, str_eq_iff i.invoice_ref i.invoice_ref, memos, rounds),
            )
      | inr n ↦
          let other = put_invoice-other name (apply_credit_memo i body.amount) t.invoices n in
          let memos = sum_memos-append name t.memos (new_memo memo_ref body i) in
          (ground (arith, n, other, memos), ground (arith, n, other, memos))
    ]

credit-Near :
    (name memo_ref : String) (body : CreditMemoRequest) (i : InvoiceRow) (t : Tables)
    → get_invoice i.invoice_ref t.invoices ≡ some i
    → Near name t (settled t (credit memo_ref body i t)) (fraction body.amount)
unfolding credit
credit-Near name memo_ref body i t h = elim (Bool-cases (is_refused body.amount i.amount_open)) [
  | inl y ↦ rw (credit, y) (Near-refl name t (fraction body.amount))
  | inr n ↦ rw (credit, n) (credited-Near name memo_ref body i t h n)
]

create_credit_memo-Near :
    (name memo_ref : String) (body : CreditMemoRequest) (t : Tables)
    → Near name t (settled t (create_credit_memo memo_ref body t)) (fraction body.amount)
unfolding create_credit_memo
create_credit_memo-Near name memo_ref body t =
    elim (Option-cases (find (same_key body.idempotency_key) t.memos)) [
      | inl n ↦ elim (Option-cases (get_invoice body.invoice_ref t.invoices)) [
        | inl m ↦ rw (create_credit_memo, n, m) (Near-refl name t (fraction body.amount))
        | inr (i, y) ↦
            rw (create_credit_memo, n, y)
              (credit-Near name memo_ref body i t (
                subst (λ r. get_invoice r t.invoices ≡ some i)
                  (sym (get_invoice-ref body.invoice_ref t.invoices i y)) y))
      ]
      | inr (m, y) ↦ rw (create_credit_memo, y) (Near-refl name t (fraction body.amount))
    ]

abbrev pub SameCredits : Tables → Tables → Type 0
SameCredits t u = (u.invoices ≡ t.invoices) × (u.memos ≡ t.memos)

of_customer-tables :
    (plan_ref : String) (body : PaymentPlanRequest) (rows : List InvoiceRow) (t : Tables)
    → SameCredits t (settled t (of_customer plan_ref body rows t))
of_customer-tables plan_ref body [] t = (refl, refl)
of_customer-tables plan_ref body (i ∷ rows) t =
    elim (Bool-cases (count_distinct (customers_of (i ∷ rows)) == 1)) [
      | inl y ↦ rw y (refl, refl)
      | inr n ↦ rw n (refl, refl)
    ]

plan-tables :
    (plan_ref : String) (body : PaymentPlanRequest) (rows : List InvoiceRow) (t : Tables)
    → SameCredits t (settled t (plan plan_ref body rows t))
unfolding plan
plan-tables plan_ref body rows t =
    elim (Bool-cases (length rows == count_distinct body.invoice_refs)) [
      | inl y ↦ rw y (of_customer-tables plan_ref body rows t)
      | inr n ↦ rw n (refl, refl)
    ]

pub create_payment_plan-tables :
    (plan_ref : String) (body : PaymentPlanRequest) (t : Tables)
    → SameCredits t (settled t (create_payment_plan plan_ref body t))
unfolding create_payment_plan
create_payment_plan-tables plan_ref body t = go _ refl (plan-tables plan_ref body _ t)
  where
    go :
        (o : Option PaymentPlan)
        → find (plan_key body.idempotency_key) t.plans ≡ o
        → SameCredits t (
            settled t (
              plan plan_ref body
                (filter (λ i. is_among body.invoice_refs i.invoice_ref) t.invoices)
                t))
        → SameCredits t (settled t (create_payment_plan plan_ref body t))
    go none h k = rw (create_payment_plan, h) k
    go (some p) h k = rw (create_payment_plan, h) (refl, refl)

-- The requests for memos that are not in whole cents.
unfoldable pub fractions : List ErpRequest → ℕ
fractions [] = 0
fractions (credit_memo ref body ∷ requests) = fraction body.amount + fractions requests
fractions (payment_plan ref body ∷ requests) = fractions requests

plan-Near :
    (name ref : String) (body : PaymentPlanRequest) (t : Tables)
    → Near name t (settled t (create_payment_plan ref body t)) 0
unfolding amount_open credited
plan-Near name ref body t =
    let (same_invoices, same_memos) = create_payment_plan-tables ref body t in
    rw (same_invoices, same_memos) (Near-refl name t 0)

-- Whatever requests the ERP answers, of every invoice what is open and what was credited add up to what they
-- did before, or to more by at most one cent for each request for a memo that is not in whole cents: so that,
-- but for that rounding, no invoice is credited more than was open on it.
pub answer_all-balance :
    (name : String) (requests : List ErpRequest) (t : Tables)
    → (amount_open name t + credited name t
        ≤ amount_open name (answer_all requests t) + credited name (answer_all requests t))
      × (amount_open name (answer_all requests t) + credited name (answer_all requests t)
          ≤ amount_open name t + credited name t + fractions requests)
unfolding answer_all answer fractions
answer_all-balance name [] t = (omega arith, omega arith)
answer_all-balance name (credit_memo ref body ∷ requests) t =
    let step = create_credit_memo-Near name ref body t in
    let rest = answer_all-balance name requests (settled t (create_credit_memo ref body t)) in
    (omega (arith, step.0, rest.0), omega (arith, step.1, rest.1))
answer_all-balance name (payment_plan ref body ∷ requests) t =
    let step = plan-Near name ref body t in
    let rest = answer_all-balance name requests (settled t (create_payment_plan ref body t)) in
    (omega (arith, step.0, rest.0), omega (arith, step.1, rest.1))
