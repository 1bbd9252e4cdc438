-- ===== src/Erp/Tables.antt =====
-- The tables of services/mock-erp/recoup_mock_erp/models.py that a request changes, and the requests that
-- change them: routes.py and `apply_credit_memo` of repo.py there. Amounts in the tables are cents, as
-- their columns keep them; the references that
-- uuid4 makes and the clock are arguments; the texts of a memo and the dates of a plan are numbers and
-- texts that nothing reads.
use recoup.Common.{
  ℕ, ◌+◌, ◌-◌, ◌*◌, String, Bool, not, leb, ◌&&◌, ◌||◌, Option, none, some, List, [], ◌∷◌, ◌++◌,
  map, filter, find, any, length, ltb, ◌==◌, str_eq, if◌then◌else◌,
}
use recoup.Common.Int.{ℤ, pos, ltb_ℤ, eqb_ℤ, pos_part}
use recoup.Tools.Invoices.{half_even}
use recoup.Tools.Plan.{PlanInstallment, plan_rows, sum_ℕ}

pub data InvoiceStatus : Type 0 where
  open_status partially_paid paid void : InvoiceStatus

pub record InvoiceRow : Type 0 where
  pub invoice_ref : String
  pub customer_ref : String
  pub status : InvoiceStatus
  pub amount_paid : ℕ
  pub amount_open : ℕ

pub record CreditMemo : Type 0 where
  pub credit_memo_ref : String
  pub invoice_ref : String
  pub customer_ref : String
  pub amount : ℕ
  pub idempotency_key : String

pub record PaymentPlan : Type 0 where
  pub plan_ref : String
  pub customer_ref : String
  pub invoice_refs : List String
  pub installments : List PlanInstallment
  pub total : ℕ
  pub idempotency_key : String

pub record Tables : Type 0 where
  pub invoices : List InvoiceRow
  pub memos : List CreditMemo
  pub plans : List PaymentPlan

-- One constructor for each `raise`.
pub data ErpError : Type 0 where
  invoice_not_found invalid_amount several_customers : ErpError

pub data Reply (A : Type 0) : Type 0 where
  replies : A → Tables → Reply A
  fails : ErpError → Reply A

-- A decimal amount: whole cents and a part of a cent, `part` over `of`.
pub record Amount : Type 0 where
  pub cents : ℤ
  pub part : ℕ
  pub of : ℕ

pub record CreditMemoRequest : Type 0 where
  pub invoice_ref : String
  pub amount : Amount
  pub idempotency_key : String

pub record PaymentPlanRequest : Type 0 where
  pub invoice_refs : List String
  pub installments : ℕ  -- from 1 to 12
  pub first_due : ℕ
  pub discount_pct : ℕ  -- in hundredths, at most 10000: the gateway lets nothing else through
  pub idempotency_key : String

abbrev pub has_ref : String → InvoiceRow → Bool
has_ref ref i = str_eq i.invoice_ref ref

-- `session.get(Invoice, ref)`
unfoldable pub get_invoice : String → List InvoiceRow → Option InvoiceRow
get_invoice ref rows = find (has_ref ref) rows

-- The row of that key is written.
unfoldable pub put_invoice : InvoiceRow → List InvoiceRow → List InvoiceRow
put_invoice i [] = []
put_invoice i (row ∷ rows) =
    let rest = put_invoice i rows in if has_ref i.invoice_ref row then i ∷ rows else row ∷ rest

-- `amount <= 0 or amount > amount_open`
abbrev pub is_refused : Amount → ℕ → Bool
is_refused a open_cents =
    (ltb_ℤ a.cents (pos 0) || (eqb_ℤ a.cents (pos 0) && a.part == 0))
    || (ltb_ℤ (pos open_cents) a.cents || (eqb_ℤ a.cents (pos open_cents) && not (a.part == 0)))

-- What a column of two decimals keeps of a positive amount: half a cent is rounded up.
unfoldable pub stored : Amount → ℕ
stored a =
    if a.part == 0
    then pos_part a.cents
    else if leb a.of (2 * a.part)
    then pos_part a.cents + 1
    else pos_part a.cents

-- What it keeps of the open amount less an amount that is not above it.
unfoldable pub stored_left : ℕ → Amount → ℕ
stored_left open_cents a =
    if a.part == 0
    then open_cents - pos_part a.cents
    else if leb (2 * a.part) a.of
    then open_cents - pos_part a.cents
    else open_cents - pos_part a.cents - 1

-- `apply_credit_memo`. The status looks at what is left before the column rounds it.
unfoldable pub apply_credit_memo : InvoiceRow → Amount → InvoiceRow
unfolding stored_left
apply_credit_memo i a = record i {
  amount_open = stored_left i.amount_open a;
  status =
      if a.part == 0 && i.amount_open - pos_part a.cents == 0
      then (if ltb 0 i.amount_paid then paid else void)
      else i.status;
}

abbrev pub same_key : String → CreditMemo → Bool
same_key key m = str_eq m.idempotency_key key

abbrev pub new_memo : String → CreditMemoRequest → InvoiceRow → CreditMemo
new_memo ref body i = record {
  credit_memo_ref = ref;
  invoice_ref = i.invoice_ref;
  customer_ref = i.customer_ref;
  amount = stored body.amount;
  idempotency_key = body.idempotency_key;
}

-- The reply is the row as the table keeps it; the first reply of the source shows the amount before the
-- column rounds it.
-- The invoice was found: the amount is checked, then the memo is written.
unfoldable pub credit : String → CreditMemoRequest → InvoiceRow → Tables → Reply CreditMemo
unfolding put_invoice apply_credit_memo
credit ref body i t =
    if is_refused body.amount i.amount_open
    then fails invalid_amount
    else replies (new_memo ref body i) (record t {
      invoices = put_invoice (apply_credit_memo i body.amount) t.invoices;
      memos = t.memos ++ (new_memo ref body i ∷ []);
    })

unfoldable pub create_credit_memo : String → CreditMemoRequest → Tables → Reply CreditMemo
unfolding credit get_invoice
create_credit_memo ref body t = elim (find (same_key body.idempotency_key) t.memos) [
  | some existing ↦ replies existing t
  | none ↦ elim (get_invoice body.invoice_ref t.invoices) [
    | none ↦ fails invoice_not_found
    | some i ↦ credit ref body i t
  ]
]

abbrev pub is_among : List String → String → Bool
is_among names name = any (str_eq name) names

-- `len(set(names))`
unfoldable pub count_distinct : List String → ℕ
count_distinct [] = 0
count_distinct (x ∷ names) =
    let rest = count_distinct names in if is_among names x then rest else rest + 1

abbrev pub customers_of : List InvoiceRow → List String
customers_of rows = map (λ i. i.customer_ref) rows

abbrev pub open_amounts : List InvoiceRow → List ℕ
open_amounts rows = map (λ i. i.amount_open) rows

abbrev pub plan_key : String → PaymentPlan → Bool
plan_key key p = str_eq p.idempotency_key key

-- The open total less the discount, rounded as `quantize` does.
unfoldable pub discounted : ℕ → ℕ → ℕ
unfolding half_even
discounted total_open discount_pct = half_even (total_open * (10000 - discount_pct)) 10000

abbrev pub new_plan : String → PaymentPlanRequest → String → ℕ → PaymentPlan
new_plan ref body customer total = record {
  plan_ref = ref;
  customer_ref = customer;
  invoice_refs = body.invoice_refs;
  installments =
      plan_rows body.installments 0 body.first_due (half_even total body.installments) (pos total);
  total = total;
  idempotency_key = body.idempotency_key;
}

abbrev pub save_plan : PaymentPlan → Tables → Reply PaymentPlan
save_plan p t = replies p (record t { plans = t.plans ++ (p ∷ []) })

abbrev pub of_customer : String → PaymentPlanRequest → List InvoiceRow → Tables → Reply PaymentPlan
of_customer ref body [] t = fails several_customers
of_customer ref body (i ∷ rows) t =
    if count_distinct (customers_of (i ∷ rows)) == 1
    then save_plan
        (new_plan ref body i.customer_ref
          (discounted (sum_ℕ (open_amounts (i ∷ rows))) body.discount_pct))
        t
    else fails several_customers

unfoldable pub plan : String → PaymentPlanRequest → List InvoiceRow → Tables → Reply PaymentPlan
unfolding count_distinct discounted
plan ref body rows t =
    if length rows == count_distinct body.invoice_refs
    then of_customer ref body rows t
    else fails invoice_not_found

unfoldable pub create_payment_plan : String → PaymentPlanRequest → Tables → Reply PaymentPlan
unfolding plan
create_payment_plan ref body t = elim (find (plan_key body.idempotency_key) t.plans) [
  | some existing ↦ replies existing t
  | none ↦ plan ref body (filter (λ i. is_among body.invoice_refs i.invoice_ref) t.invoices) t
]

-- The requests that change tables. A request that raises is rolled back.
pub data ErpRequest : Type 0 where
  credit_memo : String → CreditMemoRequest → ErpRequest
  payment_plan : String → PaymentPlanRequest → ErpRequest

abbrev pub settled : {A : Type 0} → Tables → Reply A → Tables
settled t (replies a t') = t'
settled t (fails e) = t

unfoldable pub answer : ErpRequest → Tables → Tables
answer (credit_memo ref body) t = settled t (create_credit_memo ref body t)
answer (payment_plan ref body) t = settled t (create_payment_plan ref body t)

unfoldable pub answer_all : List ErpRequest → Tables → Tables
unfolding answer
answer_all [] t = t
answer_all (q ∷ requests) t = answer_all requests (answer q t)
