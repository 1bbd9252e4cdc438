-- ===== src/Tests/Erp.antt =====
-- The theorems on the ERP, at concrete inputs.
use recoup.Common.{arith, ℕ, ◌+◌, ◌≤◌, ◌≡◌, refl, List, [], ◌∷◌}
use recoup.Common.Int.{pos}
use recoup.Tools.Plan.{simulate_payment_plan}
use recoup.Erp.Tables.{
  InvoiceRow, CreditMemo, Tables, CreditMemoRequest, PaymentPlan, PaymentPlanRequest, new_plan,
  new_memo, create_credit_memo, create_payment_plan, plan, discounted, stored, ErpRequest,
  answer_all, partially_paid, paid, replies, credit_memo,
}
use recoup.Erp.Credits.{amount_open, sum_memos, credited, fractions, answer_all-balance}
use recoup.Erp.Repeats.{create_credit_memo_again}
use recoup.Erp.Plans.{read_open, booked-close}

abbrev invoice : InvoiceRow
invoice = record {
  invoice_ref = "INV-1";
  customer_ref = "C-1";
  status = partially_paid;
  amount_paid = 2000;
  amount_open = 5000;
}

abbrev tables : Tables
tables = record { invoices = invoice ∷ []; memos = []; plans = [] }

abbrev body : ℕ → CreditMemoRequest
body cents = record {
  invoice_ref = "INV-1";
  amount = record { cents = pos cents; part = 0; of = 1 };
  idempotency_key = "exec-a";
}

abbrev first_memo : CreditMemo
first_memo = new_memo "CM-1" (body 5000) invoice

abbrev after_memo : Tables
after_memo = record {
  invoices = record invoice { amount_open = 0; status = paid } ∷ [];
  memos = first_memo ∷ [];
  plans = [];
}

made : create_credit_memo "CM-1" (body 5000) tables ≡ replies first_memo after_memo
unfolding create_credit_memo
made = refl

create_credit_memo_again_example :
    create_credit_memo "CM-2" (body 100) (answer_all (credit_memo "CM-3" (body 7) ∷ []) after_memo)
    ≡ replies first_memo (answer_all (credit_memo "CM-3" (body 7) ∷ []) after_memo)
create_credit_memo_again_example =
    create_credit_memo_again "CM-1" "CM-2" (body 5000) (body 100) (credit_memo "CM-3" (body 7) ∷ [])
      first_memo tables after_memo made refl

abbrev requests : List ErpRequest
requests = credit_memo "CM-1" (body 3000) ∷ credit_memo "CM-2" (body 9000) ∷ []

answer_all-balance_example :
    (amount_open "INV-1" tables + credited "INV-1" tables
      ≤ amount_open "INV-1" (answer_all requests tables)
        + credited "INV-1" (answer_all requests tables))
    × (amount_open "INV-1" (answer_all requests tables)
          + credited "INV-1" (answer_all requests tables)
        ≤ amount_open "INV-1" tables + credited "INV-1" tables + fractions requests)
answer_all-balance_example = answer_all-balance "INV-1" requests tables

credited_once : credited "INV-1" (answer_all requests tables) ≡ 3000
unfolding answer_all credited sum_memos create_credit_memo stored
credited_once = refl

-- A memo of half a cent: the column of the memo keeps a cent, and as much as before stays open.
abbrev half_a_cent : CreditMemoRequest
half_a_cent = record {
  invoice_ref = "INV-1";
  amount = record { cents = pos 0; part = 1; of = 2 };
  idempotency_key = "exec-h";
}

a_cent_more :
    amount_open "INV-1" (answer_all (credit_memo "CM-1" half_a_cent ∷ []) tables)
      + credited "INV-1" (answer_all (credit_memo "CM-1" half_a_cent ∷ []) tables)
    ≡ 5001
unfolding answer_all credited sum_memos create_credit_memo amount_open stored
a_cent_more = refl

abbrev half_off : PaymentPlanRequest
half_off = record {
  invoice_refs = "INV-1" ∷ [];
  installments = 2;
  first_due = 0;
  discount_pct = 5000;
  idempotency_key = "plan-a";
}

abbrev booked : PaymentPlan
booked = new_plan "PP-1" half_off "C-1" 2500

booked-close_example :
    ((simulate_payment_plan (read_open tables.invoices ("INV-1" ∷ [])) 2 0 5000).plan_total ≤ 2500)
    × (2500
        ≤ (simulate_payment_plan (read_open tables.invoices ("INV-1" ∷ [])) 2 0 5000).plan_total
          + 1)
unfolding create_payment_plan plan discounted
booked-close_example =
    booked-close "PP-1" half_off tables (record tables { plans = booked ∷ [] }) booked refl refl
      (ground arith) refl refl

-- One percent off 50 cents: shown as 49, booked as 50.
shown_49 : (simulate_payment_plan (50 ∷ []) 2 0 100).plan_total ≡ 49
unfolding simulate_payment_plan
shown_49 = refl

booked_50 : discounted 50 100 ≡ 50
unfolding discounted
booked_50 = refl
