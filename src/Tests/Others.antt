-- ===== src/Tests/Others.antt =====
-- The theorems on the tools and on the relay, at concrete inputs.
use recoup.Common.{
  ℕ, ◌+◌, ◌≤◌, ◌≡◌, String, true, false, Option, none, some, List, [], ◌∷◌, ◌++◌, map, ltb, arith,
  length, ◌==◌,
}
use recoup.Common.Int.{pos}
use recoup.Outbox.Rows.{OutboxRow, DomainEvent, to_event}
use recoup.Outbox.Relay.{pending, drain_once}
use recoup.Outbox.Order.{drain_once-pending}
use recoup.Tools.Invoices.{Invoice, PurchaseOrder}
use recoup.Tools.Reconcile.{DiscrepancyKind, price_above_po, qty_short_delivered}
use recoup.Tools.Credit.{reconcile, calculate_credit_memo}
use recoup.Tools.Caps.{calculate_credit_memo-capped}
use recoup.Tools.Plan.{simulate_payment_plan, sum_amounts, simulate_payment_plan-total}

abbrev row : ℕ → OutboxRow String
row id = record {
  id = id;
  aggregate_id = 1;
  tenant_id = 7;
  event_id = 1000 + id;
  event_type = "case.created";
  source = "case-service";
  traceparent = none;
  payload = "{}";
  created_at = 50;
  published_at = none;
  attempts = 0;
  last_error = none;
}

abbrev table : List (OutboxRow String)
table = row 0 ∷ row 1 ∷ row 2 ∷ []

-- A broker that refuses one event.
abbrev publish : DomainEvent String → ℕ → Option String
publish event key = elim (event.id == 1001) [ true ↦ some "broker unavailable" | false ↦ none ]

drain_once-pending_example :
    map to_event (pending table)
    ≡ (drain_once publish 60 100 table).sent
      ++ map to_event (pending (drain_once publish 60 100 table).rows)
drain_once-pending_example = drain_once-pending publish 60 100 table (ground arith)

abbrev invoice : Invoice
invoice = record {
  invoice_ref = "INV-1";
  customer_ref = "CUST-1";
  po_number = some "PO-1";
  subtotal = 120000;
  freight = 0;
  tax = 9600;
  amount_open = 129600;
  lines =
      record { line_no = 1; sku = "BOLT"; qty = 10000; unit_price = 1200; amount = 120000 } ∷ [];
}

abbrev po : PurchaseOrder
po = record {
  customer_ref = "CUST-1";
  lines = record { sku = "BOLT"; qty = 10000; unit_price = 1000 } ∷ [];
}

abbrev kinds : List DiscrepancyKind
kinds = price_above_po ∷ qty_short_delivered ∷ []

calculate_credit_memo-capped_example :
    ((calculate_credit_memo invoice (some po) none none kinds).credit_memo_amount ≤ 129600)
    × ((calculate_credit_memo invoice (some po) none none kinds).credit_before_tax
        ≤ (reconcile invoice (some po) none none).credit_before_tax)
    × ((calculate_credit_memo invoice (some po) none none kinds).capped_to_amount_open
        ≡ ltb 129600 (
            (calculate_credit_memo invoice (some po) none none kinds).credit_before_tax
            + (calculate_credit_memo invoice (some po) none none kinds).tax))
calculate_credit_memo-capped_example =
    calculate_credit_memo-capped invoice (some po) none none kinds

simulate_payment_plan-total_example :
    (length (simulate_payment_plan (10000 ∷ 5 ∷ []) 3 400 250).installments ≡ 3)
    × (sum_amounts (simulate_payment_plan (10000 ∷ 5 ∷ []) 3 400 250).installments
        ≡ pos (simulate_payment_plan (10000 ∷ 5 ∷ []) 3 400 250).plan_total)
    × ((simulate_payment_plan (10000 ∷ 5 ∷ []) 3 400 250).plan_total
          + (simulate_payment_plan (10000 ∷ 5 ∷ []) 3 400 250).discount_amount
        ≡ (simulate_payment_plan (10000 ∷ 5 ∷ []) 3 400 250).total_open)
simulate_payment_plan-total_example =
    simulate_payment_plan-total (10000 ∷ 5 ∷ []) 3 400 250 (omega arith) (omega arith)
