-- ===== src/Tools/Credit.antt =====
-- The result of `reconcile`, and `calculate_credit_memo`, of
-- services/tool-gateway/recoup_tool_gateway/tools/reconcile.py.
use recoup.Common.{
  ℕ, ◌+◌, ◌*◌, String, Bool, true, false, not, ◌&&◌, Option, none, some, List, [], ◌∷◌, ◌++◌,
  if◌then◌else◌, ltb, ◌==◌, filter, length, is_some, any, str_eq,
}
use recoup.Tools.Invoices.{
  is_freight, Invoice, PurchaseOrder, DeliveryProof, ContractTerms, half_up, half_even, min_ℕ,
}
use recoup.Tools.Reconcile.{
  DiscrepancyKind, qty_short_delivered, freight_not_billable, price_above_po, price_above_contract,
  qty_above_po, line_not_on_po, is_freight_kind, LineDiscrepancy, check_lines,
}

-- `Decimal("0")` where the subtotal is zero, in ten-thousandths.
unfoldable pub tax_rate : Invoice → ℕ
tax_rate invoice =
    if invoice.subtotal == 0 then 0 else half_even (invoice.tax * 10000) invoice.subtotal

abbrev freight_entry : ℕ → LineDiscrepancy
freight_entry freight = record {
  kind = freight_not_billable;
  line_no = none;
  sku = "FREIGHT";
  delta_qty = none;
  delta_unit_price = none;
  credit_before_tax = freight;
}

unfoldable pub check_freight : Invoice → Option ContractTerms → List LineDiscrepancy
check_freight invoice none = []
check_freight invoice (some c) =
    if ltb 0 invoice.freight && not c.freight_billable
    then freight_entry invoice.freight ∷ []
    else []

abbrev pub sum_credits : List LineDiscrepancy → ℕ
sum_credits [] = 0
sum_credits (d ∷ ds) = d.credit_before_tax + sum_credits ds

abbrev pub line_credit : List LineDiscrepancy → ℕ
line_credit ds = sum_credits (filter (λ d. not (is_freight_kind d.kind)) ds)

abbrev pub freight_credit : List LineDiscrepancy → ℕ
freight_credit ds = sum_credits (filter (λ d. is_freight_kind d.kind) ds)

-- Only the branch for short deliveries sets `rebill`.
abbrev is_short : LineDiscrepancy → Bool
is_short d = elim d.kind [ qty_short_delivered ↦ true | _ ↦ false ]

pub record ReconcileResult : Type 0 where
  pub invoice_ref : String
  pub po_number : Option String
  pub po_found : Bool
  pub po_customer_matches : Bool
  pub delivery_found : Bool
  pub contract_found : Bool
  pub tax_rate : ℕ
  pub discrepancies : List LineDiscrepancy
  pub credit_before_tax : ℕ
  pub proposed_credit_memo : ℕ
  pub rebill_required : Bool
  pub lines_checked : ℕ

unfoldable pub found_discrepancies :
    Invoice
    → Option PurchaseOrder
    → Option DeliveryProof
    → Option ContractTerms
    → List LineDiscrepancy
unfolding check_lines check_freight
found_discrepancies invoice po delivery contract =
    check_lines po delivery contract invoice.lines ++ check_freight invoice contract

abbrev same_customer : Invoice → Option PurchaseOrder → Bool
same_customer invoice none = false
same_customer invoice (some po) = str_eq po.customer_ref invoice.customer_ref

-- `money(line_credit * (1 + tax_rate) + freight_credit)`
unfoldable pub uncapped_credit : ℕ → List LineDiscrepancy → ℕ
unfolding half_up
uncapped_credit rate ds =
    half_up (line_credit ds * (10000 + rate) + freight_credit ds * 10000) 10000

unfoldable pub cap_credit : ℕ → ℕ → ℕ
cap_credit proposed amount_open = if ltb 0 amount_open then min_ℕ proposed amount_open else proposed

unfoldable pub reconcile :
    Invoice → Option PurchaseOrder → Option DeliveryProof → Option ContractTerms → ReconcileResult
unfolding tax_rate found_discrepancies uncapped_credit cap_credit
reconcile invoice po delivery contract =
    let out = found_discrepancies invoice po delivery contract in
    record {
      invoice_ref = invoice.invoice_ref;
      po_number = invoice.po_number;
      po_found = is_some po;
      po_customer_matches = same_customer invoice po;
      delivery_found = is_some delivery;
      contract_found = is_some contract;
      tax_rate = tax_rate invoice;
      discrepancies = out;
      credit_before_tax = line_credit out + freight_credit out;
      proposed_credit_memo =
          cap_credit (uncapped_credit (tax_rate invoice) out) invoice.amount_open;
      rebill_required = any is_short out;
      lines_checked = length (filter (λ line. not (is_freight line)) invoice.lines);
    }

pub record CalcCreditResult : Type 0 where
  pub included : List LineDiscrepancy
  pub credit_before_tax : ℕ
  pub tax : ℕ
  pub credit_memo_amount : ℕ
  pub capped_to_amount_open : Bool

abbrev kind_no : DiscrepancyKind → ℕ
kind_no price_above_po = 0
kind_no price_above_contract = 1
kind_no qty_above_po = 2
kind_no qty_short_delivered = 3
kind_no line_not_on_po = 4
kind_no freight_not_billable = 5

-- `kind in include_kinds`
abbrev pub is_included : List DiscrepancyKind → LineDiscrepancy → Bool
is_included kinds d = any (λ k. kind_no k == kind_no d.kind) kinds

unfoldable pub memo_total : ℕ → List LineDiscrepancy → ℕ
memo_total rate ds = line_credit ds + half_up (line_credit ds * rate) 10000 + freight_credit ds

-- `calculate_credit_memo` on the documents that the ERP answered.
unfoldable pub calculate_credit_memo :
    Invoice
    → Option PurchaseOrder
    → Option DeliveryProof
    → Option ContractTerms
    → List DiscrepancyKind
    → CalcCreditResult
unfolding reconcile memo_total
calculate_credit_memo invoice po delivery contract kinds =
    let rec = reconcile invoice po delivery contract in
    let included = filter (is_included kinds) rec.discrepancies in
    let total = memo_total rec.tax_rate included in
    let capped = ltb invoice.amount_open total in
    record {
      included = included;
      credit_before_tax = line_credit included + freight_credit included;
      tax = half_up (line_credit included * rec.tax_rate) 10000;
      credit_memo_amount = if capped then min_ℕ total invoice.amount_open else total;
      capped_to_amount_open = capped;
    }
