-- ===== src/Tools/Invoices.antt =====
-- The ERP's documents as the reconciler reads them (libs/recoup-erp-adapter/recoup_erp/models.py), and
-- `money` of services/tool-gateway/recoup_tool_gateway/tools/reconcile.py. Money, prices and quantities
-- are natural numbers of hundredths: the ERP sends none below zero.
use recoup.Common.{
  ℕ, ◌+◌, ◌*◌, ◌/◌, ◌%◌, String, Bool, Option, List, str_eq, if◌then◌else◌, ltb, ◌==◌,
}

pub record InvoiceLine : Type 0 where
  pub line_no : ℕ
  pub sku : String
  pub qty : ℕ
  pub unit_price : ℕ
  pub amount : ℕ

abbrev pub is_freight : InvoiceLine → Bool
is_freight line = str_eq line.sku "FREIGHT"

pub record Invoice : Type 0 where
  pub invoice_ref : String
  pub customer_ref : String
  pub po_number : Option String
  pub subtotal : ℕ
  pub freight : ℕ
  pub tax : ℕ
  pub amount_open : ℕ
  pub lines : List InvoiceLine

pub record PurchaseOrderLine : Type 0 where
  pub sku : String
  pub qty : ℕ
  pub unit_price : ℕ

pub record PurchaseOrder : Type 0 where
  pub customer_ref : String
  pub lines : List PurchaseOrderLine

pub record DeliveryLine : Type 0 where
  pub sku : String
  pub qty_delivered : ℕ

pub record DeliveryProof : Type 0 where
  pub lines : List DeliveryLine

pub record ContractTerms : Type 0 where
  pub price_list : List (String × ℕ)
  pub freight_billable : Bool

-- A quotient rounded to the nearest number, a half upwards (`ROUND_HALF_UP`).
unfoldable pub half_up : ℕ → ℕ → ℕ
half_up n d = (2 * n + d) / (2 * d)

-- A quotient rounded to the nearest number, a half to the even one (the default of `quantize`).
unfoldable pub half_even : ℕ → ℕ → ℕ
half_even n d =
    let q = n / d in
    let r = n % d in
    if ltb (2 * r) d then q else if ltb d (2 * r) then q + 1 else if q % 2 == 0 then q else q + 1

-- `min` of two amounts.
abbrev pub min_ℕ : ℕ → ℕ → ℕ
min_ℕ a b = if ltb b a then b else a
