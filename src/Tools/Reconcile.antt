-- ===== src/Tools/Reconcile.antt =====
-- `reconcile` of services/tool-gateway/recoup_tool_gateway/tools/reconcile.py. The texts of a result that
-- only people read (`invoiced`, `reference`, `note`, `summary`) are left out; the rate is in
-- ten-thousandths.
use recoup.Common.{
  ℕ, ◌-◌, ◌*◌, String, Bool, true, false, Option, none, some, List, [], ◌∷◌, ◌++◌, str_eq,
  if◌then◌else◌, ltb, ◌==◌, is_some,
}
use recoup.Tools.Invoices.{
  InvoiceLine, is_freight, PurchaseOrderLine, PurchaseOrder, DeliveryLine, DeliveryProof,
  ContractTerms, half_up, min_ℕ,
}

pub data DiscrepancyKind : Type 0 where
  price_above_po price_above_contract qty_above_po qty_short_delivered line_not_on_po
        freight_not_billable :
      DiscrepancyKind

abbrev pub is_freight_kind : DiscrepancyKind → Bool
is_freight_kind freight_not_billable = true
is_freight_kind _ = false

pub record LineDiscrepancy : Type 0 where
  pub kind : DiscrepancyKind
  pub line_no : Option ℕ
  pub sku : String
  pub delta_qty : Option ℕ
  pub delta_unit_price : Option ℕ
  pub credit_before_tax : ℕ

-- `{line.sku: line for line in lines}.get(sku)`: the last line of a SKU counts.
unfoldable pub find_po_line : String → List PurchaseOrderLine → Option PurchaseOrderLine
find_po_line sku [] = none
find_po_line sku (l ∷ ls) = elim (find_po_line sku ls) [
  | some x ↦ some x
  | none ↦ if str_eq l.sku sku then some l else none
]

unfoldable pub find_delivered : String → List DeliveryLine → Option ℕ
find_delivered sku [] = none
find_delivered sku (l ∷ ls) = elim (find_delivered sku ls) [
  | some x ↦ some x
  | none ↦ if str_eq l.sku sku then some l.qty_delivered else none
]

unfoldable pub find_price : String → List (String × ℕ) → Option ℕ
find_price sku [] = none
find_price sku ((s, price) ∷ ps) =
    let rest = find_price sku ps in if str_eq s sku then some price else rest

-- `po_lines` and `delivered` are empty where there is no document.
abbrev pub po_line : Option PurchaseOrder → String → Option PurchaseOrderLine
po_line none sku = none
po_line (some po) sku = find_po_line sku po.lines

abbrev pub delivered_qty : Option DeliveryProof → String → Option ℕ
delivered_qty none sku = none
delivered_qty (some d) sku = find_delivered sku d.lines

abbrev pub contract_price : Option ContractTerms → String → Option ℕ
contract_price none sku = none
contract_price (some c) sku = find_price sku c.price_list

-- Where the reference price of a line comes from.
pub data Reference : Type 0 where
  from_po : PurchaseOrderLine → Reference
  from_contract : ℕ → Reference
  not_on_po no_reference : Reference

unfoldable pub reference : Option PurchaseOrder → Option ContractTerms → String → Reference
reference po contract sku = elim (po_line po sku) [
  | some l ↦ from_po l
  | none ↦ elim (contract_price contract sku) [
    | some p ↦ from_contract p
    | none ↦ if is_some po then not_on_po else no_reference
  ]
]

-- Of a price and a quantity, both in hundredths, in cents.
abbrev pub credit_of : ℕ → ℕ → ℕ
credit_of qty price = half_up (qty * price) 100

unfoldable pub price_check : DiscrepancyKind → ℕ → InvoiceLine → List LineDiscrepancy
price_check kind ref line =
    if ltb ref line.unit_price
    then record {
      kind = kind;
      line_no = some line.line_no;
      sku = line.sku;
      delta_qty = none;
      delta_unit_price = some (line.unit_price - ref);
      credit_before_tax = credit_of line.qty (line.unit_price - ref);
    }
      ∷ []
    else []

-- `min(line.unit_price, ref_price or line.unit_price)`: a price of zero counts as none.
abbrev pub price_for_credit : ℕ → Option ℕ → ℕ
price_for_credit price none = price
price_for_credit price (some ref) = if ref == 0 then price else min_ℕ price ref

abbrev pub qty_discrepancy : DiscrepancyKind → InvoiceLine → ℕ → ℕ → LineDiscrepancy
qty_discrepancy kind line delta price = record {
  kind = kind;
  line_no = some line.line_no;
  sku = line.sku;
  delta_qty = some delta;
  delta_unit_price = none;
  credit_before_tax = credit_of delta price;
}

unfoldable pub over_check : ℕ → ℕ → InvoiceLine → List LineDiscrepancy
over_check ordered price line =
    if ltb ordered line.qty
    then qty_discrepancy qty_above_po line (line.qty - ordered) price ∷ []
    else []

-- The units of a line that were billed and not delivered.
unfoldable pub short_check : Option ℕ → ℕ → ℕ → InvoiceLine → List LineDiscrepancy
short_check none billable price line = []
short_check (some got) billable price line =
    if ltb got billable
    then qty_discrepancy qty_short_delivered line (billable - got) price ∷ []
    else []

abbrev pub not_on_po_entry : InvoiceLine → LineDiscrepancy
not_on_po_entry line = record {
  kind = line_not_on_po;
  line_no = some line.line_no;
  sku = line.sku;
  delta_qty = none;
  delta_unit_price = none;
  credit_before_tax = line.amount;
}

-- The body of the loop for a line that is no freight.
unfoldable pub check_line : Reference → Option ℕ → InvoiceLine → List LineDiscrepancy
unfolding price_check over_check short_check
check_line not_on_po got line = not_on_po_entry line ∷ []
check_line no_reference got line = short_check got line.qty line.unit_price line
check_line (from_contract p) got line =
    price_check price_above_contract p line
    ++ short_check got line.qty (price_for_credit line.unit_price (some p)) line
check_line (from_po l) got line =
    price_check price_above_po l.unit_price line
    ++ (over_check l.qty (price_for_credit line.unit_price (some l.unit_price)) line
        ++ short_check got (min_ℕ line.qty l.qty)
            (price_for_credit line.unit_price (some l.unit_price)) line)

unfoldable pub check_lines :
    Option PurchaseOrder
    → Option DeliveryProof
    → Option ContractTerms
    → List InvoiceLine
    → List LineDiscrepancy
unfolding check_line reference
check_lines po delivery contract [] = []
check_lines po delivery contract (line ∷ lines) =
    let rest = check_lines po delivery contract lines in
    if is_freight line
    then rest
    else check_line (reference po contract line.sku) (delivered_qty delivery line.sku) line ++ rest
