-- ===== src/Tools/Caps.antt =====
-- What bounds a credit (services/tool-gateway/recoup_tool_gateway/tools/reconcile.py).
use recoup.Common.{ℕ, ◌+◌, ◌*◌, ◌≤◌, ◌≡◌, Option, List, [], ◌∷◌, filter, ltb, arith, Bool, refl, ap}
use recoup.Tools.Invoices.{Invoice, PurchaseOrder, DeliveryProof, ContractTerms, half_up}
use recoup.Tools.Reconcile.{DiscrepancyKind, LineDiscrepancy}
use recoup.Tools.Credit.{
  reconcile, calculate_credit_memo, line_credit, freight_credit, memo_total, is_included,
  sum_credits, found_discrepancies, tax_rate,
}

-- Leaving kinds of discrepancies out never raises a sum of credits.
sum-filter :
    (keep : LineDiscrepancy → Bool) (ds : List LineDiscrepancy)
    → sum_credits (filter keep ds) ≤ sum_credits ds
sum-filter keep [] = omega arith
sum-filter keep (d ∷ ds) = ground (arith, sum-filter keep ds)

split_credits : (ds : List LineDiscrepancy) → line_credit ds + freight_credit ds ≡ sum_credits ds
split_credits [] = refl
split_credits (d ∷ ds) = ground (arith, split_credits ds)

sub_credits :
    (keep : LineDiscrepancy → Bool) (ds : List LineDiscrepancy)
    → line_credit (filter keep ds) + freight_credit (filter keep ds)
      ≤ line_credit ds + freight_credit ds
sub_credits keep ds =
    omega (arith, split_credits ds, split_credits (filter keep ds), sum-filter keep ds)

memo_split :
    (rate : ℕ) (ds : List LineDiscrepancy)
    → memo_total rate ds
      ≡ (line_credit ds + freight_credit ds) + half_up (line_credit ds * rate) 10000
unfolding memo_total
memo_split rate ds = omega arith

-- A credit memo of any kinds of discrepancies is at most the open balance, says that it was cut exactly
-- when the credit with its tax is above that balance, and credits before tax no more than `reconcile`
-- found.
pub calculate_credit_memo-capped :
    (invoice : Invoice) (po : Option PurchaseOrder) (delivery : Option DeliveryProof)
    (contract : Option ContractTerms) (kinds : List DiscrepancyKind)
    → ((calculate_credit_memo invoice po delivery contract kinds).credit_memo_amount
        ≤ invoice.amount_open)
      × ((calculate_credit_memo invoice po delivery contract kinds).credit_before_tax
          ≤ (reconcile invoice po delivery contract).credit_before_tax)
      × ((calculate_credit_memo invoice po delivery contract kinds).capped_to_amount_open
          ≡ ltb invoice.amount_open (
              (calculate_credit_memo invoice po delivery contract kinds).credit_before_tax
              + (calculate_credit_memo invoice po delivery contract kinds).tax))
unfolding calculate_credit_memo
calculate_credit_memo-capped invoice po delivery contract kinds = (
  ground arith,
  sub_credits (is_included kinds) (found_discrepancies invoice po delivery contract),
  ap (ltb invoice.amount_open) (
      memo_split (tax_rate invoice)
        (filter (is_included kinds) (found_discrepancies invoice po delivery contract))),
)
